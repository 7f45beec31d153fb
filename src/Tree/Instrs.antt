-- ===== src/Tree/Instrs.antt =====
-- src/tree.h: the instructions and functions of the syntax tree.
use javalette.Prelude.{ℕ, List}
use javalette.Types.{Ty}
use javalette.Tree.{Pos}
use javalette.Tree.Exprs.{Expr, ℤ}

-- The expression that a declarator or a `return` may have.
pub data Optional : Type 0 where
  absent : Optional
  present : Expr → Optional

-- `declarator_t`: a variable with its initializer, or an array with its type's address and size.
pub data Declarator : Type 0 where
  var_declarator : Pos → ℕ → Optional → Declarator
  array_declarator : Pos → ℕ → ℕ → ℤ → Declarator

-- The nodes that `do_semantic_check` takes, functions apart; `empty` is the empty instruction. A
-- list of instructions has one entry for each `instr_t`, which is a `NODE_BLOCK` or a `NODE_INSTR`.
mutual
  pub data Instr : Type 0 where
    empty : Instr
    expression : Expr → Instr
    sequence : Instrs → Instr
    declaration : Pos → Ty → List Declarator → Instr
    assign : Pos → Expr → Expr → Instr
    inc dec : Pos → Expr → Instr
    if_node : Pos → Expr → Instr → Instr
    if_else_node : Pos → Expr → Instr → Instr → Instr
    while_node : Pos → Expr → Instr → Instr
    for_node : Pos → Instr → Expr → Instr → Instr → Instr
    return_node : Pos → Optional → Instr

  pub data Instrs : Type 0 where
    no_instrs : Instrs
    block : Instr → Instrs → Instrs
    instr : Instr → Instrs → Instrs

-- `arg_t` and `func_t`.
pub record Arg : Type 0 where
  pub pos : Pos
  pub type : Ty
  pub ident : ℕ

pub record Func : Type 0 where
  pub pos : Pos
  pub type : Ty
  pub ident : ℕ
  pub args : List Arg
  pub body : Instr

-- ===== src/Tree/Exprs.antt =====
-- src/tree.h: the expressions of the syntax tree.
use javalette.Prelude.{ℕ}
use javalette.Tree.{Pos}

-- A 32-bit `int`: `pos n` is n, `negsuc n` is -(n + 1).
pub data ℤ : Type 0 where
  pos negsuc : ℕ → ℤ

-- The binary operators among the node types.
pub data BinaryOp : Type 0 where
  op_add op_sub op_mul op_div op_mod op_eq op_neq op_gt op_lt op_geq op_leq op_or op_and : BinaryOp

pub data UnaryOp : Type 0 where
  op_neg op_not op_plus : UnaryOp

-- `expr_t` and its kinds, in the parser's form: with the positions, and no types yet. Identifiers
-- and strings are addresses, a `double` is its bit pattern. The list of arguments is `expr_list_t`.
mutual
  pub data Expr : Type 0 where
    binary : BinaryOp → Pos → Expr → Expr → Expr
    unary : UnaryOp → Pos → Expr → Expr
    int_node : Pos → ℤ → Expr
    bool_node : Pos → ℤ → Expr
    double_node : Pos → ℕ → Expr
    str_node : Pos → ℕ → Expr
    ident_node : Pos → ℕ → Expr
    array_node : Pos → ℕ → Expr → Expr
    call_node : Pos → ℕ → Exprs → Expr

  pub data Exprs : Type 0 where
    no_exprs : Exprs
    expr_list : Pos → Expr → Exprs → Exprs

-- `expr->src_pos`
abbrev pub src_pos : Expr → Pos
src_pos (binary op p l r) = p
src_pos (unary op p e) = p
src_pos (int_node p n) = p
src_pos (bool_node p n) = p
src_pos (double_node p n) = p
src_pos (str_node p n) = p
src_pos (ident_node p x) = p
src_pos (array_node p x i) = p
src_pos (call_node p x es) = p

-- ===== src/Quadr.antt =====
-- src/quadr.h and src/quadr.c: the quadruples and the basic blocks they stand in.
pub mod VarLists
pub mod Blocks
pub mod Linking
pub mod Typed
pub mod Emit
pub mod Gen
pub mod Instrs
pub mod Machine
pub mod Emitted
pub mod Runs
pub mod Plain
pub mod Yields
pub mod Elements
pub mod Correct
pub mod Assignments
pub mod Branches
pub mod Conditions
pub mod Jumps
pub mod Storage
pub mod Steps
mod Tests
use javalette.Prelude.{
  ℕ, Bool, true, false, not, ◌&&◌, ◌||◌, List, Option, none, some, ◌==◌, if◌then◌else◌, ◌∷◌, [],
}
use javalette.Tree.Exprs.{ℤ, BinaryOp, op_eq, op_neq, op_gt, op_lt, op_geq, op_leq}

-- `var_type_t`
pub data VarType : Type 0 where
  vt_byte vt_int vt_double vt_array vt_ptr vt_str vt_invalid : VarType

-- `quadr_arg_t`: a variable, a block and a function are their numbers, a `double` is its bit
-- pattern, a string its address.
pub data QuadrArg : Type 0 where
  qa_none : QuadrArg
  qa_var : ℕ → QuadrArg
  qa_int : ℤ → QuadrArg
  qa_double : ℕ → QuadrArg
  qa_label : ℕ → QuadrArg
  qa_str : ℕ → QuadrArg
  qa_func : ℕ → QuadrArg

-- `quadr_op_t`
pub data QuadrOp : Type 0 where
  q_add q_sub q_div q_mul q_mod q_copy q_read_ptr q_write_ptr q_get_addr q_return : QuadrOp
  q_param q_call q_if_eq q_if_ne q_if_lt q_if_gt q_if_le q_if_ge q_goto q_none : QuadrOp

-- `quadr_t`; the quadruples of a block are a list.
pub record Quadr : Type 0 where
  pub op : QuadrOp
  pub result : QuadrArg
  pub arg1 : QuadrArg
  pub arg2 : QuadrArg

abbrev pub is_if_op : QuadrOp → Bool
is_if_op q_if_eq = true
is_if_op q_if_ne = true
is_if_op q_if_lt = true
is_if_op q_if_gt = true
is_if_op q_if_le = true
is_if_op q_if_ge = true
is_if_op _ = false

abbrev pub is_block_end : QuadrOp → Bool
is_block_end q_param = false
is_block_end q_add = false
is_block_end q_sub = false
is_block_end q_div = false
is_block_end q_mul = false
is_block_end q_mod = false
is_block_end q_copy = false
is_block_end q_call = false
is_block_end q_read_ptr = false
is_block_end q_write_ptr = false
is_block_end q_get_addr = false
is_block_end _ = true

-- `op == Q_WRITE_PTR`
abbrev pub is_write : QuadrOp → Bool
is_write q_write_ptr = true
is_write _ = false

-- `arg.tag == QA_VAR && arg.u.var == var`
abbrev pub is_var : QuadrArg → ℕ → Bool
is_var (qa_var x) var = x == var
is_var _ var = false

-- The result of a Q_WRITE_PTR quadruple is a variable.
abbrev pub used_in_quadr : Quadr → ℕ → Bool
used_in_quadr quadr var =
    is_var quadr.arg1 var || is_var quadr.arg2 var || (is_write quadr.op && is_var quadr.result var)

abbrev pub assigned_in_quadr : Quadr → ℕ → Bool
assigned_in_quadr quadr var = not (is_write quadr.op) && is_var quadr.result var

-- A pointer to a variable that may be null, as an argument.
abbrev pub var_or_none : Option ℕ → QuadrArg
var_or_none none = qa_none
var_or_none (some x) = qa_var x

abbrev pub new_quadr : QuadrOp → Option ℕ → Option ℕ → Option ℕ → Quadr
new_quadr op result left right = record {
  op = op;
  result = var_or_none result;
  arg1 = var_or_none left;
  arg2 = var_or_none right;
}

abbrev pub new_copy_quadr : ℕ → QuadrArg → Quadr
new_copy_quadr result arg = record {
  op = q_copy;
  result = qa_var result;
  arg1 = arg;
  arg2 = qa_none;
}

abbrev pub new_copy_var_quadr : ℕ → ℕ → Quadr
new_copy_var_quadr result arg = record {
  op = q_copy;
  result = qa_var result;
  arg1 = qa_var arg;
  arg2 = qa_none;
}

abbrev pub quadr_if_op : BinaryOp → Bool → Option QuadrOp
quadr_if_op op_eq jmp_if_true = some (if jmp_if_true then q_if_eq else q_if_ne)
quadr_if_op op_neq jmp_if_true = some (if jmp_if_true then q_if_ne else q_if_eq)
quadr_if_op op_gt jmp_if_true = some (if jmp_if_true then q_if_gt else q_if_le)
quadr_if_op op_lt jmp_if_true = some (if jmp_if_true then q_if_lt else q_if_ge)
quadr_if_op op_geq jmp_if_true = some (if jmp_if_true then q_if_ge else q_if_lt)
quadr_if_op op_leq jmp_if_true = some (if jmp_if_true then q_if_le else q_if_gt)
quadr_if_op _ jmp_if_true = none

-- `lst.tail`
abbrev pub last_quadr : List Quadr → Option Quadr
last_quadr [] = none
last_quadr (q ∷ []) = some q
last_quadr (q ∷ r ∷ qs) = last_quadr (r ∷ qs)

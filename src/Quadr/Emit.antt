-- ===== src/Quadr/Emit.antt =====
-- src/quadr.c: the functions that emit one quadruple, and calls.
use javalette.Prelude.{
  ℕ, Bool, true, false, List, [], ◌∷◌, Option, none, some, if◌then◌else◌, assert, ◌>>=◌, ◌>>◌,
}
use javalette.Types.{
  Ty, TypeCons, void, int, double, boolean, array, same_type, type_int, type_double, type_boolean,
}
use javalette.Tree.Exprs.{ℤ}
use javalette.Quadr.{
  VarType, vt_array, vt_ptr, QuadrArg, qa_none, qa_var, qa_int, qa_double, qa_func, Quadr, QuadrOp,
  q_copy, q_read_ptr, q_write_ptr, q_get_addr, q_param, q_call, q_goto,
}
use javalette.Quadr.Blocks.{Func, declare_var, set_qtype, emit, quadr_arg_label}
use javalette.Quadr.Linking.{open_block}

abbrev pub gen_copy : ℕ → QuadrArg → Func → Option Func
gen_copy var arg f =
    emit (record { op = q_copy; result = qa_var var; arg1 = arg; arg2 = qa_none }) f

abbrev pub gen_binop : QuadrOp → ℕ → QuadrArg → QuadrArg → Func → Option Func
gen_binop qop result arg1 arg2 f =
    emit (record { op = qop; result = qa_var result; arg1 = arg1; arg2 = arg2 }) f

abbrev pub gen_goto : ℕ → Func → Option Func
gen_goto to_block f = do
  (label, f1) ← quadr_arg_label to_block f
  f2 ← emit (record { op = q_goto; result = label; arg1 = qa_none; arg2 = qa_none }) f1
  open_block f2

-- A new variable with the value: `quadr_arg`.
abbrev pub copy_new : Ty → QuadrArg → Func → Option (QuadrArg × Func)
copy_new type value f = do
  (var, f1) ← declare_var type f
  f2 ← gen_copy var value f1
  some (qa_var var, f2)

-- `quadr_arg` with an `int`; a caller that passes one for a `double` has no result.
abbrev pub quadr_arg_int : TypeCons → ℤ → Func → Option (QuadrArg × Func)
quadr_arg_int type_int n f = copy_new int (qa_int n) f
quadr_arg_int type_boolean n f = copy_new boolean (qa_int n) f
quadr_arg_int _ n f = none

abbrev pub quadr_arg_double : TypeCons → ℕ → Func → Option (QuadrArg × Func)
quadr_arg_double type_double d f = copy_new double (qa_double d) f
quadr_arg_double _ d f = none

abbrev pub is_array_var : VarType → Bool
is_array_var vt_array = true
is_array_var _ = false

unfoldable pub gen_get_addr : ℕ → Func → Option (ℕ × Func)
gen_get_addr var f = do
  v ← f.var_at var
  assert (is_array_var v.qtype)
  (ptr, f1) ← declare_var v.ty f
  f2 ← set_qtype ptr vt_ptr f1
  f3 ← emit (record { op = q_get_addr; result = qa_var ptr; arg1 = qa_var var; arg2 = qa_none }) f2
  some (ptr, f3)

abbrev pub gen_read_ptr : ℕ → ℕ → QuadrArg → Func → Option Func
gen_read_ptr result base offset f =
    emit (record { op = q_read_ptr; result = qa_var result; arg1 = qa_var base; arg2 = offset }) f

abbrev pub gen_write_ptr : ℕ → QuadrArg → QuadrArg → Func → Option Func
gen_write_ptr base offset value f =
    emit (record { op = q_write_ptr; result = qa_var base; arg1 = offset; arg2 = value }) f

-- `((array_type_t*) type)->basic_type`: the object of another type ends before that field, so the
-- read is outside it.
abbrev pub basic_type : Ty → Option Ty
basic_type (array a e n) = some e
basic_type _ = none

-- The two functions for an expression: `gen_quadr_expr`, and `gen_quadr_bool_expr` with `jmp_dest`
-- and `jmp_if_true`.
pub record Code : Type 0 where
  pub expr : Func → Option (QuadrArg × Func)
  pub cond : ℕ → Bool → Func → Option Func

unfoldable pub gen_array_ref : ℕ → Code → Func → Option (QuadrArg × Func)
gen_array_ref base index f = do
  v ← f.var_at base
  element ← basic_type v.ty
  (tmp1, f1) ← declare_var element f
  (off, f2) ← index.expr f1
  (ptr, f3) ← gen_get_addr base f2
  f4 ← gen_read_ptr tmp1 ptr off f3
  some (qa_var tmp1, f4)

-- The parameters' quadruples, the last parameter first.
abbrev pub compute_params : List Code → List Quadr → Func → Option (List Quadr × Func)
compute_params [] params f = some (params, f)
compute_params (c ∷ cs) params f = do
  (arg, f1) ← c.expr f
  compute_params cs (record { op = q_param; result = qa_none; arg1 = arg; arg2 = qa_none } ∷ params)
      f1

abbrev pub emit_all : List Quadr → Func → Option Func
emit_all [] f = some f
emit_all (q ∷ qs) f = emit q f >>= emit_all qs

abbrev pub is_void : Ty → Bool
is_void t = same_type t void

-- The variable for what the function returns.
abbrev pub call_result : Ty → Func → Option (QuadrArg × Func)
call_result type f =
    if is_void type
    then some (qa_none, f)
    else declare_var type f >>= λ (x, f1). some (qa_var x, f1)

unfoldable pub gen_call : Ty → ℕ → List Code → Func → Option (QuadrArg × Func)
gen_call type callee args f = do
  (params, f1) ← compute_params args [] f
  f2 ← emit_all params f1
  (result, f3) ← call_result type f2
  f4 ← emit (record { op = q_call; result = result; arg1 = qa_func callee; arg2 = qa_none }) f3
  some (result, f4)

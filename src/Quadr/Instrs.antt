-- ===== src/Quadr/Instrs.antt =====
-- src/quadr.c: the quadruples of instructions.
use javalette.Prelude.{ℕ, Bool, ◌||◌, Option, some, if◌then◌else◌, assert, ◌>>=◌, ◌>>◌}
use javalette.Types.{Ty, int, double, same_type}
use javalette.Tree.Exprs.{pos}
use javalette.Quadr.{QuadrArg, qa_none, qa_var, qa_int, qa_double, QuadrOp, q_add, q_sub, q_return}
use javalette.Quadr.Blocks.{Func, declare_var, emit}
use javalette.Quadr.Linking.{open_block}
use javalette.Quadr.Typed.{Typed}
use javalette.Quadr.Emit.{
  gen_copy, gen_binop, copy_new, gen_get_addr, gen_read_ptr, gen_write_ptr, basic_type,
}
use javalette.Quadr.Gen.{gen}

-- `node->lvalue`, an `ident_t` or an `array_t`, with its type.
pub data Lvalue : Type 0 where
  to_ident : Ty → ℕ → Lvalue
  to_element : Ty → ℕ → Typed → Lvalue

-- The nodes that `gen_quadr` takes; `inc` and `dec` are `inc_t`.
pub data Simple : Type 0 where
  expression : Typed → Simple
  assign_to : Lvalue → Typed → Simple
  inc dec : Lvalue → Simple
  return_value : Typed → Simple
  return_void : Simple

abbrev pub gen_quadr_expr : Typed → Func → Option (QuadrArg × Func)
gen_quadr_expr e f = (gen e).expr f

abbrev pub gen_quadr_bool_expr : Typed → ℕ → Bool → Func → Option Func
gen_quadr_bool_expr e jmp_dest jmp_if_true f = (gen e).cond jmp_dest jmp_if_true f

unfoldable pub gen_assign : ℕ → Typed → Func → Option Func
gen_assign var e f = gen_quadr_expr e f >>= λ (arg, f1). gen_copy var arg f1

abbrev pub gen_copy_var : ℕ → ℕ → Func → Option Func
gen_copy_var var0 var f = gen_copy var0 (qa_var var) f

abbrev pub assign_element : ℕ → Typed → Typed → Func → Option Func
assign_element var index e f = do
  (value, f1) ← gen_quadr_expr e f
  (off, f2) ← gen_quadr_expr index f1
  (ptr, f3) ← gen_get_addr var f2
  gen_write_ptr ptr off value f3

abbrev pub is_number : Ty → Bool
is_number type = same_type type double || same_type type int

-- The variable for 1 or 1.0, whose bit pattern is 1023 * 2 ^ 52.
abbrev pub one : Ty → Func → Option (QuadrArg × Func)
one type f =
    if same_type type double
    then copy_new double (qa_double 4607182418800017408) f
    else copy_new int (qa_int (pos 1)) f

abbrev pub step_ident : QuadrOp → Ty → ℕ → Func → Option Func
step_ident qop type var f = do
  assert (is_number type)
  (arg, f1) ← one type f
  gen_binop qop var (qa_var var) arg f1

-- The type of the element is read from the type of the lvalue as if that were the array's.
unfoldable pub step_element : QuadrOp → Ty → ℕ → Typed → Func → Option Func
step_element qop lvalue_type var index f = do
  type ← basic_type lvalue_type
  assert (is_number type)
  (tmp, f1) ← declare_var type f
  (off, f2) ← gen_quadr_expr index f1
  (ptr, f3) ← gen_get_addr var f2
  f4 ← gen_read_ptr tmp ptr off f3
  (arg, f5) ← one type f4
  f6 ← gen_binop qop var (qa_var var) arg f5
  (ptr2, f7) ← gen_get_addr var f6
  gen_write_ptr ptr2 off (qa_var tmp) f7

abbrev pub gen_step : QuadrOp → Lvalue → Func → Option Func
gen_step qop (to_ident type x) f = step_ident qop type x f
gen_step qop (to_element type x index) f = step_element qop type x index f

abbrev pub emit_return : QuadrArg → Func → Option Func
emit_return arg f = emit (record { op = q_return; result = qa_none; arg1 = arg; arg2 = qa_none }) f

-- The return that ends a function.
abbrev pub gen_quadr_return : Func → Option Func
gen_quadr_return f = emit_return qa_none f

unfoldable pub gen_quadr : Simple → Func → Option Func
gen_quadr (expression e) f = gen_quadr_expr e f >>= λ (arg, f1). some f1
gen_quadr (assign_to (to_ident type x) e) f = gen_assign x e f
gen_quadr (assign_to (to_element type x index) e) f = assign_element x index e f
gen_quadr (inc l) f = gen_step q_add l f
gen_quadr (dec l) f = gen_step q_sub l f
gen_quadr (return_value e) f = gen_quadr_expr e f >>= λ (arg, f1). emit_return arg f1 >>= open_block
gen_quadr return_void f = emit_return qa_none f >>= open_block

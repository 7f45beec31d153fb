-- ===== src/Quadr/Gen.antt =====
-- src/quadr.c: the quadruples of expressions.
use javalette.Prelude.{
  ℕ, zero, Bool, true, false, not, ◌&&◌, ◌||◌, List, [], ◌∷◌, Option, none, some, if◌then◌else◌,
  assert, ◌>>=◌, ◌>>◌,
}
use javalette.Types.{Ty, double, boolean, cons_of, same_type, type_boolean}
use javalette.Tree.Exprs.{
  ℤ, pos, BinaryOp, op_add, op_sub, op_mul, op_div, op_mod, op_neq, op_or, op_and, UnaryOp, op_neg,
  op_not, op_plus,
}
use javalette.Quadr.{
  QuadrArg, qa_var, qa_int, qa_str, QuadrOp, q_add, q_sub, q_mul, q_div, q_mod, quadr_if_op,
}
use javalette.Quadr.Blocks.{Func, declare_var, new_basic_block, emit, quadr_arg_label}
use javalette.Quadr.Linking.{add_basic_blocks, open_block}
use javalette.Quadr.Typed.{
  Typed, TypedList, binary, unary, int_node, bool_node, double_node, str_node, ident_node,
  array_node, call_node, no_exprs, expr_list,
}
use javalette.Quadr.Emit.{
  gen_copy, gen_binop, gen_goto, quadr_arg_int, quadr_arg_double, Code, gen_array_ref, gen_call,
}

-- The boolean path of `gen_quadr_expr`: false, unless the jump is taken.
abbrev pub bool_value : Ty → (ℕ → Bool → Func → Option Func) → Func → Option (QuadrArg × Func)
bool_value type cond f = do
  (var, f1) ← declare_var type f
  let (if_true, f2) = new_basic_block f1 in
      do
        f3 ← cond if_true true f2
        f4 ← open_block f3
        let (end_block, f5) = new_basic_block f4 in
            do
              f6 ← gen_copy var (qa_int (pos 0)) f5
              f7 ← gen_goto end_block f6
              f8 ← add_basic_blocks if_true f7
              f9 ← gen_copy var (qa_int (pos 1)) f8
              f10 ← add_basic_blocks end_block f9
              some (qa_var var, f10)

-- The node types that are binary operators of Q_ADD and the like.
abbrev pub arith_op : BinaryOp → Option QuadrOp
arith_op op_add = some q_add
arith_op op_sub = some q_sub
arith_op op_mul = some q_mul
arith_op op_div = some q_div
arith_op op_mod = some q_mod
arith_op _ = none

abbrev pub gen_arith : BinaryOp → Ty → Code → Code → Func → Option (QuadrArg × Func)
gen_arith op type left right f = do
  qop ← arith_op op
  (result, f1) ← declare_var type f
  (arg1, f2) ← left.expr f1
  (arg2, f3) ← right.expr f2
  f4 ← gen_binop qop result arg1 arg2 f3
  some (qa_var result, f4)

-- The conditional expression has the type `double`: where an `int` is read, it has not been passed.
abbrev pub neg_zero : Ty → Func → Option (QuadrArg × Func)
neg_zero type f = if same_type type double then quadr_arg_double (cons_of type) 0 f else none

abbrev pub gen_neg : Ty → Code → Func → Option (QuadrArg × Func)
gen_neg type arg f = do
  (result, f1) ← declare_var type f
  (arg1, f2) ← neg_zero type f1
  (arg2, f3) ← arg.expr f2
  f4 ← gen_binop q_sub result arg1 arg2 f3
  some (qa_var result, f4)

abbrev pub gen_not : Ty → Code → Func → Option (QuadrArg × Func)
gen_not type arg f = do
  assert (same_type type boolean)
  (result, f1) ← declare_var type f
  (arg1, f2) ← quadr_arg_int (cons_of type) (pos 1) f1
  (arg2, f3) ← arg.expr f2
  f4 ← gen_binop q_sub result arg1 arg2 f3
  some (qa_var result, f4)

abbrev pub gen_unary : UnaryOp → Ty → Code → Func → Option (QuadrArg × Func)
gen_unary op_plus type arg f = arg.expr f
gen_unary op_neg type arg f = gen_neg type arg f
gen_unary op_not type arg f = gen_not type arg f

-- A comparison's quadruple, and the block after it.
abbrev pub compare_jump : BinaryOp → Code → Code → ℕ → Bool → Func → Option Func
compare_jump op left right jmp_dest jmp_if_true f = do
  (label, f1) ← quadr_arg_label jmp_dest f
  (arg1, f2) ← left.expr f1
  (arg2, f3) ← right.expr f2
  qop ← quadr_if_op op jmp_if_true
  f4 ← emit (record { op = qop; result = label; arg1 = arg1; arg2 = arg2 }) f3
  open_block f4

-- Both operands jump away to the end of the expression.
abbrev pub jump_around : Code → Code → ℕ → Bool → Func → Option Func
jump_around left right jmp_dest away f =
    let (end_block, f1) = new_basic_block f in
    do
      f2 ← left.cond end_block away f1
      f3 ← right.cond end_block away f2
      f4 ← gen_goto jmp_dest f3
      add_basic_blocks end_block f4

abbrev pub jump_both : Code → Code → ℕ → Bool → Func → Option Func
jump_both left right jmp_dest jmp_if_true f =
    left.cond jmp_dest jmp_if_true f >>= right.cond jmp_dest jmp_if_true

abbrev pub cond_binary : BinaryOp → Code → Code → ℕ → Bool → Func → Option Func
cond_binary op_and left right jmp_dest jmp_if_true f =
    if jmp_if_true
    then jump_around left right jmp_dest false f
    else jump_both left right jmp_dest false f
cond_binary op_or left right jmp_dest jmp_if_true f =
    if jmp_if_true
    then jump_both left right jmp_dest true f
    else jump_around left right jmp_dest true f
cond_binary op left right jmp_dest jmp_if_true f = compare_jump op left right jmp_dest jmp_if_true f

abbrev pub cond_unary : UnaryOp → Code → ℕ → Bool → Func → Option Func
cond_unary op_not arg jmp_dest jmp_if_true f = arg.cond jmp_dest (not jmp_if_true) f
cond_unary _ arg jmp_dest jmp_if_true f = none

abbrev pub is_zero : ℤ → Bool
is_zero (pos zero) = true
is_zero _ = false

abbrev pub cond_literal : ℤ → ℕ → Bool → Func → Option Func
cond_literal value jmp_dest jmp_if_true f =
    if (not (is_zero value) && jmp_if_true) || (is_zero value && not jmp_if_true)
    then gen_goto jmp_dest f
    else some f

-- The jump on a value that is not 0, where `value` makes the argument.
abbrev pub jump_unless_zero : (Func → Option (QuadrArg × Func)) → ℕ → Bool → Func → Option Func
jump_unless_zero value jmp_dest jmp_if_true f = do
  (label, f1) ← quadr_arg_label jmp_dest f
  (arg1, f2) ← value f1
  (arg2, f3) ← quadr_arg_int type_boolean (pos 0) f2
  qop ← quadr_if_op op_neq jmp_if_true
  f4 ← emit (record { op = qop; result = label; arg1 = arg1; arg2 = arg2 }) f3
  open_block f4

-- The assertion of `gen_quadr_bool_expr`.
abbrev pub boolean_only : Ty → (ℕ → Bool → Func → Option Func) → ℕ → Bool → Func → Option Func
boolean_only type cond jmp_dest jmp_if_true f =
    assert (same_type type boolean) >> cond jmp_dest jmp_if_true f

-- A node that is not an identifier or an element goes the boolean path when its type is boolean.
abbrev pub with_bool_path :
    Ty → (Func → Option (QuadrArg × Func)) → (ℕ → Bool → Func → Option Func) → Code
with_bool_path type expr cond = record {
  expr = λ f. if same_type type boolean then bool_value type (boolean_only type cond) f else expr f;
  cond = boolean_only type cond;
}

abbrev pub no_cond : ℕ → Bool → Func → Option Func
no_cond jmp_dest jmp_if_true f = none

-- `gen_quadr_expr` and `gen_quadr_bool_expr`, and the loop over the arguments.
unfoldable mutual
  pub gen : Typed → Code
  gen (binary op type l r) =
      with_bool_path type (gen_arith op type (gen l) (gen r)) (cond_binary op (gen l) (gen r))
  gen (unary op type e) = with_bool_path type (gen_unary op type (gen e)) (cond_unary op (gen e))
  gen (int_node type n) = with_bool_path type (quadr_arg_int (cons_of type) n) no_cond
  gen (bool_node type n) = with_bool_path type (quadr_arg_int (cons_of type) n) (cond_literal n)
  gen (double_node type d) = with_bool_path type (quadr_arg_double (cons_of type) d) no_cond
  gen (str_node type s) = with_bool_path type (λ f. some (qa_str s, f)) no_cond
  gen (ident_node type x) = record {
    expr = λ f. some (qa_var x, f);
    cond = boolean_only type (jump_unless_zero (λ f. some (qa_var x, f)));
  }
  gen (array_node type x index) = record {
    expr = gen_array_ref x (gen index);
    cond = boolean_only type no_cond;
  }
  gen (call_node type callee args) =
      with_bool_path type (gen_call type callee (gen_args args))
        (jump_unless_zero (gen_call type callee (gen_args args)))

  pub gen_args : TypedList → List Code
  gen_args no_exprs = []
  gen_args (expr_list e es) = gen e ∷ gen_args es

-- ===== src/Quadr/Machine.antt =====
-- What straight-line quadruples compute, over any arithmetic: a reference for the generated code.
use javalette.Prelude.{ℕ, List, [], ◌∷◌, Option, none, some, if◌then◌else◌, ◌>>=◌}
use javalette.Types.{Ty, double, same_type}
use javalette.Tree.Exprs.{ℤ, pos, op_neg, op_not, op_plus}
use javalette.Quadr.{
  QuadrArg, qa_var, qa_int, qa_double, Quadr, QuadrOp, q_add, q_sub, q_mul, q_div, q_mod, q_copy,
  q_read_ptr, q_write_ptr, q_get_addr,
}
use javalette.Quadr.Blocks.{assign}
use javalette.Quadr.Typed.{
  Typed, binary, unary, int_node, bool_node, double_node, ident_node, array_node, str_node,
  call_node,
}
use javalette.Quadr.Gen.{arith_op}

-- The arithmetic of the target: what the operators and the constants mean, and the position that a
-- value stands for as an offset.
pub record Arith (V : Type 0) : Type 0 where
  pub apply : QuadrOp → V → V → V
  pub of_int : ℤ → V
  pub of_double : ℕ → V
  pub index : V → ℕ

-- The values of the variables, the arrays that pointers point to, and the elements of the arrays.
pub record Store (V : Type 0) : Type 0 where
  pub val : ℕ → V
  pub points : ℕ → ℕ
  pub elem : ℕ → ℕ → V

abbrev pub var_of : QuadrArg → Option ℕ
var_of (qa_var x) = some x
var_of _ = none

module _ {V : Type 0} ⦃arith : Arith V⦄ where
  abbrev pub value_of : Store V → QuadrArg → Option V
  value_of s (qa_var x) = some (s.val x)
  value_of s (qa_int n) = some (arith.of_int n)
  value_of s (qa_double d) = some (arith.of_double d)
  value_of s _ = none

  abbrev pub set_val : ℕ → V → Store V → Store V
  set_val x v s = record s { val = assign x v s.val }

  abbrev pub set_points : ℕ → ℕ → Store V → Store V
  set_points x a s = record s { points = assign x a s.points }

  abbrev pub set_elem : ℕ → ℕ → V → Store V → Store V
  set_elem a i v s = record s { elem = assign a (assign i v (s.elem a)) s.elem }

  -- One operator on two values.
  abbrev pub compute : Quadr → Store V → Option (Store V)
  compute q s = do
    x ← var_of q.result
    v ← value_of s q.arg1
    w ← value_of s q.arg2
    some (set_val x (arith.apply q.op v w) s)

  abbrev pub exec_op : QuadrOp → Quadr → Store V → Option (Store V)
  exec_op q_add q s = compute q s
  exec_op q_sub q s = compute q s
  exec_op q_mul q s = compute q s
  exec_op q_div q s = compute q s
  exec_op q_mod q s = compute q s
  exec_op q_copy q s = do x ← var_of q.result; v ← value_of s q.arg1; some (set_val x v s)
  exec_op q_get_addr q s = do x ← var_of q.result; a ← var_of q.arg1; some (set_points x a s)
  exec_op q_read_ptr q s = do
    x ← var_of q.result
    p ← var_of q.arg1
    i ← value_of s q.arg2
    some (set_val x (s.elem (s.points p) (arith.index i)) s)
  exec_op q_write_ptr q s = do
    p ← var_of q.result
    i ← value_of s q.arg1
    v ← value_of s q.arg2
    some (set_elem (s.points p) (arith.index i) v s)
  exec_op _ q s = none

  abbrev pub exec : List Quadr → Store V → Option (Store V)
  exec [] s = some s
  exec (q ∷ qs) s = exec_op q.op q s >>= exec qs

  abbrev pub zero_of : Ty → V
  zero_of type = if same_type type double then arith.of_double 0 else arith.of_int (pos 0)

  abbrev pub operate : Option QuadrOp → V → V → Option V
  operate none v w = none
  operate (some op) v w = some (arith.apply op v w)

  -- The value of an expression without calls, strings and boolean operators.
  abbrev pub eval : Typed → Store V → Option V
  eval (binary op type l r) s = do v ← eval l s; w ← eval r s; operate (arith_op op) v w
  eval (unary op_neg type e) s = do v ← eval e s; some (arith.apply q_sub (zero_of type) v)
  eval (unary op_plus type e) s = eval e s
  eval (unary op_not type e) s = none
  eval (int_node type n) s = some (arith.of_int n)
  eval (bool_node type n) s = none
  eval (double_node type d) s = some (arith.of_double d)
  eval (str_node type a) s = none
  eval (ident_node type x) s = some (s.val x)
  eval (array_node type x index) s = do v ← eval index s; some (s.elem x (arith.index v))
  eval (call_node type g args) s = none

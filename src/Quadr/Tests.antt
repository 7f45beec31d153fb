-- ===== src/Quadr/Tests.antt =====
-- src/quadr.c on small expressions.
use javalette.Prelude.{
  ℕ, ◌+◌, ◌*◌, ◌-◌, Bool, true, false, ◌≡◌, refl, Option, none, some, List, [], ◌∷◌, arith, Returns,
  ◌==◌, ◌>>=◌,
}
use javalette.Types.{int, double, boolean, array}
use javalette.Tree.Exprs.{ℤ, pos, negsuc, op_add, op_mul, op_sub, op_lt, op_and, op_not}
use javalette.Quadr.{QuadrOp, assigned_in_quadr, new_quadr, q_add, q_mul, vt_int, vt_array}
use javalette.Quadr.Blocks.{
  Func, declare_function, declare_var, new_basic_block, quadr_arg_label, assign, add_quadr,
}
use javalette.Quadr.Linking.{add_basic_blocks, last_block}
use javalette.Quadr.Typed.{Typed, binary, unary, ident_node, array_node}
use javalette.Quadr.Gen.{gen}
use javalette.Quadr.Emit.{gen_goto}
use javalette.Quadr.Instrs.{
  gen_assign, gen_quadr, inc, dec, to_ident, to_element, gen_quadr_bool_expr, step_element,
}
use javalette.Quadr.Conditions.{Tests, gen_quadr_bool_expr-Tests}
use javalette.Quadr.Machine.{Arith}
use javalette.Quadr.Emitted.{At}
use javalette.Quadr.Assignments.{Assigns, gen_assign-Assigns}
use javalette.Quadr.Steps.{one_node, gen_quadr-ident}
use javalette.Quadr.Storage.{Grown, declare_function-IsStored, declare_var-Grown}
use javalette.Prelude.{if◌then◌else◌}
use javalette.Quadr.VarLists.{vl_find, vl_erase, vl_copy}
use javalette.Quadr.VarLists.Sets.{
  IsSetList, Inserted, vl_insert_if_absent-Inserted, vl_erase-IsSetList,
}

assigned_sum : assigned_in_quadr (new_quadr q_add (some 1) (some 2) (some 3)) 1 ≡ true
assigned_sum = refl

-- Natural numbers as a target.
abbrev on_numbers : QuadrOp → ℕ → ℕ → ℕ
on_numbers q_add a b = a + b
on_numbers q_mul a b = a * b
on_numbers op a b = a - b

abbrev of_literal : ℤ → ℕ
of_literal (pos n) = n
of_literal (negsuc n) = 0

instance abbrev numbers : Arith ℕ
numbers = record { apply = on_numbers; of_int = of_literal; of_double = λ d. d; index = λ v. v }

-- int x, y; int a[10];
abbrev three_vars : Func
three_vars = record declare_function {
  first_block = some 0;
  blocks =
      assign 0 (some (record { lst = []; next = none; referenced = false }))
        declare_function.blocks;
  next_block_id = 1;
  cur_block = some 0;
  var_at = assign 0 (some (record { ty = int; qtype = vt_int })) (
      assign 1 (some (record { ty = int; qtype = vt_int })) (
        assign 2 (some (record { ty = array 0 int 10; qtype = vt_array }))
          declare_function.var_at));
  var_count = 3;
  tail = record { vars_size = 64; used = 3 };
}

three_vars-At : At three_vars 0 [] none false
three_vars-At = record { current = refl; here = refl; unended = refl }

-- (x - y) * a[y]
abbrev product : Typed
product =
    binary op_mul int (binary op_sub int (ident_node int 0) (ident_node int 1))
      (array_node int 2 (ident_node int 1))

gen_assign-Assigns_example :
    Returns (Assigns ℕ 0 none false [] three_vars 1 product) (gen_assign 1 product three_vars)
gen_assign-Assigns_example =
    gen_assign-Assigns ℕ 0 none false [] three_vars 1 product three_vars-At (ground arith)

gen_quadr-ident_example :
    Returns
      (Assigns ℕ 0 none false [] three_vars 0 (binary op_add int (ident_node int 0) (one_node int)))
      (gen_quadr (inc (to_ident int 0)) three_vars)
    × Returns
        (Assigns ℕ 0 none false [] three_vars 0
          (binary op_sub int (ident_node int 0) (one_node int)))
        (gen_quadr (dec (to_ident int 0)) three_vars)
gen_quadr-ident_example =
    gen_quadr-ident ℕ 0 none false [] three_vars int 0 three_vars-At (omega arith) tt

-- a[x]++: the generator reads past the end of the object of `int`.
element_read : gen_quadr (inc (to_element int 2 (ident_node int 0))) three_vars ≡ none
unfolding gen_quadr step_element
element_read = refl

declare_var-Grown_example : Returns (Grown declare_function) (declare_var double declare_function)
declare_var-Grown_example = declare_var-Grown double declare_function declare_function-IsStored tt

abbrev two_vars : List ℕ
two_vars = 4 ∷ 7 ∷ []

copied : vl_copy two_vars ≡ two_vars
copied = refl

vl_insert_if_absent-Inserted_example : Inserted (7 ∷ 5 ∷ 4 ∷ []) 5 4
vl_insert_if_absent-Inserted_example =
    vl_insert_if_absent-Inserted (7 ∷ 5 ∷ 4 ∷ []) 5 4 (ground arith)

vl_erase-IsSetList_example :
    Returns
      (λ r. IsSetList r × (vl_find r 7 ≡ (if 4 == 7 then false else vl_find two_vars 7)))
      (vl_erase two_vars 4)
vl_erase-IsSetList_example = vl_erase-IsSetList 4 (7 ∷ []) 4 7 (ground arith)

-- A second block, to jump to.
abbrev with_label : Func
with_label = record three_vars {
  blocks = assign 1 (some (record { lst = []; next = none; referenced = false })) three_vars.blocks;
  next_block_id = 2;
}

with_label-At : At with_label 0 [] none false
with_label-At = record { current = refl; here = refl; unended = refl }

gen_quadr_bool_expr-Tests_example :
    Returns
      (Tests ℕ 0 false [] with_label op_lt product (ident_node int 1) 1 false)
      (gen_quadr_bool_expr (binary op_lt boolean product (ident_node int 1)) 1 false with_label)
gen_quadr_bool_expr-Tests_example =
    gen_quadr_bool_expr-Tests ℕ 0 false [] with_label none none op_lt product (ident_node int 1) 1
      false with_label-At (omega arith) refl refl tt (ground arith) (omega arith)

-- The calls for `while (x < y);`.
abbrev empty_while : Func → Option Func
empty_while f =
    let cond = new_basic_block f in
    let body = new_basic_block cond.1 in
    do
      f1 ← gen_goto cond.0 body.1
      f2 ← add_basic_blocks body.0 f1
      f3 ← add_basic_blocks cond.0 f2
      gen_quadr_bool_expr (binary op_lt boolean (ident_node int 0) (ident_node int 1)) body.0 true
          f3

-- The block of the empty body is freed before the condition jumps to it.
freed_body : empty_while three_vars ≡ none
unfolding gen quadr_arg_label new_basic_block add_basic_blocks add_quadr last_block
freed_body = refl

abbrev returns : Option Func → Bool
returns none = false
returns (some f) = true

-- x = x < y && !(y < x)
abbrev both : Typed
both =
    binary op_and boolean (binary op_lt boolean (ident_node int 0) (ident_node int 1))
      (unary op_not boolean (binary op_lt boolean (ident_node int 1) (ident_node int 0)))

boolean_value : returns (gen_assign 0 both three_vars) ≡ true
unfolding gen_assign gen declare_var quadr_arg_label new_basic_block add_basic_blocks add_quadr
    last_block
boolean_value = refl

-- ===== src/Tree/Check/Rules.antt =====
-- The tests of `do_type_check` of src/tree.c, as the rules of the type system.
use javalette.Prelude.{
  some-injective, Bool-cases, ◌≡◌, sym, ap, ◌∙◌, subst, inl, inr, none, some, true, false,
  if◌then◌else◌, arith, Bool-cases,
}
use javalette.Types.{Ty, void, int, double, str, boolean, func, array, same_type}
use javalette.Tree.Exprs.{
  BinaryOp, op_add, op_sub, op_mul, op_div, op_mod, op_eq, op_neq, op_gt, op_lt, op_geq, op_leq,
  op_or, op_and, UnaryOp, op_neg, op_not, op_plus,
}
use javalette.Tree.Check.{binary_type, unary_ok, same, is_number, is_int}
use javalette.Tree.Check.Typing.{
  BinaryRule, UnaryRule, Number, disjunction, complement, Logical, conjunction, negation,
  int_number, arithmetic, double_number, adds, subtracts, identity, divides, multiplies, ordering,
  greater_equal, less_equal, greater, less, logical, equality, modulo, equal, unequal,
}

-- Whatever fails is in order.
pub failed {ℓ} : {P : Type ℓ} → false ≡ true → P
failed h = absurd (ground arith)

pub same_int : (t : Ty) → same_type t int ≡ true → t ≡ int
same_int t h = ground arith

pub same_double : (t : Ty) → same_type t double ≡ true → t ≡ double
same_double t h = ground arith

pub same_boolean : (t : Ty) → same_type t boolean ≡ true → t ≡ boolean
same_boolean t h = ground arith

-- An operator on numbers.
pub on_numbers :
    (P : Ty → Type 0) (t v w : Ty)
    → (Number t → P w)
    → (if is_number (some t) then some w else none) ≡ some v
    → P v
on_numbers P int v w k h = subst P (some-injective w v h) (k int_number)
on_numbers P double v w k h = subst P (some-injective w v h) (k double_number)
on_numbers P void v w k h = absurd (ground arith)
on_numbers P str v w k h = absurd (ground arith)
on_numbers P boolean v w k h = absurd (ground arith)
on_numbers P (func a r n ts) v w k h = absurd (ground arith)
on_numbers P (array a e n) v w k h = absurd (ground arith)

pub on_booleans :
    (op : BinaryOp) (t v : Ty)
    → Logical op
    → (if same (some t) (some boolean) then some boolean else none) ≡ some v
    → BinaryRule op t v
on_booleans op t v l h = elim (Bool-cases (same_type t boolean)) [
  | inl q ↦
      subst (BinaryRule op t)
        (some-injective boolean v (ap (λ b. if b then some boolean else none) (sym q) ∙ h))
        (subst (λ u. BinaryRule op u boolean) (sym (same_boolean t q)) (logical l))
  | inr q ↦ absurd (ground arith)
]

pub on_ints :
    (t v : Ty) → (if is_int (some t) then some t else none) ≡ some v → BinaryRule op_mod t v
on_ints t v h = elim (Bool-cases (same_type t int)) [
  | inl q ↦
      subst (BinaryRule op_mod t)
        (some-injective t v (ap (λ b. if b then some t else none) (sym q) ∙ h))
        (subst (λ u. BinaryRule op_mod u u) (sym (same_int t q)) modulo)
  | inr q ↦ absurd (ground arith)
]

pub binary_rule : (op : BinaryOp) (t v : Ty) → binary_type op (some t) ≡ some v → BinaryRule op t v
binary_rule op_or t v h = on_booleans op_or t v disjunction h
binary_rule op_and t v h = on_booleans op_and t v conjunction h
binary_rule op_add t v h = on_numbers (BinaryRule op_add t) t v t (λ n. arithmetic adds n) h
binary_rule op_sub t v h = on_numbers (BinaryRule op_sub t) t v t (λ n. arithmetic subtracts n) h
binary_rule op_div t v h = on_numbers (BinaryRule op_div t) t v t (λ n. arithmetic divides n) h
binary_rule op_mul t v h = on_numbers (BinaryRule op_mul t) t v t (λ n. arithmetic multiplies n) h
binary_rule op_mod t v h = on_ints t v h
binary_rule op_geq t v h =
    on_numbers (BinaryRule op_geq t) t v boolean (λ n. ordering greater_equal n) h
binary_rule op_leq t v h =
    on_numbers (BinaryRule op_leq t) t v boolean (λ n. ordering less_equal n) h
binary_rule op_gt t v h = on_numbers (BinaryRule op_gt t) t v boolean (λ n. ordering greater n) h
binary_rule op_lt t v h = on_numbers (BinaryRule op_lt t) t v boolean (λ n. ordering less n) h
binary_rule op_eq t v h = subst (BinaryRule op_eq t) (some-injective boolean v h) (equality equal)
binary_rule op_neq t v h =
    subst (BinaryRule op_neq t) (some-injective boolean v h) (equality unequal)

pub Number-rule :
    (op : UnaryOp) (t : Ty)
    → (Number t → UnaryRule op t)
    → is_number (some t) ≡ true
    → UnaryRule op t
Number-rule op t k h =
    on_numbers (λ v. UnaryRule op t) t t t k (ap (λ b. if b then some t else none) h)

pub unary_rule : (op : UnaryOp) (t : Ty) → unary_ok op t ≡ true → UnaryRule op t
unary_rule op_not boolean h = complement
unary_rule op_not void h = failed h
unary_rule op_not int h = failed h
unary_rule op_not double h = failed h
unary_rule op_not str h = failed h
unary_rule op_not (func a r n ts) h = failed h
unary_rule op_not (array a e n) h = failed h
unary_rule op_neg t h = Number-rule op_neg t negation (ground arith)
unary_rule op_plus t h = Number-rule op_plus t identity (ground arith)

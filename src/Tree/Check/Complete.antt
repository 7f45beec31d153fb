-- ===== src/Tree/Check/Complete.antt =====
-- src/tree.c: `do_type_check` on an expression that has a type by the rules.
use javalette.Tree.Check.Rules.{failed}
use javalette.Prelude.{
  ℕ, ◌≡◌, refl, sym, ap, ◌∙◌, subst, some-injective, Option, none, some, true, false, Bool, ◌&&◌,
  Returns, Returns-bind, Returns-if, ◌>>=◌, if◌then◌else◌, arith,
}
use javalette.Types.{Ty, Tys, int, func, array, none_left, arg, same_type, type_equiv}
use javalette.Tree.{Pos}
use javalette.Tree.Scopes.{Decl}
use javalette.Tree.Exprs.{
  BinaryOp, UnaryOp, Expr, Exprs, binary, unary, int_node, bool_node, double_node, str_node,
  ident_node, array_node, call_node, no_exprs, expr_list,
}
use javalette.Types.Compatible.{Compatible}
use javalette.Types.Laws.{type_equiv_iff}
use javalette.Tree.Check.{
  Env, Report, Checked, do_type_check, check_args, both, unary_result, conclude, binary_type,
  unary_ok, same, Called, array_result, argument_ok, call_declared, array_of, call_of, ident_result,
  index_result, call_result, is_int,
}
use javalette.Tree.Check.Typing.{
  adds, subtracts, multiplies, divides, greater, less, greater_equal, less_equal, disjunction,
  conjunction, equal, unequal, int_number, double_number, HasType, BinaryRule, UnaryRule, Arguments,
  arithmetic, modulo, ordering, logical, equality, negation, identity, complement, of_binary,
  of_unary, of_ident, of_array, of_call, argument, of_int, of_bool, of_double, of_str, no_arguments,
}

-- The check succeeds with this type.
abbrev pub Found : Ty → Checked → Type 0
Found t c = (c.ok ≡ true) × (c.type ≡ some t)

abbrev pub Fits : Called → Type 0
Fits c = (c.fits ≡ true) × (c.left ≡ false)

binary_type_rule : {op : BinaryOp} {t v : Ty} → BinaryRule op t v → binary_type op (some t) ≡ some v
binary_type_rule (arithmetic adds int_number) = refl
binary_type_rule (arithmetic adds double_number) = refl
binary_type_rule (arithmetic subtracts int_number) = refl
binary_type_rule (arithmetic subtracts double_number) = refl
binary_type_rule (arithmetic multiplies int_number) = refl
binary_type_rule (arithmetic multiplies double_number) = refl
binary_type_rule (arithmetic divides int_number) = refl
binary_type_rule (arithmetic divides double_number) = refl
binary_type_rule modulo = refl
binary_type_rule (ordering greater int_number) = refl
binary_type_rule (ordering greater double_number) = refl
binary_type_rule (ordering less int_number) = refl
binary_type_rule (ordering less double_number) = refl
binary_type_rule (ordering greater_equal int_number) = refl
binary_type_rule (ordering greater_equal double_number) = refl
binary_type_rule (ordering less_equal int_number) = refl
binary_type_rule (ordering less_equal double_number) = refl
binary_type_rule (logical disjunction) = refl
binary_type_rule (logical conjunction) = refl
binary_type_rule (equality equal) = refl
binary_type_rule (equality unequal) = refl

unary_ok_rule : {op : UnaryOp} {t : Ty} → UnaryRule op t → unary_ok op t ≡ true
unary_ok_rule (negation int_number) = refl
unary_ok_rule (negation double_number) = refl
unary_ok_rule (identity int_number) = refl
unary_ok_rule (identity double_number) = refl
unary_ok_rule complement = refl

Found-if : (t : Ty) (b : Bool) (c d : Checked) → b ≡ true → Found t c → Found t (if b then c else d)
Found-if t true c d e h = h
Found-if t false c d e h = failed e

conclude-Found :
    (p : Pos) (o : Option Ty) (v : Ty) (r : Report) → o ≡ some v → Found v (conclude p o r)
conclude-Found p none v r e = absurd (ground arith)
conclude-Found p (some t) v r e = (refl, e)

both-Found :
    (op : BinaryOp) (p : Pos) (t u v : Ty) (l r : Checked)
    → same_type t u ≡ true
    → BinaryRule op t v
    → Found t l
    → Found u r
    → Found v (both op p l r)
both-Found op p t u v l r st rule (lo, lt) (ro, rt) =
    Found-if v (r.ok && same l.type r.type) _ _
      (ap (λ b. b && same l.type r.type) ro
        ∙ ap (λ x. same x r.type) lt
        ∙ ap (same (some t)) rt
        ∙ st)
      (conclude-Found p (binary_type op l.type) v r.report
        (ap (binary_type op) lt ∙ binary_type_rule rule))

unary_result-Found :
    (op : UnaryOp) (p : Pos) (t : Ty) (o : Option Ty) (r : Report)
    → UnaryRule op t
    → o ≡ some t
    → Returns (Found t) (unary_result op p o r)
unary_result-Found op p t none r rule e = absurd (ground arith)
unary_result-Found op p t (some u) r rule e =
    Returns-if (Found t) (unary_ok op u) _ _ (λ q. (refl, e))
      (λ q. failed (sym q ∙ ap (unary_ok op) (some-injective u t e) ∙ unary_ok_rule rule))

index_good : (i : Expr) (n : ℕ) (c : Checked) → Found int c → (index_result i n c).0 ≡ true
index_good i n c (co, ct) = let q : is_int c.type ≡ true = ap is_int ct in ground arith

call_good : (p : Pos) (t : Ty) (c : Called) → Fits c → Found t (call_result p t c)
call_good p t c (fits, left) = ground arith

-- An identifier's declaration is found as an array or a function.
array_of-Found :
    (p : Pos) (i : Expr) (a n : ℕ) (t : Ty) (d : Decl) (index : Option Checked) (r : Report)
    (o : Option Decl)
    → o ≡ some d
    → d.type ≡ array a t n
    → Returns (Found int) index
    → Returns (Found t) (array_result p i r index o)
array_of-Found p i a n t d index r o eo ed h =
    subst (λ o. Returns (Found t) (array_result p i r index o)) (sym eo)
      (subst (λ u. Returns (Found t) (array_of p i index u)) (sym ed)
        (Returns-bind (Found int) (Found t) index _ h (λ c hc. (index_good i n c hc, refl))))

call_of-Found :
    (p : Pos) (a n : ℕ) (t : Ty) (ts : Tys) (d : Decl) (args : Tys → Option Called) (r : Report)
    (o : Option Decl)
    → o ≡ some d
    → d.type ≡ func a t n ts
    → Returns Fits (args ts)
    → Returns (Found t) (call_declared p r args o)
call_of-Found p a n t ts d args r o eo ed h =
    subst (λ o. Returns (Found t) (call_declared p r args o)) (sym eo)
      (subst (λ u. Returns (Found t) (call_of p r args u)) (sym ed)
        (Returns-bind Fits (Found t) (args ts) _ h (λ c hc. call_good p t c hc)))

argument_ok-true :
    (u t : Ty) (c : Checked)
    → Compatible u t
    → Found u c
    → Returns (λ b. b ≡ true) (argument_ok c t)
argument_ok-true u t c cu (co, ct) =
    Returns-if (λ b. b ≡ true) c.ok _ _
      (λ q.
        subst (λ x. Returns (λ b. b ≡ true) (x >>= λ v. some (type_equiv v t))) (sym ct)
          ((type_equiv_iff u t).1 cu))
      (λ q. failed (sym q ∙ co))

mutual
  unfolding do_type_check check_args

  pub do_type_check-Found :
      (env : Env) (e : Expr) (t : Ty) (r : Report)
      → HasType env e t
      → Returns (Found t) (do_type_check env e r)
  do_type_check-Found env (binary op p a b) v r (of_binary {t = t} {u = u} ha hb st rule) =
      Returns-bind (Found t) (Found v) _ _ (do_type_check-Found env a t r ha) (λ l hl.
        Returns-if (Found v) l.ok _ _
          (λ q.
            Returns-bind (Found u) (Found v) _ _ (do_type_check-Found env b u l.report hb)
              (λ c hc. both-Found op p t u v l c st rule hl hc))
          (λ q. failed (sym q ∙ hl.0)))
  do_type_check-Found env (unary op p a) t r (of_unary ha rule) =
      Returns-bind (Found t) (Found t) _ _ (do_type_check-Found env a t r ha) (λ c hc.
        Returns-if (Found t) c.ok _ _ (λ q. unary_result-Found op p t c.type c.report rule hc.1)
          (λ q. failed (sym q ∙ hc.0)))
  do_type_check-Found env (int_node p n) t r of_int = (refl, refl)
  do_type_check-Found env (bool_node p n) t r of_bool = (refl, refl)
  do_type_check-Found env (double_node p n) t r of_double = (refl, refl)
  do_type_check-Found env (str_node p n) t r of_str = (refl, refl)
  do_type_check-Found env (ident_node p x) t r (of_ident {d = d} ex ed) =
      subst (λ o. Found t (ident_result p o r)) (sym ex) (refl, ap some ed)
  do_type_check-Found env (array_node p x i) t r (of_array {a = a} {n = n} {d = d} ex ed hi) =
      array_of-Found p i a n t d _ r (env x) ex ed (do_type_check-Found env i int _ hi)
  do_type_check-Found env (call_node p f es) t r
        (of_call {a = a} {n = n} {ts = ts} {d = d} ef ed hs) =
      call_of-Found p a n t ts d _ r (env f) ef ed (check_args-Fits env es ts r hs)

  check_args-Fits :
      (env : Env) (es : Exprs) (ts : Tys) (r : Report)
      → Arguments env es ts
      → Returns Fits (check_args env es ts r)
  check_args-Fits env no_exprs none_left r no_arguments = (refl, refl)
  check_args-Fits env no_exprs (arg t ts) r h = elim h [ ]
  check_args-Fits env (expr_list p e es) none_left r h = elim h [ ]
  check_args-Fits env (expr_list p e es) (arg t ts) r (argument {u = u} he cu hs) =
      Returns-bind (Found u) Fits _ _ (do_type_check-Found env e u r he) (λ c hc.
        Returns-bind (λ b. b ≡ true) Fits _ _ (argument_ok-true u t c cu hc)
          (λ b q.
            Returns-if Fits b _ _ (λ q'. check_args-Fits env es ts c.report hs)
              (λ q'. failed (sym q' ∙ q))))

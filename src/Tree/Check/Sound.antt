-- ===== src/Tree/Check/Sound.antt =====
-- src/tree.c: the rules behind a check of `do_type_check` that succeeds.
use javalette.Tree.Check.Rules.{same_int, unary_rule, failed, binary_rule}
use javalette.Types.Laws.{type_equiv_iff}
use javalette.Prelude.{
  Ensures-cases, some-injective, ℕ, ◌≡◌, refl, sym, ap, ◌∙◌, subst, Option, none, some, true, false,
  Bool, ◌&&◌, Ensures, Ensures-bind, ◌>>=◌, if◌then◌else◌, arith, Ensures-imp,
}
use javalette.Types.{
  Ty, Tys, void, int, double, str, boolean, func, array, none_left, arg, same_type, type_equiv,
}
use javalette.Tree.{Pos}
use javalette.Tree.Scopes.{Decl}
use javalette.Tree.Exprs.{
  BinaryOp, UnaryOp, Expr, Exprs, binary, unary, int_node, bool_node, double_node, str_node,
  ident_node, array_node, call_node, no_exprs, expr_list,
}
use javalette.Types.Compatible.{Compatible}
use javalette.Tree.Check.{
  Env, Report, Checked, do_type_check, check_args, both, unary_result, conclude, binary_type,
  unary_ok, same, Called, is_int, array_of, call_result, call_declared, call_of, array_result,
  ident_result, index_result, argument_ok,
}
use javalette.Tree.Check.Typing.{
  HasType, Arguments, of_binary, of_int, of_unary, of_ident, of_array, of_call, of_bool, of_double,
  of_str, no_arguments, argument,
}

-- A check that succeeds has found a type, and the rules give it.
abbrev pub Typed : Env → Expr → Checked → Type 0
Typed env e c = c.ok ≡ true → (t : Ty) × (c.type ≡ some t) × HasType env e t

abbrev pub Fitting : Env → Exprs → Tys → Called → Type 0
Fitting env es ts c = c.fits ≡ true → c.left ≡ false → Arguments env es ts

-- `conclude` with the type of a rule.
conclude-Typed :
    (env : Env) (e : Expr) (p : Pos) (o : Option Ty) (r : Report)
    → ((t : Ty) → o ≡ some t → HasType env e t)
    → Typed env e (conclude p o r)
conclude-Typed env e p none r k = λ h. absurd (ground arith)
conclude-Typed env e p (some t) r k = λ h. (t, refl, k t refl)

Typed-if :
    (env : Env) (e : Expr) (b : Bool) (c d : Checked)
    → (b ≡ true → Typed env e c)
    → (b ≡ false → Typed env e d)
    → Typed env e (if b then c else d)
Typed-if env e true c d h k = h refl
Typed-if env e false c d h k = k refl

pub and_left : (a b : Bool) → (a && b) ≡ true → a ≡ true
and_left a b h = ground arith

pub and_right : (a b : Bool) → (a && b) ≡ true → b ≡ true
and_right a b h = ground arith

both-Typed :
    (env : Env) (op : BinaryOp) (p : Pos) (a b : Expr) (l r : Checked)
    → l.ok ≡ true
    → Typed env a l
    → Typed env b r
    → Typed env (binary op p a b) (both op p l r)
both-Typed env op p a b l r o hl hr =
    Typed-if env (binary op p a b) (r.ok && same l.type r.type) _ _
      (λ q.
        let (t, et, ht) = hl o in
        let (u, eu, hu) = hr (and_left r.ok _ q) in
        let st : same_type t u ≡ true =
          ap (λ x. same x (some u)) (sym et) ∙ ap (same l.type) (sym eu) ∙ and_right r.ok _ q in
        conclude-Typed env (binary op p a b) p (binary_type op l.type) r.report
          (λ v e. of_binary ht hu st (binary_rule op t v (ap (binary_type op) (sym et) ∙ e))))
      (λ q. failed)

unary_result-Typed :
    (env : Env) (op : UnaryOp) (p : Pos) (a : Expr) (c : Checked) (o : Option Ty)
    → c.type ≡ o
    → c.ok ≡ true
    → Typed env a c
    → Ensures (Typed env (unary op p a)) (unary_result op p o c.report)
unary_result-Typed env op p a c none e o h = tt
unary_result-Typed env op p a c (some t) e o h =
    Ensures-cases (Typed env (unary op p a)) (unary_ok op t) _ _
      (λ q k. (
        t,
        refl,
        of_unary
            (let (u, eu, hu) = h o in subst (HasType env a) (some-injective u t (sym eu ∙ e)) hu)
            (unary_rule op t q),
      ))
      (λ q. failed)

index_accepted :
    (i : Expr) (n : ℕ) (c : Checked)
    → (index_result i n c).0 ≡ true
    → (c.ok ≡ true) × (is_int c.type ≡ true)
index_accepted i n c h = ground arith

int_index :
    (env : Env) (i : Expr) (n : ℕ) (c : Checked)
    → Typed env i c
    → (index_result i n c).0 ≡ true
    → HasType env i int
int_index env i n c h k =
    let a = index_accepted i n c k in
    let (u, eu, hu) = h a.0 in subst (HasType env i) (same_int u (ap is_int (sym eu) ∙ a.1)) hu

array_of-Typed :
    (env : Env) (p : Pos) (x : ℕ) (i : Expr) (d : Decl) (index : Option Checked) (t : Ty)
    → env x ≡ some d
    → d.type ≡ t
    → Ensures (Typed env i) index
    → Ensures (Typed env (array_node p x i)) (array_of p i index t)
array_of-Typed env p x i d index (array a e n) ex ed h =
    Ensures-bind (Typed env i) (Typed env (array_node p x i)) index _ h
      (λ c hc k. (e, refl, of_array ex ed (int_index env i n c hc k)))
array_of-Typed env p x i d index void ex ed h = tt
array_of-Typed env p x i d index int ex ed h = tt
array_of-Typed env p x i d index double ex ed h = tt
array_of-Typed env p x i d index str ex ed h = tt
array_of-Typed env p x i d index boolean ex ed h = tt
array_of-Typed env p x i d index (func a r n ts) ex ed h = tt

array_result-Typed :
    (env : Env) (p : Pos) (x : ℕ) (i : Expr) (r : Report) (index : Option Checked) (o : Option Decl)
    → env x ≡ o
    → Ensures (Typed env i) index
    → Ensures (Typed env (array_node p x i)) (array_result p i r index o)
array_result-Typed env p x i r index none ex h = failed
array_result-Typed env p x i r index (some d) ex h =
    array_of-Typed env p x i d index d.type ex refl h

call_result-Typed :
    (env : Env) (p : Pos) (f : ℕ) (es : Exprs) (d : Decl) (a n : ℕ) (t : Ty) (ts : Tys) (c : Called)
    → env f ≡ some d
    → d.type ≡ func a t n ts
    → Fitting env es ts c
    → Typed env (call_node p f es) (call_result p t c)
call_result-Typed env p f es d a n t ts c ef ed h =
    Typed-if env _ c.left _ _ (λ q. failed)
      (λ q. Typed-if env _ c.fits _ _ (λ q'. λ k. (t, refl, of_call ef ed (h q' q))) (λ q'. failed))

call_of-Typed :
    (env : Env) (p : Pos) (f : ℕ) (es : Exprs) (d : Decl) (r : Report) (args : Tys → Option Called)
    (t : Ty)
    → env f ≡ some d
    → d.type ≡ t
    → ((ts : Tys) → Ensures (Fitting env es ts) (args ts))
    → Ensures (Typed env (call_node p f es)) (call_of p r args t)
call_of-Typed env p f es d r args (func a t n ts) ef ed h =
    Ensures-bind (Fitting env es ts) (Typed env (call_node p f es)) (args ts) _ (h ts)
      (λ c hc. call_result-Typed env p f es d a n t ts c ef ed hc)
call_of-Typed env p f es d r args void ef ed h = failed
call_of-Typed env p f es d r args int ef ed h = failed
call_of-Typed env p f es d r args double ef ed h = failed
call_of-Typed env p f es d r args str ef ed h = failed
call_of-Typed env p f es d r args boolean ef ed h = failed
call_of-Typed env p f es d r args (array a e n) ef ed h = failed

call_declared-Typed :
    (env : Env) (p : Pos) (f : ℕ) (es : Exprs) (r : Report) (args : Tys → Option Called)
    (o : Option Decl)
    → env f ≡ o
    → ((ts : Tys) → Ensures (Fitting env es ts) (args ts))
    → Ensures (Typed env (call_node p f es)) (call_declared p r args o)
call_declared-Typed env p f es r args none ef h = failed
call_declared-Typed env p f es r args (some d) ef h =
    call_of-Typed env p f es d r args d.type ef refl h

ident_result-Typed :
    (env : Env) (p : Pos) (x : ℕ) (r : Report) (o : Option Decl)
    → env x ≡ o
    → Typed env (ident_node p x) (ident_result p o r)
ident_result-Typed env p x r none e = failed
ident_result-Typed env p x r (some d) e = λ h. (d.type, refl, of_ident e refl)

-- The check of one argument against its parameter.
abbrev Suits : Env → Expr → Ty → Bool → Type 0
Suits env e t b = b ≡ true → (u : Ty) × HasType env e u × Compatible u t

argument_ok-Suits :
    (env : Env) (e : Expr) (t : Ty) (c : Checked)
    → Typed env e c
    → Ensures (Suits env e t) (argument_ok c t)
argument_ok-Suits env e t c h =
    Ensures-cases (Suits env e t) c.ok (c.type >>= λ u. some (type_equiv u t)) (some false)
      (λ o.
        let (u, eu, hu) = h o in
        subst (λ x. Ensures (Suits env e t) (x >>= λ v. some (type_equiv v t))) (sym eu)
          (λ k. (u, hu, (type_equiv_iff u t).0 k)))
      (λ o. failed)

mutual
  unfolding do_type_check check_args

  pub do_type_check-Typed :
      (env : Env) (e : Expr) (r : Report) → Ensures (Typed env e) (do_type_check env e r)
  do_type_check-Typed env (binary op p a b) r =
      Ensures-bind (Typed env a) (Typed env (binary op p a b)) _ _ (do_type_check-Typed env a r)
        (λ l hl.
          Ensures-cases (Typed env (binary op p a b)) l.ok _ _
            (λ o.
              Ensures-bind (Typed env b) (Typed env (binary op p a b)) _ _
                (do_type_check-Typed env b l.report) (λ c hc. both-Typed env op p a b l c o hl hc))
            (λ o. failed))
  do_type_check-Typed env (unary op p a) r =
      Ensures-bind (Typed env a) (Typed env (unary op p a)) _ _ (do_type_check-Typed env a r)
        (λ c hc.
          Ensures-cases (Typed env (unary op p a)) c.ok _ _
            (λ o. unary_result-Typed env op p a c c.type refl o hc) (λ o. failed))
  do_type_check-Typed env (int_node p n) r = λ h. (int, refl, of_int)
  do_type_check-Typed env (bool_node p n) r = λ h. (boolean, refl, of_bool)
  do_type_check-Typed env (double_node p n) r = λ h. (double, refl, of_double)
  do_type_check-Typed env (str_node p n) r = λ h. (str, refl, of_str)
  do_type_check-Typed env (ident_node p x) r = ident_result-Typed env p x r (env x) refl
  do_type_check-Typed env (array_node p x i) r =
      array_result-Typed env p x i r _ (env x) refl (do_type_check-Typed env i _)
  do_type_check-Typed env (call_node p f es) r =
      call_declared-Typed env p f es r _ (env f) refl (λ ts. check_args-Fitting env es ts r)

  check_args-Fitting :
      (env : Env) (es : Exprs) (ts : Tys) (r : Report)
      → Ensures (Fitting env es ts) (check_args env es ts r)
  check_args-Fitting env no_exprs none_left r = λ h k. no_arguments
  check_args-Fitting env no_exprs (arg t ts) r = λ h k. absurd (ground arith)
  check_args-Fitting env (expr_list p e es) none_left r = λ h k. absurd (ground arith)
  check_args-Fitting env (expr_list p e es) (arg t ts) r =
      Ensures-bind (Typed env e) (Fitting env (expr_list p e es) (arg t ts)) _ _
        (do_type_check-Typed env e r)
        (λ c hc.
          Ensures-bind (Suits env e t) (Fitting env (expr_list p e es) (arg t ts)) _ _
            (argument_ok-Suits env e t c hc)
            (λ b hb.
              Ensures-cases (Fitting env (expr_list p e es) (arg t ts)) b _ _
                (λ q.
                  Ensures-imp (Fitting env es ts) (Fitting env (expr_list p e es) (arg t ts)) _
                    (λ d hd f l. let (u, hu, cu) = hb q in argument hu cu (hd f l))
                    (check_args-Fitting env es ts c.report))
                (λ q. failed)))

-- ===== src/Tree/Check/Decides.antt =====
-- src/tree.c: `type_check` against the type system, on expressions that only index arrays.
use javalette.Tree.Check.Rules.{failed}
use javalette.Tree.Check.Complete.{Found, do_type_check-Found}
use javalette.Tree.Check.Loud.{
  later, both-Outcome, Outcome-if, undefined-Outcome, index_result-Outcome, unary_result-Outcome,
  ident_result-Outcome,
}
use javalette.Tree.Check.Sound.{Typed, do_type_check-Typed}
use javalette.Tree.Check.Typing.{HasType}
use javalette.Prelude.{
  ◌≡◌, ◌≤◌, ◌<◌, refl, sym, Option, none, some, true, false, Bool, length, Returns, Returns-bind,
  Returns-if, Returns-imp, ◌>>=◌, arith, subst, of_Returns, of_Ensures, Ensures-Returns,
}
use javalette.Types.{Ty, Tys, void, int, double, str, boolean, func, array, none_left, arg}
use javalette.Tree.{Pos}
use javalette.Tree.Scopes.{Decl}
use javalette.Tree.Exprs.{
  Expr, Exprs, binary, unary, int_node, bool_node, double_node, str_node, ident_node, array_node,
  call_node, no_exprs, expr_list,
}
use javalette.Tree.Check.{
  Env, Report, Checked, Called, do_type_check, check_args, call_of, call_declared, called,
  argument_ok, type_check, call_result, array_of, array_result, undefined_identifier, type_equiv,
  undefined_function, not_a_function, suppressed, error, wrong_count,
}
use javalette.Tree.Check.Reports.{
  Outcome, ArgumentsOutcome, Indexable, IndexableAll, IsArray, IsArrayIfDeclared, finish-false,
  finish-true,
}

array_of-Outcome :
    (p : Pos) (i : Expr) (r r' : Report) (index : Option Checked) (t : Ty)
    → length r.errors ≤ length r'.errors
    → IsArray t
    → Returns (Outcome r') index
    → Returns (Outcome r) (array_of p i index t)
array_of-Outcome p i r r' index (array a e n) le h o =
    Returns-bind (Outcome r') (Outcome r) index _ o
      (λ c oc. later r r' _ le (index_result-Outcome p i n e r' c oc))
array_of-Outcome p i r r' index void le h o = elim h [ ]
array_of-Outcome p i r r' index int le h o = elim h [ ]
array_of-Outcome p i r r' index double le h o = elim h [ ]
array_of-Outcome p i r r' index str le h o = elim h [ ]
array_of-Outcome p i r r' index boolean le h o = elim h [ ]
array_of-Outcome p i r r' index (func a t n ts) le h o = elim h [ ]

array_result-Outcome :
    (p : Pos) (i : Expr) (r r' : Report) (index : Option Checked) (d : Option Decl)
    → length r.errors ≤ length r'.errors
    → IsArrayIfDeclared d
    → Returns (Outcome r') index
    → Returns (Outcome r) (array_result p i r index d)
array_result-Outcome p i r r' index none le h o = undefined-Outcome p undefined_identifier r
array_result-Outcome p i r r' index (some d) le h o = array_of-Outcome p i r r' index d.type le h o

call_result-Outcome :
    (p : Pos) (t : Ty) (r : Report) (c : Called)
    → ArgumentsOutcome r c
    → Outcome r (call_result p t c)
call_result-Outcome p t r c o =
    Outcome-if r c.left _ _
      (λ q.
        let g = o.grown in
        finish-false p none r (suppressed (error p wrong_count c.report)) (omega arith)
          (λ k. omega arith))
      (λ q.
        Outcome-if r c.fits _ _ (λ f. finish-true p t r c.report o.grown (o.accepted f))
          (λ f. finish-false p none r c.report o.grown (λ k. (o.rejected f).1)))

call_of-Outcome :
    (p : Pos) (r : Report) (args : Tys → Option Called) (t : Ty)
    → ((ts : Tys) → Returns (ArgumentsOutcome r) (args ts))
    → Returns (Outcome r) (call_of p r args t)
call_of-Outcome p r args (func a t n ts) h =
    Returns-bind (ArgumentsOutcome r) (Outcome r) (args ts) _ (h ts)
      (λ c o. call_result-Outcome p t r c o)
call_of-Outcome p r args void h = undefined-Outcome p not_a_function r
call_of-Outcome p r args int h = undefined-Outcome p not_a_function r
call_of-Outcome p r args double h = undefined-Outcome p not_a_function r
call_of-Outcome p r args str h = undefined-Outcome p not_a_function r
call_of-Outcome p r args boolean h = undefined-Outcome p not_a_function r
call_of-Outcome p r args (array a e n) h = undefined-Outcome p not_a_function r

call_declared-Outcome :
    (p : Pos) (r : Report) (args : Tys → Option Called) (d : Option Decl)
    → ((ts : Tys) → Returns (ArgumentsOutcome r) (args ts))
    → Returns (Outcome r) (call_declared p r args d)
call_declared-Outcome p r args none h = undefined-Outcome p undefined_function r
call_declared-Outcome p r args (some d) h = call_of-Outcome p r args d.type h

-- Whether the argument fits is known, and a failed check of it stays known.
argument_ok-Known :
    (r : Report) (c : Checked) (t : Ty)
    → Outcome r c
    → Returns (λ b. b ≡ true → c.ok ≡ true) (argument_ok c t)
argument_ok-Known r c t o =
    Returns-if _ c.ok _ _
      (λ k.
        subst (λ x. Returns (λ b. b ≡ true → c.ok ≡ true) (x >>= λ u. some (type_equiv u t)))
          (sym (o.accepted k).1.1) (λ b. k))
      (λ k. failed)

no_more-Outcome :
    (r : Report) (l : Bool) → r.suppress ≡ false → ArgumentsOutcome r (called true l r)
no_more-Outcome r l q = record {
  grown = omega arith;
  accepted = λ h. q;
  rejected = λ h. failed (sym h);
}

later_arguments :
    (r r' : Report) (c : Called)
    → length r.errors ≤ length r'.errors
    → ArgumentsOutcome r' c
    → ArgumentsOutcome r c
later_arguments r r' c le o = record {
  grown = let k = o.grown in omega arith;
  accepted = o.accepted;
  rejected = λ h. let k = o.rejected h in (k.0, (let l = k.1 in omega arith));
}

mutual
  unfolding do_type_check check_args

  pub do_type_check-Outcome :
      (env : Env) (e : Expr) (r : Report)
      → Indexable env e
      → r.suppress ≡ false
      → Returns (Outcome r) (do_type_check env e r)
  do_type_check-Outcome env (binary op p a b) r (ha, hb) q =
      Returns-bind (Outcome r) (Outcome r) _ _ (do_type_check-Outcome env a r ha q) (λ l o.
        Returns-if (Outcome r) l.ok _ _
          (λ k.
            Returns-bind (Outcome l.report) (Outcome r) _ _
              (do_type_check-Outcome env b l.report hb (o.accepted k).0)
              (λ c oc. both-Outcome op p r l c (later r l.report c o.grown oc)))
          (λ k. finish-false p none r l.report o.grown (λ s. (o.rejected k).1)))
  do_type_check-Outcome env (unary op p a) r h q =
      Returns-bind (Outcome r) (Outcome r) _ _ (do_type_check-Outcome env a r h q) (λ c o.
        Returns-if (Outcome r) c.ok _ _ (λ k. unary_result-Outcome op p r c c.type refl k o)
          (λ k. finish-false p none r c.report o.grown (λ s. (o.rejected k).1)))
  do_type_check-Outcome env (int_node p n) r h q = finish-true p int r r (omega arith) q
  do_type_check-Outcome env (bool_node p n) r h q = finish-true p boolean r r (omega arith) q
  do_type_check-Outcome env (double_node p n) r h q = finish-true p double r r (omega arith) q
  do_type_check-Outcome env (str_node p n) r h q = finish-true p str r r (omega arith) q
  do_type_check-Outcome env (ident_node p x) r h q = ident_result-Outcome p r (env x) q
  do_type_check-Outcome env (array_node p x i) r (ha, hi) q =
      array_result-Outcome p i r (record r { suppress = false }) _ (env x) (omega arith) ha
        (do_type_check-Outcome env i (record r { suppress = false }) hi refl)
  do_type_check-Outcome env (call_node p f es) r h q =
      call_declared-Outcome p r _ (env f) (λ ts. check_args-Outcome env es ts r h q)

  check_args-Outcome :
      (env : Env) (es : Exprs) (ts : Tys) (r : Report)
      → IndexableAll env es
      → r.suppress ≡ false
      → Returns (ArgumentsOutcome r) (check_args env es ts r)
  check_args-Outcome env no_exprs none_left r h q = no_more-Outcome r false q
  check_args-Outcome env no_exprs (arg t ts) r h q = no_more-Outcome r true q
  check_args-Outcome env (expr_list p e es) none_left r h q = no_more-Outcome r true q
  check_args-Outcome env (expr_list p e es) (arg t ts) r (he, hs) q =
      Returns-bind (Outcome r) (ArgumentsOutcome r) _ _ (do_type_check-Outcome env e r he q) (λ c o.
        Returns-bind (λ b. b ≡ true → c.ok ≡ true) (ArgumentsOutcome r) _ _
          (argument_ok-Known r c t o)
          (λ b k.
            Returns-if (ArgumentsOutcome r) b _ _
              (λ s.
                Returns-imp (ArgumentsOutcome c.report) (ArgumentsOutcome r) _
                  (λ d od. later_arguments r c.report d o.grown od)
                  (check_args-Outcome env es ts c.report hs (o.accepted (k s)).0))
              (λ s.
                let g = o.grown in
                record {
                  grown = omega arith;
                  accepted = λ f. failed f;
                  rejected = λ f. (refl, omega arith);
                })))

-- On an expression that only indexes arrays, `type_check` returns. If it returns true, it has stored
-- a type that the rules give to the expression; if the rules give the expression a type, it returns
-- true and stores that type; if it returns false, it has printed an error.
pub type_check-decides :
    (env : Env) (e : Expr) (r : Report)
    → Indexable env e
    → Returns
        (λ c.
          Typed env e c
          × ((t : Ty) → HasType env e t → Found t c)
          × (c.ok ≡ false → length r.errors < length c.report.errors))
        (type_check env e r)
unfolding type_check
type_check-decides env e r h =
    let r0 : Report = record r { suppress = false } in
    let m = do_type_check env e r0 in
    let (c, ec, o) = of_Returns (Outcome r0) m (do_type_check-Outcome env e r0 h refl) in
    subst (Returns _) (sym ec) (
      of_Ensures (Typed env e) m c (do_type_check-Typed env e r0) ec,
      λ t ht.
          of_Ensures (Found t) m c (Ensures-Returns (Found t) m (do_type_check-Found env e t r0 ht))
            ec,
      λ k. (o.rejected k).1,
    )

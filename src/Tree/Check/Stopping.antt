-- ===== src/Tree/Check/Stopping.antt =====
-- src/tree.c: what a call with a wrong argument reports.
use javalette.Prelude.{ℕ, ◌≡◌, refl, some, true, false, Bool, List, ◌∷◌, Returns}
use javalette.Types.{Ty, Tys, func, arg}
use javalette.Tree.{Pos}
use javalette.Tree.Scopes.{Decl}
use javalette.Tree.Exprs.{Expr, Exprs, call_node, expr_list}
use javalette.Tree.Check.{
  Env, Report, Message, Checked, do_type_check, check_args, argument_ok, wrong_count,
  wrong_argument, called, error, suppressed, call_result, any_left,
}

-- The first arguments are right and the next one, at the position, is wrong: the arguments and the
-- parameters after it, and the report of its check.
pub data FirstWrong (env : Env) : Exprs → Tys → Report → Pos → Exprs → Tys → Report → Type 0 where
  here :
      {q : Pos} {e : Expr} {es : Exprs} {t : Ty} {ts : Tys} {r : Report} {c : Checked}
      → do_type_check env e r ≡ some c
      → argument_ok c t ≡ some false
      → FirstWrong env (expr_list q e es) (arg t ts) r q es ts c.report
  later :
      {q p : Pos} {e : Expr} {es es' : Exprs} {t : Ty} {ts ts' : Tys} {r r' : Report} {c : Checked}
      → do_type_check env e r ≡ some c
      → argument_ok c t ≡ some true
      → FirstWrong env es ts c.report p es' ts' r'
      → FirstWrong env (expr_list q e es) (arg t ts) r p es' ts' r'

check_args-FirstWrong :
    (env : Env) {es es' : Exprs} {ts ts' : Tys} {r r' : Report} {p : Pos}
    → FirstWrong env es ts r p es' ts' r'
    → check_args env es ts r
      ≡ some (called false (any_left es' ts') (error p wrong_argument (suppressed r')))
unfolding do_type_check check_args
check_args-FirstWrong env (here c a) = rw (c, a) refl
check_args-FirstWrong env (later c a w) = rw (c, a) (check_args-FirstWrong env w)

-- The messages of a call at `p` whose first wrong argument is at `q`.
abbrev pub messages : Pos → Pos → Bool → List (Pos × Message) → List (Pos × Message)
messages p q true errors = (p, wrong_count) ∷ (q, wrong_argument) ∷ errors
messages p q false errors = (q, wrong_argument) ∷ errors

stopped :
    (p q : Pos) (t : Ty) (b : Bool) (r : Report)
    → let c = call_result p t (called false b (error q wrong_argument (suppressed r))) in
      (c.ok ≡ false) × (c.report.errors ≡ messages p q b r.errors)
stopped p q t true r = (refl, refl)
stopped p q t false r = (refl, refl)

-- For a call of a declared function whose first wrong argument is at `q`, wherever in the list it
-- is: the check fails, and the wrong argument is reported. A wrong number of arguments is reported on
-- top of it exactly when an argument or a parameter is left after it, whether or not the numbers
-- agree.
pub do_type_check-FirstWrong :
    (env : Env) (p q : Pos) (f a n : ℕ) (ret : Ty) (es rest : Exprs) (ts left : Tys) (d : Decl)
    (r r' : Report)
    → env f ≡ some d
    → d.type ≡ func a ret n ts
    → FirstWrong env es ts r q rest left r'
    → Returns
        (λ c. (c.ok ≡ false) × (c.report.errors ≡ messages p q (any_left rest left) r'.errors))
        (do_type_check env (call_node p f es) r)
unfolding do_type_check
do_type_check-FirstWrong env p q f a n ret es rest ts left d r r' ef ed w =
    rw (ef, ed, check_args-FirstWrong env w) (stopped p q ret (any_left rest left) r')

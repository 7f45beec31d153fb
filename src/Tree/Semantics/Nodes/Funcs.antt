-- ===== src/Tree/Semantics/Nodes/Funcs.antt =====
-- src/tree.c: what the check of a function leaves.
use javalette.Prelude.{
  ℕ, ◌≡◌, refl, sym, ◌∙◌, subst, Bool, true, false, List, ◌∷◌, some, Ensures, Ensures-bind,
  Ensures-imp, ◌>>=◌, of_Ensures, if◌then◌else◌, if_elim, Ensures-Returns, assert, ◌>>◌,
  Ensures-assert,
}
use javalette.Types.{Ty, same_type, void}
use javalette.Tree.{Pos}
use javalette.Tree.Scopes.{push_scope, pop_scope}
use javalette.Tree.Scopes.Runs.{Runs, done}
use javalette.Tree.Scopes.Leaving.{Left, leave-Left}
use javalette.Tree.Instrs.{Func}
use javalette.Tree.Semantics.{
  State, Complaint, missing_return, call, start_function, end_function, gen_quadr_return,
  add_basic_blocks, new_basic_block, complain,
}
use javalette.Tree.Semantics.Nodes.{
  check_func, finish_func, return_of, enter, leave, check_args, do_semantic_check, is_block,
}
use javalette.Tree.Semantics.Nodes.Falling.{Falls, Verdict}
use javalette.Tree.Semantics.Nodes.Reach.{Reach, Ensures-self}
use javalette.Tree.Semantics.Nodes.Steps.{check_args-Reach}
use javalette.Tree.Semantics.Nodes.Returning.{Post, do_semantic_check-Post, enter-Entered}

-- The complaint about a missing return is the last one.
abbrev pub Missing : Pos → State → Type 0
Missing p s = (rest : List (Pos × Complaint)) × (s.complaints ≡ (p, missing_return) ∷ rest)

-- What is left of a function with this return type and body.
abbrev Ended : State → Func → Ty → State → Type 0
Ended s f ret s' =
    Left s.scopes s'.scopes × (Falls f.body → same_type ret void ≡ false → Missing f.pos s')

-- The answer where control can leave.
answered : (b : Bool) {F : Type 0} → F → Verdict b F → b ≡ false
answered false f v = refl
answered true f v = absurd (v.0 refl f)

module _ (w : ℕ) where
  finish_func-scopes :
      (p : Pos) (ret : Ty) (b : Bool) (s : State) → (finish_func w p ret b s).scopes ≡ s.scopes
  finish_func-scopes p ret true s = refl
  finish_func-scopes p ret false s =
      if_elim (λ (t : State). t.scopes ≡ s.scopes) (same_type ret void) _ _ refl refl

  finish_func-Missing :
      (p : Pos) (ret : Ty) (b : Bool) (s : State)
      → b ≡ false
      → same_type ret void ≡ false
      → Missing p (finish_func w p ret b s)
  finish_func-Missing p ret b s e k =
      subst (λ b. Missing p (finish_func w p ret b s)) (sym e)
        (subst
          (λ v. Missing p (
            if v
            then call end_function
                (call gen_quadr_return (call (add_basic_blocks s.blocks) (new_basic_block s)))
            else call end_function (complain p missing_return s)))
          (sym k) (s.complaints, refl))

  leave_keeps :
      (s : State)
      → Ensures
          (λ s1. (pop_scope s.scopes ≡ some s1.scopes) × (s1.complaints ≡ s.complaints))
          (leave w s)
  leave_keeps s =
      Ensures-bind (λ t. pop_scope s.scopes ≡ some t)
        (λ s1. (pop_scope s.scopes ≡ some s1.scopes) × (s1.complaints ≡ s.complaints))
        (pop_scope s.scopes) _ (Ensures-self w (pop_scope s.scopes)) (λ t e. (e, refl))

  Missing-leave :
      (p : Pos) (s s' : State) → s'.complaints ≡ s.complaints → Missing p s → Missing p s'
  Missing-leave p s s' e (rest, k) = (rest, e ∙ k)

  -- The end of the function, entered in `s`, with its body checked from `s1`.
  leave-Ended :
      (s s1 : State) (f : Func) (ret : Ty) (r : Bool × State)
      → push_scope s.scopes ≡ some s1.scopes
      → Post w s1 (Falls f.body) r
      → Ensures (Ended s f ret) (leave w (finish_func w f.pos ret r.0 r.1))
  leave-Ended s s1 f ret r e h =
      let end = finish_func w f.pos ret r.0 r.1 in
      let runs : Runs w s1.scopes end.scopes =
        subst (Runs w s1.scopes) (sym (finish_func-scopes f.pos ret r.0 r.1)) h.0 in
      Ensures-imp (λ s2. (pop_scope end.scopes ≡ some s2.scopes) × (s2.complaints ≡ end.complaints))
        (Ended s f ret) (leave w end)
        (λ s2 k. (
          of_Ensures (Left s.scopes) (pop_scope end.scopes) s2.scopes
              (Ensures-Returns (Left s.scopes) (pop_scope end.scopes)
                (leave-Left w s.scopes s1.scopes end.scopes e runs))
              k.0,
          λ falls v.
              Missing-leave f.pos end s2 k.1
                (finish_func-Missing f.pos ret r.0 r.1 (answered r.0 falls h.1) v),
        ))
        (leave_keeps end)

  body-Ended :
      (s : State) (f : Func) (ret : Ty)
      → Ensures (Ended s f ret) (
          enter w s >>= λ s. check_args w f.args (call (start_function f.ident) s) >>= λ s.
          assert (is_block w f.body)
          >> (do_semantic_check w ret f.body s >>= λ r. leave w (finish_func w f.pos ret r.0 r.1)))
  body-Ended s f ret =
      Ensures-bind (λ s1. push_scope s.scopes ≡ some s1.scopes) (Ended s f ret) _ _
        (enter-Entered w s)
        (λ s1 e.
          Ensures-bind (Reach w s1) (Ended s f ret) _ _
            (check_args-Reach w s1 (call (start_function f.ident) s1) f.args done)
            (λ s2 h2. Ensures-assert (Ended s f ret) (is_block w f.body) _ (
              Ensures-bind (Post w s1 (Falls f.body)) (Ended s f ret) _ _
                (do_semantic_check-Post w ret f.body s1 s2 h2)
                (λ r hr. leave-Ended s s1 f ret r e hr))))

  -- When the check of a function completes, every symbol has the declarations it had before, and if
  -- control can leave the body at its end and the function returns a value, the last message is the
  -- one about the missing `return`.
  pub check_func-Ended :
      (f : Func) (ret : Ty) (s s' : State)
      → return_of w f.type ≡ some ret
      → check_func w f s ≡ some s'
      → Left s.scopes s'.scopes × (Falls f.body → same_type ret void ≡ false → Missing f.pos s')
  unfolding check_func
  check_func-Ended f ret s s' e k =
      of_Ensures (Ended s f ret) (check_func w f s) s'
        (subst
          (λ o. Ensures (Ended s f ret) (
            o >>= λ ret. enter w s >>= λ s.
            check_args w f.args (call (start_function f.ident) s) >>= λ s.
            assert (is_block w f.body)
            >> (do_semantic_check w ret f.body s >>= λ r.
                leave w (finish_func w f.pos ret r.0 r.1))))
          (sym e) (body-Ended s f ret))
        k

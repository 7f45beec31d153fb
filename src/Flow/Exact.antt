-- ===== src/Flow/Exact.antt =====
-- src/flow.c: the liveness analysis of a function, and the variables that are live.
use javalette.Prelude.{
  ℕ, zero, suc, ◌+◌, Bool, true, false, ◌≡◌, refl, sym, ◌∙◌, ap, ◌<◌, ◌≤◌, List, [], ◌∷◌, arith,
  length, Returns, Returns-imp, ◌↔◌, if_elim,
}
use javalette.Quadr.{
  Quadr, QuadrArg, qa_none, qa_var, qa_int, qa_double, qa_label, qa_str, qa_func, used_in_quadr,
  assigned_in_quadr,
}
use javalette.Flow.{VarSet, FlowData, compute_live_def_use, live_rounds, use_arg, use_result}
use javalette.Flow.Liveness.{Analysis, start_flow, start_analysis, analyze_liveness}
use javalette.Flow.Effects.{in_of, out_of}
use javalette.Flow.Live.{Live, LiveAfter, IsValid, here, later}
use javalette.Flow.Occurrences.{first_use, first_set, is_some, compute_live_def_use-Says}
use javalette.Flow.Graph.{CodeFits, code_at, flow_graph, code_at-fits, flow_graph-inside}
use javalette.Flow.Loop.{
  Reach, Settled, missing-bound, liveness_loop-Settled, Settled-in, Settled-out,
}

-- Whether the block uses the variable before it sets it, and the other way round.
abbrev pub uses_first : List (List Quadr) → ℕ → ℕ → Bool
uses_first codes b v = is_some (first_use (code_at codes b) v)

abbrev pub sets_first : List (List Quadr) → ℕ → ℕ → Bool
sets_first codes b v = first_set (code_at codes b) v

Live-fits :
    (vars : ℕ) (codes : List (List Quadr)) (v b : ℕ)
    → CodeFits (length codes) vars codes
    → Live (flow_graph codes) (uses_first codes) (sets_first codes) v b
    → v < vars
Live-fits vars codes v b h (here u) = code_at-fits (length codes) vars codes b v h u
Live-fits vars codes v b h (later d e l) = Live-fits vars codes v _ h l

plus_two : (m n : ℕ) → m ≤ n → m + 2 ≤ suc (suc n)
plus_two m n h = omega (arith, h)

module _ {S : Type 0} ⦃sets : VarSet S⦄ where
  use_arg-out : (a : QuadrArg) (i : ℕ) (fd : FlowData S) → (use_arg a i fd).live_out ≡ fd.live_out
  use_arg-out (qa_var x) i fd = refl
  use_arg-out qa_none i fd = refl
  use_arg-out (qa_int n) i fd = refl
  use_arg-out (qa_double n) i fd = refl
  use_arg-out (qa_label n) i fd = refl
  use_arg-out (qa_str n) i fd = refl
  use_arg-out (qa_func n) i fd = refl

  use_result-out :
      (q : Quadr) (r : QuadrArg) (i : ℕ) (fd : FlowData S)
      → (use_result q r i fd).live_out ≡ fd.live_out
  use_result-out q (qa_var x) i fd =
      let same = λ (d : FlowData S). d.live_out ≡ fd.live_out in
      if_elim same (assigned_in_quadr q x) _ _ refl (if_elim same (used_in_quadr q x) _ _ refl refl)
  use_result-out q qa_none i fd = refl
  use_result-out q (qa_int n) i fd = refl
  use_result-out q (qa_double n) i fd = refl
  use_result-out q (qa_label n) i fd = refl
  use_result-out q (qa_str n) i fd = refl
  use_result-out q (qa_func n) i fd = refl

  live_rounds-out :
      (qs : List Quadr) (i : ℕ) (fd : FlowData S) → (live_rounds qs i fd).live_out ≡ fd.live_out
  live_rounds-out [] i fd = refl
  live_rounds-out (q ∷ qs) i fd =
      use_arg-out q.arg2 i _
      ∙ use_arg-out q.arg1 i _
      ∙ use_result-out q q.result i _
      ∙ live_rounds-out qs (suc i) fd

  abbrev Starts : List (List Quadr) → ℕ → FlowData S → Type 0
  Starts codes b fd =
      (v : ℕ)
      → (sets.member fd.live_def v ≡ sets_first codes b v)
        × (sets.member fd.live_in v ≡ uses_first codes b v)
        × (sets.member fd.live_out v ≡ false)

module _ (S : Type 0) ⦃sets : VarSet S⦄ where
  start_flow-Starts :
      (codes : List (List Quadr)) (b : ℕ) → Starts codes b (start_flow {S = S} codes b)
  start_flow-Starts [] b v = (sets.member-empty v, sets.member-empty v, sets.member-empty v)
  start_flow-Starts (code ∷ codes) zero v =
      unfold compute_live_def_use in
      let says = compute_live_def_use-Says {S = S} code v in
      (
        says.in_def,
        says.in_use,
        ap (λ z. sets.member z v) (live_rounds-out code 0 _) ∙ sets.member-empty v,
      )
  start_flow-Starts (code ∷ codes) (suc b) v = start_flow-Starts codes b v

  start-IsValid :
      (codes : List (List Quadr))
      → IsValid {S = S}
          (flow_graph codes)
          (uses_first codes)
          (sets_first codes)
          (start_analysis codes)
  start-IsValid codes = record {
    def_is = λ b v. (start_flow-Starts codes b v).0;
    uses_in = λ b v h. (start_flow-Starts codes b v).1 ∙ h;
    in_live = λ b v h. here (sym (start_flow-Starts codes b v).1 ∙ h);
    out_live = λ b v h. let out = (start_flow-Starts codes b v).2 in cc;
  }

  analyze_liveness-Settled :
      (vars : ℕ) (code : List Quadr) (rest : List (List Quadr))
      → CodeFits (length (code ∷ rest)) vars (code ∷ rest)
      → let codes = code ∷ rest in
        Returns
          (Settled {S = S}
            (length codes)
            vars
            (flow_graph codes)
            (uses_first codes)
            (sets_first codes))
          (analyze_liveness vars codes)
  unfolding analyze_liveness
  analyze_liveness-Settled vars code rest h =
      let codes = code ∷ rest in
      liveness_loop-Settled (length codes) vars (flow_graph codes) (uses_first codes)
        (sets_first codes) _ (start_analysis codes) (λ v b l. Live-fits vars codes v b h l)
        (λ b c e. flow_graph-inside vars codes b c h e) (omega arith) (start-IsValid codes) refl
        (plus_two _ _ (missing-bound {S = S} vars (length codes) (start_analysis codes)))

  -- For the code of a function, whose labels are blocks and whose variables are below `vars`, and a
  -- block that control can reach: `analyze_liveness` ends, with `changed` false, `live_in` of the
  -- block has just the variables that are live at its start, and `live_out` those at its end.
  pub analyze_liveness-Live :
      (vars : ℕ) (code : List Quadr) (rest : List (List Quadr)) (b v : ℕ)
      → CodeFits (length (code ∷ rest)) vars (code ∷ rest)
      → Reach (flow_graph (code ∷ rest)) b
      → let codes = code ∷ rest in
        Returns
          (λ (a : Analysis S).
            (a.changed ≡ false)
            × ((in_of a b v ≡ true)
                ↔ Live (flow_graph codes) (uses_first codes) (sets_first codes) v b)
            × ((out_of a b v ≡ true)
                ↔ LiveAfter (flow_graph codes) (uses_first codes) (sets_first codes) v b))
          (analyze_liveness vars codes)
  analyze_liveness-Live vars code rest b v h r =
      let codes = code ∷ rest in
      let g = flow_graph codes in
      let uses = uses_first codes in
      let defs = sets_first codes in
      Returns-imp (Settled {S = S} (length codes) vars g uses defs) _ _
        (λ a s. (
          s.still,
          Settled-in (length codes) vars g uses defs a v b s r,
          Settled-out (length codes) vars g uses defs a v b s r,
        ))
        (analyze_liveness-Settled vars code rest h)

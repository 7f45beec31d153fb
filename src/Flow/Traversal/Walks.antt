-- ===== src/Flow/Traversal/Walks.antt =====
-- src/flow.c: each call of `do_liveness` walks to the end.
use javalette.Prelude.{
  ℕ, zero, suc, Bool, true, false, ◌==◌, ◌≡◌, refl, sym, ◌∙◌, subst, Bool-cases, inl, inr, ◌<◌, ◌≤◌,
  ==_iff, Option, some, none, Returns, Returns-bind, Returns-imp, arith, ==_refl,
}
use javalette.Flow.{VarSet, Children}
use javalette.Flow.Liveness.{Analysis, compute_in_out, visit, descend, do_liveness}
use javalette.Flow.Effects.{in_of}
use javalette.Flow.Live.{IsChild, Live, IsValid}
use javalette.Flow.Live.Passing.{
  Later, Later-refl, Later-trans, Passed, Passed-Later, InOut, above, compute_in_out-InOut,
}
use javalette.Flow.Traversal.{
  unmarked, unmarked_mono, unmarked-assign, marked_still, Finished, Traversed, Traversed-refl,
  Finished-Later, some-injective, Traversed-trans, marked_before,
}

module _ {S : Type 0} ⦃sets : VarSet S⦄ (blocks vars : ℕ) (g : ℕ → Children)
    (uses defs : ℕ → ℕ → Bool) where
  -- As in Traversal, for this analysis.
  abbrev Walked : Analysis S → Analysis S → Type 0
  Walked = Traversed blocks vars g uses defs

  module _ (few : (v b : ℕ) → Live g uses defs v b → v < vars)
      (inside : (b c : ℕ) → IsChild g b c → c < blocks) where
    -- The calls on blocks that are not visited yet, with so much fuel.
    abbrev Walks : ℕ → (ℕ → Analysis S → Option (Analysis S)) → Type 0
    Walks fuel f =
        (b : ℕ) (a : Analysis S)
        → b < blocks
        → a.visited b ≡ false
        → unmarked blocks a.visited ≤ fuel
        → IsValid g uses defs a
        → Returns (λ a'. Walked a a' × (a'.visited b ≡ true)) (f b a)

    abbrev Reached : Option ℕ → Analysis S → Type 0
    Reached o a = (c : ℕ) → o ≡ some c → a.visited c ≡ true

    descend-Traversed :
        (fuel : ℕ) (f : ℕ → Analysis S → Option (Analysis S)) (o : Option ℕ) (a : Analysis S)
        → Walks fuel f
        → ((c : ℕ) → o ≡ some c → c < blocks)
        → unmarked blocks a.visited ≤ fuel
        → IsValid g uses defs a
        → Returns (λ a'. Walked a a' × Reached o a') (descend f o a)
    descend-Traversed fuel f none a h l m s =
        (Traversed-refl blocks vars g uses defs a s, λ c e. cc)
    descend-Traversed fuel f (some c) a h l m s = elim (Bool-cases (a.visited c)) [
      | inl e ↦ rw e (
        Traversed-refl blocks vars g uses defs a s,
        λ x q. subst (λ z. a.visited z ≡ true) (some-injective c x q) e,
      )
      | inr e ↦ rw e (
          Returns-imp (λ a'. Walked a a' × (a'.visited c ≡ true)) _ _
            (λ a' t. (t.0, λ x q. subst (λ z. a'.visited z ≡ true) (some-injective c x q) t.1))
            (h c a (l c refl) e m s))
    ]

    -- One child of a block, whose variables a step from `a` to `a'` has passed on.
    child_finished :
        (b c : ℕ) (o : Option ℕ) (a a' a'' : Analysis S)
        → o ≡ some c
        → Reached o a
        → InOut blocks vars g uses defs b (above blocks vars g uses defs few a o) a a'
        → Later blocks vars a' a''
        → ((x : ℕ) → a.visited x ≡ true → a''.visited x ≡ true)
        → (a''.visited c ≡ true)
          × (a''.changed ≡ false → (v : ℕ) → in_of a'' c v ≡ true → Passed blocks vars defs b v a'')
    child_finished b c o a a' a'' e r i l m =
        let all = Later-trans blocks vars a a' a'' i.later l in
        (
          m c (r c e),
          λ q v h.
              Passed-Later blocks vars defs b v a' a'' l (i.passed v (rw e (all.quiet q c v h))),
        )

    -- The block itself, after its children.
    close_block :
        (b : ℕ) (a a2 : Analysis S)
        → b < blocks
        → Walked (visit b a) a2
        → Reached (g b).child1 a2
        → Reached (g b).child2 a2
        → Walked a (compute_in_out b (g b).child2 (compute_in_out b (g b).child1 a2))
          × ((compute_in_out b (g b).child2 (compute_in_out b (g b).child1 a2)).visited b ≡ true)
    close_block b a a2 p t r1 r2 =
        let i1 =
          compute_in_out-InOut blocks vars g uses defs few b (g b).child1 a2 p (λ c e. inl e)
            t.valid in
        let i2 =
          compute_in_out-InOut blocks vars g uses defs few b (g b).child2 _ p (λ c e. inr e)
            i1.valid in
        let a3 = compute_in_out b (g b).child1 a2 in
        let a4 = compute_in_out b (g b).child2 a3 in
        let l : Later blocks vars a2 a4 = Later-trans blocks vars a2 a3 a4 i1.later i2.later in
        let same : (x : ℕ) → a4.visited x ≡ a2.visited x = λ x. i2.marks x ∙ i1.marks x in
        let keep : (x : ℕ) → a2.visited x ≡ true → a4.visited x ≡ true = λ x h. same x ∙ h in
        let own : Finished blocks vars g uses defs b a4 = λ c e. elim e [
          | inl q ↦ child_finished b c (g b).child1 a2 a3 a4 q r1 i1 i2.later keep
          | inr q ↦
              child_finished b c (g b).child2 a3 a4 a4 q (λ x k. i1.marks x ∙ r2 x k) i2
                (Later-refl blocks vars a4 a4 refl refl) (λ x h. i2.marks x ∙ h)
        ] in
        let here = keep b (t.grows b (rw (==_refl b) refl)) in
        (
          record {
            valid = i2.valid;
            later =
                Later-trans blocks vars a (visit b a) a4
                  (Later-refl blocks vars a (visit b a) refl refl)
                  (Later-trans blocks vars (visit b a) a2 a4 t.later l);
            grows = λ x h. keep x (t.grows x (marked_still b x a.visited h));
            finished = λ x h. elim (t.finished x (sym (same x) ∙ h)) [
              | inl m ↦ elim (Bool-cases (b == x)) [
                | inl q ↦
                    inr (subst (λ z. Finished blocks vars g uses defs z a4) ((==_iff b x).0 q) own)
                | inr q ↦ inl (marked_before b x a.visited q m)
              ]
              | inr f ↦ inr (Finished-Later blocks vars g uses defs x a2 a4 l keep f)
            ];
          },
          here,
        )

    -- A call on a block that is not visited returns, when its fuel is at least the number of the
    -- blocks that are not.
    pub do_liveness-Walks : (fuel : ℕ) → Walks fuel (do_liveness g fuel)
    unfolding do_liveness
    do_liveness-Walks zero b a p e m s =
        let fewer = unmarked-assign blocks b a.visited p e in ground arith
    do_liveness-Walks (suc fuel) b a p e m s =
        let fewer = unmarked-assign blocks b a.visited p e in
        let a0 = visit b a in
        let s0 : IsValid g uses defs a0 = record {
          def_is = s.def_is;
          uses_in = s.uses_in;
          in_live = s.in_live;
          out_live = s.out_live;
        } in
        Returns-bind (λ a1. Walked a0 a1 × Reached (g b).child1 a1) _ _ _
          (descend-Traversed fuel (do_liveness g fuel) (g b).child1 a0 (do_liveness-Walks fuel)
            (λ c q. inside b c (inl q)) (omega (arith, fewer, m)) s0)
          (λ a1 (t1, r1).
            Returns-bind (λ a2. Walked a1 a2 × Reached (g b).child2 a2) _ _ _
              (descend-Traversed fuel (do_liveness g fuel) (g b).child2 a1 (do_liveness-Walks fuel)
                (λ c q. inside b c (inr q))
                (omega (arith, fewer, m, unmarked_mono blocks a0.visited a1.visited t1.grows))
                t1.valid)
              (λ a2 (t2, r2).
                close_block b a a2 p (Traversed-trans blocks vars g uses defs a0 a1 a2 t1 t2)
                  (λ c q. t2.grows c (r1 c q)) r2))

-- ===== src/Flow/Live/Passing.antt =====
-- src/flow.c: how the analysis goes on from one state to a later one.
use javalette.Prelude.{
  ℕ, Bool, true, false, ◌==◌, ◌≡◌, refl, sym, ◌∙◌, subst, ap, ==_refl, Bool-cases, ◌⊎◌, inl, inr,
  ◌<◌, ==_iff, Option, some, none, List, [], ◌∷◌, ap,
}
use javalette.Flow.{VarSet, Children, mem}
use javalette.Flow.Liveness.{Analysis, in_out_node, in_out_nodes, compute_in_out}
use javalette.Flow.Effects.{in_of, out_of, def_of, Effect, enters, in_out_node-Effect}
use javalette.Flow.Live.{
  IsChild, Live, IsValid, node-IsValid, entered, entering, or_right, or_false, or_rest, enters-in,
}

module _ {S : Type 0} ⦃sets : VarSet S⦄ (blocks vars : ℕ) where
  -- A variable that `a` does not have in `live_in` of a block and `a'` has.
  abbrev pub New : Analysis S → Analysis S → Type 0
  New a a' =
      (b : ℕ) × (v : ℕ) × (b < blocks) × (v < vars) × (in_of a b v ≡ false) × (in_of a' b v ≡ true)

  -- The sets only grow, and `changed` says whether a `live_in` has grown.
  pub record Later (a a' : Analysis S) : Type 0 where
    pub ins : (b v : ℕ) → in_of a b v ≡ true → in_of a' b v ≡ true
    pub outs : (b v : ℕ) → out_of a b v ≡ true → out_of a' b v ≡ true
    pub flag : a'.changed ≡ false → a.changed ≡ false
    pub quiet : a'.changed ≡ false → (b v : ℕ) → in_of a' b v ≡ true → in_of a b v ≡ true
    pub news : a'.changed ≡ true → (a.changed ≡ true) ⊎ New a a'

  pub Later-refl : (a a' : Analysis S) → (a'.flow ≡ a.flow) → (a'.changed ≡ a.changed) → Later a a'
  Later-refl a a' e f = record {
    ins = λ b v h. ap (λ z. sets.member (z b).live_in v) e ∙ h;
    outs = λ b v h. ap (λ z. sets.member (z b).live_out v) e ∙ h;
    flag = λ h. sym f ∙ h;
    quiet = λ q b v h. ap (λ z. sets.member (z b).live_in v) (sym e) ∙ h;
    news = λ h. inl (sym f ∙ h);
  }

  earlier_false :
      (a a' : Analysis S) (b v : ℕ) → Later a a' → in_of a' b v ≡ false → in_of a b v ≡ false
  earlier_false a a' b v l h = elim (Bool-cases (in_of a b v)) [
    | inl e ↦ let later = l.ins b v e in cc
    | inr e ↦ e
  ]

  pub Later-trans : (a b c : Analysis S) → Later a b → Later b c → Later a c
  Later-trans a b c l k = record {
    ins = λ x v h. k.ins x v (l.ins x v h);
    outs = λ x v h. k.outs x v (l.outs x v h);
    flag = λ h. l.flag (k.flag h);
    quiet = λ q x v h. l.quiet (k.flag q) x v (k.quiet q x v h);
    news = λ h. elim (k.news h) [
      | inl e ↦ elim (l.news e) [
        | inl f ↦ inl f
        | inr (x, v, p, q, m, n) ↦ inr (x, v, p, q, m, k.ins x v n)
      ]
      | inr (x, v, p, q, m, n) ↦ inr (x, v, p, q, earlier_false a b x v l m, n)
    ];
  }

  pub Effect-Later :
      (b v : ℕ) (a a' : Analysis S)
      → b < blocks
      → v < vars
      → Effect a a' b v (enters a b v) true
      → Later a a'
  Effect-Later b v a a' p q f = record {
    ins = λ x w h. f.ins x w ∙ or_right _ _ h;
    outs = λ x w h. f.outs x w ∙ or_right _ _ h;
    flag = λ h. (or_false _ _ (sym f.flag ∙ h)).1;
    quiet = λ u x w h. elim (entered (enters a b v) b x v w (in_of a x w) (sym (f.ins x w) ∙ h)) [
      | inl m ↦ m
      | inr (i, _, _) ↦ let same = (or_false (enters a b v) a.changed (sym f.flag ∙ u)).0 in cc
    ];
    news = λ h. elim (Bool-cases (enters a b v)) [
      | inl i ↦ inr (b, v, p, q, enters-in a b v i, f.ins b v ∙ entering _ b v _ i)
      | inr i ↦ inl (or_rest _ _ i (sym f.flag ∙ h))
    ];
  }

  -- The variable has reached the block from a child.
  abbrev pub Passed : (ℕ → ℕ → Bool) → ℕ → ℕ → Analysis S → Type 0
  Passed defs b v a = (out_of a b v ≡ true) × (defs b v ≡ false → in_of a b v ≡ true)

  pub Passed-Later :
      (defs : ℕ → ℕ → Bool) (b v : ℕ) (a a' : Analysis S)
      → Later a a'
      → Passed defs b v a
      → Passed defs b v a'
  Passed-Later defs b v a a' l p = (l.outs b v p.0, λ d. l.ins b v (p.1 d))

  Effect-Passed :
      (defs : ℕ → ℕ → Bool) (b v : ℕ) (a a' : Analysis S)
      → def_of a b v ≡ defs b v
      → Effect a a' b v (enters a b v) true
      → Passed defs b v a'
  Effect-Passed defs b v a a' d f = (
    f.outs b v ∙ entering true b v _ refl,
    λ n. elim (Bool-cases (in_of a b v)) [
      | inl m ↦ f.ins b v ∙ or_right _ _ m
      | inr m ↦ f.ins b v ∙ entering (enters a b v) b v (in_of a b v) (rw (d ∙ n, m) refl)
    ],
  )

  -- What a call of `compute_in_out`, or a part of one, has done for the variables of `P`.
  pub record InOut (g : ℕ → Children) (uses defs : ℕ → ℕ → Bool) (b : ℕ) (P : ℕ → Bool)
      (a a' : Analysis S) : Type 0 where
    pub valid : IsValid g uses defs a'
    pub later : Later a a'
    pub marks : (x : ℕ) → a'.visited x ≡ a.visited x
    pub passed : (v : ℕ) → P v ≡ true → Passed defs b v a'

  module _ (g : ℕ → Children) (uses defs : ℕ → ℕ → Bool)
      (few : (v b : ℕ) → Live g uses defs v b → v < vars) where
    in_out_nodes-InOut :
        (b c : ℕ) (vs : List ℕ) (a : Analysis S)
        → b < blocks
        → IsChild g b c
        → ((v : ℕ) → mem vs v ≡ true → in_of a c v ≡ true)
        → IsValid g uses defs a
        → InOut g uses defs b (mem vs) a (in_out_nodes b c vs a)
    in_out_nodes-InOut b c [] a p e m s = record {
      valid = s;
      later = Later-refl a a refl refl;
      marks = λ x. refl;
      passed = λ v h. cc;
    }
    in_out_nodes-InOut b c (v ∷ vs) a p e m s =
        let f = in_out_node-Effect b c v a in
        let here = m v (rw (==_refl v) refl) in
        let l = Effect-Later b v a _ p (few v c (s.in_live c v here)) f in
        let t = node-IsValid g uses defs b c v a _ e here f s in
        let r =
          in_out_nodes-InOut b c vs (in_out_node b c v a) p e
            (λ w h. l.ins c w (m w (or_right (v == w) _ h))) t in
        record {
          valid = r.valid;
          later = Later-trans a _ _ l r.later;
          marks = λ x. r.marks x ∙ f.marks x;
          passed = λ w h. elim (Bool-cases (v == w)) [
            | inl q ↦ Passed-Later defs b w _ _ r.later (
                subst (λ z. Passed defs b z (in_out_node b c v a)) ((==_iff v w).0 q)
                  (Effect-Passed defs b v a _ (s.def_is b v) f))
            | inr q ↦ r.passed w (or_rest _ _ q h)
          ];
        }

    -- The variables of the successor's set.
    abbrev pub above : Analysis S → Option ℕ → ℕ → Bool
    above a none v = false
    above a (some c) v = in_of a c v

    pub compute_in_out-InOut :
        (b : ℕ) (o : Option ℕ) (a : Analysis S)
        → b < blocks
        → ((c : ℕ) → o ≡ some c → IsChild g b c)
        → IsValid g uses defs a
        → InOut g uses defs b (above a o) a (compute_in_out b o a)
    unfolding compute_in_out
    compute_in_out-InOut b none a p e s = record {
      valid = s;
      later = Later-refl a a refl refl;
      marks = λ x. refl;
      passed = λ v h. cc;
    }
    compute_in_out-InOut b (some c) a p e s =
        let set = (a.flow c).live_in in
        let r =
          in_out_nodes-InOut b c (sets.keys set) a p (e c refl)
            (λ v h. sym (sets.mem-keys set v) ∙ h) s in
        record {
          valid = r.valid;
          later = r.later;
          marks = r.marks;
          passed = λ v h. r.passed v (sets.mem-keys set v ∙ h);
        }

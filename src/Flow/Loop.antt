-- ===== src/Flow/Loop.antt =====
-- src/flow.c: the passes of `analyze_liveness` come to an end.

use javalette.Prelude.{
  ℕ, zero, suc, ◌+◌, ◌*◌, Bool, true, false, ◌==◌, ◌≡◌, refl, subst, Bool-cases, ◌⊎◌, inl, inr, ◌<◌,
  ◌≤◌, ==_iff, some, Returns, Returns-bind, arith, ◌↔◌, Returns-if,
}
use javalette.Flow.{VarSet, Children, assign}
use javalette.Flow.Liveness.{Analysis, begin_pass, liveness_loop}
use javalette.Flow.Effects.{in_of, out_of}
use javalette.Flow.Live.{IsChild, Live, LiveAfter, IsValid, here, later}
use javalette.Flow.Live.Passing.{New}
use javalette.Flow.Traversal.{
  unmarked, unmarked_mono, unmarked-assign, marked_before, Finished, Traversed,
}
use javalette.Flow.Traversal.Walks.{do_liveness-Walks}

unmarked-bound : (n : ℕ) (f : ℕ → Bool) → unmarked n f ≤ n
unmarked-bound zero f = omega arith
unmarked-bound (suc n) f =
    let rest = unmarked-bound n f in
    elim (Bool-cases (f n)) [
      | inl e ↦ rw e (omega (arith, rest))
      | inr e ↦ rw e (omega (arith, rest))
    ]

-- One mark more.
unmarked-less :
    (n v : ℕ) (f g : ℕ → Bool)
    → v < n
    → ((x : ℕ) → f x ≡ true → g x ≡ true)
    → f v ≡ false
    → g v ≡ true
    → unmarked n g < unmarked n f
unmarked-less n v f g p h no_mark mark =
    let wider = unmarked_mono n (assign v true f) g (λ x e. elim (Bool-cases (v == x)) [
      | inl q ↦ subst (λ z. g z ≡ true) ((==_iff v x).0 q) mark
      | inr q ↦ h x (marked_before v x f q e)
    ]) in
    omega (arith, wider, unmarked-assign n v f p no_mark)

-- The blocks that control can reach from the first one.
pub data Reach (g : ℕ → Children) : ℕ → Type 0 where
  entry : Reach g 0
  step : {b c : ℕ} → Reach g b → IsChild g b c → Reach g c

module _ {S : Type 0} ⦃sets : VarSet S⦄ (vars : ℕ) where
  -- The pairs of a block below `n` and a variable that its `live_in` lacks.
  abbrev pub missing : ℕ → Analysis S → ℕ
  missing zero a = 0
  missing (suc n) a = unmarked vars (λ v. in_of a n v) + missing n a

  pub missing-bound : (n : ℕ) (a : Analysis S) → missing n a ≤ n * vars
  missing-bound zero a = omega arith
  missing-bound (suc n) a = omega (arith, unmarked-bound vars (λ v. in_of a n v), missing-bound n a)

  missing_mono :
      (n : ℕ) (a a' : Analysis S)
      → ((b v : ℕ) → in_of a b v ≡ true → in_of a' b v ≡ true)
      → missing n a' ≤ missing n a
  missing_mono zero a a' h = omega arith
  missing_mono (suc n) a a' h = omega (
    arith,
    unmarked_mono vars (λ v. in_of a n v) (λ v. in_of a' n v) (h n),
    missing_mono n a a' h,
  )

  missing-less :
      (n b v : ℕ) (a a' : Analysis S)
      → b < n
      → v < vars
      → ((b v : ℕ) → in_of a b v ≡ true → in_of a' b v ≡ true)
      → in_of a b v ≡ false
      → in_of a' b v ≡ true
      → missing n a' < missing n a
  missing-less zero b v a a' p q h m k = ground arith
  missing-less (suc n) b v a a' p q h m k = elim (Bool-cases (b == n)) [
    | inl e ↦
        let less =
          unmarked-less vars v (λ v. in_of a n v) (λ v. in_of a' n v) q (h n)
            (subst (λ z. in_of a z v ≡ false) ((==_iff b n).0 e) m)
            (subst (λ z. in_of a' z v ≡ true) ((==_iff b n).0 e) k) in
        omega (arith, less, missing_mono n a a' h)
    | inr e ↦
        let wider = unmarked_mono vars (λ v. in_of a n v) (λ v. in_of a' n v) (h n) in
        let other : b < n = ground arith in
        omega (arith, wider, missing-less n b v a a' other q h m k)
  ]

module _ {S : Type 0} ⦃sets : VarSet S⦄ (blocks vars : ℕ) (g : ℕ → Children)
    (uses defs : ℕ → ℕ → Bool) where
  -- A pass has been made in which nothing changed.
  pub record Settled (a : Analysis S) : Type 0 where
    pub valid : IsValid g uses defs a
    pub still : a.changed ≡ false
    pub done : (b : ℕ) → Reach g b → (a.visited b ≡ true) × Finished blocks vars g uses defs b a

  pass-Settled :
      (a a' : Analysis S)
      → Traversed blocks vars g uses defs (begin_pass a) a'
      → a'.visited 0 ≡ true
      → a'.changed ≡ false
      → Settled a'
  pass-Settled a a' t m e = record { valid = t.valid; still = e; done = all }
    where
      own : (b : ℕ) → a'.visited b ≡ true → Finished blocks vars g uses defs b a'
      own b h = elim (t.finished b h) [ inl k ↦ ground arith | inr f ↦ f ]

      all : (b : ℕ) → Reach g b → (a'.visited b ≡ true) × Finished blocks vars g uses defs b a'
      all b entry = (m, own 0 m)
      all b (step r e) = let marked = ((all _ r).1 b e).0 in (marked, own b marked)

  loop_stops :
      (fuel : ℕ) (a : Analysis S)
      → 1 ≤ fuel
      → Settled a
      → Returns Settled (liveness_loop g blocks fuel a)
  unfolding liveness_loop
  loop_stops zero a p s = ground arith
  loop_stops (suc fuel) a p s =
      Returns-if Settled a.changed _ (some a) (λ e. let still = s.still in cc) (λ e. s)

  -- The state that is passed on, and the next call.
  pub liveness_loop-Settled :
      (fuel : ℕ) (a : Analysis S)
      → ((v b : ℕ) → Live g uses defs v b → v < vars)
      → ((b c : ℕ) → IsChild g b c → c < blocks)
      → 0 < blocks
      → IsValid g uses defs a
      → a.changed ≡ true
      → missing vars blocks a + 2 ≤ fuel
      → Returns Settled (liveness_loop g blocks fuel a)
  unfolding liveness_loop
  liveness_loop-Settled zero a few inside p s e m = ground arith
  liveness_loop-Settled (suc fuel) a few inside p s e m = rw e (
      Returns-bind
        (λ a'. Traversed blocks vars g uses defs (begin_pass a) a' × (a'.visited 0 ≡ true)) Settled
        _ _
        (do_liveness-Walks blocks vars g uses defs few inside blocks 0 (begin_pass a) p refl
          (unmarked-bound blocks (λ b. false))
          (record {
            def_is = s.def_is;
            uses_in = s.uses_in;
            in_live = s.in_live;
            out_live = s.out_live;
          }))
        (λ a' (t, root). elim (Bool-cases a'.changed) [
          | inl again ↦
              liveness_loop-Settled fuel a' few inside p t.valid again
                (omega (arith, m, fewer a a' t (t.later.news again)))
          | inr still ↦ loop_stops fuel a' (omega (arith, m)) (pass-Settled a a' t root still)
        ]))
    where
      fewer :
          (a a' : Analysis S)
          → Traversed blocks vars g uses defs (begin_pass a) a'
          → (false ≡ true) ⊎ New blocks vars (begin_pass a) a'
          → missing vars blocks a' < missing vars blocks a
      fewer a a' t (inl n) = cc
      fewer a a' t (inr (b, v, p, q, m, k)) = missing-less vars blocks b v a a' p q t.later.ins m k

  -- The sets of a settled analysis.
  pub Settled-in :
      (a : Analysis S) (v b : ℕ)
      → Settled a
      → Reach g b
      → (in_of a b v ≡ true) ↔ Live g uses defs v b
  Settled-in a v b s r = (s.valid.in_live b v, back r)
    where
      back : {b : ℕ} → Reach g b → Live g uses defs v b → in_of a b v ≡ true
      back r (here u) = s.valid.uses_in _ v u
      back r (later d e l) = (((s.done _ r).1 _ e).1 s.still v (back (step r e) l)).1 d

  pub Settled-out :
      (a : Analysis S) (v b : ℕ)
      → Settled a
      → Reach g b
      → (out_of a b v ≡ true) ↔ LiveAfter g uses defs v b
  Settled-out a v b s r = (
    s.valid.out_live b v,
    λ (c, e, l). (((s.done b r).1 c e).1 s.still v ((Settled-in a v c s (step r e)).1 l)).0,
  )

-- ===== src/Flow/Traversal.antt =====
-- src/flow.c: the depth-first walk of `do_liveness`.
pub mod Walks
use javalette.Prelude.{
  ℕ, zero, suc, ◌+◌, Bool, true, false, ◌==◌, ◌≡◌, refl, sym, ◌∙◌, subst, ap, Bool-cases, ◌⊎◌, inl,
  inr, ◌<◌, ◌≤◌, ==_iff, Option, some, none, Returns, Returns-bind, Returns-imp, if◌then◌else◌,
  arith, some-injective,
}
use javalette.Flow.{VarSet, FlowData, Children, assign}
use javalette.Flow.Liveness.{Analysis, compute_in_out, visit, descend, do_liveness}
use javalette.Flow.Effects.{in_of, out_of, def_of}
use javalette.Flow.Live.{IsChild, Live, IsValid}
use javalette.Flow.Live.Passing.{
  Later, Later-refl, Later-trans, Passed, Passed-Later, InOut, above, compute_in_out-InOut,
}

-- The number of blocks below `n` without a mark.
abbrev pub unmarked : ℕ → (ℕ → Bool) → ℕ
unmarked zero marks = 0
unmarked (suc n) marks = if marks n then unmarked n marks else suc (unmarked n marks)

pub unmarked_mono :
    (n : ℕ) (f g : ℕ → Bool) → ((x : ℕ) → f x ≡ true → g x ≡ true) → unmarked n g ≤ unmarked n f
unmarked_mono zero f g h = omega arith
unmarked_mono (suc n) f g h =
    let rest = unmarked_mono n f g h in
    elim (Bool-cases (f n)) [
      | inl e ↦ rw (e, h n e) rest
      | inr e ↦ elim (Bool-cases (g n)) [
        | inl k ↦ rw (e, k) (omega (arith, rest))
        | inr k ↦ rw (e, k) (omega (arith, rest))
      ]
    ]

pub marked_still : (b x : ℕ) (f : ℕ → Bool) → f x ≡ true → assign b true f x ≡ true
marked_still b x f h = ground arith

pub marked_before :
    (b x : ℕ) (f : ℕ → Bool) → (b == x) ≡ false → assign b true f x ≡ true → f x ≡ true
marked_before b x f q h = ground arith

below : (b n : ℕ) → b < suc n → (b == n) ≡ false → b < n
below b n p q = ground arith

-- A block that is marked is one fewer.
pub unmarked-assign :
    (n b : ℕ) (f : ℕ → Bool) → b < n → f b ≡ false → unmarked n (assign b true f) < unmarked n f
unmarked-assign zero b f p e = omega arith
unmarked-assign (suc n) b f p e = elim (Bool-cases (b == n)) [
  | inl q ↦
      let same : f n ≡ false = subst (λ z. f z ≡ false) ((==_iff b n).0 q) e in
      rw (q, same)
        (omega (arith, unmarked_mono n f (assign b true f) (λ x h. marked_still b x f h)))
  | inr q ↦
      let rest = unmarked-assign n b f (below b n p q) e in
      elim (Bool-cases (f n)) [ inl k ↦ rw (q, k) rest | inr k ↦ rw (q, k) (omega (arith, rest)) ]
]

module _ {S : Type 0} ⦃sets : VarSet S⦄ (blocks vars : ℕ) (g : ℕ → Children)
    (uses defs : ℕ → ℕ → Bool) where
  -- The walk has gone on from the block to its children, whose variables have come to it.
  abbrev pub Finished : ℕ → Analysis S → Type 0
  Finished x a =
      (c : ℕ)
      → IsChild g x c
      → (a.visited c ≡ true)
        × (a.changed ≡ false → (v : ℕ) → in_of a c v ≡ true → Passed blocks vars defs x v a)

  pub record Traversed (a a' : Analysis S) : Type 0 where
    pub valid : IsValid g uses defs a'
    pub later : Later blocks vars a a'
    pub grows : (x : ℕ) → a.visited x ≡ true → a'.visited x ≡ true
    pub finished : (x : ℕ) → a'.visited x ≡ true → (a.visited x ≡ true) ⊎ Finished x a'

  pub Finished-Later :
      (x : ℕ) (a a' : Analysis S)
      → Later blocks vars a a'
      → ((y : ℕ) → a.visited y ≡ true → a'.visited y ≡ true)
      → Finished x a
      → Finished x a'
  Finished-Later x a a' l m f = λ c e. (
    m c (f c e).0,
    λ q v h. Passed-Later blocks vars defs x v a a' l ((f c e).1 (l.flag q) v (l.quiet q c v h)),
  )

  pub Traversed-refl : (a : Analysis S) → IsValid g uses defs a → Traversed a a
  Traversed-refl a s = record {
    valid = s;
    later = Later-refl blocks vars a a refl refl;
    grows = λ x h. h;
    finished = λ x h. inl h;
  }

  pub Traversed-trans : (a b c : Analysis S) → Traversed a b → Traversed b c → Traversed a c
  Traversed-trans a b c t u = record {
    valid = u.valid;
    later = Later-trans blocks vars a b c t.later u.later;
    grows = λ x h. u.grows x (t.grows x h);
    finished = λ x h. elim (u.finished x h) [
      | inl m ↦ elim (t.finished x m) [
        | inl k ↦ inl k
        | inr f ↦ inr (Finished-Later x b c u.later u.grows f)
      ]
      | inr f ↦ inr f
    ];
  }

-- ===== src/Flow/Live.antt =====
-- src/flow.c: the variables that are live, and what a round of the analysis keeps.
pub mod Passing
use javalette.Prelude.{
  ℕ, Bool, true, false, not, ◌&&◌, ◌||◌, ◌==◌, ◌≡◌, refl, sym, ◌∙◌, subst, Bool-cases, ◌⊎◌, inl,
  inr, ◌<◌, ==_iff, Option, some, arith, ==_refl,
}
use javalette.Flow.{VarSet, FlowData, Children}
use javalette.Flow.Liveness.{Analysis, in_out_node}
use javalette.Flow.Effects.{in_of, out_of, def_of, Effect, enters, in_out_node-Effect}

-- The edges of the flow graph.
abbrev pub IsChild : (ℕ → Children) → ℕ → ℕ → Type 0
IsChild g b c = ((g b).child1 ≡ some c) ⊎ ((g b).child2 ≡ some c)

-- A variable is live at the start of a block if the block uses it before it sets it, or does not
-- set it first and it is live at the start of a child.
pub data Live (g : ℕ → Children) (uses defs : ℕ → ℕ → Bool) (v : ℕ) : ℕ → Type 0 where
  here : {b : ℕ} → uses b v ≡ true → Live g uses defs v b
  later : {b c : ℕ} → defs b v ≡ false → IsChild g b c → Live g uses defs v c → Live g uses defs v b

-- Live at the end of a block.
abbrev pub LiveAfter : (ℕ → Children) → (ℕ → ℕ → Bool) → (ℕ → ℕ → Bool) → ℕ → ℕ → Type 0
LiveAfter g uses defs v b = (c : ℕ) × IsChild g b c × Live g uses defs v c

pub or_right : (p q : Bool) → q ≡ true → (p || q) ≡ true
or_right true q e = refl
or_right false q e = e

pub or_false : (p q : Bool) → (p || q) ≡ false → (p ≡ false) × (q ≡ false)
or_false false q e = (refl, e)
or_false true q e = cc

pub or_rest : (p q : Bool) → p ≡ false → (p || q) ≡ true → q ≡ true
or_rest false q e h = h
or_rest true q e h = cc

pub entering :
    (i : Bool) (b v : ℕ) (q : Bool) → i ≡ true → ((i && ((b == b) && (v == v))) || q) ≡ true
entering i b v q e = rw (e, ==_refl b, ==_refl v) refl

-- What a set has after an effect, it had before or the effect put there.
pub entered :
    (i : Bool) (b x v w : ℕ) (q : Bool)
    → ((i && ((b == x) && (v == w))) || q) ≡ true
    → (q ≡ true) ⊎ ((i ≡ true) × (b ≡ x) × (v ≡ w))
entered i b x v w q h = ground arith

module _ {S : Type 0} ⦃sets : VarSet S⦄ where
  enters-def : (a : Analysis S) (b v : ℕ) → enters a b v ≡ true → def_of a b v ≡ false
  enters-def a b v h = ground arith

  pub enters-in : (a : Analysis S) (b v : ℕ) → enters a b v ≡ true → in_of a b v ≡ false
  enters-in a b v h = ground arith

module _ {S : Type 0} ⦃sets : VarSet S⦄ (g : ℕ → Children) (uses defs : ℕ → ℕ → Bool) where
  -- The sets hold no variable that is not live, and all that their own block uses.
  pub record IsValid (a : Analysis S) : Type 0 where
    pub def_is : (b v : ℕ) → def_of a b v ≡ defs b v
    pub uses_in : (b v : ℕ) → uses b v ≡ true → in_of a b v ≡ true
    pub in_live : (b v : ℕ) → in_of a b v ≡ true → Live g uses defs v b
    pub out_live : (b v : ℕ) → out_of a b v ≡ true → LiveAfter g uses defs v b

  pub node-IsValid :
      (b c v : ℕ) (a a' : Analysis S)
      → IsChild g b c
      → in_of a c v ≡ true
      → Effect a a' b v (enters a b v) true
      → IsValid a
      → IsValid a'
  node-IsValid b c v a a' e m f s = record {
    def_is = λ x w. f.defs x w ∙ s.def_is x w;
    uses_in = λ x w u. f.ins x w ∙ or_right _ _ (s.uses_in x w u);
    in_live = λ x w h. elim (entered (enters a b v) b x v w _ (sym (f.ins x w) ∙ h)) [
      | inl q ↦ s.in_live x w q
      | inr (i, p, q) ↦
          subst (λ z. Live g uses defs w z) p
            (subst (λ z. Live g uses defs z b) q
              (later (sym (s.def_is b v) ∙ enters-def a b v i) e (s.in_live c v m)))
    ];
    out_live = λ x w h. elim (entered true b x v w _ (sym (f.outs x w) ∙ h)) [
      | inl q ↦ s.out_live x w q
      | inr (i, p, q) ↦
          subst (λ z. LiveAfter g uses defs w z) p
            (subst (λ z. LiveAfter g uses defs z b) q (c, e, s.in_live c v m))
    ];
  }

-- ===== src/Flow/Effects.antt =====
-- src/flow.c: what `compute_in_out` does to the sets, node by node.
use javalette.Prelude.{
  ℕ, Bool, true, false, not, ◌&&◌, ◌||◌, ◌==◌, ◌≡◌, refl, subst, Bool-cases, inl, inr, ==_iff,
  if_elim, ◌∙◌, ap, ==_refl,
}
use javalette.Flow.{VarSet, FlowData, assign}
use javalette.Flow.Liveness.{Analysis, add_live, lower_dist, update_in, update_out, in_out_node}

and_false : (i : Bool) → (i && false) ≡ false
and_false true = refl
and_false false = refl

module _ {S : Type 0} ⦃sets : VarSet S⦄ where
  abbrev pub in_of : Analysis S → ℕ → ℕ → Bool
  in_of a b v = sets.member (a.flow b).live_in v

  abbrev pub out_of : Analysis S → ℕ → ℕ → Bool
  out_of a b v = sets.member (a.flow b).live_out v

  abbrev pub def_of : Analysis S → ℕ → ℕ → Bool
  def_of a b v = sets.member (a.flow b).live_def v

  -- From `a` to `a'` the variable enters `live_in` of the block if `i`, and `live_out` if `o`.
  pub record Effect (a a' : Analysis S) (b v : ℕ) (i o : Bool) : Type 0 where
    pub ins : (x w : ℕ) → in_of a' x w ≡ ((i && ((b == x) && (v == w))) || in_of a x w)
    pub outs : (x w : ℕ) → out_of a' x w ≡ ((o && ((b == x) && (v == w))) || out_of a x w)
    pub defs : (x w : ℕ) → def_of a' x w ≡ def_of a x w
    pub marks : (x : ℕ) → a'.visited x ≡ a.visited x
    pub flag : a'.changed ≡ (i || a.changed)

  Effect-refl : (a : Analysis S) (b v : ℕ) → Effect a a b v false false
  Effect-refl a b v = record {
    ins = λ x w. refl;
    outs = λ x w. refl;
    defs = λ x w. refl;
    marks = λ x. refl;
    flag = refl;
  }

  -- A block's data after an assignment to those of the block `b`.
  pub assigned {ℓ} :
      (P : ℕ → FlowData S → Type ℓ) (b x : ℕ) (fd : FlowData S) (f : ℕ → FlowData S)
      → P b fd
      → ((b == x) ≡ false → P x (f x))
      → P x (assign b fd f x)
  assigned P b x fd f h k = elim (Bool-cases (b == x)) [
    | inl e ↦ rw e (subst (λ z. P z fd) ((==_iff b x).0 e) h)
    | inr e ↦ rw e (k e)
  ]

  -- The data of one block replaced.
  store-Effect :
      (b v : ℕ) (i o : Bool) (fd : FlowData S) (a : Analysis S)
      → ((w : ℕ) → sets.member fd.live_in w ≡ ((i && (v == w)) || in_of a b w))
      → ((w : ℕ) → sets.member fd.live_out w ≡ ((o && (v == w)) || out_of a b w))
      → ((w : ℕ) → sets.member fd.live_def w ≡ def_of a b w)
      → Effect a (record a { changed = i || a.changed; flow = assign b fd a.flow }) b v i o
  store-Effect b v i o fd a hi ho hd = record {
    ins = λ x w.
        assigned (λ z d. sets.member d.live_in w ≡ ((i && ((b == z) && (v == w))) || in_of a z w)) b
          x fd a.flow (rw (==_refl b) (hi w)) (λ e. rw (e, and_false i) refl);
    outs = λ x w.
        assigned (λ z d. sets.member d.live_out w ≡ ((o && ((b == z) && (v == w))) || out_of a z w))
          b x fd a.flow (rw (==_refl b) (ho w)) (λ e. rw (e, and_false o) refl);
    defs = λ x w.
        assigned (λ z d. sets.member d.live_def w ≡ def_of a z w) b x fd a.flow (hd w) (λ e. refl);
    marks = λ x. refl;
    flag = refl;
  }

  add_live-Effect : (b v nud : ℕ) (a : Analysis S) → Effect a (add_live b v nud a) b v true false
  add_live-Effect b v nud a =
      store-Effect b v true false _ a (sets.member-put (a.flow b).live_in v) (λ w. refl) (λ w. refl)

  update_out-Effect : (b v : ℕ) (a : Analysis S) → Effect a (update_out b v a) b v false true
  update_out-Effect b v a =
      store-Effect b v false true _ a (λ w. refl) (sets.member-put (a.flow b).live_out v)
        (λ w. refl)

  lower_dist-Effect :
      (b c v nud : ℕ) (a : Analysis S) → Effect a (lower_dist c v nud a) b v false false
  lower_dist-Effect b c v nud a =
      let stored : Effect a _ c v false false =
        store-Effect c v false false
          (record (a.flow c) { nearest_use_dist = assign v nud (a.flow c).nearest_use_dist }) a
          (λ w. refl) (λ w. refl) (λ w. refl) in
      if_elim (λ (a' : Analysis S). Effect a a' b v false false) _ _ a
        (record {
          ins = stored.ins;
          outs = stored.outs;
          defs = stored.defs;
          marks = stored.marks;
          flag = stored.flag;
        })
        (Effect-refl a b v)

  -- Whether the variable is added to `live_in` of the block.
  abbrev pub enters : Analysis S → ℕ → ℕ → Bool
  enters a b v = not (def_of a b v) && not (in_of a b v)

  update_in-Effect :
      (b c v : ℕ) (a : Analysis S) → Effect a (update_in b c v a) b v (enters a b v) false
  update_in-Effect b c v a = elim (Bool-cases (def_of a b v)) [
    | inl d ↦ rw d (Effect-refl a b v)
    | inr d ↦ elim (Bool-cases (in_of a b v)) [
      | inl m ↦ rw (d, m) (lower_dist-Effect b c v _ a)
      | inr m ↦ rw (d, m) (add_live-Effect b v _ a)
    ]
  ]

  pub in_out_node-Effect :
      (b c v : ℕ) (a : Analysis S) → Effect a (in_out_node b c v a) b v (enters a b v) true
  in_out_node-Effect b c v a =
      let first = update_in-Effect b c v a in
      let second = update_out-Effect b v (update_in b c v a) in
      record {
        ins = λ x w. second.ins x w ∙ first.ins x w;
        outs = λ x w.
            second.outs x w ∙ ap (λ z. (true && ((b == x) && (v == w))) || z) (first.outs x w);
        defs = λ x w. second.defs x w ∙ first.defs x w;
        marks = λ x. second.marks x ∙ first.marks x;
        flag = second.flag ∙ first.flag;
      }

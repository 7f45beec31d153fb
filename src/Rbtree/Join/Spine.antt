-- ===== src/Rbtree/Join/Spine.antt =====
-- Where the walks of `rb_join` end.
use javalette.Prelude.{
  ℕ, ◌≡◌, ◌≤◌, ◌+◌, refl, false, List, [], ◌∷◌, Returns, Ensures, Ensures-bind, leb, arith, ◌==◌,
  Returns-if, ==_iff, Ensures-if, Ensures-assert, length, ◌*◌, some,
}
use javalette.Rbtree.{Node, nil, node, Frame, plug, color, Color, red, black, from_right, from_left}
use javalette.Rbtree.Order.{before, after}
use javalette.Rbtree.Balance.{height}
use javalette.Rbtree.Insert.Walks.{At, At-left, At-right, extra}
use javalette.Rbtree.Join.{right_spine, left_spine, count_down, push}

module _ {ℓ} {K : Type ℓ} where
  -- The loop's count of black nodes, and the subtree that it speaks of.
  abbrev pub Counts : ℕ → ℕ → Node K → Type 0
  Counts target bh z = (bh ≡ height z + extra (color z)) × (target + extra (color z) ≤ bh)

  -- The subtree is black, of the black height that is looked for.
  abbrev pub OnSpine : ℕ → ℕ → ℕ × Node K × List (Frame K) → Type 0
  OnSpine room target (bh, z, stack) =
      At room z stack × (bh ≡ target) × (height z ≡ target) × (color z ≡ black)

  stop_here :
      (target bh : ℕ) (z : Node K)
      → Counts target bh z
      → bh ≡ target
      → (height z ≡ target) × (color z ≡ black)
  stop_here target bh nil c e = ground arith
  stop_here target bh (node red l k r) c e = absurd (omega arith)
  stop_here target bh (node black l k r) c e = (omega arith, refl)

  count_right :
      (room target bh : ℕ) (c : Color) (l : Node K) (k : K) (r : Node K) (stack : List (Frame K))
      → At room (node c l k r) stack
      → Counts target bh (node c l k r)
      → (bh == target) ≡ false
      → Counts target (count_down (color r) bh) r
  count_right room target bh c l k nil stack a n e = ground arith
  count_right room target bh c l k (node rc rl rk rr) stack a n e = ground arith

  count_left :
      (room target bh : ℕ) (c : Color) (l : Node K) (k : K) (r : Node K) (stack : List (Frame K))
      → At room (node c l k r) stack
      → Counts target bh (node c l k r)
      → (bh == target) ≡ false
      → Counts target (count_down (color l) bh) l
  count_left room target bh c nil k r stack a n e = ground arith
  count_left room target bh c (node lc ll lk lr) k r stack a n e = ground arith

  pub right_spine-OnSpine :
      (room target bh : ℕ) (z : Node K) (stack : List (Frame K))
      → At room z stack
      → Counts target bh z
      → Returns (OnSpine room target) (right_spine room target bh z stack)
  unfolding right_spine
  right_spine-OnSpine room target bh nil stack a c = (a, omega arith, omega arith, refl)
  right_spine-OnSpine room target bh (node c l k r) stack a n =
      Returns-if (OnSpine room target) (bh == target) _ _
        (λ e.
          let e' = (==_iff bh target).0 e in
          let s = stop_here target bh (node c l k r) n e' in (a, e', s.0, s.1))
        (λ e.
          let down = At-right a in
          rw down.0 (
            right_spine-OnSpine room target (count_down (color r) bh) r (from_right c l k ∷ stack)
              down.1 (count_right room target bh c l k r stack a n e)))

  pub left_spine-OnSpine :
      (room target bh : ℕ) (z : Node K) (stack : List (Frame K))
      → At room z stack
      → Counts target bh z
      → Returns (OnSpine room target) (left_spine room target bh z stack)
  unfolding left_spine
  left_spine-OnSpine room target bh nil stack a c = (a, omega arith, omega arith, refl)
  left_spine-OnSpine room target bh (node c l k r) stack a n =
      Returns-if (OnSpine room target) (bh == target) _ _
        (λ e.
          let e' = (==_iff bh target).0 e in
          let s = stop_here target bh (node c l k r) n e' in (a, e', s.0, s.1))
        (λ e.
          let down = At-left a in
          rw down.0 (
            left_spine-OnSpine room target (count_down (color l) bh) l (from_left c k r ∷ stack)
              down.1 (count_left room target bh c l k r stack a n e)))

  push_lem :
      (room : ℕ) (f : Frame K) (stack : List (Frame K))
      → Ensures (λ s. s ≡ f ∷ stack) (push room f stack)
  push_lem room f stack =
      Ensures-assert (λ s. s ≡ f ∷ stack) (leb (length stack + 1) (room * 2)) (some (f ∷ stack))
        refl

  -- The tree that is walked through, with nothing to the right of the place that is reached.
  abbrev pub AtRightEnd : Node K → ℕ × Node K × List (Frame K) → Type ℓ
  AtRightEnd root (bh, z, stack) = (plug z stack ≡ root) × (after stack ≡ [])

  abbrev pub AtLeftEnd : Node K → ℕ × Node K × List (Frame K) → Type ℓ
  AtLeftEnd root (bh, z, stack) = (plug z stack ≡ root) × (before stack ≡ [])

  pub right_spine-AtRightEnd :
      (room target bh : ℕ) (z : Node K) (stack : List (Frame K))
      → after stack ≡ []
      → Ensures (AtRightEnd (plug z stack)) (right_spine room target bh z stack)
  unfolding right_spine
  right_spine-AtRightEnd room target bh nil stack e = (refl, e)
  right_spine-AtRightEnd room target bh (node c l k r) stack e =
      Ensures-if (AtRightEnd (plug (node c l k r) stack)) (bh == target) _ _ (refl, e)
        (Ensures-bind (λ s. s ≡ from_right c l k ∷ stack) (AtRightEnd (plug (node c l k r) stack))
          (push room (from_right c l k) stack) _ (push_lem room (from_right c l k) stack)
          (λ s es. rw es (
            right_spine-AtRightEnd room target (count_down (color r) bh) r
              (from_right c l k ∷ stack) e)))

  pub left_spine-AtLeftEnd :
      (room target bh : ℕ) (z : Node K) (stack : List (Frame K))
      → before stack ≡ []
      → Ensures (AtLeftEnd (plug z stack)) (left_spine room target bh z stack)
  unfolding left_spine
  left_spine-AtLeftEnd room target bh nil stack e = (refl, e)
  left_spine-AtLeftEnd room target bh (node c l k r) stack e =
      Ensures-if (AtLeftEnd (plug (node c l k r) stack)) (bh == target) _ _ (refl, e)
        (Ensures-bind (λ s. s ≡ from_left c k r ∷ stack) (AtLeftEnd (plug (node c l k r) stack))
          (push room (from_left c k r) stack) _ (push_lem room (from_left c k r) stack)
          (λ s es. rw es (
            left_spine-AtLeftEnd room target (count_down (color l) bh) l (from_left c k r ∷ stack)
              e)))

-- ===== src/Rbtree/Insert/Walks.antt =====
-- The walks from the root of src/rbtree.c: the stack stays within its bounds and fits the subtree
-- that is reached.
use javalette.Prelude.{
  ℕ, ◌+◌, ◌*◌, ◌≤◌, ◌≡◌, refl, List, [], ◌∷◌, length, arith, Returns, true, false, leb, Returns-if,
  Returns-imp, Returns-and,
}
use javalette.Rbtree.{
  Color, red, black, Node, nil, node, Frame, from_left, from_right, color, plug, RbPair, cmp_less,
  cmp_eq,
}
use javalette.Rbtree.Balance.{IsBalanced, height, Fits, outer, top_color, Allows}
use javalette.Rbtree.Insert.{descend, locate}

-- A red node takes one more place on the stack than its black height shows.
abbrev pub extra : Color → ℕ
extra red = 1
extra black = 0

module _ {ℓ} {K : Type ℓ} where
  -- `z` stands where `stack` leads to, in a tree of black height `bh`, and the stack has room.
  pub record At (bh : ℕ) (z : Node K) (stack : List (Frame K)) : Type 0 where
    pub balanced : IsBalanced z
    pub fits : Fits (height z) stack
    pub allowed : Allows (top_color stack) (color z)
    pub inside : outer (height z) stack ≡ bh
    pub room : length stack + height z * 2 + extra (color z) ≤ bh * 2

  pub At-left :
      {bh : ℕ} {c : Color} {l : Node K} {k : K} {r : Node K} {stack : List (Frame K)}
      → At bh (node c l k r) stack
      → (leb (length stack + 1) (bh * 2) ≡ true) × At bh l (from_left c k r ∷ stack)
  At-left {c = red} a = ground arith
  At-left {c = black} {l = nil} a = ground arith
  At-left {c = black} {l = node _ _ _ _} a = ground arith

  pub At-right :
      {bh : ℕ} {c : Color} {l : Node K} {k : K} {r : Node K} {stack : List (Frame K)}
      → At bh (node c l k r) stack
      → (leb (length stack + 1) (bh * 2) ≡ true) × At bh r (from_right c l k ∷ stack)
  At-right {c = red} a = ground arith
  At-right {c = black} {r = nil} a = ground arith
  At-right {c = black} {r = node _ _ _ _} a = ground arith

module _ {ℓ} {K : Type ℓ} ⦃p : RbPair K⦄ where
  -- The stack is the one on which the comparisons of `x` lead.
  abbrev pub Follows : K → List (Frame K) → Type 0
  Follows x [] = Unit
  Follows x (from_left c k r ∷ fs) = (cmp_less x k ≡ true) × Follows x fs
  Follows x (from_right c l k ∷ fs) = (cmp_less x k ≡ false) × Follows x fs

  -- The assertion on the depth holds at every step of the walk.
  pub descend-At :
      (bh : ℕ) (x : K) (t : Node K) (stack : List (Frame K))
      → At bh t stack
      → Returns (λ stack'. At bh nil stack') (descend bh x t stack)
  unfolding descend
  descend-At bh x nil stack a = a
  descend-At bh x (node c l k r) stack a =
      Returns-if _ (cmp_less x k) _ _
        (λ _. rw (At-left a).0 (descend-At bh x l (from_left c k r ∷ stack) (At-left a).1))
        (λ _. rw (At-right a).0 (descend-At bh x r (from_right c l k ∷ stack) (At-right a).1))

  pub locate-At :
      (bh : ℕ) (x : K) (t : Node K) (stack : List (Frame K))
      → At bh t stack
      → Returns (λ (z, stack'). At bh z stack') (locate bh x t stack)
  unfolding locate
  locate-At bh x nil stack a = a
  locate-At bh x (node c l k r) stack a =
      Returns-if _ (cmp_eq x k) _ _ (λ _. a)
        (λ _.
          Returns-if _ (cmp_less x k) _ _
            (λ _. rw (At-left a).0 (locate-At bh x l (from_left c k r ∷ stack) (At-left a).1))
            (λ _. rw (At-right a).0 (locate-At bh x r (from_right c l k ∷ stack) (At-right a).1)))

  -- What a walk keeps: the tree that is walked through, and the way to go.
  abbrev pub Walked : K → Node K → Node K × List (Frame K) → Type ℓ
  Walked x root (z, stack) = (plug z stack ≡ root) × Follows x stack

  pub descend-Walked :
      (bh : ℕ) (x : K) (t : Node K) (stack : List (Frame K))
      → At bh t stack
      → Follows x stack
      → Returns (λ stack'. Walked x (plug t stack) (nil, stack')) (descend bh x t stack)
  unfolding descend
  descend-Walked bh x nil stack a f = (refl, f)
  descend-Walked bh x (node c l k r) stack a f =
      Returns-if _ (cmp_less x k) _ _
        (λ lt.
          rw (At-left a).0 (descend-Walked bh x l (from_left c k r ∷ stack) (At-left a).1 (lt, f)))
        (λ ge.
          rw (At-right a).0
            (descend-Walked bh x r (from_right c l k ∷ stack) (At-right a).1 (ge, f)))

  -- The walk ends at a node with the key that is looked for, or at a missing child.
  abbrev pub Hit : K → Node K → Type 0
  Hit x nil = Unit
  Hit x (node c l k r) = cmp_eq x k ≡ true

  pub locate-Walked :
      (bh : ℕ) (x : K) (t : Node K) (stack : List (Frame K))
      → At bh t stack
      → Follows x stack
      → Returns (λ at. Walked x (plug t stack) at × Hit x at.0) (locate bh x t stack)
  unfolding locate
  locate-Walked bh x nil stack a f = ((refl, f), tt)
  locate-Walked bh x (node c l k r) stack a f =
      Returns-if _ (cmp_eq x k) _ _ (λ e. ((refl, f), e))
        (λ _.
          Returns-if _ (cmp_less x k) _ _
            (λ lt.
              rw (At-left a).0
                (locate-Walked bh x l (from_left c k r ∷ stack) (At-left a).1 (lt, f)))
            (λ ge.
              rw (At-right a).0
                (locate-Walked bh x r (from_right c l k ∷ stack) (At-right a).1 (ge, f))))

  abbrev pub Arrived : ℕ → K → Node K → Node K × List (Frame K) → Type ℓ
  Arrived bh x root (z, stack) = At bh z stack × Walked x root (z, stack) × Hit x z

  pub descend-Arrived :
      (bh : ℕ) (x : K) (t : Node K)
      → At bh t []
      → Returns (λ stack. Arrived bh x t (nil, stack)) (descend bh x t [])
  descend-Arrived bh x t a =
      Returns-imp (λ stack. At bh nil stack × Walked x t (nil, stack))
        (λ stack. Arrived bh x t (nil, stack)) _ (λ stack h. (h.0, h.1, tt))
        (Returns-and (λ stack. At bh nil stack) (λ stack. Walked x t (nil, stack)) _
          (descend-At bh x t [] a) (descend-Walked bh x t [] a tt))

  pub locate-Arrived :
      (bh : ℕ) (x : K) (t : Node K) → At bh t [] → Returns (Arrived bh x t) (locate bh x t [])
  locate-Arrived bh x t a =
      Returns-imp (λ at. At bh at.0 at.1 × (Walked x t at × Hit x at.0)) (Arrived bh x t) _
        (λ at h. (h.0, h.1.0, h.1.1))
        (Returns-and (λ (z, stack). At bh z stack) (λ at. Walked x t at × Hit x at.0) _
          (locate-At bh x t [] a) (locate-Walked bh x t [] a tt))

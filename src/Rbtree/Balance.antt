-- ===== src/Rbtree/Balance.antt =====
-- The colouring rules of a red-black tree, and the same rules for the stack of a walk.
use javalette.Prelude.{ℕ, ◌+◌, ◌≡◌, List, [], ◌∷◌, arith}
use javalette.Rbtree.{
  Color, red, black, Node, nil, node, Frame, from_left, from_right, Rbtree, color, frame_color,
  plug,
}

abbrev pub weight : Color → ℕ
weight red = 0
weight black = 1

-- A red node has black children.
abbrev pub Allows : Color → Color → Type 0
Allows red c = c ≡ black
Allows black c = Unit

module _ {ℓ} {K : Type ℓ} where
  -- The black nodes on the leftmost path.
  abbrev pub height : Node K → ℕ
  height nil = 0
  height (node c l k r) = height l + weight c

  -- No red node has a red child, and every path down has the same number of black nodes.
  abbrev pub IsBalanced : Node K → Type 0
  IsBalanced nil = Unit
  IsBalanced (node c l k r) =
      IsBalanced l × IsBalanced r × (height l ≡ height r) × Allows c (color l) × Allows c (color r)

  -- What lies above the root counts as red, so that the root is black.
  abbrev pub top_color : List (Frame K) → Color
  top_color [] = red
  top_color (f ∷ fs) = frame_color f

  -- The rules above and beside a subtree of black height `h`.
  abbrev pub Fits : ℕ → List (Frame K) → Type 0
  Fits h [] = Unit
  Fits h (from_left c k r ∷ fs) =
      IsBalanced r
      × (height r ≡ h)
      × Allows c (color r)
      × Allows (top_color fs) c
      × Fits (h + weight c) fs
  Fits h (from_right c l k ∷ fs) =
      IsBalanced l
      × (height l ≡ h)
      × Allows c (color l)
      × Allows (top_color fs) c
      × Fits (h + weight c) fs

  -- The black height of the whole tree.
  abbrev pub outer : ℕ → List (Frame K) → ℕ
  outer h [] = h
  outer h (f ∷ fs) = outer (h + weight (frame_color f)) fs

  pub record IsRedBlack (t : Rbtree K) : Type 0 where
    pub balanced : IsBalanced t.root
    pub black_root : color t.root ≡ black
    pub counted : t.bh ≡ height t.root

  -- A balanced subtree put back under a stack that it fits.
  pub plug-IsBalanced :
      (h : ℕ) (z : Node K) (fs : List (Frame K))
      → IsBalanced z
      → height z ≡ h
      → Fits h fs
      → Allows (top_color fs) (color z)
      → IsBalanced (plug z fs) × (height (plug z fs) ≡ outer h fs) × (color (plug z fs) ≡ black)
  plug-IsBalanced h z [] b e f a = (b, e, a)
  plug-IsBalanced h z (from_left c k r ∷ fs) b e f a =
      plug-IsBalanced (h + weight c) (node c z k r) fs (ground arith) (ground arith) f.4 f.3
  plug-IsBalanced h z (from_right c l k ∷ fs) b e f a =
      plug-IsBalanced (h + weight c) (node c l k z) fs (ground arith) (ground arith) f.4 f.3

-- ===== src/Rbtree/Order.antt =====
-- The keys of a tree from the least to the greatest, which rotations and recolouring leave alone.
use javalette.Prelude.{
  ℕ, ◌≡◌, refl, sym, ap, ◌∙◌, List, [], ◌∷◌, ◌++◌, append-nil, append_assoc, arith, Bool, true,
  false, Option, none, some, Ensures,
}
use javalette.Rbtree.{Color, Node, nil, node, Frame, from_left, from_right, plug, paint}
use javalette.Rbtree.Rotate.{left_rotate, right_rotate}

module _ {ℓ} {K : Type ℓ} where
  -- The keys from left to right.
  abbrev pub inorder : Node K → List K
  inorder nil = []
  inorder (node c l k r) = inorder l ++ k ∷ inorder r

  -- The keys on either side of the place that a stack leads to.
  abbrev pub before : List (Frame K) → List K
  before [] = []
  before (from_left c k r ∷ fs) = before fs
  before (from_right c l k ∷ fs) = before fs ++ inorder l ++ k ∷ []

  abbrev pub after : List (Frame K) → List K
  after [] = []
  after (from_left c k r ∷ fs) = k ∷ (inorder r ++ after fs)
  after (from_right c l k ∷ fs) = after fs

  pub ruleset list_laws = (append-nil, append_assoc)

  pub inorder-plug :
      (z : Node K) (fs : List (Frame K)) → inorder (plug z fs) ≡ before fs ++ inorder z ++ after fs
  inorder-plug z [] = simp list_laws
  inorder-plug z (from_left c k r ∷ fs) = simp (inorder-plug (node c z k r) fs, append_assoc)
  inorder-plug z (from_right c l k ∷ fs) = simp (inorder-plug (node c l k z) fs, append_assoc)

  pub inorder-paint : (c : Color) (z : Node K) → inorder (paint c z) ≡ inorder z
  inorder-paint c nil = refl
  inorder-paint c (node d l k r) = refl

  pub left_rotate-inorder : (z : Node K) → Ensures (λ t. inorder t ≡ inorder z) (left_rotate z)
  unfolding left_rotate
  left_rotate-inorder (node c a x (node d b y e)) = simp append_assoc
  left_rotate-inorder (node c a x nil) = tt
  left_rotate-inorder nil = tt

  pub right_rotate-inorder : (z : Node K) → Ensures (λ t. inorder t ≡ inorder z) (right_rotate z)
  unfolding right_rotate
  right_rotate-inorder (node c (node d a x b) y e) = simp append_assoc
  right_rotate-inorder (node c nil y e) = tt
  right_rotate-inorder nil = tt

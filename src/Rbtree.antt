-- ===== src/Rbtree.antt =====
-- src/rbtree.h and the state that src/rbtree.c works on. A node is reached from its parent alone,
-- so a tree of nodes is a value; `tree->stack`, the parents from the root down to a node, is a
-- list of frames, the nearest parent first, each the parent less the child that was followed.
use javalette.Prelude.{
  ℕ, ◌+◌, List, [], ◌∷◌, Bool, ltb, ◌==◌, ◌⊎◌, ◌≡◌, inl, inr, refl, false, true,
}
pub mod Rotate
pub mod Insert
pub mod Delete
pub mod Join
pub mod Client
mod Tests
pub mod Walk
pub mod Search
pub mod Contents
pub mod Balance
pub mod Order
pub mod Sorting

-- `struct RbPair`: what a key points to begins with an address, `first`, and keys are compared by it.
pub record RbPair {ℓ} (K : Type ℓ) : Type ℓ where
  pub first : K → ℕ

module _ {ℓ} {K : Type ℓ} ⦃p : RbPair K⦄ where
  abbrev pub first : K → ℕ
  first = p.first

  abbrev pub cmp_less : K → K → Bool
  cmp_less x y = ltb (p.first x) (p.first y)

  abbrev pub cmp_eq : K → K → Bool
  cmp_eq x y = p.first x == p.first y

pub data Color : Type 0 where
  red black : Color

abbrev pub is_black : Color → Bool
is_black red = false
is_black black = true

pub Color-cases : (c : Color) → (c ≡ red) ⊎ (c ≡ black)
Color-cases red = inl refl
Color-cases black = inr refl

-- `nil` is the sentinel, the address of `the_nil`.
pub data Node {ℓ} (K : Type ℓ) : Type ℓ where
  nil : Node K
  node : Color → Node K → K → Node K → Node K

-- A parent on the stack, seen from its left child or from its right child.
pub data Frame {ℓ} (K : Type ℓ) : Type ℓ where
  from_left : Color → K → Node K → Frame K
  from_right : Color → Node K → K → Frame K

-- `rbtree_t`. The contents of the stack live in one operation only; its capacity is kept.
pub record Rbtree {ℓ} (K : Type ℓ) : Type ℓ where
  pub root : Node K
  pub stack_size : ℕ
  pub bh : ℕ

module _ {ℓ} {K : Type ℓ} where
  -- `the_nil` is black.
  abbrev pub color : Node K → Color
  color nil = black
  color (node c l k r) = c

  -- `node->color = c`. What is written to `the_nil` is black already.
  abbrev pub paint : Color → Node K → Node K
  paint c nil = nil
  paint c (node d l k r) = node c l k r

  abbrev pub paint_left : Color → Node K → Node K
  paint_left c nil = nil
  paint_left c (node d l k r) = node d (paint c l) k r

  abbrev pub paint_right : Color → Node K → Node K
  paint_right c nil = nil
  paint_right c (node d l k r) = node d l k (paint c r)

  abbrev pub frame_color : Frame K → Color
  frame_color (from_left c k r) = c
  frame_color (from_right c l k) = c

  abbrev pub frame_key : Frame K → K
  frame_key (from_left c k r) = k
  frame_key (from_right c l k) = k

  -- The parent with its child put back.
  abbrev pub close : Node K → Frame K → Node K
  close z (from_left c k r) = node c z k r
  close z (from_right c l k) = node c l k z

  -- The root of the tree in which the stack leads to `z`.
  abbrev pub plug : Node K → List (Frame K) → Node K
  plug z [] = z
  plug z (f ∷ fs) = plug (close z f) fs

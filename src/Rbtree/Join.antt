-- ===== src/Rbtree/Join.antt =====
-- `rb_join` of src/rbtree.c. The tree that is used up is freed and leaves no trace here.
pub mod Spine
pub mod Correct
use javalette.Prelude.{
  ℕ, ◌+◌, ◌-◌, Bool, true, false, not, Option, none, some, List, [], ◌∷◌, leb, ◌==◌, if◌then◌else◌,
  assert, ◌>>=◌, ◌>>◌,
}
use javalette.Rbtree.{
  RbPair, cmp_less, Color, red, black, Node, nil, node, Frame, from_left, from_right, Rbtree, color,
  frame_key,
}
use javalette.Rbtree.Insert.{push, reserve, insert_fixup}

-- `if (node->color == rb_black) --bh;`
abbrev pub count_down : Color → ℕ → ℕ
count_down red bh = bh
count_down black bh = bh - 1

module _ {ℓ} {K : Type ℓ} where
  -- The walk down the right side to a subtree of black height `target`: the height that is reached,
  -- the subtree and the stack. `room` is the black height of the whole tree.
  unfoldable pub right_spine :
      ℕ → ℕ → ℕ → Node K → List (Frame K) → Option (ℕ × Node K × List (Frame K))
  right_spine room target bh nil stack = some (bh, nil, stack)
  right_spine room target bh (node c l k r) stack =
      let down = push room (from_right c l k) stack >>= λ stack'.
      right_spine room target (count_down (color r) bh) r stack' in
      if bh == target then some (bh, node c l k r, stack) else down

  unfoldable pub left_spine :
      ℕ → ℕ → ℕ → Node K → List (Frame K) → Option (ℕ × Node K × List (Frame K))
  left_spine room target bh nil stack = some (bh, nil, stack)
  left_spine room target bh (node c l k r) stack =
      let down = push room (from_left c k r) stack >>= λ stack'.
      left_spine room target (count_down (color l) bh) l stack' in
      if bh == target then some (bh, node c l k r, stack) else down

  -- The new node `n` becomes the root, or it is hung below the parent, which must be in order.
  unfoldable pub hang :
      Rbtree K → Node K → K → Node K → (K → Bool) → List (Frame K) → Option (Rbtree K)
  hang t l x r in_order [] = some (record t { root = node black l x r; bh = t.bh + 1 })
  hang t l x r in_order (parent ∷ stack) = do
    assert (in_order (frame_key parent))
    (root, bh) ← insert_fixup t.bh (node red l x r) (parent ∷ stack)
    some (record t { root = root; bh = bh })

module _ {ℓ} {K : Type ℓ} ⦃p : RbPair K⦄ where
  -- `tree1->bh >= tree2->bh`
  unfoldable pub join_right : Rbtree K → K → Rbtree K → Option (Rbtree K)
  join_right t1 x t2 = do
    (bh, z, stack) ← right_spine t1.bh t2.bh t1.bh t1.root []
    assert (bh == t2.bh)
    hang (reserve t1) z x t2.root (λ k. not (cmp_less x k)) stack

  unfoldable pub join_left : Rbtree K → K → Rbtree K → Option (Rbtree K)
  join_left t1 x t2 = do
    (bh, z, stack) ← left_spine t2.bh t1.bh t2.bh t2.root []
    assert (bh == t1.bh)
    hang (reserve t2) t1.root x z (λ k. not (cmp_less k x)) stack

  -- The black heights decide which tree takes the other.
  abbrev pub join_roots : Rbtree K → K → Rbtree K → Node K → Node K → Option (Rbtree K)
  join_roots t1 x t2 nil r2 = some t2
  join_roots t1 x t2 (node c l k r) nil = some t1
  join_roots t1 x t2 (node c l k r) (node d m j n) =
      if leb t2.bh t1.bh then join_right t1 x t2 else join_left t1 x t2

  unfoldable pub join : Rbtree K → K → Rbtree K → Option (Rbtree K)
  join t1 x t2 = join_roots t1 x t2 t1.root t2.root

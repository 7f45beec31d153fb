-- ===== src/Rbtree/Delete.antt =====
-- `rb_delete` and what it calls, of src/rbtree.c.
pub mod Balanced
pub mod Shape
pub mod Ordered
pub mod Correct
use javalette.Prelude.{
  ℕ, zero, suc, ◌+◌, ◌-◌, ◌*◌, Bool, true, false, Option, none, some, List, [], ◌∷◌, ◌++◌, length,
  leb, assert, ◌>>=◌, ◌>>◌,
}
use javalette.Rbtree.{
  RbPair, Color, red, black, Node, nil, node, Frame, from_left, from_right, Rbtree, color, paint,
  paint_left, paint_right, plug, is_black,
}
use javalette.Rbtree.Rotate.{left_rotate, right_rotate}
use javalette.Rbtree.Insert.{reserve, locate}

-- The tests of the loop, in the order: the node, the children of its sibling, the sibling.
abbrev pub delete_branch {ℓ} : {A : Type ℓ} → Color → Color → Color → Color → A → A → A → A → A
delete_branch red wl wr w done rise turn settle = done
delete_branch black black black black done rise turn settle = rise
delete_branch black black black red done rise turn settle = turn
delete_branch black red wr w done rise turn settle = settle
delete_branch black black red w done rise turn settle = settle

module _ {ℓ} {K : Type ℓ} where
  -- The sibling `w`, on the right, has a red child: it is made the right one.
  abbrev pub face_right : Color → Node K → K → Node K → Option (Node K)
  face_right wc wl wk wr = elim (color wr) [
    | red ↦ some (node wc wl wk wr)
    | black ↦ do t ← right_rotate (node wc wl wk wr); some (paint black (paint_right red t))
  ]

  abbrev pub face_left : Color → Node K → K → Node K → Option (Node K)
  face_left wc wl wk wr = elim (color wl) [
    | red ↦ some (node wc wl wk wr)
    | black ↦ do t ← left_rotate (node wc wl wk wr); some (paint black (paint_left red t))
  ]

  -- `node` is the left child of `p`, and a child of its sibling is red: the loop returns.
  unfoldable pub restore_left : Color → Node K → K → Color → Node K → K → Node K → Option (Node K)
  unfolding left_rotate right_rotate
  restore_left c z k wc wl wk wr = do
    assert (is_black wc)
    w ← face_right wc wl wk wr
    t ← left_rotate (node c z k w)
    some (paint_right black (paint_left black (paint c t)))

  unfoldable pub restore_right : Color → Color → Node K → K → Node K → K → Node K → Option (Node K)
  unfolding left_rotate right_rotate
  restore_right c wc wl wk wr k z = do
    assert (is_black wc)
    w ← face_left wc wl wk wr
    t ← right_rotate (node c w k z)
    some (paint_left black (paint_right black (paint c t)))

  -- `node` counts as black once more than its colour says. The first number is the fuel.
  unfoldable pub delete_fixup : ℕ → ℕ → Node K → List (Frame K) → Option (Node K × ℕ)
  delete_fixup zero bh z stack = none
  delete_fixup (suc fuel) bh z [] = elim (color z) [
    | black ↦ some (z, bh - 1)
    | red ↦ some (paint black z, bh)
  ]
  delete_fixup (suc fuel) bh z (from_left c k nil ∷ rest) = elim (color z) [
    | black ↦ none
    | red ↦ some (plug (paint black z) (from_left c k nil ∷ rest), bh)
  ]
  delete_fixup (suc fuel) bh z (from_right c nil k ∷ rest) = elim (color z) [
    | black ↦ none
    | red ↦ some (plug (paint black z) (from_right c nil k ∷ rest), bh)
  ]
  delete_fixup (suc fuel) bh z (from_left c k (node wc wl wk wr) ∷ rest) =
      let done = some (plug (paint black z) (from_left c k (node wc wl wk wr) ∷ rest), bh) in
      let rise = delete_fixup fuel bh (node c z k (node red wl wk wr)) rest in
      let turned = delete_fixup fuel bh z (from_left red k wl ∷ from_left black wk wr ∷ rest) in
      let settle = restore_left c z k wc wl wk wr >>= λ t. some (plug t rest, bh) in
      delete_branch (color z) (color wl) (color wr) wc done rise (assert (is_black c) >> turned)
        settle
  delete_fixup (suc fuel) bh z (from_right c (node wc wl wk wr) k ∷ rest) =
      let done = some (plug (paint black z) (from_right c (node wc wl wk wr) k ∷ rest), bh) in
      let rise = delete_fixup fuel bh (node c (node red wl wk wr) k z) rest in
      let turned = delete_fixup fuel bh z (from_right red wr k ∷ from_right black wl wk ∷ rest) in
      let settle = restore_right c wc wl wk wr k z >>= λ t. some (plug t rest, bh) in
      delete_branch (color z) (color wl) (color wr) wc done rise (assert (is_black c) >> turned)
        settle

  -- `while (y->left != nil)`: the walk to the least node of the right subtree. `base` is the depth
  -- at which it starts, and `above` what it has pushed.
  unfoldable pub successor :
      ℕ
      → ℕ
      → Color
      → Node K
      → K
      → Node K
      → List (Frame K)
      → Option (Color × K × Node K × List (Frame K))
  successor bh base c nil k r above = some (c, k, r, above)
  successor bh base c (node lc ll lk lr) k r above = do
    assert (leb (length above + base + 1) (bh * 2))
    successor bh base lc ll lk lr (from_left c k r ∷ above)

  -- `w` takes the place of the node `y`, of colour `c`, to which the stack leads.
  unfoldable pub unlink : ℕ → Color → Node K → List (Frame K) → Option (Node K × ℕ)
  unlink bh red w stack = some (plug w stack, bh)
  unlink bh black w stack = delete_fixup (length stack * 3 + 5) bh w stack

  -- The least key above that of the node moves into the node, where both children are there.
  unfoldable pub delete_node :
      ℕ → Color → Node K → K → Node K → List (Frame K) → Option (Node K × ℕ)
  delete_node bh c l k nil stack = unlink bh c l stack
  delete_node bh c nil k (node rc rl rk rr) stack = unlink bh c (node rc rl rk rr) stack
  delete_node bh c (node lc ll lk lr) k (node rc rl rk rr) stack = do
    (yc, yk, w, above) ← successor bh (suc (length stack)) rc rl rk rr []
    unlink bh yc w (above ++ (from_right c (node lc ll lk lr) yk ∷ stack))

  abbrev pub delete_at : Rbtree K → Node K × List (Frame K) → Option (Rbtree K)
  delete_at t (nil, stack) = some t
  delete_at t (node c l k r, stack) = do
    (root, bh) ← delete_node t.bh c l k r stack
    some (record t { root = root; bh = bh })

module _ {ℓ} {K : Type ℓ} ⦃p : RbPair K⦄ where
  unfoldable pub delete : Rbtree K → K → Option (Rbtree K)
  delete t x = do at ← locate t.bh x t.root []; delete_at (reserve t) at

-- ===== src/Rbtree/Insert.antt =====
-- `rb_insert`, `rb_insert_if_absent` and what they call, of src/rbtree.c.
pub mod Balanced
pub mod Walks
pub mod Shape
pub mod Sorted
pub mod Correct
use javalette.Prelude.{
  ℕ, ◌+◌, ◌*◌, true, false, not, Option, none, some, List, [], ◌∷◌, length, ltb, leb, ◌==◌,
  if◌then◌else◌, assert, ◌>>=◌, ◌>>◌,
}
use javalette.Rbtree.{
  RbPair, cmp_less, cmp_eq, Color, red, black, Node, nil, node, Frame, from_left, from_right,
  Rbtree, is_black, color, paint, paint_left, paint_right, frame_color, close, plug,
}
use javalette.Rbtree.Rotate.{left_rotate, right_rotate}

-- The tests of the loop: the parent is black; or it is red, and so is the uncle; or only it is.
abbrev pub branch {κ} : {A : Type κ} → Color → Color → A → A → A → A
branch black uncle done rise settle = done
branch red red done rise settle = rise
branch red black done rise settle = settle

module _ {ℓ} {K : Type ℓ} where
  -- `if (node == p->right) rb_left_rotate(tree, p, pp);`
  abbrev straighten_left : Node K → Frame K → Option (Node K)
  straighten_left z (from_left c k r) = some (node c z k r)
  straighten_left z (from_right c l k) = left_rotate (node c l k z)

  -- `if (node == p->left) rb_right_rotate(tree, p, pp);`
  abbrev straighten_right : Node K → Frame K → Option (Node K)
  straighten_right z (from_left c k r) = right_rotate (node c z k r)
  straighten_right z (from_right c l k) = some (node c l k z)

  -- `assert (p->right->color == rb_black);` and its mirror image, after the first rotation.
  abbrev pub inner_right : Node K → Color
  inner_right nil = black
  inner_right (node c l k r) = color r

  abbrev pub inner_left : Node K → Color
  inner_left nil = black
  inner_left (node c l k r) = color l

  -- `p == pp->left`, and the uncle `u` is black.
  unfoldable pub settle_left : Node K → Frame K → Color → K → Node K → Option (Node K)
  unfolding left_rotate right_rotate
  settle_left z p c k u = do
    p' ← straighten_left z p
    assert (is_black (inner_right p'))
    t ← right_rotate (node c p' k u)
    some (paint_right red (paint black t))

  -- `p == pp->right`, and the uncle `u` is black.
  unfoldable pub settle_right : Node K → Frame K → Color → Node K → K → Option (Node K)
  unfolding left_rotate right_rotate
  settle_right z p c u k = do
    p' ← straighten_right z p
    assert (is_black (inner_left p'))
    t ← left_rotate (node c u k p')
    some (paint_left red (paint black t))

  -- The assertions on the colours of `node` and `pp` in the loop.
  abbrev pub loop_asserts {κ} : {A : Type κ} → Node K → Color → Option A → Option A
  loop_asserts z c m = assert (not (is_black (color z))) >> (assert (is_black c) >> m)

  -- `stack` leads to `node`. The result is the root and the black height.
  unfoldable pub insert_fixup : ℕ → Node K → List (Frame K) → Option (Node K × ℕ)
  unfolding settle_left settle_right
  insert_fixup bh z [] = assert (not (is_black (color z))) >> some (paint black z, bh + 1)
  insert_fixup bh z (p ∷ []) =
      assert (not (is_black (color z)))
      >> elim (frame_color p) [ black ↦ some (close z p, bh) | red ↦ none ]
  insert_fixup bh z (p ∷ from_left c k u ∷ rest) =
      let done =
        assert (not (is_black (color z))) >> some (plug z (p ∷ from_left c k u ∷ rest), bh) in
      let rise = insert_fixup bh (node red (paint black (close z p)) k (paint black u)) rest in
      let settle = settle_left z p c k u >>= λ t. some (plug t rest, bh) in
      branch (frame_color p) (color u) done (loop_asserts z c rise) (loop_asserts z c settle)
  insert_fixup bh z (p ∷ from_right c u k ∷ rest) =
      let done =
        assert (not (is_black (color z))) >> some (plug z (p ∷ from_right c u k ∷ rest), bh) in
      let rise = insert_fixup bh (node red (paint black u) k (paint black (close z p))) rest in
      let settle = settle_right z p c u k >>= λ t. some (plug t rest, bh) in
      branch (frame_color p) (color u) done (loop_asserts z c rise) (loop_asserts z c settle)

  -- The call at the head of each operation that grows the stack: room for `2 * bh + 1` nodes.
  unfoldable pub reserve : Rbtree K → Rbtree K
  reserve t =
      if leb t.stack_size (t.bh * 2)
      then record t {
        stack_size =
            if ltb (t.bh * 2 + 1) (t.stack_size * 2) then t.stack_size * 2 else t.bh * 2 + 1;
      }
      else t

  -- `assert(depth + 1 <= tree->bh << 1); stack[++depth] = node;`
  abbrev pub push : ℕ → Frame K → List (Frame K) → Option (List (Frame K))
  push bh f stack = do assert (leb (length stack + 1) (bh * 2)); some (f ∷ stack)

module _ {ℓ} {K : Type ℓ} ⦃p : RbPair K⦄ where
  -- The loop of `rb_insert`.
  unfoldable pub descend : ℕ → K → Node K → List (Frame K) → Option (List (Frame K))
  descend bh x nil stack = some stack
  descend bh x (node c l k r) stack =
      let to_left = push bh (from_left c k r) stack >>= λ stack'. descend bh x l stack' in
      let to_right = push bh (from_right c l k) stack >>= λ stack'. descend bh x r stack' in
      if cmp_less x k then to_left else to_right

  -- The loop of `rb_insert_if_absent` and `rb_delete`: the node at which it ends and the stack.
  -- `the_nil` holds the key that is looked for, so the loop ends there.
  unfoldable pub locate : ℕ → K → Node K → List (Frame K) → Option (Node K × List (Frame K))
  locate bh x nil stack = some (nil, stack)
  locate bh x (node c l k r) stack =
      let to_left = push bh (from_left c k r) stack >>= λ stack'. locate bh x l stack' in
      let to_right = push bh (from_right c l k) stack >>= λ stack'. locate bh x r stack' in
      let go_on = if cmp_less x k then to_left else to_right in
      if cmp_eq x k then some (node c l k r, stack) else go_on

  -- The parent's field that the new node is written to is chosen by a test of its own.
  abbrev pub attach : K → Frame K → Frame K
  attach x (from_left c k r) = if cmp_less x k then from_left c k r else from_right c nil k
  attach x (from_right c l k) = if cmp_less x k then from_left c k nil else from_right c l k

  unfoldable pub do_insert : Rbtree K → K → List (Frame K) → Option (Rbtree K)
  do_insert t x [] = do
    assert (t.bh + 1 == 1)
    some (record t { root = node black nil x nil; bh = t.bh + 1 })
  do_insert t x (parent ∷ stack) = do
    (root, bh) ← insert_fixup t.bh (node red nil x nil) (attach x parent ∷ stack)
    some (record t { root = root; bh = bh })

  unfoldable pub insert : Rbtree K → K → Option (Rbtree K)
  insert t x = do stack ← descend t.bh x t.root []; do_insert (reserve t) x stack

  -- The second part is the node that was found, and `nil` where the key was inserted.
  abbrev pub insert_unless : Rbtree K → K → Node K × List (Frame K) → Option (Rbtree K × Node K)
  insert_unless t x (nil, stack) = do t' ← do_insert t x stack; some (t', nil)
  insert_unless t x (node c l k r, stack) = some (t, node c l k r)

  unfoldable pub insert_if_absent : Rbtree K → K → Option (Rbtree K × Node K)
  insert_if_absent t x = do at ← locate t.bh x t.root []; insert_unless (reserve t) x at

-- ===== src/Rbtree/Walk.antt =====
-- The operations of src/rbtree.c that only read the tree, and `rb_clear`, `rb_copy`.
use javalette.Prelude.{
  ◌%◌, ◌^◌, ℕ, ◌+◌, true, false, List, [], ◌∷◌, ◌++◌, Option, ◌>>=◌, some, assert, leb, ◌>>◌,
}
use javalette.Rbtree.{RbPair, cmp_less, cmp_eq, Node, nil, node, Rbtree}

abbrev pub pointer_bytes : ℕ
pointer_bytes = 8

-- `sizeof(rbnode_t)`: the colour takes a word of its own.
abbrev pub node_bytes : ℕ
node_bytes = 32

module _ {ℓ} {K : Type ℓ} where
  unfoldable pub new : Rbtree K
  new = record { root = nil; stack_size = 0; bh = 0 }

  -- `do_rb_size`: the right subtrees by calls, the left ones by the loop, with `s` so far. The
  -- count is an `unsigned`, of 32 bits.
  unfoldable pub do_size : Node K → ℕ → ℕ
  do_size nil s = s
  do_size (node c l k r) s = do_size l (((s + do_size r 0) % 2 ^ 32 + 1) % 2 ^ 32)

  unfoldable pub size : Rbtree K → ℕ
  unfolding do_size
  size t = do_size t.root 0

  -- The keys in the order in which `do_rb_for_each` hands them to `func`.
  unfoldable pub do_for_each : Node K → List K
  do_for_each nil = []
  do_for_each (node c l k r) = k ∷ (do_for_each l ++ do_for_each r)

  -- `rb_minimum`: `prev` is the last node that the loop left.
  unfoldable pub leftmost : Node K → Node K → Node K
  leftmost prev nil = prev
  leftmost prev (node c l k r) = leftmost (node c l k r) l

  unfoldable pub minimum : Rbtree K → Node K
  unfolding leftmost
  minimum t = leftmost nil t.root

  unfoldable pub clear : Rbtree K → Rbtree K
  clear t = record t { root = nil; bh = 0 }

  -- Each node of the copy gets the memory of a pointer, and a pointer, a pointer, a key and a colour
  -- are written there.
  abbrev pub copy_subtree : Node K → Option (Node K)
  copy_subtree nil = some nil
  copy_subtree (node c l k r) = copy_subtree l >>= λ left. copy_subtree r >>= λ right.
      assert (leb node_bytes pointer_bytes) >> some (node c left k right)

  -- The field that `rb_copy` sets; `rb_new` has set the others.
  unfoldable pub copy : Rbtree K → Option (Rbtree K)
  unfolding new
  copy t = copy_subtree t.root >>= λ root. some (record new { root = root })

module _ {ℓ} {K : Type ℓ} ⦃p : RbPair K⦄ where
  unfoldable pub walk : K → Node K → Node K
  walk x nil = nil
  walk x (node c l k r) = elim (cmp_eq x k) [
    | true ↦ node c l k r
    | false ↦ elim (cmp_less x k) [ true ↦ walk x l | false ↦ walk x r ]
  ]

  -- `nil` where the C function returns 0.
  unfoldable pub search : Rbtree K → K → Node K
  unfolding walk
  search t x = walk x t.root

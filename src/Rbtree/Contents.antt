-- ===== src/Rbtree/Contents.antt =====
-- What `rb_size`, `rb_minimum` and `rb_for_each` say of the keys of a tree.
use mathlib.Core.List.{Perm, head?, perm_middle}
use mathlib.Core.List.Perm
use javalette.Prelude.{
  ℕ, ◌+◌, ◌%◌, ◌^◌, ◌<◌, ◌≡◌, refl, ◌∙◌, Option, none, some, List, [], ◌∷◌, ◌++◌, arith, length,
  length-append, append_assoc,
}
use javalette.Rbtree.{Node, nil, node, Rbtree, Color}
use javalette.Rbtree.Order.{inorder}
use javalette.Rbtree.Walk.{do_size, size, do_for_each, leftmost, minimum}

module _ {ℓ} {K : Type ℓ} where
  do_size_lem : (z : Node K) (s : ℕ) → s < 2 ^ 32 → do_size z s ≡ (s + length (inorder z)) % 2 ^ 32
  unfolding do_size
  do_size_lem nil s h = omega arith
  do_size_lem (node c l k r) s h = omega (
    arith,
    do_size_lem l (((s + do_size r 0) % 2 ^ 32 + 1) % 2 ^ 32) (omega arith),
    do_size_lem r 0 (omega arith),
    length-append (inorder l) (k ∷ inorder r),
  )

  -- `rb_size` counts the keys, modulo 2 to the 32.
  pub size-length : (t : Rbtree K) → size t ≡ length (inorder t.root) % 2 ^ 32
  unfolding size
  size-length t = omega (arith, do_size_lem t.root 0 (omega arith))

  -- `rb_for_each` hands every key to its function, each as often as it stands in the tree.
  pub for_each-perm : (z : Node K) → Perm (do_for_each z) (inorder z)
  unfolding do_for_each
  for_each-perm nil = Perm.refl []
  for_each-perm (node c l k r) =
      Perm.trans (Perm.cons k (Perm.append (for_each-perm l) (for_each-perm r)))
        (Perm.symm (perm_middle (inorder l) (inorder r)))

  abbrev pub key_of : Node K → Option K
  key_of nil = none
  key_of (node c l k r) = some k

  leftmost_lem :
      (c : Color) (l : Node K) (k : K) (r : Node K) (rest : List K)
      → key_of (leftmost (node c l k r) l) ≡ head? (inorder l ++ k ∷ rest)
  unfolding leftmost
  leftmost_lem c nil k r rest = refl
  leftmost_lem c (node lc ll lk lr) k r rest =
      leftmost_lem lc ll lk lr (inorder lr ++ k ∷ rest) ∙ simp append_assoc

  leftmost-head? : (z : Node K) → key_of (leftmost nil z) ≡ head? (inorder z)
  unfolding leftmost
  leftmost-head? nil = refl
  leftmost-head? (node c l k r) = leftmost_lem c l k r (inorder r)

  -- `rb_minimum` returns the node of the first key, and 0 for the empty tree.
  pub minimum-head? : (t : Rbtree K) → key_of (minimum t) ≡ head? (inorder t.root)
  unfolding minimum
  minimum-head? t = leftmost-head? t.root

-- ===== src/Rbtree/Search.antt =====
-- `rb_search`, and the walk of `rb_insert_if_absent` and `rb_delete`, among the keys of the tree.
use javalette.Prelude.{ℕ, ◌≡◌, refl, sym, ◌∙◌, List, ◌∷◌, arith, Ensures, Bool, true, false, ap}
use javalette.Rbtree.{Node, nil, node, Frame, from_left, from_right, Rbtree, RbPair, cmp_eq}
use javalette.Rbtree.Order.{inorder}
use javalette.Rbtree.Sorting.{
  IsSorted, contains, contains-append, contains-below, contains-above, IsSorted-split,
}
use javalette.Rbtree.Walk.{walk, search}
use javalette.Rbtree.Insert.{locate}

module _ {ℓ} {K : Type ℓ} ⦃p : RbPair K⦄ where
  abbrev pub is_node : Node K → Bool
  is_node nil = false
  is_node (node c l k r) = true

  -- A node has a key that compares equal to `x`.
  abbrev pub Matches : K → Node K → Type 0
  Matches x nil = Unit
  Matches x (node c l k r) = cmp_eq x k ≡ true

  walk_lem :
      (x : K) (t : Node K)
      → IsSorted (inorder t)
      → (is_node (walk x t) ≡ contains x (inorder t)) × Matches x (walk x t)
  unfolding walk
  walk_lem x nil s = (refl, tt)
  walk_lem x (node c l k r) s =
      let parts = IsSorted-split (inorder l) (k ∷ inorder r) s in
      ground (
        arith,
        walk_lem x l parts.0,
        walk_lem x r parts.1.1,
        contains-append x (inorder l) (k ∷ inorder r),
        contains-below x k (inorder r),
        contains-above x k (inorder l) (inorder r),
      )

  -- In a tree with its keys in order `rb_search` returns a node exactly when one holds a key equal
  -- to `x`, and the key of the returned node is equal to `x`.
  pub search-contains :
      (t : Rbtree K) (x : K)
      → IsSorted (inorder t.root)
      → (is_node (search t x) ≡ contains x (inorder t.root)) × Matches x (search t x)
  unfolding search
  search-contains t x s = walk_lem x t.root s

  -- The walk that keeps a stack ends at the node that `rb_search` returns.
  pub locate-walk :
      (bh : ℕ) (x : K) (t : Node K) (stack : List (Frame K))
      → Ensures (λ at. at.0 ≡ walk x t) (locate bh x t stack)
  unfolding locate walk
  locate-walk bh x nil stack = refl
  locate-walk bh x (node c l k r) stack = ground (
    arith,
    locate-walk bh x l (from_left c k r ∷ stack),
    locate-walk bh x r (from_right c l k ∷ stack),
  )

  pub contains_missed :
      (x : K) (t z : Node K)
      → IsSorted (inorder t)
      → z ≡ walk x t
      → z ≡ nil
      → contains x (inorder t) ≡ false
  contains_missed x t z s w n = sym (walk_lem x t s).0 ∙ ap is_node (sym w ∙ n)

  pub contains_found :
      (x : K) (t z : Node K)
      → IsSorted (inorder t)
      → z ≡ walk x t
      → is_node z ≡ true
      → contains x (inorder t) ≡ true
  contains_found x t z s w n = sym (walk_lem x t s).0 ∙ ap is_node (sym w) ∙ n

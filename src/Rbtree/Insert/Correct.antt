-- ===== src/Rbtree/Insert/Correct.antt =====
-- `rb_insert_if_absent` as a whole: a key that is new, and a key that is found.
use javalette.Rbtree.Search.{locate-walk, contains_missed, contains_found}
use javalette.Rbtree.Walk.{walk}
use javalette.Rbtree.Insert.Sorted.{Inserts, Grown, do_insert-Grown}
use javalette.Rbtree.Insert.Shape.{reserve_keeps, At-root, reserve-IsRedBlack}
use javalette.Rbtree.Insert.Walks.{Arrived, locate-Arrived}
use javalette.Rbtree.Balance.{IsRedBlack}
use javalette.Rbtree.Insert.{insert_if_absent, reserve, insert_unless}
use javalette.Rbtree.{Node, nil, node, Frame, Rbtree, RbPair, cmp_eq}
use javalette.Prelude.{
  ◌≡◌, refl, true, false, List, [], Returns, Returns-bind, Returns-Ensures, Returns-imp,
}
use javalette.Rbtree.Order.{inorder}
use javalette.Rbtree.Sorting.{IsSorted, contains}

module _ {ℓ} {K : Type ℓ} ⦃p : RbPair K⦄ where
  -- The second part is what the function returns.
  abbrev pub InsertedOrFound : Rbtree K → K → Rbtree K × Node K → Type ℓ
  InsertedOrFound t x (t', nil) =
      IsRedBlack t' × (contains x (inorder t.root) ≡ false) × Inserts t x t'
  InsertedOrFound t x (t', node c l k r) =
      IsRedBlack t'
      × (contains x (inorder t.root) ≡ true)
      × (cmp_eq x k ≡ true)
      × (t'.root ≡ t.root)

  insert_unless-InsertedOrFound :
      (t : Rbtree K) (x : K) (at : Node K × List (Frame K))
      → IsRedBlack t
      → IsSorted (inorder t.root)
      → Arrived t.bh x t.root at
      → at.0 ≡ walk x t.root
      → Returns (InsertedOrFound t x) (insert_unless t x at)
  insert_unless-InsertedOrFound t x (nil, stack) v s a w =
      Returns-bind (Grown t x) (InsertedOrFound t x) _ _ (do_insert-Grown t x stack a s)
        (λ t' g. (g.0, contains_missed x t.root nil s w refl, g.1))
  insert_unless-InsertedOrFound t x (node c l k r, stack) v s a w =
      (v, contains_found x t.root (node c l k r) s w refl, a.2, refl)

  unreserve :
      (t : Rbtree K) (x : K) (r : Rbtree K × Node K)
      → InsertedOrFound (reserve t) x r
      → InsertedOrFound t x r
  unreserve t x (t', nil) h = rw (reserve_keeps t).1 at h
  unreserve t x (t', node c l k r) h = rw (reserve_keeps t).1 at h

  -- On a red-black tree with its keys in order `rb_insert_if_absent` fails no assertion. It either
  -- finds a node with a key equal to `x` and leaves the nodes as they are, or no key is equal to `x`
  -- and `x` is inserted; it says which, and the tree is red-black.
  pub insert_if_absent-InsertedOrFound :
      (t : Rbtree K) (x : K)
      → IsRedBlack t
      → IsSorted (inorder t.root)
      → Returns (InsertedOrFound t x) (insert_if_absent t x)
  unfolding insert_if_absent
  insert_if_absent-InsertedOrFound t x v s =
      let k = reserve_keeps t in
      Returns-bind (λ at. Arrived t.bh x t.root at × (at.0 ≡ walk x t.root)) (InsertedOrFound t x) _
        _
        (Returns-Ensures (Arrived t.bh x t.root) (λ at. at.0 ≡ walk x t.root) _
          (locate-Arrived t.bh x t.root (At-root t v)) (locate-walk t.bh x t.root []))
        (λ at (a, w).
          Returns-imp (InsertedOrFound (reserve t) x) (InsertedOrFound t x) _
            (λ r h. unreserve t x r h)
            (insert_unless-InsertedOrFound (reserve t) x at (reserve-IsRedBlack t v) (rw k.1 s)
              (rw (k.0, k.1) a) (rw k.1 w)))

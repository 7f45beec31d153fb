-- ===== src/Rbtree/Delete/Correct.antt =====
-- `rb_delete` as a whole: the key that it takes out, and the key that it does not find.
use javalette.Rbtree.Delete.Shape.{delete_at-IsRedBlack}
use javalette.Rbtree.Search.{locate-walk, contains_missed}
use javalette.Rbtree.Walk.{walk}
use javalette.Rbtree.Delete.Ordered.{Others, delete_node-Others}
use javalette.Rbtree.Insert.Shape.{reserve_keeps, At-root, reserve-IsRedBlack}
use javalette.Rbtree.Sorting.{contains, IsSorted}
use javalette.Rbtree.Balance.{IsRedBlack}
use javalette.Rbtree.Delete.{delete, delete_at, reserve}
use javalette.Rbtree.Insert.Walks.{Hit, Arrived, locate-Arrived}
use javalette.Rbtree.Order.{inorder, before, after, inorder-plug}
use javalette.Rbtree.{Node, nil, node, Frame, Rbtree, RbPair, cmp_eq, plug}
use javalette.Prelude.{
  ◌≡◌, refl, sym, ◌∙◌, ap, ◌⊎◌, inl, inr, true, false, List, [], ◌∷◌, ◌++◌, Returns, Returns-bind,
  Returns-Ensures, Ensures, Ensures-bind, Ensures-imp, append_assoc,
}

module _ {ℓ} {K : Type ℓ} ⦃p : RbPair K⦄ where
  -- `ks'` is `ks` less one key that compares equal to `x`.
  pub record Removes (x : K) (ks ks' : List K) : Type ℓ where
    pub front : List K
    pub key : K
    pub back : List K
    pub equal : cmp_eq x key ≡ true
    pub whole : ks ≡ front ++ key ∷ back
    pub rest : ks' ≡ front ++ back

  abbrev pub Deletes : K → Rbtree K → Rbtree K → Type ℓ
  Deletes x t t' =
      Removes x (inorder t.root) (inorder t'.root)
      ⊎ ((contains x (inorder t.root) ≡ false) × (t'.root ≡ t.root))

  delete_at-Deletes :
      (t : Rbtree K) (x : K) (at : Node K × List (Frame K))
      → plug at.0 at.1 ≡ t.root
      → Hit x at.0
      → (at.0 ≡ nil → contains x (inorder t.root) ≡ false)
      → Ensures (Deletes x t) (delete_at t at)
  delete_at-Deletes t x (nil, stack) e h n = inr (n refl, refl)
  delete_at-Deletes t x (node c l k r, stack) e h n =
      Ensures-bind (Others l r stack) (Deletes x t) _ _ (delete_node-Others t.bh c l k r stack)
        (λ b o. inl (record {
          front = before stack ++ inorder l;
          key = k;
          back = inorder r ++ after stack;
          equal = h;
          whole = ap inorder (sym e) ∙ inorder-plug (node c l k r) stack ∙ simp append_assoc;
          rest = o ∙ simp append_assoc;
        }))

  -- On a red-black tree with its keys in order `rb_delete` fails no assertion. The new tree is
  -- red-black; its keys from left to right are the old ones less one that is equal to `x`, or, if
  -- none is, the tree of nodes is unchanged.
  pub delete-Deletes :
      (t : Rbtree K) (x : K)
      → IsRedBlack t
      → IsSorted (inorder t.root)
      → Returns (λ t'. IsRedBlack t' × Deletes x t t') (delete t x)
  unfolding delete
  delete-Deletes t x v s =
      let k = reserve_keeps t in
      Returns-bind (λ at. Arrived t.bh x t.root at × (at.0 ≡ walk x t.root))
        (λ t'. IsRedBlack t' × Deletes x t t') _ _
        (Returns-Ensures (Arrived t.bh x t.root) (λ at. at.0 ≡ walk x t.root) _
          (locate-Arrived t.bh x t.root (At-root t v)) (locate-walk t.bh x t.root []))
        (λ at (a, w).
          Returns-Ensures IsRedBlack (Deletes x t) _
            (delete_at-IsRedBlack (reserve t) at (reserve-IsRedBlack t v) (rw k.0 a.0))
            (Ensures-imp (Deletes x (reserve t)) (Deletes x t) _ (λ t' d. rw k.1 at d)
              (delete_at-Deletes (reserve t) x at (rw k.1 a.1.0) a.2
                (λ n. rw k.1 (contains_missed x t.root at.0 s w n)))))

-- ===== src/Rbtree/Client/Refines.antt =====
-- Sequences of operations on a new tree, and the same operations on the sorted list.
use javalette.Rbtree.Delete.Correct.{Deletes, delete-Deletes}
use javalette.Rbtree.Client.Abstract.{
  map-insert_sorted, contains-member, Removes-IsSorted, Removes-take_out, take_out_missing,
}
use javalette.Rbtree.Insert.Correct.{InsertedOrFound, insert_if_absent-InsertedOrFound}
use javalette.Prelude.{
  ℕ, ◌≡◌, refl, sym, ◌∙◌, ap, inl, inr, List, [], ◌∷◌, map, arith, Returns, Returns-bind,
  Returns-imp,
}
use javalette.Rbtree.{RbPair, Node, nil, node, Rbtree}
use javalette.Rbtree.Order.{inorder}
use javalette.Rbtree.Balance.{IsRedBlack}
use javalette.Rbtree.Sorting.{IsSorted, insert_sorted-IsSorted, contains}
use javalette.Rbtree.Walk.{new, clear}
use javalette.Rbtree.Insert.Sorted.{Grown, insert-Grown}
use javalette.Rbtree.Client.{
  Op, add, add_if_absent, remove, wipe, step, run, replay_step, replay, put, member, take_out,
}

module _ {ℓ} {K : Type ℓ} ⦃p : RbPair K⦄ where
  -- The tree stands for the sorted list of addresses.
  pub record Stands (t : Rbtree K) (l : List ℕ) : Type ℓ where
    pub shape : IsRedBlack t
    pub sorted : IsSorted (inorder t.root)
    pub keys : map p.first (inorder t.root) ≡ l

  Grown-Stands :
      (t : Rbtree K) (l : List ℕ) (x : K) (t' : Rbtree K)
      → Stands t l
      → Grown t x t'
      → Stands t' (put (p.first x) l)
  Grown-Stands t l x t' s g = record {
    shape = g.0;
    sorted = rw g.1 (insert_sorted-IsSorted x (inorder t.root) s.sorted);
    keys =
        ap (map p.first) g.1 ∙ map-insert_sorted x (inorder t.root) ∙ ap (put (p.first x)) s.keys;
  }

  member_of :
      (t : Rbtree K) (l : List ℕ) (x : K)
      → Stands t l
      → member (p.first x) l ≡ contains x (inorder t.root)
  member_of t l x s =
      ap (member (p.first x)) (sym s.keys) ∙ sym (contains-member x (inorder t.root))

  found-Stands :
      (t : Rbtree K) (l : List ℕ) (x : K) (r : Rbtree K × Node K)
      → Stands t l
      → InsertedOrFound t x r
      → Stands r.0 (replay_step (add_if_absent x) l)
  found-Stands t l x (t', nil) s h =
      rw (member_of t l x s ∙ h.1) (Grown-Stands t l x t' s (h.0, h.2))
  found-Stands t l x (t', node c a k b) s h = rw (member_of t l x s ∙ h.1) (record {
    shape = h.0;
    sorted = rw h.3 s.sorted;
    keys = ap (λ z. map p.first (inorder z)) h.3 ∙ s.keys;
  })

  Deletes-Stands :
      (t : Rbtree K) (l : List ℕ) (x : K) (t' : Rbtree K)
      → Stands t l
      → IsRedBlack t'
      → Deletes x t t'
      → Stands t' (take_out (p.first x) l)
  Deletes-Stands t l x t' s v (inl r) = record {
    shape = v;
    sorted = Removes-IsSorted x (inorder t.root) (inorder t'.root) s.sorted r;
    keys =
        Removes-take_out x (inorder t.root) (inorder t'.root) s.sorted r
        ∙ ap (take_out (p.first x)) s.keys;
  }
  Deletes-Stands t l x t' s v (inr (n, e)) = record {
    shape = v;
    sorted = rw e s.sorted;
    keys =
        ap (λ z. map p.first (inorder z)) e
        ∙ sym (take_out_missing x (inorder t.root) n)
        ∙ ap (take_out (p.first x)) s.keys;
  }

  pub step-Stands :
      (op : Op K) (t : Rbtree K) (l : List ℕ)
      → Stands t l
      → Returns (λ t'. Stands t' (replay_step op l)) (step op t)
  unfolding step
  step-Stands (add x) t l s =
      Returns-imp (Grown t x) (λ t'. Stands t' (put (p.first x) l)) _
        (λ t' g. Grown-Stands t l x t' s g) (insert-Grown t x s.shape s.sorted)
  step-Stands (add_if_absent x) t l s =
      Returns-bind (InsertedOrFound t x) (λ t'. Stands t' (replay_step (add_if_absent x) l)) _ _
        (insert_if_absent-InsertedOrFound t x s.shape s.sorted) (λ r h. found-Stands t l x r s h)
  step-Stands (remove x) t l s =
      Returns-imp (λ t'. IsRedBlack t' × Deletes x t t') (λ t'. Stands t' (take_out (p.first x) l))
        _ (λ t' d. Deletes-Stands t l x t' s d.0 d.1) (delete-Deletes t x s.shape s.sorted)
  step-Stands wipe t l s = unfold clear in record { shape = ground arith; sorted = tt; keys = refl }

  run-Stands :
      (ops : List (Op K)) (t : Rbtree K) (l : List ℕ)
      → Stands t l
      → Returns (λ t'. Stands t' (replay ops l)) (run ops t)
  unfolding run
  run-Stands [] t l s = s
  run-Stands (op ∷ ops) t l s =
      Returns-bind (λ t'. Stands t' (replay_step op l)) (λ t'. Stands t' (replay (op ∷ ops) l)) _ _
        (step-Stands op t l s) (λ t' s'. run-Stands ops t' (replay_step op l) s')

  pub new-Stands : Stands new []
  unfolding new
  new-Stands = record { shape = ground arith; sorted = tt; keys = refl }

  -- Every sequence of insertions, conditional insertions, deletions and clearings, from the tree of
  -- `rb_new`, runs without a failed assertion. The tree at the end is red-black, its keys are in
  -- order, and their addresses are those that the same sequence leaves in a sorted list.
  pub run-new-Stands : (ops : List (Op K)) → Returns (λ t. Stands t (replay ops [])) (run ops new)
  run-new-Stands ops = run-Stands ops new [] new-Stands

-- ===== src/Rbtree/Insert/Sorted.antt =====
-- The keys of the tree after an insertion, in their order.
use javalette.Rbtree.Sorting.{
  insert_sorted, IsSorted, insert_sorted-stop, insert_sorted-pass, IsSorted-hole,
}
use javalette.Rbtree.Balance.{IsRedBlack}
use javalette.Rbtree.Insert.Shape.{attach_lem, do_insert-IsRedBlack, At-root, reserve_keeps}
use javalette.Rbtree.Insert.Walks.{Follows, Arrived, descend-Arrived}
use javalette.Prelude.{
  ℕ, ◌+◌, ◌≡◌, refl, sym, ap, ◌∙◌, List, [], ◌∷◌, ◌++◌, append-nil, append_assoc, Option, some,
  Ensures, Ensures-bind, Returns, Ensures-imp, Ensures-assert, Returns-Ensures, Returns-bind, ◌==◌,
  Returns-imp, assert, not, ◌>>◌,
}
use javalette.Rbtree.{
  Color, red, black, Node, nil, node, Frame, from_left, from_right, plug, paint, close, paint_left,
  paint_right, RbPair, Rbtree, frame_color, color, is_black,
}
use javalette.Rbtree.Order.{inorder, before, after, inorder-plug, inorder-paint}
use javalette.Rbtree.Insert.{
  settle_left, settle_right, insert_fixup, branch, do_insert, insert, reserve, loop_asserts,
}

Ensures-branch {ℓ κ} :
    {A : Type ℓ} (P : A → Type κ) (pc uc : Color) (a b c : Option A)
    → Ensures P a
    → Ensures P b
    → Ensures P c
    → Ensures P (branch pc uc a b c)
Ensures-branch P black uc a b c f g h = f
Ensures-branch P red red a b c f g h = g
Ensures-branch P red black a b c f g h = h

module _ {ℓ} {K : Type ℓ} where
  -- The keys of `z` are `ks`.
  abbrev pub Keeps : List K → Node K → Type ℓ
  Keeps ks z = inorder z ≡ ks

  pub inorder-paint_left : (c : Color) (z : Node K) → inorder (paint_left c z) ≡ inorder z
  inorder-paint_left c nil = refl
  inorder-paint_left c (node d l k r) = rw inorder-paint

  pub inorder-paint_right : (c : Color) (z : Node K) → inorder (paint_right c z) ≡ inorder z
  inorder-paint_right c nil = refl
  inorder-paint_right c (node d l k r) = rw inorder-paint

  settle_left-inorder :
      (z : Node K) (p : Frame K) (c : Color) (k : K) (u : Node K)
      → Ensures (Keeps (inorder (node c (close z p) k u))) (settle_left z p c k u)
  unfolding settle_left
  settle_left-inorder (node a x y e) (from_left d l r) c k u =
      Ensures-assert (Keeps _) (is_black (color r)) _ (simp append_assoc)
  settle_left-inorder (node a x y e) (from_right d l r) c k u =
      Ensures-assert (Keeps _) (is_black (color e)) _ (simp append_assoc)
  settle_left-inorder nil (from_left d l r) c k u =
      Ensures-assert (Keeps _) (is_black (color r)) _ (simp append_assoc)
  settle_left-inorder nil (from_right d l r) c k u = tt

  settle_right-inorder :
      (z : Node K) (p : Frame K) (c : Color) (u : Node K) (k : K)
      → Ensures (Keeps (inorder (node c u k (close z p)))) (settle_right z p c u k)
  unfolding settle_right
  settle_right-inorder (node a x y e) (from_left d l r) c u k =
      Ensures-assert (Keeps _) (is_black (color x)) _ (simp append_assoc)
  settle_right-inorder (node a x y e) (from_right d l r) c u k =
      Ensures-assert (Keeps _) (is_black (color l)) _ (simp append_assoc)
  settle_right-inorder nil (from_left d l r) c u k = tt
  settle_right-inorder nil (from_right d l r) c u k =
      Ensures-assert (Keeps _) (is_black (color l)) _ (simp append_assoc)

  -- Two subtrees with the same keys give the same keys at one place.
  pub plug_cong :
      (y z : Node K) (fs : List (Frame K))
      → inorder y ≡ inorder z
      → inorder (plug y fs) ≡ inorder (plug z fs)
  plug_cong y z fs e = rw (inorder-plug y fs, inorder-plug z fs, e)

  abbrev pub KeepsRoot : List K → Node K × ℕ → Type ℓ
  KeepsRoot ks (root, bh) = inorder root ≡ ks

  Ensures-red :
      (ks : List K) (z : Node K) (m : Option (Node K × ℕ))
      → Ensures (KeepsRoot ks) m
      → Ensures (KeepsRoot ks) (assert (not (is_black (color z))) >> m)
  Ensures-red ks z m h = Ensures-assert (KeepsRoot ks) _ m h

  Ensures-loop_asserts :
      (ks : List K) (z : Node K) (c : Color) (m : Option (Node K × ℕ))
      → Ensures (KeepsRoot ks) m
      → Ensures (KeepsRoot ks) (loop_asserts z c m)
  Ensures-loop_asserts ks z c m h =
      Ensures-assert (KeepsRoot ks) _ _ (Ensures-assert (KeepsRoot ks) (is_black c) m h)

  pub insert_fixup-inorder :
      (bh : ℕ) (z : Node K) (fs : List (Frame K))
      → Ensures (KeepsRoot (inorder (plug z fs))) (insert_fixup bh z fs)
  unfolding insert_fixup
  insert_fixup-inorder bh z [] = Ensures-red _ z _ (inorder-paint black z)
  insert_fixup-inorder bh z (from_left red k r ∷ []) = Ensures-red _ z _ tt
  insert_fixup-inorder bh z (from_left black k r ∷ []) = Ensures-red _ z _ refl
  insert_fixup-inorder bh z (from_right red l k ∷ []) = Ensures-red _ z _ tt
  insert_fixup-inorder bh z (from_right black l k ∷ []) = Ensures-red _ z _ refl
  insert_fixup-inorder bh z (p ∷ from_left c k u ∷ rest) =
      let rise = node red (paint black (close z p)) k (paint black u) in
      Ensures-branch (KeepsRoot _) (frame_color p) (color u) _ _ _ (Ensures-red _ z _ refl)
        (Ensures-loop_asserts _ z c _ (
          Ensures-imp (KeepsRoot (inorder (plug rise rest))) (KeepsRoot _) _
            (λ r e. e ∙ plug_cong rise (node c (close z p) k u) rest (simp inorder-paint))
            (insert_fixup-inorder bh rise rest)))
        (Ensures-loop_asserts _ z c _ (
          Ensures-bind (Keeps (inorder (node c (close z p) k u))) (KeepsRoot _) _ _
            (settle_left-inorder z p c k u) (λ t e. plug_cong t (node c (close z p) k u) rest e)))
  insert_fixup-inorder bh z (p ∷ from_right c u k ∷ rest) =
      let rise = node red (paint black u) k (paint black (close z p)) in
      Ensures-branch (KeepsRoot _) (frame_color p) (color u) _ _ _ (Ensures-red _ z _ refl)
        (Ensures-loop_asserts _ z c _ (
          Ensures-imp (KeepsRoot (inorder (plug rise rest))) (KeepsRoot _) _
            (λ r e. e ∙ plug_cong rise (node c u k (close z p)) rest (simp inorder-paint))
            (insert_fixup-inorder bh rise rest)))
        (Ensures-loop_asserts _ z c _ (
          Ensures-bind (Keeps (inorder (node c u k (close z p)))) (KeepsRoot _) _ _
            (settle_right-inorder z p c u k) (λ t e. plug_cong t (node c u k (close z p)) rest e)))

module _ {ℓ} {K : Type ℓ} ⦃p : RbPair K⦄ where
  -- Insertion into the whole list is insertion into the part that the walk of `x` leads to.
  insert_sorted-plug :
      (x : K) (z : Node K) (fs : List (Frame K))
      → Follows x fs
      → IsSorted (inorder (plug z fs))
      → insert_sorted x (inorder (plug z fs)) ≡ before fs ++ insert_sorted x (inorder z) ++ after fs
  insert_sorted-plug x z [] f s = sym (append-nil (insert_sorted x (inorder z)))
  insert_sorted-plug x z (from_left c k r ∷ fs) f s =
      rw
        (
          insert_sorted-plug x (node c z k r) fs f.1 s,
          insert_sorted-stop x k (inorder z) (inorder r) f.0,
        )
        (simp append_assoc)
  insert_sorted-plug x z (from_right c l k ∷ fs) f s =
      rw
        (
          insert_sorted-plug x (node c l k z) fs f.1 s,
          insert_sorted-pass x k (inorder l) (inorder z) (IsSorted-hole (node c l k z) fs s) f.0,
        )
        (simp append_assoc)

  -- The key is put where the walk ended.
  inserted_at :
      (x : K) (fs : List (Frame K))
      → Follows x fs
      → IsSorted (inorder (plug nil fs))
      → inorder (plug (node red nil x nil) fs) ≡ insert_sorted x (inorder (plug nil fs))
  inserted_at x fs f s =
      inorder-plug (node red nil x nil) fs ∙ sym (insert_sorted-plug x nil fs f s)

  abbrev pub Inserts : Rbtree K → K → Rbtree K → Type ℓ
  Inserts t x t' = inorder t'.root ≡ insert_sorted x (inorder t.root)

  do_insert-inorder :
      (t : Rbtree K) (x : K) (stack : List (Frame K))
      → Follows x stack
      → plug nil stack ≡ t.root
      → IsSorted (inorder t.root)
      → Ensures (Inserts t x) (do_insert t x stack)
  unfolding do_insert
  do_insert-inorder t x [] f e s =
      Ensures-assert (Inserts t x) (t.bh + 1 == 1)
        (some (record t { root = node black nil x nil; bh = t.bh + 1 })) (rw (← e) refl)
  do_insert-inorder t x (parent ∷ stack) f e s =
      let new = node red nil x nil in
      let grown = inserted_at x (parent ∷ stack) f (rw (← e) at s) in
      rw (attach_lem x parent stack f) (
        Ensures-bind (KeepsRoot (inorder (plug new (parent ∷ stack)))) (Inserts t x) _ _
          (insert_fixup-inorder t.bh new (parent ∷ stack))
          (λ r h. h ∙ grown ∙ ap (λ z. insert_sorted x (inorder z)) e))

  abbrev pub Grown : Rbtree K → K → Rbtree K → Type ℓ
  Grown t x t' = IsRedBlack t' × Inserts t x t'

  pub do_insert-Grown :
      (t : Rbtree K) (x : K) (stack : List (Frame K))
      → Arrived t.bh x t.root (nil, stack)
      → IsSorted (inorder t.root)
      → Returns (Grown t x) (do_insert t x stack)
  do_insert-Grown t x stack a s =
      Returns-Ensures IsRedBlack (Inserts t x) _ (do_insert-IsRedBlack t x stack a.0 a.1.1)
        (do_insert-inorder t x stack a.1.1 a.1.0 s)

  -- On a red-black tree with its keys in order `rb_insert` fails no assertion; the new tree is
  -- red-black, and its keys from left to right are the old ones with `x` put in place.
  pub insert-Grown :
      (t : Rbtree K) (x : K)
      → IsRedBlack t
      → IsSorted (inorder t.root)
      → Returns (Grown t x) (insert t x)
  unfolding insert
  insert-Grown t x v s =
      Returns-bind (λ stack. Arrived t.bh x t.root (nil, stack)) (Grown t x) _ _
        (descend-Arrived t.bh x t.root (At-root t v))
        (λ stack a.
          let k = reserve_keeps t in
          Returns-imp (Grown (reserve t) x) (Grown t x) (do_insert (reserve t) x stack)
            (λ t' g. (g.0, g.1 ∙ ap (λ z. insert_sorted x (inorder z)) k.1))
            (do_insert-Grown (reserve t) x stack (rw (k.0, k.1) a) (rw k.1 s)))

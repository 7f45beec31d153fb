-- ===== src/Rbtree/Join/Correct.antt =====
-- `rb_join` of two red-black trees and a key between them.
use javalette.Rbtree.Insert.Shape.{At-root, reserve_keeps}
use javalette.Rbtree.Join.Spine.{
  OnSpine, AtRightEnd, right_spine-OnSpine, right_spine-AtRightEnd, AtLeftEnd, left_spine-OnSpine,
  left_spine-AtLeftEnd,
}
use javalette.Rbtree.Insert.Sorted.{KeepsRoot, insert_fixup-inorder}
use javalette.Rbtree.Insert.Balanced.{Built, insert_fixup-Built}
use javalette.Prelude.{
  ℕ, ◌≡◌, ◌≤◌, refl, sym, ◌∙◌, Bool, true, not, List, [], ◌∷◌, ◌++◌, Returns, Returns-bind,
  Returns-Ensures, Returns-assert, Returns-imp, append_assoc, leb, arith, append-nil, All,
  All-split, ==_iff, Returns-if,
}
use javalette.Rbtree.{
  Node, nil, node, Frame, from_left, from_right, Rbtree, RbPair, cmp_less, plug, color, red, black,
  frame_key,
}
use javalette.Rbtree.Order.{inorder, before, after, inorder-plug}
use javalette.Rbtree.Balance.{height, IsBalanced, Fits, outer, IsRedBlack}
use javalette.Rbtree.Join.{hang, join, join_left, join_right, join_roots, reserve}

module _ {ℓ} {K : Type ℓ} where
  -- The keys of the result, and its shape.
  abbrev pub Joined : List K → Rbtree K → Type ℓ
  Joined ks t = IsRedBlack t × (inorder t.root ≡ ks)

  -- The parent, if there is one, is in order.
  abbrev ParentOk : (K → Bool) → List (Frame K) → Type 0
  ParentOk in_order [] = Unit
  ParentOk in_order (f ∷ fs) = in_order (frame_key f) ≡ true

  hang-Joined :
      (t : Rbtree K) (l : Node K) (x : K) (r : Node K) (in_order : K → Bool)
      (stack : List (Frame K)) (h : ℕ)
      → IsBalanced l
        × IsBalanced r
        × (height l ≡ h)
        × (height r ≡ h)
        × (color l ≡ black)
        × (color r ≡ black)
      → Fits h stack
      → t.bh ≡ outer h stack
      → ParentOk in_order stack
      → Returns
          (Joined (before stack ++ (inorder l ++ x ∷ inorder r) ++ after stack))
          (hang t l x r in_order stack)
  unfolding hang
  hang-Joined t l x r in_order [] h b f o ok = (ground arith, simp (append-nil))
  hang-Joined t l x r in_order (parent ∷ stack) h b f o ok =
      let ks = before (parent ∷ stack) ++ (inorder l ++ x ∷ inorder r) ++ after (parent ∷ stack) in
      Returns-assert (Joined ks) _ _ ok (
        Returns-bind (λ q. Built q × KeepsRoot (inorder (plug (node red l x r) (parent ∷ stack))) q)
          (Joined ks) _ _
          (Returns-Ensures Built (KeepsRoot (inorder (plug (node red l x r) (parent ∷ stack)))) _
            (insert_fixup-Built t.bh h (node red l x r) (parent ∷ stack) (ground arith) refl
              (ground arith) f o)
            (insert_fixup-inorder t.bh (node red l x r) (parent ∷ stack)))
          (λ q (b', e). (
            record { balanced = b'.0; black_root = b'.1; counted = b'.2 },
            e ∙ inorder-plug (node red l x r) (parent ∷ stack),
          )))

  right_keys :
      (root z : Node K) (stack : List (Frame K)) (ks : List K)
      → plug z stack ≡ root
      → after stack ≡ []
      → before stack ++ (inorder z ++ ks) ++ after stack ≡ inorder root ++ ks
  right_keys root z stack ks e a =
      rw (← e, inorder-plug z stack, a) (simp (append-nil, append_assoc))

  left_keys :
      (root z : Node K) (stack : List (Frame K)) (ks : List K) (x : K)
      → plug z stack ≡ root
      → before stack ≡ []
      → before stack ++ (ks ++ x ∷ inorder z) ++ after stack ≡ ks ++ x ∷ inorder root
  left_keys root z stack ks x e b = rw (← e, inorder-plug z stack, b) (simp append_assoc)

  All-plug {κ} :
      (P : K → Type κ) (z : Node K) (fs : List (Frame K))
      → All P (inorder (plug z fs))
      → All P (inorder z)
  All-plug P z fs a =
      (All-split P (before fs) (inorder z)
        (All-split P (before fs ++ inorder z) (after fs) (rw (inorder-plug z fs) at a)).0).1

  -- A parent's key is a key of the tree.
  All-frame_key {κ} :
      (P : K → Type κ) (z : Node K) (f : Frame K) (fs : List (Frame K))
      → All P (inorder (plug z (f ∷ fs)))
      → P (frame_key f)
  All-frame_key P z (from_left c k r) fs a =
      (All-split P (inorder z) (k ∷ inorder r) (All-plug P (node c z k r) fs a)).1.0
  All-frame_key P z (from_right c l k) fs a =
      (All-split P (inorder l) (k ∷ inorder z) (All-plug P (node c l k z) fs a)).1.0

module _ {ℓ} {K : Type ℓ} ⦃p : RbPair K⦄ where
  abbrev pub AllLe : List K → K → Type 0
  AllLe ks x = All (λ y. p.first y ≤ p.first x) ks

  abbrev pub AllGe : List K → K → Type 0
  AllGe ks x = All (λ y. p.first x ≤ p.first y) ks

  parent_below :
      (x : K) (z : Node K) (fs : List (Frame K))
      → AllLe (inorder (plug z fs)) x
      → ParentOk (λ k. not (cmp_less x k)) fs
  parent_below x z [] a = tt
  parent_below x z (f ∷ fs) a =
      let le = All-frame_key (λ y. p.first y ≤ p.first x) z f fs a in ground arith

  parent_above :
      (x : K) (z : Node K) (fs : List (Frame K))
      → AllGe (inorder (plug z fs)) x
      → ParentOk (λ k. not (cmp_less k x)) fs
  parent_above x z [] a = tt
  parent_above x z (f ∷ fs) a =
      let ge = All-frame_key (λ y. p.first x ≤ p.first y) z f fs a in ground arith

  join_right-Joined :
      (t1 : Rbtree K) (x : K) (t2 : Rbtree K)
      → IsRedBlack t1
      → IsRedBlack t2
      → t2.bh ≤ t1.bh
      → AllLe (inorder t1.root) x
      → Returns (Joined (inorder t1.root ++ x ∷ inorder t2.root)) (join_right t1 x t2)
  unfolding join_right
  join_right-Joined t1 x t2 v w le a =
      let ks = inorder t1.root ++ x ∷ inorder t2.root in
      Returns-bind (λ s. OnSpine t1.bh t2.bh s × AtRightEnd t1.root s) (Joined ks) _ _
        (Returns-Ensures (OnSpine t1.bh t2.bh) (AtRightEnd t1.root) _
          (right_spine-OnSpine t1.bh t2.bh t1.bh t1.root [] (At-root t1 v) (ground arith))
          (right_spine-AtRightEnd t1.bh t2.bh t1.bh t1.root [] refl))
        (λ (bh, z, stack) (on, end). Returns-assert (Joined ks) _ _ ((==_iff bh t2.bh).1 on.1) (
          Returns-imp (Joined (before stack ++ (inorder z ++ x ∷ inorder t2.root) ++ after stack))
            (Joined ks) _
            (λ t' j. (j.0, j.1 ∙ right_keys t1.root z stack (x ∷ inorder t2.root) end.0 end.1))
            (hang-Joined (reserve t1) z x t2.root (λ k. not (cmp_less x k)) stack t2.bh
              (on.0.balanced, w.balanced, on.2, sym w.counted, on.3, w.black_root)
              (rw (← on.2) on.0.fits) (rw ((reserve_keeps t1).0, ← on.2) (sym on.0.inside))
              (parent_below x z stack (rw end.0 a)))))

  join_left-Joined :
      (t1 : Rbtree K) (x : K) (t2 : Rbtree K)
      → IsRedBlack t1
      → IsRedBlack t2
      → t1.bh ≤ t2.bh
      → AllGe (inorder t2.root) x
      → Returns (Joined (inorder t1.root ++ x ∷ inorder t2.root)) (join_left t1 x t2)
  unfolding join_left
  join_left-Joined t1 x t2 v w le a =
      let ks = inorder t1.root ++ x ∷ inorder t2.root in
      Returns-bind (λ s. OnSpine t2.bh t1.bh s × AtLeftEnd t2.root s) (Joined ks) _ _
        (Returns-Ensures (OnSpine t2.bh t1.bh) (AtLeftEnd t2.root) _
          (left_spine-OnSpine t2.bh t1.bh t2.bh t2.root [] (At-root t2 w) (ground arith))
          (left_spine-AtLeftEnd t2.bh t1.bh t2.bh t2.root [] refl))
        (λ (bh, z, stack) (on, end). Returns-assert (Joined ks) _ _ ((==_iff bh t1.bh).1 on.1) (
          Returns-imp (Joined (before stack ++ (inorder t1.root ++ x ∷ inorder z) ++ after stack))
            (Joined ks) _
            (λ t' j. (j.0, j.1 ∙ left_keys t2.root z stack (inorder t1.root) x end.0 end.1))
            (hang-Joined (reserve t2) t1.root x z (λ k. not (cmp_less k x)) stack t1.bh
              (v.balanced, on.0.balanced, sym v.counted, on.2, v.black_root, on.3)
              (rw (← on.2) on.0.fits) (rw ((reserve_keeps t2).0, ← on.2) (sym on.0.inside))
              (parent_above x z stack (rw end.0 a)))))

  -- The result of a join whose trees are not empty; an empty one leaves the other, without `x`.
  abbrev pub JoinSpec : Rbtree K → K → Rbtree K → Node K → Node K → Rbtree K → Type ℓ
  JoinSpec t1 x t2 nil r2 t = t ≡ t2
  JoinSpec t1 x t2 (node c l k r) nil t = t ≡ t1
  JoinSpec t1 x t2 (node c l k r) (node d m j n) t =
      Joined (inorder t1.root ++ x ∷ inorder t2.root) t

  join_roots-JoinSpec :
      (t1 : Rbtree K) (x : K) (t2 : Rbtree K) (r1 r2 : Node K)
      → IsRedBlack t1
      → IsRedBlack t2
      → AllLe (inorder t1.root) x
      → AllGe (inorder t2.root) x
      → Returns (JoinSpec t1 x t2 r1 r2) (join_roots t1 x t2 r1 r2)
  join_roots-JoinSpec t1 x t2 nil r2 v w a b = refl
  join_roots-JoinSpec t1 x t2 (node c l k r) nil v w a b = refl
  join_roots-JoinSpec t1 x t2 (node c l k r) (node d m j n) v w a b =
      Returns-if (Joined (inorder t1.root ++ x ∷ inorder t2.root)) (leb t2.bh t1.bh) _ _
        (λ h. join_right-Joined t1 x t2 v w (ground arith) a)
        (λ h. join_left-Joined t1 x t2 v w (ground arith) b)

  -- Two red-black trees, with `x` not below a key of the first nor above one of the second: where
  -- both have nodes, `rb_join` fails no assertion and returns a red-black tree with the keys of the
  -- first, `x` and the keys of the second, in this order. Where one is empty it returns the other.
  pub join-JoinSpec :
      (t1 : Rbtree K) (x : K) (t2 : Rbtree K)
      → IsRedBlack t1
      → IsRedBlack t2
      → AllLe (inorder t1.root) x
      → AllGe (inorder t2.root) x
      → Returns (JoinSpec t1 x t2 t1.root t2.root) (join t1 x t2)
  unfolding join
  join-JoinSpec t1 x t2 v w a b = join_roots-JoinSpec t1 x t2 t1.root t2.root v w a b

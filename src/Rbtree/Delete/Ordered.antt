-- ===== src/Rbtree/Delete/Ordered.antt =====
-- The keys of the tree after a deletion, in their order.
use javalette.Prelude.{
  ℕ, zero, suc, ◌≡◌, refl, sym, ◌∙◌, ap, Option, List, [], ◌∷◌, ◌++◌, Ensures, Ensures-bind,
  Ensures-assert, Ensures-imp, append_assoc, append-nil, length,
}
use javalette.Rbtree.{
  is_black, Color, red, black, Node, nil, node, Frame, from_left, from_right, color, plug, paint,
}
use javalette.Rbtree.Order.{inorder, before, after, inorder-plug, inorder-paint}
use javalette.Rbtree.Insert.Sorted.{Keeps, KeepsRoot, plug_cong}
use javalette.Rbtree.Delete.{
  delete_fixup, delete_branch, unlink, successor, delete_node, restore_left, restore_right,
}

Ensures-delete_branch {ℓ κ} :
    {A : Type ℓ} (P : A → Type κ) (z wl wr w : Color) (a b c d : Option A)
    → Ensures P a
    → Ensures P b
    → Ensures P c
    → Ensures P d
    → Ensures P (delete_branch z wl wr w a b c d)
Ensures-delete_branch P red wl wr w a b c d f g h k = f
Ensures-delete_branch P black black black black a b c d f g h k = g
Ensures-delete_branch P black black black red a b c d f g h k = h
Ensures-delete_branch P black red wr w a b c d f g h k = k
Ensures-delete_branch P black black red w a b c d f g h k = k

module _ {ℓ} {K : Type ℓ} where
  restore_left-inorder :
      (c : Color) (z : Node K) (k : K) (wc : Color) (wl : Node K) (wk : K) (wr : Node K)
      → Ensures (Keeps (inorder (node c z k (node wc wl wk wr)))) (restore_left c z k wc wl wk wr)
  unfolding restore_left
  restore_left-inorder c z k red wl wk wr = tt
  restore_left-inorder c z k black wl wk (node red a x b) = simp (inorder-paint, append_assoc)
  restore_left-inorder c z k black (node d e y f) wk (node black a x b) =
      simp (inorder-paint, append_assoc)
  restore_left-inorder c z k black (node d e y f) wk nil = simp (inorder-paint, append_assoc)
  restore_left-inorder c z k black nil wk (node black a x b) = tt
  restore_left-inorder c z k black nil wk nil = tt

  restore_right-inorder :
      (c wc : Color) (wl : Node K) (wk : K) (wr : Node K) (k : K) (z : Node K)
      → Ensures (Keeps (inorder (node c (node wc wl wk wr) k z))) (restore_right c wc wl wk wr k z)
  unfolding restore_right
  restore_right-inorder c red wl wk wr k z = tt
  restore_right-inorder c black (node red a x b) wk wr k z = simp (inorder-paint, append_assoc)
  restore_right-inorder c black (node black a x b) wk (node d e y f) k z =
      simp (inorder-paint, append_assoc)
  restore_right-inorder c black nil wk (node d e y f) k z = simp (inorder-paint, append_assoc)
  restore_right-inorder c black (node black a x b) wk nil k z = tt
  restore_right-inorder c black nil wk nil k z = tt

  delete_fixup-inorder :
      (fuel bh : ℕ) (z : Node K) (fs : List (Frame K))
      → Ensures (KeepsRoot (inorder (plug z fs))) (delete_fixup fuel bh z fs)
  unfolding delete_fixup
  delete_fixup-inorder zero bh z fs = tt
  delete_fixup-inorder (suc fuel) bh nil [] = refl
  delete_fixup-inorder (suc fuel) bh (node red l k r) [] = refl
  delete_fixup-inorder (suc fuel) bh (node black l k r) [] = refl
  delete_fixup-inorder (suc fuel) bh nil (from_left c k nil ∷ rest) = tt
  delete_fixup-inorder (suc fuel) bh (node red a x b) (from_left c k nil ∷ rest) =
      plug_cong (node c (node black a x b) k nil) (node c (node red a x b) k nil) rest refl
  delete_fixup-inorder (suc fuel) bh (node black a x b) (from_left c k nil ∷ rest) = tt
  delete_fixup-inorder (suc fuel) bh nil (from_right c nil k ∷ rest) = tt
  delete_fixup-inorder (suc fuel) bh (node red a x b) (from_right c nil k ∷ rest) =
      plug_cong (node c nil k (node black a x b)) (node c nil k (node red a x b)) rest refl
  delete_fixup-inorder (suc fuel) bh (node black a x b) (from_right c nil k ∷ rest) = tt
  delete_fixup-inorder (suc fuel) bh z (from_left c k (node wc wl wk wr) ∷ rest) =
      let whole = node c z k (node wc wl wk wr) in
      let Q = KeepsRoot (inorder (plug whole rest)) in
      Ensures-delete_branch Q (color z) (color wl) (color wr) wc _ _ _ _
        (plug_cong (paint black z) z (from_left c k (node wc wl wk wr) ∷ rest)
          (inorder-paint black z))
        (Ensures-imp (KeepsRoot (inorder (plug (node c z k (node red wl wk wr)) rest))) Q _
          (λ r e. e ∙ plug_cong (node c z k (node red wl wk wr)) whole rest refl)
          (delete_fixup-inorder fuel bh (node c z k (node red wl wk wr)) rest))
        (Ensures-assert Q (is_black c) _ (
          Ensures-imp
            (KeepsRoot (inorder (plug z (from_left red k wl ∷ from_left black wk wr ∷ rest)))) Q _
            (λ r e.
              e ∙ plug_cong (node black (node red z k wl) wk wr) whole rest (simp append_assoc))
            (delete_fixup-inorder fuel bh z (from_left red k wl ∷ from_left black wk wr ∷ rest))))
        (Ensures-bind (Keeps (inorder whole)) Q _ _ (restore_left-inorder c z k wc wl wk wr)
          (λ t e. plug_cong t whole rest e))
  delete_fixup-inorder (suc fuel) bh z (from_right c (node wc wl wk wr) k ∷ rest) =
      let whole = node c (node wc wl wk wr) k z in
      let Q = KeepsRoot (inorder (plug whole rest)) in
      Ensures-delete_branch Q (color z) (color wl) (color wr) wc _ _ _ _
        (plug_cong (paint black z) z (from_right c (node wc wl wk wr) k ∷ rest)
          (inorder-paint black z))
        (Ensures-imp (KeepsRoot (inorder (plug (node c (node red wl wk wr) k z) rest))) Q _
          (λ r e. e ∙ plug_cong (node c (node red wl wk wr) k z) whole rest refl)
          (delete_fixup-inorder fuel bh (node c (node red wl wk wr) k z) rest))
        (Ensures-assert Q (is_black c) _ (
          Ensures-imp
            (KeepsRoot (inorder (plug z (from_right red wr k ∷ from_right black wl wk ∷ rest)))) Q _
            (λ r e.
              e ∙ plug_cong (node black wl wk (node red wr k z)) whole rest (simp append_assoc))
            (delete_fixup-inorder fuel bh z (from_right red wr k ∷ from_right black wl wk ∷ rest))))
        (Ensures-bind (Keeps (inorder whole)) Q _ _ (restore_right-inorder c wc wl wk wr k z)
          (λ t e. plug_cong t whole rest e))

  unlink-inorder :
      (bh : ℕ) (c : Color) (w : Node K) (fs : List (Frame K))
      → Ensures (KeepsRoot (inorder (plug w fs))) (unlink bh c w fs)
  unfolding unlink
  unlink-inorder bh red w fs = refl
  unlink-inorder bh black w fs = delete_fixup-inorder _ bh w fs

  pub plug-append : (z : Node K) (xs ys : List (Frame K)) → plug z (xs ++ ys) ≡ plug (plug z xs) ys
  plug-append z [] ys = refl
  plug-append z (from_left c k r ∷ xs) ys = plug-append (node c z k r) xs ys
  plug-append z (from_right c l k ∷ xs) ys = plug-append (node c l k z) xs ys

  -- The key that moves up is the first of its subtree, and the others stay.
  abbrev pub First : List K → Color × K × Node K × List (Frame K) → Type ℓ
  First ks (yc, yk, w, above) = yk ∷ inorder (plug w above) ≡ ks

  successor-First :
      (bh base : ℕ) (c : Color) (l : Node K) (k : K) (r : Node K) (above : List (Frame K))
      → before above ≡ []
      → Ensures (First (inorder (plug (node c l k r) above))) (successor bh base c l k r above)
  unfolding successor
  successor-First bh base c nil k r above e =
      simp (inorder-plug r above, inorder-plug (node c nil k r) above, e)
  successor-First bh base c (node lc ll lk lr) k r above e =
      Ensures-assert (First (inorder (plug (node c (node lc ll lk lr) k r) above))) _ _
        (successor-First bh base lc ll lk lr (from_left c k r ∷ above) e)

  moved_up :
      (c : Color) (l : Node K) (yk : K) (w : Node K) (above fs : List (Frame K)) (ks : List K)
      → yk ∷ inorder (plug w above) ≡ ks
      → inorder (plug w (above ++ (from_right c l yk ∷ fs)))
        ≡ before fs ++ (inorder l ++ ks) ++ after fs
  moved_up c l yk w above fs ks h =
      ap inorder (plug-append w above (from_right c l yk ∷ fs))
      ∙ inorder-plug (node c l yk (plug w above)) fs
      ∙ ap (λ ys. before fs ++ (inorder l ++ ys) ++ after fs) h

  -- What is left when the node's own key is gone.
  abbrev pub Others : Node K → Node K → List (Frame K) → Node K × ℕ → Type ℓ
  Others l r fs = KeepsRoot (before fs ++ (inorder l ++ inorder r) ++ after fs)

  pub delete_node-Others :
      (bh : ℕ) (c : Color) (l : Node K) (k : K) (r : Node K) (fs : List (Frame K))
      → Ensures (Others l r fs) (delete_node bh c l k r fs)
  unfolding delete_node
  delete_node-Others bh c l k nil fs =
      Ensures-imp (KeepsRoot (inorder (plug l fs))) (Others l nil fs) _
        (λ r e.
          e
          ∙ inorder-plug l fs
          ∙ ap (λ ys. before fs ++ ys ++ after fs) (sym (append-nil (inorder l))))
        (unlink-inorder bh c l fs)
  delete_node-Others bh c nil k (node rc rl rk rr) fs =
      Ensures-imp (KeepsRoot (inorder (plug (node rc rl rk rr) fs)))
        (Others nil (node rc rl rk rr) fs) _ (λ r e. e ∙ inorder-plug (node rc rl rk rr) fs)
        (unlink-inorder bh c (node rc rl rk rr) fs)
  delete_node-Others bh c (node lc ll lk lr) k (node rc rl rk rr) fs =
      let left = node lc ll lk lr in
      let right = node rc rl rk rr in
      Ensures-bind (First (inorder right)) (Others left right fs) _ _
        (successor-First bh (suc (length fs)) rc rl rk rr [] refl)
        (λ (yc, yk, w, above) h.
          let fs' = above ++ (from_right c left yk ∷ fs) in
          Ensures-imp (KeepsRoot (inorder (plug w fs'))) (Others left right fs) _
            (λ r e. e ∙ moved_up c left yk w above fs (inorder right) h)
            (unlink-inorder bh yc w fs'))

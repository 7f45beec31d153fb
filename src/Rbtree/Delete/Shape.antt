-- ===== src/Rbtree/Delete/Shape.antt =====
-- `rb_delete` on a red-black tree.
use javalette.Rbtree.Insert.Shape.{At-root, reserve-IsRedBlack, reserve_keeps}
use javalette.Prelude.{
  ℕ, suc, ◌+◌, ◌*◌, ◌<◌, ◌≡◌, refl, sym, ◌∙◌, ap, List, [], ◌∷◌, ◌++◌, length, arith, Returns,
  Returns-bind, Returns-assert, length-append,
}
use javalette.Rbtree.{
  Color, red, black, Node, nil, node, Frame, from_left, from_right, color, paint, Rbtree, RbPair,
}
use javalette.Rbtree.Balance.{
  IsBalanced, height, Fits, outer, top_color, Allows, weight, IsRedBlack,
}
use javalette.Rbtree.Insert.Balanced.{Built, Allows-black, Built-plug}
use javalette.Rbtree.Insert.Walks.{At, At-left, At-right, Arrived, locate-Arrived}
use javalette.Rbtree.Delete.{unlink, successor, delete_node, delete_at, delete, reserve}
use javalette.Rbtree.Delete.Balanced.{delete_fixup-Built, rounds}

module _ {ℓ} {K : Type ℓ} where
  rounds_start : (c : Color) (fs : List (Frame K)) → rounds c fs < length fs * 3 + 5
  rounds_start red fs = omega arith
  rounds_start black [] = omega arith
  rounds_start black (from_left red k r ∷ fs) = omega arith
  rounds_start black (from_left black k r ∷ fs) = omega arith
  rounds_start black (from_right red l k ∷ fs) = omega arith
  rounds_start black (from_right black l k ∷ fs) = omega arith

  -- A node with one child at most is taken out; `w` is that child, or `nil`.
  unlink-Built :
      (bh : ℕ) (c : Color) (w : Node K) (fs : List (Frame K))
      → IsBalanced w
      → IsBalanced (paint black w)
      → Allows c (color w)
      → Fits (height w + weight c) fs
      → Allows (top_color fs) c
      → bh ≡ outer (height w + weight c) fs
      → Returns Built (unlink bh c w fs)
  unfolding unlink
  unlink-Built bh red w fs b b' a f t o =
      Built-plug bh (height w + 0) w fs b (omega arith) f (rw a (Allows-black (top_color fs))) o
  unlink-Built bh black w fs b b' a f t o =
      delete_fixup-Built (length fs * 3 + 5) bh (height w + 1) w fs (rounds_start (color w) fs) b'
        refl f o

  paint-IsBalanced : (w : Node K) → IsBalanced w → IsBalanced (paint black w)
  paint-IsBalanced nil b = tt
  paint-IsBalanced (node c l k r) b = (b.0, b.1, b.2, tt, tt)

  -- The shape of a stack does not depend on a key in it.
  Fits-rekey :
      (h : ℕ) (above : List (Frame K)) (c : Color) (l : Node K) (k k' : K) (stack : List (Frame K))
      → Fits h (above ++ (from_right c l k ∷ stack))
      → Fits h (above ++ (from_right c l k' ∷ stack))
        × (outer h (above ++ (from_right c l k' ∷ stack))
            ≡ outer h (above ++ (from_right c l k ∷ stack)))
        × (length (above ++ (from_right c l k' ∷ stack))
            ≡ length (above ++ (from_right c l k ∷ stack)))
        × (top_color (above ++ (from_right c l k' ∷ stack))
            ≡ top_color (above ++ (from_right c l k ∷ stack)))
  Fits-rekey h [] c l k k' stack f = (f, refl, refl, refl)
  Fits-rekey h (from_left d j r ∷ above) c l k k' stack f =
      let g = Fits-rekey (h + weight d) above c l k k' stack f.4 in
      ((f.0, f.1, f.2, rw g.3 f.3, g.0), g.1, ap suc g.2, refl)
  Fits-rekey h (from_right d r j ∷ above) c l k k' stack f =
      let g = Fits-rekey (h + weight d) above c l k k' stack f.4 in
      ((f.0, f.1, f.2, rw g.3 f.3, g.0), g.1, ap suc g.2, refl)

  At-rekey :
      (bh : ℕ) (z : Node K) (above : List (Frame K)) (c : Color) (l : Node K) (k k' : K)
      (stack : List (Frame K))
      → At bh z (above ++ (from_right c l k ∷ stack))
      → At bh z (above ++ (from_right c l k' ∷ stack))
  At-rekey bh z above c l k k' stack a =
      let g = Fits-rekey (height z) above c l k k' stack a.fits in
      record {
        balanced = a.balanced;
        fits = g.0;
        allowed = rw g.3 a.allowed;
        inside = g.1 ∙ a.inside;
        room = rw g.2 a.room;
      }

  -- What the walk to the least node of the right subtree ends at.
  abbrev Found : ℕ → List (Frame K) → Color × K × Node K × List (Frame K) → Type 0
  Found bh fs (yc, yk, w, above) = At bh (node yc nil yk w) (above ++ fs)

  successor-Found :
      (bh : ℕ) (c : Color) (l : Node K) (k : K) (r : Node K) (above fs : List (Frame K))
      → At bh (node c l k r) (above ++ fs)
      → Returns (Found bh fs) (successor bh (length fs) c l k r above)
  unfolding successor
  successor-Found bh c nil k r above fs a = a
  successor-Found bh c (node lc ll lk lr) k r above fs a =
      let down = At-left a in
      Returns-assert (Found bh fs) _ _ (rw length-append at down.0)
        (successor-Found bh lc ll lk lr (from_left c k r ∷ above) fs down.1)

  -- With one child at most.
  unlink_one :
      (bh : ℕ) (c : Color) (l : Node K) (k : K) (r w : Node K) (stack : List (Frame K))
      → At bh (node c l k r) stack
      → IsBalanced w
      → height w ≡ height l
      → Allows c (color w)
      → Returns Built (unlink bh c w stack)
  unlink_one bh c l k r w stack a b e al =
      unlink-Built bh c w stack b (paint-IsBalanced w b) al (rw e a.fits) a.allowed
        (rw e (sym a.inside))

  delete_node-Built :
      (bh : ℕ) (c : Color) (l : Node K) (k : K) (r : Node K) (stack : List (Frame K))
      → At bh (node c l k r) stack
      → Returns Built (delete_node bh c l k r stack)
  unfolding delete_node
  delete_node-Built bh c l k nil stack a =
      unlink_one bh c l k nil l stack a a.balanced.0 refl a.balanced.3
  delete_node-Built bh c nil k (node rc rl rk rr) stack a =
      unlink_one bh c nil k (node rc rl rk rr) (node rc rl rk rr) stack a a.balanced.1
        (sym a.balanced.2) a.balanced.4
  delete_node-Built bh c (node lc ll lk lr) k (node rc rl rk rr) stack a =
      Returns-bind (Found bh (from_right c (node lc ll lk lr) k ∷ stack)) Built _ _
        (successor-Found bh rc rl rk rr [] (from_right c (node lc ll lk lr) k ∷ stack)
          (At-right a).1)
        (λ (yc, yk, w, above) f.
          let a' = At-rekey bh (node yc nil yk w) above c (node lc ll lk lr) k yk stack f in
          unlink_one bh yc nil yk w w (above ++ (from_right c (node lc ll lk lr) yk ∷ stack)) a'
            a'.balanced.1 (sym a'.balanced.2) a'.balanced.4)

module _ {ℓ} {K : Type ℓ} ⦃p : RbPair K⦄ where
  pub delete_at-IsRedBlack :
      (t : Rbtree K) (at : Node K × List (Frame K))
      → IsRedBlack t
      → At t.bh at.0 at.1
      → Returns IsRedBlack (delete_at t at)
  delete_at-IsRedBlack t (nil, stack) v a = v
  delete_at-IsRedBlack t (node c l k r, stack) v a =
      Returns-bind Built IsRedBlack _ _ (delete_node-Built t.bh c l k r stack a)
        (λ b h. record { balanced = h.0; black_root = h.1; counted = h.2 })

  -- On a red-black tree `rb_delete` fails no assertion, and the new tree is red-black again.
  pub delete-IsRedBlack : (t : Rbtree K) (x : K) → IsRedBlack t → Returns IsRedBlack (delete t x)
  unfolding delete
  delete-IsRedBlack t x v =
      Returns-bind (Arrived t.bh x t.root) IsRedBlack _ _
        (locate-Arrived t.bh x t.root (At-root t v))
        (λ at a.
          delete_at-IsRedBlack (reserve t) at (reserve-IsRedBlack t v) (rw (reserve_keeps t).0 a.0))

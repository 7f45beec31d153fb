-- ===== src/Rbtree/Insert/Shape.antt =====
-- `rb_insert` and `rb_insert_if_absent` on a red-black tree.
use javalette.Prelude.{◌*◌, ◌≡◌, refl, List, [], ◌∷◌, arith, Returns, Returns-bind, sym, ◌<◌}
use javalette.Rbtree.{red, Node, nil, node, Frame, from_left, from_right, RbPair, Rbtree}
use javalette.Rbtree.Balance.{IsRedBlack}
use javalette.Rbtree.Insert.{do_insert, insert, insert_if_absent, reserve, attach, insert_unless}
use javalette.Rbtree.Insert.Walks.{At, Follows, Arrived, locate-Arrived, descend-Arrived}
use javalette.Rbtree.Insert.Balanced.{Built, insert_fixup-Built}

module _ {ℓ} {K : Type ℓ} ⦃p : RbPair K⦄ where
  -- The walk starts at the root, with an empty stack.
  pub At-root : (t : Rbtree K) → IsRedBlack t → At t.bh t.root []
  At-root t v = ground arith

  pub attach_lem : (x : K) (f : Frame K) (fs : List (Frame K)) → Follows x (f ∷ fs) → attach x f ≡ f
  attach_lem x (from_left c k r) fs h = ground arith
  attach_lem x (from_right c l k) fs h = ground arith

  pub do_insert-IsRedBlack :
      (t : Rbtree K) (x : K) (stack : List (Frame K))
      → At t.bh nil stack
      → Follows x stack
      → Returns IsRedBlack (do_insert t x stack)
  unfolding do_insert
  do_insert-IsRedBlack t x [] a f = ground arith
  do_insert-IsRedBlack t x (parent ∷ stack) a f = rw (attach_lem x parent stack f) (
      Returns-bind Built IsRedBlack _ _
        (insert_fixup-Built t.bh 0 (node red nil x nil) (parent ∷ stack) (ground arith) refl refl
          a.fits (sym a.inside))
        (λ r b. record { balanced = b.0; black_root = b.1; counted = b.2 }))

  pub reserve_keeps : (t : Rbtree K) → ((reserve t).bh ≡ t.bh) × ((reserve t).root ≡ t.root)
  unfolding reserve
  reserve_keeps t = ground arith

  -- Every index that the assertion on the depth lets through lies in the stack.
  pub reserve_room : (t : Rbtree K) → t.bh * 2 < (reserve t).stack_size
  unfolding reserve
  reserve_room t = ground arith

  -- On a red-black tree `rb_insert` fails no assertion, and the new tree is red-black again.
  pub insert-IsRedBlack : (t : Rbtree K) (x : K) → IsRedBlack t → Returns IsRedBlack (insert t x)
  unfolding insert
  insert-IsRedBlack t x v =
      Returns-bind (λ stack. Arrived t.bh x t.root (nil, stack)) IsRedBlack _ _
        (descend-Arrived t.bh x t.root (At-root t v))
        (λ stack a. do_insert-IsRedBlack (reserve t) x stack (rw (reserve_keeps t).0 a.0) a.1.1)

  insert_unless-IsRedBlack :
      (t : Rbtree K) (x : K) (at : Node K × List (Frame K))
      → IsRedBlack t
      → At t.bh at.0 at.1
      → Follows x at.1
      → Returns (λ (t', found). IsRedBlack t') (insert_unless t x at)
  insert_unless-IsRedBlack t x (node c l k r, stack) v a f = v
  insert_unless-IsRedBlack t x (nil, stack) v a f =
      Returns-bind IsRedBlack (λ (t', found). IsRedBlack t') _ _
        (do_insert-IsRedBlack t x stack a f) (λ t' v'. v')

  pub reserve-IsRedBlack : (t : Rbtree K) → IsRedBlack t → IsRedBlack (reserve t)
  unfolding reserve
  reserve-IsRedBlack t v = ground arith

  -- The same for `rb_insert_if_absent`.
  pub insert_if_absent-IsRedBlack :
      (t : Rbtree K) (x : K)
      → IsRedBlack t
      → Returns (λ (t', found). IsRedBlack t') (insert_if_absent t x)
  unfolding insert_if_absent
  insert_if_absent-IsRedBlack t x v =
      Returns-bind (Arrived t.bh x t.root) (λ (t', found). IsRedBlack t') _ _
        (locate-Arrived t.bh x t.root (At-root t v))
        (λ at a.
          insert_unless-IsRedBlack (reserve t) x at (reserve-IsRedBlack t v)
            (rw (reserve_keeps t).0 a.0) a.1.1)

-- ===== src/Rbtree/Sorting.antt =====
-- Sorted lists of keys, and insertion into one: what `rb_insert` promises.
use javalette.Prelude.{
  ◌≤◌, ◌≡◌, refl, List, [], ◌∷◌, ◌++◌, arith, Bool, true, false, if◌then◌else◌, ◌||◌,
}
use javalette.Rbtree.{RbPair, cmp_less, plug, Node, Frame, cmp_eq}
use javalette.Rbtree.Order.{inorder, before, after, inorder-plug}

module _ {ℓ} {K : Type ℓ} ⦃p : RbPair K⦄ where
  -- Insertion into a list: in front of the first key that is greater.
  abbrev pub insert_sorted : K → List K → List K
  insert_sorted x [] = x ∷ []
  insert_sorted x (y ∷ ys) = if cmp_less x y then x ∷ y ∷ ys else y ∷ insert_sorted x ys

  abbrev pub AllGe : K → List K → Type 0
  AllGe k [] = Unit
  AllGe k (y ∷ ys) = (p.first k ≤ p.first y) × AllGe k ys

  abbrev pub IsSorted : List K → Type 0
  IsSorted [] = Unit
  IsSorted (y ∷ ys) = AllGe y ys × IsSorted ys

  pub AllGe-at : (y k : K) (ks ls : List K) → AllGe y (ks ++ k ∷ ls) → p.first y ≤ p.first k
  AllGe-at y k [] ls h = h.0
  AllGe-at y k (x ∷ ks) ls h = AllGe-at y k ks ls h.1

  pub insert_sorted-stop :
      (x k : K) (ks ls : List K)
      → cmp_less x k ≡ true
      → insert_sorted x (ks ++ k ∷ ls) ≡ insert_sorted x ks ++ k ∷ ls
  insert_sorted-stop x k [] ls e = ground arith
  insert_sorted-stop x k (y ∷ ks) ls e = ground (arith, insert_sorted-stop x k ks ls e)

  pub insert_sorted-pass :
      (x k : K) (ks ls : List K)
      → IsSorted (ks ++ k ∷ ls)
      → cmp_less x k ≡ false
      → insert_sorted x (ks ++ k ∷ ls) ≡ ks ++ k ∷ insert_sorted x ls
  insert_sorted-pass x k [] ls s e = ground arith
  insert_sorted-pass x k (y ∷ ks) ls s e =
      ground (arith, AllGe-at y k ks ls s.0, insert_sorted-pass x k ks ls s.1)

  AllGe-split : (y : K) (ks ls : List K) → AllGe y (ks ++ ls) → AllGe y ks × AllGe y ls
  AllGe-split y [] ls h = (tt, h)
  AllGe-split y (x ∷ ks) ls h = let r = AllGe-split y ks ls h.1 in ((h.0, r.0), r.1)

  pub IsSorted-split : (ks ls : List K) → IsSorted (ks ++ ls) → IsSorted ks × IsSorted ls
  IsSorted-split [] ls h = (tt, h)
  IsSorted-split (y ∷ ks) ls h =
      let r = IsSorted-split ks ls h.1 in (((AllGe-split y ks ls h.0).0, r.0), r.1)

  -- A subtree of a sorted tree is sorted.
  pub IsSorted-hole :
      (z : Node K) (fs : List (Frame K)) → IsSorted (inorder (plug z fs)) → IsSorted (inorder z)
  IsSorted-hole z fs s =
      (IsSorted-split (before fs) (inorder z)
        (IsSorted-split (before fs ++ inorder z) (after fs) (rw (inorder-plug z fs) at s)).0).1

  AllGe-trans : (x y : K) (ks : List K) → p.first x ≤ p.first y → AllGe y ks → AllGe x ks
  AllGe-trans x y [] h a = tt
  AllGe-trans x y (z ∷ ks) h a = (omega arith, AllGe-trans x y ks h a.1)

  AllGe-insert_sorted :
      (x y : K) (ks : List K) → p.first y ≤ p.first x → AllGe y ks → AllGe y (insert_sorted x ks)
  AllGe-insert_sorted x y [] h a = (h, tt)
  AllGe-insert_sorted x y (z ∷ ks) h a = ground (arith, AllGe-insert_sorted x y ks h a.1)

  -- Insertion keeps a list sorted.
  pub insert_sorted-IsSorted : (x : K) (ks : List K) → IsSorted ks → IsSorted (insert_sorted x ks)
  insert_sorted-IsSorted x [] s = (tt, tt)
  insert_sorted-IsSorted x (y ∷ ks) s =
      ground
        (arith, AllGe-trans x y ks, AllGe-insert_sorted x y ks, insert_sorted-IsSorted x ks s.1)

  -- A key that compares equal to `x` is among `ks`.
  abbrev pub contains : K → List K → Bool
  contains x [] = false
  contains x (k ∷ ks) = cmp_eq x k || contains x ks

  pub contains-append :
      (x : K) (ks ls : List K) → contains x (ks ++ ls) ≡ (contains x ks || contains x ls)
  contains-append x [] ls = refl
  contains-append x (k ∷ ks) ls = ground (arith, contains-append x ks ls)

  pub contains-below :
      (x k : K) (ks : List K) → cmp_less x k ≡ true → AllGe k ks → contains x ks ≡ false
  contains-below x k [] e a = refl
  contains-below x k (y ∷ ks) e a = ground (arith, contains-below x k ks e a.1)

  pub contains-above :
      (x k : K) (ks ls : List K)
      → cmp_less x k ≡ false
      → cmp_eq x k ≡ false
      → IsSorted (ks ++ k ∷ ls)
      → contains x ks ≡ false
  contains-above x k [] ls e n s = refl
  contains-above x k (y ∷ ks) ls e n s =
      ground (arith, AllGe-at y k ks ls s.0, contains-above x k ks ls e n s.1)

-- ===== src/Rbtree/Client/Abstract.antt =====
-- The operations on sorted keys, and those of the same kind on their addresses.
use javalette.Prelude.{
  ℕ, ◌≡◌, ◌≤◌, refl, sym, ◌∙◌, ap, true, false, List, [], ◌∷◌, ◌++◌, map, arith, ◌==◌, Bool-cases,
  inr, inl, ==_iff,
}
use javalette.Rbtree.{RbPair, cmp_eq}
use javalette.Rbtree.Sorting.{IsSorted, AllGe, insert_sorted, contains, AllGe-at}
use javalette.Rbtree.Delete.Correct.{Removes}
use javalette.Rbtree.Client.{put, member, take_out}

module _ {ℓ} {K : Type ℓ} ⦃p : RbPair K⦄ where
  pub map-insert_sorted :
      (x : K) (ks : List K) → map p.first (insert_sorted x ks) ≡ put (p.first x) (map p.first ks)
  map-insert_sorted x [] = refl
  map-insert_sorted x (k ∷ ks) = ground (arith, map-insert_sorted x ks)

  pub contains-member : (x : K) (ks : List K) → contains x ks ≡ member (p.first x) (map p.first ks)
  contains-member x [] = refl
  contains-member x (k ∷ ks) = ground (arith, contains-member x ks)

  pub take_out_missing :
      (x : K) (ks : List K)
      → contains x ks ≡ false
      → take_out (p.first x) (map p.first ks) ≡ map p.first ks
  take_out_missing x [] e = refl
  take_out_missing x (k ∷ ks) e = ground (arith, take_out_missing x ks)

  -- Between two equal keys of a sorted list all keys are equal, so it does not matter which goes.
  slide :
      (a : ℕ) (k : K) (ks ls : List K)
      → p.first k ≡ a
      → AllGe k ks
      → IsSorted (ks ++ k ∷ ls)
      → map p.first (ks ++ k ∷ ls) ≡ a ∷ map p.first (ks ++ ls)
  slide a k [] ls e g s = ap (λ b. b ∷ map p.first ls) e
  slide a k (y ∷ ks) ls e g s =
      let le = AllGe-at y k ks ls s.0 in
      let same : p.first y ≡ a = omega arith in
      rw same (ap (λ bs. a ∷ bs) (slide a k ks ls e g.1 s.1))

  AllGe-front : (y k : K) (ks ls : List K) → p.first k ≤ p.first y → AllGe y (ks ++ ls) → AllGe k ks
  AllGe-front y k [] ls h a = tt
  AllGe-front y k (z ∷ ks) ls h a = (omega arith, AllGe-front y k ks ls h a.1)

  take_out_hit :
      (x k : K) (ks ls : List K)
      → cmp_eq x k ≡ true
      → IsSorted (ks ++ k ∷ ls)
      → take_out (p.first x) (map p.first (ks ++ k ∷ ls)) ≡ map p.first (ks ++ ls)
  take_out_hit x k [] ls e s = ground arith
  take_out_hit x k (y ∷ ks) ls e s = elim (Bool-cases (p.first x == p.first y)) [
    | inr ne ↦ rw ne (ap (λ bs. p.first y ∷ bs) (take_out_hit x k ks ls e s.1))
    | inl eq ↦
        let same : p.first k ≡ p.first y =
          sym ((==_iff (p.first x) (p.first k)).0 e) ∙ (==_iff (p.first x) (p.first y)).0 eq in
        rw eq (slide (p.first y) k ks ls same (AllGe-front y k ks (k ∷ ls) (omega arith) s.0) s.1)
  ]

  AllGe-drop : (y k : K) (ks ls : List K) → AllGe y (ks ++ k ∷ ls) → AllGe y (ks ++ ls)
  AllGe-drop y k [] ls a = a.1
  AllGe-drop y k (z ∷ ks) ls a = (a.0, AllGe-drop y k ks ls a.1)

  drop_key : (k : K) (ks ls : List K) → IsSorted (ks ++ k ∷ ls) → IsSorted (ks ++ ls)
  drop_key k [] ls s = s.1
  drop_key k (y ∷ ks) ls s = (AllGe-drop y k ks ls s.0, drop_key k ks ls s.1)

  pub Removes-take_out :
      (x : K) (ks ls : List K)
      → IsSorted ks
      → Removes x ks ls
      → map p.first ls ≡ take_out (p.first x) (map p.first ks)
  Removes-take_out x ks ls s r =
      ap (map p.first) r.rest
      ∙ sym (take_out_hit x r.key r.front r.back r.equal (rw r.whole at s))
      ∙ ap (λ k. take_out (p.first x) (map p.first k)) (sym r.whole)

  pub Removes-IsSorted : (x : K) (ks ls : List K) → IsSorted ks → Removes x ks ls → IsSorted ls
  Removes-IsSorted x ks ls s r = rw r.rest (drop_key r.key r.front r.back (rw r.whole at s))

-- ===== src/Mem/Strtab/Walks.antt =====
-- src/mem.c: the walk of `add_str` along a chain of the hash table.
use javalette.Prelude.{
  ℕ, suc, zero, ◌+◌, ◌≤◌, ◌<◌, ◌≡◌, ◌≢◌, inl, inr, refl, sym, ap, ◌∙◌, subst, true, false, List,
  some, none, ◌==◌, ==_iff, Bool-cases, Option-cases, if_first, if_second, arith, Returns,
  Returns-imp,
}
use javalette.Mem.Strtab.{HashNode, Walk, found, missing, find_str, matches, set_entry}

pub set_entry-at : (i : ℕ) (node : HashNode) (tab : ℕ → HashNode) → set_entry i node tab i ≡ node
set_entry-at i node tab = if_first (λ v. v ≡ node) (i == i) _ _ ((==_iff i i).1 refl) refl

pub set_entry-other :
    (i j : ℕ) (node : HashNode) (tab : ℕ → HashNode) → j ≢ i → set_entry i node tab j ≡ tab j
set_entry-other i j node tab h = elim (Bool-cases (j == i)) [
  | inl e ↦ absurd (h ((==_iff j i).0 e))
  | inr e ↦ if_second (λ v. v ≡ tab j) (j == i) _ _ e refl
]

-- Pointers lead to later nodes, and to none that is free.
abbrev pub Forward : (ℕ → HashNode) → ℕ → Type 0
Forward tab free = (i j : ℕ) → i < free → (tab i).next ≡ some j → (i < j) × (j < free)

module _ (hash : ℕ) (str : List ℕ) where
  pub find-hit :
      (n i : ℕ) (tab : ℕ → HashNode)
      → 0 < n
      → matches hash str (tab i) ≡ true
      → find_str n tab hash str i ≡ some (found (tab i))
  find-hit zero i tab h e = absurd (omega (arith, h))
  find-hit (suc n) i tab h e =
      if_first (λ v. v ≡ some (found (tab i))) (matches hash str (tab i)) _ _ e refl

  find-next :
      (n i j : ℕ) (tab : ℕ → HashNode)
      → matches hash str (tab i) ≡ false
      → (tab i).next ≡ some j
      → find_str (suc n) tab hash str i ≡ find_str n tab hash str j
  find-next n i j tab e f =
      if_second (λ v. v ≡ find_str n tab hash str j) (matches hash str (tab i)) _ _ e (rw (f))

  find-end :
      (n i : ℕ) (tab : ℕ → HashNode)
      → matches hash str (tab i) ≡ false
      → (tab i).next ≡ none
      → find_str (suc n) tab hash str i ≡ some (missing i)
  find-end n i tab e f =
      if_second (λ v. v ≡ some (missing i)) (matches hash str (tab i)) _ _ e (rw (f))

  module _ (tab : ℕ → HashNode) (free : ℕ) (forward : Forward tab free) where
    abbrev relinked : ℕ → ℕ → HashNode
    relinked p = set_entry p (record (tab p) { next = some free }) tab

    -- The table with a node at the first free index, linked to the one at `p`.
    abbrev pub linked : ℕ → HashNode → ℕ → HashNode
    linked p node = set_entry free node (relinked p)

    pub linked_new : (p : ℕ) (node : HashNode) → linked p node free ≡ node
    linked_new p node = set_entry-at free node (relinked p)

    pub linked_at :
        (p : ℕ) (node : HashNode) → p < free → linked p node p ≡ record (tab p) { next = some free }
    linked_at p node h =
        set_entry-other free p node (relinked p) (λ e. omega arith)
        ∙ set_entry-at p (record (tab p) { next = some free }) tab

    pub linked_other : (p i : ℕ) (node : HashNode) → i < free → i ≢ p → linked p node i ≡ tab i
    linked_other p i node h k =
        set_entry-other free i node (relinked p) (λ e. omega arith)
        ∙ set_entry-other p i (record (tab p) { next = some free }) tab k

    pub linked-hash :
        (p i : ℕ) (node : HashNode) → p < free → i < free → (linked p node i).hash ≡ (tab i).hash
    linked-hash p i node h k = elim (Bool-cases (i == p)) [
      | inl e ↦
          let q = (==_iff i p).0 e in
          subst (λ j. (linked p node j).hash ≡ (tab j).hash) (sym q)
            (ap (λ x. x.hash) (linked_at p node h))
      | inr e ↦ ap (λ x. x.hash) (linked_other p i node k (λ q. let t = (==_iff i p).1 q in cc))
    ]

    pub linked-Forward :
        (p : ℕ) (node : HashNode) → p < free → node.next ≡ none → Forward (linked p node) (suc free)
    linked-Forward p node h e a j l q = elim (Bool-cases (a == free)) [
      | inl b ↦
          let at =
            subst (λ x. linked p node x ≡ node) (sym ((==_iff a free).0 b)) (linked_new p node) in
          let n = ap (λ x. x.next) at in cc
      | inr b ↦
          let other : a ≢ free = λ x. let t = (==_iff a free).1 x in cc in
          elim (Bool-cases (a == p)) [
            | inl c ↦
                let same = (==_iff a p).0 c in
                let at =
                  subst (λ x. (linked p node x).next ≡ some free) (sym same)
                    (ap (λ x. x.next) (linked_at p node h)) in
                let e = sym q ∙ at in let last : j ≡ free = cc in (omega arith, omega arith)
            | inr c ↦
                let apart : a ≢ p = λ x. let t = (==_iff a p).1 x in cc in
                let below : a < free = omega arith in
                let r =
                  forward a j below
                    (sym (ap (λ x. x.next) (linked_other p a node below apart)) ∙ q) in
                (r.0, omega (arith, r.1))
          ]
    ]

    -- The walk that finds nothing ends at the last node, and a node that is linked to it is found.
    abbrev pub Ends : ℕ → ℕ → Walk → Type 0
    Ends n i (found node) = Unit
    Ends n i (missing p) =
        (p < free)
        × ((tab p).next ≡ none)
        × ((node : HashNode)
            → matches hash str node ≡ true
            → find_str (suc n) (linked p node) hash str i ≡ some (found node))

    Ends-next :
        (n i j : ℕ) (w : Walk)
        → i < free
        → matches hash str (tab i) ≡ false
        → (tab i).next ≡ some j
        → Ends n j w
        → Ends (suc n) i w
    Ends-next n i j (found node) h e f k = tt
    Ends-next n i j (missing p) h e f k = (
      k.0,
      k.1,
      λ node m.
          let other = linked_other p i node h (λ q. let n = ap (λ x. (tab x).next) q in cc) in
          find-next (suc n) i j (linked p node) (ap (matches hash str) other ∙ e)
            (ap (λ x. x.next) other ∙ f)
          ∙ k.2 node m,
    )

    Ends-end :
        (n i : ℕ)
        → i < free
        → matches hash str (tab i) ≡ false
        → (tab i).next ≡ none
        → Ends (suc n) i (missing i)
    Ends-end n i h e f = (
      h,
      f,
      λ node m.
          let at = linked_at i node h in
          find-next (suc n) i free (linked i node) (ap (matches hash str) at ∙ e)
            (ap (λ x. x.next) at)
          ∙ (find-hit (suc n) free (linked i node) (omega arith)
                (ap (matches hash str) (linked_new i node) ∙ m)
              ∙ ap (λ x. some (found x)) (linked_new i node)),
    )

    -- As many rounds as there are nodes from here are enough.
    pub find_str-Ends :
        (n i : ℕ) → i < free → free ≤ i + n → Returns (Ends n i) (find_str n tab hash str i)
    find_str-Ends zero i h k = absurd (omega (arith, h, k))
    find_str-Ends (suc n) i h k = elim (Bool-cases (matches hash str (tab i))) [
      | inl e ↦ subst (Returns (Ends (suc n) i)) (sym (find-hit (suc n) i tab (omega arith) e)) tt
      | inr e ↦ elim (Option-cases (tab i).next) [
        | inl f ↦ subst (Returns (Ends (suc n) i)) (sym (find-end n i tab e f)) (Ends-end n i h e f)
        | inr j ↦
            let b = forward i j.0 h j.1 in
            subst (Returns (Ends (suc n) i)) (sym (find-next n i j.0 tab e j.1)) (
              Returns-imp (Ends n j.0) _ _ (λ w q. Ends-next n i j.0 w h e j.1 q)
                (find_str-Ends n j.0 b.1 (omega (arith, b.0))))
      ]
    ]

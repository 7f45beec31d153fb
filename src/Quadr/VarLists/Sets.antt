-- ===== src/Quadr/VarLists/Sets.antt =====
-- src/quadr.c: a list of variables as a set.
use javalette.Prelude.{
  ℕ, true, false, List, [], ◌∷◌, Returns, ◌==◌, ◌||◌, ◌≡◌, refl, if◌then◌else◌, arith, Bool-cases,
  inl, inr, ==_iff, subst, not, ==_refl,
}
use javalette.Quadr.VarLists.{erase_loop, vl_erase, vl_find, vl_insert_if_absent, insert_loop}

-- No variable stands twice.
abbrev pub IsSetList : List ℕ → Type 0
IsSetList [] = Unit
IsSetList (x ∷ vl) = (vl_find vl x ≡ false) × IsSetList vl

insert_loop_lem : (vl : List ℕ) (x : ℕ) → insert_loop vl x ≡ not (vl_find vl x)
insert_loop_lem [] x = refl
insert_loop_lem (y ∷ vl) x = ground (arith, insert_loop_lem vl x)

insert-IsSetList : (vl : List ℕ) (x : ℕ) → IsSetList vl → IsSetList (vl_insert_if_absent vl x).1
insert-IsSetList vl x s = ground (arith, insert_loop_lem vl x)

insert-find :
    (vl : List ℕ) (x y : ℕ) → vl_find (vl_insert_if_absent vl x).1 y ≡ (x == y || vl_find vl y)
insert-find vl x y = elim (Bool-cases (vl_find vl x)) [
  | inl e ↦ elim (Bool-cases (x == y)) [
    | inl q ↦
        rw (insert_loop_lem vl x, e, q) (subst (λ z. vl_find vl z ≡ true) ((==_iff x y).0 q) e)
    | inr q ↦ rw (insert_loop_lem vl x, e, q) refl
  ]
  | inr e ↦ rw (insert_loop_lem vl x, e) (ground arith)
]

not_found : (vl : List ℕ) (x y : ℕ) → (x == y) ≡ true → vl_find vl x ≡ false → vl_find vl y ≡ false
not_found vl x y q e = subst (λ z. vl_find vl z ≡ false) ((==_iff x y).0 q) e

-- The loop of `vl_erase` takes out the variable and no other.
erase_loop-find :
    (vl : List ℕ) (x y : ℕ)
    → IsSetList vl
    → vl_find (erase_loop vl x) y ≡ (if x == y then false else vl_find vl y)
erase_loop-find [] x y s = ground arith
erase_loop-find (z ∷ vl) x y s = ground (arith, erase_loop-find vl x y s.1, not_found vl z y)

erase_loop-IsSetList : (vl : List ℕ) (x : ℕ) → IsSetList vl → IsSetList (erase_loop vl x)
erase_loop-IsSetList [] x s = tt
erase_loop-IsSetList (z ∷ vl) x s =
    ground (arith, erase_loop-find vl x z s.1, erase_loop-IsSetList vl x s.1)

-- For a list that is not empty and in which no variable stands twice: `vl_erase` leaves a list in
-- which none stands twice and `vl_find` finds the same variables less the erased one.
pub vl_erase-IsSetList :
    (z : ℕ) (vl : List ℕ) (x y : ℕ)
    → IsSetList (z ∷ vl)
    → Returns
        (λ r. IsSetList r × (vl_find r y ≡ (if x == y then false else vl_find (z ∷ vl) y)))
        (vl_erase (z ∷ vl) x)
vl_erase-IsSetList z vl x y s = (erase_loop-IsSetList (z ∷ vl) x s, erase_loop-find (z ∷ vl) x y s)

-- What an insertion of `x` and an erasure after it leave, seen at `y`.
pub record Inserted (vl : List ℕ) (x y : ℕ) : Type 0 where
  pub answer : (vl_insert_if_absent vl x).0 ≡ not (vl_find vl x)
  pub set : IsSetList (vl_insert_if_absent vl x).1
  pub finds : vl_find (vl_insert_if_absent vl x).1 y ≡ (x == y || vl_find vl y)
  pub erased :
      Returns
        (λ r.
          IsSetList r
          × (vl_find r y ≡ (if x == y then false else vl_find vl y))
          × (vl_find vl x ≡ false → r ≡ vl))
        (vl_erase (vl_insert_if_absent vl x).1 x)

abbrev Erased : List ℕ → ℕ → ℕ → List ℕ → Type 0
Erased vl x y r =
    IsSetList r
    × (vl_find r y ≡ (if x == y then false else vl_find vl y))
    × (vl_find vl x ≡ false → r ≡ vl)

unless :
    (vl : List ℕ) (x y : ℕ)
    → vl_find vl x ≡ false
    → vl_find vl y ≡ (if x == y then false else vl_find vl y)
unless vl x y e = elim (Bool-cases (x == y)) [
  | inl q ↦ rw (q, not_found vl x y q e) refl
  | inr q ↦ rw q refl
]

present :
    (vl : List ℕ) (x y : ℕ)
    → IsSetList vl
    → vl_find vl x ≡ true
    → Returns (Erased vl x y) (vl_erase vl x)
present [] x y s e = cc
present (z ∷ vl) x y s e = let r = vl_erase-IsSetList z vl x y s in (r.0, r.1, λ h. cc)

insert-Erased :
    (vl : List ℕ) (x y : ℕ)
    → IsSetList vl
    → Returns (Erased vl x y) (vl_erase (vl_insert_if_absent vl x).1 x)
insert-Erased vl x y s = elim (Bool-cases (vl_find vl x)) [
  | inr e ↦ rw (insert_loop_lem vl x, e, ==_refl x) (s, unless vl x y e, λ h. refl)
  | inl e ↦ rw (insert_loop_lem vl x, e) (present vl x y s e)
]

-- For a list in which no variable stands twice: `vl_insert_if_absent` says whether the variable was
-- absent, keeps that none stands twice, and adds the variable and no other to those that `vl_find`
-- finds. `vl_erase` of the variable then succeeds, takes it and no other out, and gives the first
-- list again where the variable was absent.
pub vl_insert_if_absent-Inserted : (vl : List ℕ) (x y : ℕ) → IsSetList vl → Inserted vl x y
vl_insert_if_absent-Inserted vl x y s = record {
  answer = elim (Bool-cases (vl_find vl x)) [
    | inl e ↦ rw (insert_loop_lem vl x, e) refl
    | inr e ↦ rw (insert_loop_lem vl x, e) refl
  ];
  set = insert-IsSetList vl x s;
  finds = insert-find vl x y;
  erased = insert-Erased vl x y s;
}

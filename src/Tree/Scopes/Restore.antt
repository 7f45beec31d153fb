-- ===== src/Tree/Scopes/Restore.antt =====
-- src/tree.c: the loop of `pop_scope` on chains with more declarations than before.
use javalette.Prelude.{
  ℕ, suc, ◌+◌, ◌≤◌, ◌≡◌, refl, ap, ◌∙◌, inl, inr, List, [], ◌∷◌, ◌++◌, map, length, if◌then◌else◌,
  ◌==◌, ==_iff, Bool-cases, Returns, ◌>>=◌, arith,
}
use javalette.Types.{Ty}
use javalette.Tree.Scopes.{Decl, update, drop, take, pop_decl, pop_decls}

abbrev pub count : ℕ → List ℕ → ℕ
count y [] = 0
count y (x ∷ xs) = if y == x then suc (count y xs) else count y xs

pub count-append : (y : ℕ) (xs ys : List ℕ) → count y (xs ++ ys) ≡ count y xs + count y ys
count-append y [] ys = omega arith
count-append y (x ∷ xs) ys = ground (arith, count-append y xs ys)

pub drop-length : (xs ys : List ℕ) → drop (length xs) (xs ++ ys) ≡ ys
drop-length [] ys = refl
drop-length (x ∷ xs) ys = drop-length xs ys

pub take-length : (xs ys : List ℕ) → take (length xs) (xs ++ ys) ≡ xs
take-length [] ys = refl
take-length (x ∷ xs) ys = ap (λ zs. x ∷ zs) (take-length xs ys)

-- What a reader of the symbol table sees of a declaration; `initialized` may be set in between.
abbrev pub outline : Decl → Ty × ℕ
outline d = (d.type, d.scope)

abbrev pub view : (ℕ → List Decl) → ℕ → List (Ty × ℕ)
view chains y = map outline (chains y)

-- Without the entries in `xs` the chains are the old ones.
abbrev pub Holds : (ℕ → List Decl) → List ℕ → (ℕ → List Decl) → Type 0
Holds new xs old = (y : ℕ) → drop (count y xs) (view new y) ≡ view old y

-- Each symbol has as many declarations as it has entries in `xs`.
abbrev pub Enough : (ℕ → List Decl) → List ℕ → Type 0
Enough new xs = (y : ℕ) → count y xs ≤ length (view new y)

abbrev pub Restored : (ℕ → List Decl) → (ℕ → List Decl) → Type 0
Restored old c = (y : ℕ) → view c y ≡ view old y

pop_Enough :
    (x : ℕ) (xs : List ℕ) (new : ℕ → List Decl) (d : Decl) (prev : List Decl)
    → new x ≡ d ∷ prev
    → Enough new (x ∷ xs)
    → Enough (update new x prev) xs
pop_Enough x xs new d prev e en y = elim (Bool-cases (y == x)) [
  | inl q ↦ let p = ap new ((==_iff y x).0 q) ∙ e in let h = en y in grind arith
  | inr q ↦ let h = en y in grind arith
]

pop_Holds :
    (x : ℕ) (xs : List ℕ) (new old : ℕ → List Decl) (d : Decl) (prev : List Decl)
    → new x ≡ d ∷ prev
    → Holds new (x ∷ xs) old
    → Holds (update new x prev) xs old
pop_Holds x xs new old d prev e h y = elim (Bool-cases (y == x)) [
  | inl q ↦ let p = ap new ((==_iff y x).0 q) ∙ e in let k = h y in grind arith
  | inr q ↦ let k = h y in grind arith
]

pop_decl-Restored :
    (x : ℕ) (xs : List ℕ) (new old : ℕ → List Decl) (l : List Decl)
    → new x ≡ l
    → Enough new (x ∷ xs)
    → Holds new (x ∷ xs) old
    → ((new' : ℕ → List Decl)
        → Enough new' xs
        → Holds new' xs old
        → Returns (Restored old) (pop_decls xs new'))
    → Returns (Restored old) (pop_decl x new l >>= pop_decls xs)
pop_decl-Restored x xs new old [] e en h k =
    let k = en x in let q = (==_iff x x).1 refl in grind arith
pop_decl-Restored x xs new old (d ∷ prev) e en h k =
    k (update new x prev) (pop_Enough x xs new d prev e en) (pop_Holds x xs new old d prev e h)

pub pop_decls-Restored :
    (xs : List ℕ) (new old : ℕ → List Decl)
    → Enough new xs
    → Holds new xs old
    → Returns (Restored old) (pop_decls xs new)
unfolding pop_decls
pop_decls-Restored [] new old en h = h
pop_decls-Restored (x ∷ xs) new old en h =
    pop_decl-Restored x xs new old (new x) refl en h
      (λ new' en' h'. pop_decls-Restored xs new' old en' h')

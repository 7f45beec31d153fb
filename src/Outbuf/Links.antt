-- ===== src/Outbuf/Links.antt =====
-- src/outbuf.c: what it is for the lines in memory to be a doubly linked list.
use javalette.Prelude.{
  subst, ==_iff, ℕ, ◌≡◌, ◌≢◌, refl, sym, ◌∙◌, List, [], ◌∷◌, ◌++◌, Option, some, All, arith,
}
use javalette.Outbuf.{Line, store}

-- A line: its address and its string.
abbrev pub Cell : Type 0
Cell = ℕ × List ℕ

-- The address of the first cell, or the one after them.
abbrev pub first : List Cell → Option ℕ → Option ℕ
first [] n = n
first (c ∷ cs) n = some c.0

abbrev pub last : Option ℕ → List Cell → Option ℕ
last p [] = p
last p (c ∷ cs) = last (some c.0) cs

-- The cells are linked both ways, between `p` and `n`.
abbrev pub Links : (ℕ → Option Line) → Option ℕ → List Cell → Option ℕ → Type 0
Links lines p [] n = Unit
Links lines p (c ∷ cs) n =
    (lines c.0 ≡ some (record { prev = p; next = first cs n; str = c.1 }))
    × Links lines (some c.0) cs n

abbrev pub Avoids : ℕ → List Cell → Type 0
Avoids a cs = All (λ c. c.0 ≢ a) cs

abbrev pub Distinct : List Cell → Type 0
Distinct [] = Unit
Distinct (c ∷ cs) = Avoids c.0 cs × Distinct cs

pub first-append : (xs ys : List Cell) (n : Option ℕ) → first (xs ++ ys) n ≡ first xs (first ys n)
first-append [] ys n = refl
first-append (x ∷ xs) ys n = refl

pub store_other :
    (lines : ℕ → Option Line) (a b : ℕ) (l : Option Line) → b ≢ a → store lines a l b ≡ lines b
store_other lines a b l h = ground (arith, ==_iff b a)

pub store_same : (lines : ℕ → Option Line) (a : ℕ) (l : Option Line) → store lines a l a ≡ l
store_same lines a l = ground (arith, ==_iff a a)

pub Links-append :
    (lines : ℕ → Option Line) (p n : Option ℕ) (xs ys : List Cell)
    → Links lines p xs (first ys n)
    → Links lines (last p xs) ys n
    → Links lines p (xs ++ ys) n
Links-append lines p n [] ys hx hy = hy
Links-append lines p n (x ∷ xs) ys hx hy = (
  subst (λ o. lines x.0 ≡ some (record { prev = p; next = o; str = x.1 }))
      (sym (first-append xs ys n)) hx.0,
  Links-append lines (some x.0) n xs ys hx.1 hy,
)

pub Links-split :
    (lines : ℕ → Option Line) (p n : Option ℕ) (xs ys : List Cell)
    → Links lines p (xs ++ ys) n
    → Links lines p xs (first ys n) × Links lines (last p xs) ys n
Links-split lines p n [] ys h = (tt, h)
Links-split lines p n (x ∷ xs) ys h =
    let r = Links-split lines (some x.0) n xs ys h.1 in
    (
      (
        subst (λ o. lines x.0 ≡ some (record { prev = p; next = o; str = x.1 }))
            (first-append xs ys n) h.0,
        r.0,
      ),
      r.1,
    )

-- A write to an address that the cells avoid.
pub Links-store :
    (lines : ℕ → Option Line) (p n : Option ℕ) (cs : List Cell) (a : ℕ) (l : Option Line)
    → Avoids a cs
    → Links lines p cs n
    → Links (store lines a l) p cs n
Links-store lines p n [] a l av h = tt
Links-store lines p n (c ∷ cs) a l av h =
    (store_other lines a c.0 l av.0 ∙ h.0, Links-store lines (some c.0) n cs a l av.1 h.1)

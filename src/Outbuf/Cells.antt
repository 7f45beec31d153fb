-- ===== src/Outbuf/Cells.antt =====
-- src/outbuf.c: lists of lines with distinct addresses, and the buffer that holds one.
use javalette.Prelude.{
  ℕ, ◌<◌, ◌≡◌, ◌≢◌, refl, sym, List, [], ◌∷◌, ◌++◌, Option, none, some, All, true, false, arith,
  ==_iff, All-append, All-split, Bool-cases, ◌==◌, inl, inr,
}
use javalette.Outbuf.{Outbuf, same_pointer}
use javalette.Outbuf.Links.{Cell, first, last, Links, Avoids, Distinct}

-- The buffer holds these lines.
pub record IsList (buf : Outbuf) (cs : List Cell) : Type 0 where
  pub links : Links buf.lines none cs none
  pub distinct : Distinct cs
  pub fresh : All (λ c. c.0 < buf.allocated) cs
  pub head : buf.head ≡ first cs none
  pub tail : buf.tail ≡ last none cs

-- No address is in both lists.
abbrev pub Apart : List Cell → List Cell → Type 0
Apart xs ys = All (λ x. Avoids x.0 ys) xs

pub All-imp {κ μ} :
    {A : Type 0} (P : A → Type κ) (Q : A → Type μ) (xs : List A)
    → ((a : A) → P a → Q a)
    → All P xs
    → All Q xs
All-imp P Q [] k h = tt
All-imp P Q (x ∷ xs) k h = (k x h.0, All-imp P Q xs k h.1)

pub All-and {κ μ} :
    {A : Type 0} (P : A → Type κ) (Q : A → Type μ) (xs : List A)
    → All P xs
    → All Q xs
    → All (λ x. P x × Q x) xs
All-and P Q [] h k = tt
All-and P Q (x ∷ xs) h k = ((h.0, k.0), All-and P Q xs h.1 k.1)

Apart-nil : (ys : List Cell) → Apart ys []
Apart-nil [] = tt
Apart-nil (y ∷ ys) = (tt, Apart-nil ys)

pub Apart-sym : (xs ys : List Cell) → Apart xs ys → Apart ys xs
Apart-sym [] ys h = Apart-nil ys
Apart-sym (x ∷ xs) ys h =
    All-imp (λ y. (y.0 ≢ x.0) × Avoids y.0 xs) (λ y. Avoids y.0 (x ∷ xs)) ys
      (λ y k. ((λ e. k.0 (sym e)), k.1))
      (All-and (λ y. y.0 ≢ x.0) (λ y. Avoids y.0 xs) ys h.0 (Apart-sym xs ys h.1))

pub Distinct-split :
    (xs ys : List Cell) → Distinct (xs ++ ys) → Distinct xs × Distinct ys × Apart xs ys
Distinct-split [] ys h = (tt, h, tt)
Distinct-split (x ∷ xs) ys h =
    let r = Distinct-split xs ys h.1 in
    let av = All-split (λ c. c.0 ≢ x.0) xs ys h.0 in ((av.0, r.0), r.1, (av.1, r.2))

pub Distinct-append :
    (xs ys : List Cell) → Distinct xs → Distinct ys → Apart xs ys → Distinct (xs ++ ys)
Distinct-append [] ys hx hy h = hy
Distinct-append (x ∷ xs) ys hx hy h =
    (All-append (λ c. c.0 ≢ x.0) xs ys hx.0 h.0, Distinct-append xs ys hx.1 hy h.1)

-- An address that has not been given out yet.
pub Avoids-fresh : (n : ℕ) (cs : List Cell) → All (λ c. c.0 < n) cs → Avoids n cs
Avoids-fresh n cs h = All-imp (λ c. c.0 < n) (λ c. c.0 ≢ n) cs (λ c k e. omega arith) h

-- The last of some lines is no line that they avoid.
pub last-Avoids :
    (a : ℕ) (p : Option ℕ) (c : Cell) (cs : List Cell)
    → Avoids a (c ∷ cs)
    → same_pointer (some a) (last p (c ∷ cs)) ≡ false
last-Avoids a p c [] h =
    let k : (c.0 ≡ a → ⊥) = h.0 in
    elim (Bool-cases (a == c.0)) [ inl q ↦ absurd (k (sym ((==_iff a c.0).0 q))) | inr q ↦ q ]
last-Avoids a p c (d ∷ cs) h = last-Avoids a (some c.0) d cs h.1

pub last-none :
    (p : Option ℕ) (c : Cell) (cs : List Cell) → same_pointer none (last p (c ∷ cs)) ≡ false
last-none p c [] = refl
last-none p c (d ∷ cs) = last-none (some c.0) d cs

pub last-Apart :
    (p : Option ℕ) (x : Cell) (xs : List Cell) (c : Cell) (cs : List Cell) (q : Option ℕ)
    → Apart (x ∷ xs) (c ∷ cs)
    → same_pointer (last p (x ∷ xs)) (last q (c ∷ cs)) ≡ false
last-Apart p x [] c cs q h = last-Avoids x.0 q c cs h.0
last-Apart p x (y ∷ xs) c cs q h = last-Apart (some x.0) y xs c cs q h.1

pub last-append : (p : Option ℕ) (xs ys : List Cell) → last p (xs ++ ys) ≡ last (last p xs) ys
last-append p [] ys = refl
last-append p (x ∷ xs) ys = last-append (some x.0) xs ys

pub same_pointer_refl : (p : Option ℕ) → same_pointer p p ≡ true
same_pointer_refl none = refl
same_pointer_refl (some a) = (==_iff a a).1 refl

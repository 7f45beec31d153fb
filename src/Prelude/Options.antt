-- ===== src/Prelude/Options.antt =====
-- The monad of fallible steps: `none` is a failed assertion or an access through a null pointer.
use mathlib.Core.Path.{◌≡◌, refl, subst}
use javalette.Prelude.Tests.{if◌then◌else◌}
use mathlib.Core.Bool.{Bool, true, false}
use mathlib.Core.Option.{Option, none, some, some-injective}

infixl 5 ◌>>=◌ ◌>>◌
abbrev pub ◌>>=◌ {ℓ κ} : {A : Type ℓ} {B : Type κ} → Option A → (A → Option B) → Option B
none >>= f = none
some a >>= f = f a

abbrev pub ◌>>◌ {ℓ} : {B : Type ℓ} → Option (Unit {0}) → Option B → Option B
m >> k = m >>= λ _. k

-- `assert (b)`
abbrev pub assert : Bool → Option (Unit {0})
assert true = some tt
assert false = none

-- No value, at any level.
pub data Never {κ} : Type κ where

-- The step succeeds, and its result satisfies `P`.
abbrev pub Returns {ℓ κ} : {A : Type ℓ} → (A → Type κ) → Option A → Type κ
Returns P none = Never
Returns P (some a) = P a

pub Returns-bind {ℓ κ μ ν} :
    {A : Type ℓ} {B : Type κ} (P : A → Type μ) (Q : B → Type ν) (m : Option A) (f : A → Option B)
    → Returns P m
    → ((a : A) → P a → Returns Q (f a))
    → Returns Q (m >>= f)
Returns-bind P Q (some a) f h k = k a h
Returns-bind P Q none f h k = elim h [ ]

pub Returns-imp {ℓ κ μ} :
    {A : Type ℓ} (P : A → Type κ) (Q : A → Type μ) (m : Option A)
    → ((a : A) → P a → Q a)
    → Returns P m
    → Returns Q m
Returns-imp P Q (some a) k h = k a h
Returns-imp P Q none k h = elim h [ ]

pub Returns-if {ℓ κ} :
    {A : Type ℓ} (P : A → Type κ) (b : Bool) (m n : Option A)
    → (b ≡ true → Returns P m)
    → (b ≡ false → Returns P n)
    → Returns P (if b then m else n)
Returns-if P true m n h k = h refl
Returns-if P false m n h k = k refl

pub Returns-assert {ℓ κ} :
    {A : Type ℓ} (P : A → Type κ) (b : Bool) (m : Option A)
    → b ≡ true
    → Returns P m
    → Returns P (assert b >> m)
Returns-assert P true m e h = h
Returns-assert P false m e h = cc

-- A step that succeeds has a result.
pub of_Returns {ℓ κ} :
    {A : Type ℓ} (P : A → Type κ) (m : Option A) → Returns P m → (a : A) × (m ≡ some a) × P a
of_Returns P (some a) h = (a, refl, h)
of_Returns P none h = elim h [ ]

pub Returns-and {ℓ κ μ} :
    {A : Type ℓ} (P : A → Type κ) (Q : A → Type μ) (m : Option A)
    → Returns P m
    → Returns Q m
    → Returns (λ a. P a × Q a) m
Returns-and P Q (some a) h k = (h, k)
Returns-and P Q none h k = elim h [ ]

-- The result satisfies `P` if the step succeeds.
abbrev pub Ensures {ℓ κ} : {A : Type ℓ} → (A → Type κ) → Option A → Type κ
Ensures P none = Unit
Ensures P (some a) = P a

pub Ensures-bind {ℓ κ μ ν} :
    {A : Type ℓ} {B : Type κ} (P : A → Type μ) (Q : B → Type ν) (m : Option A) (f : A → Option B)
    → Ensures P m
    → ((a : A) → P a → Ensures Q (f a))
    → Ensures Q (m >>= f)
Ensures-bind P Q (some a) f h k = k a h
Ensures-bind P Q none f h k = tt

pub Returns-Ensures {ℓ κ μ} :
    {A : Type ℓ} (P : A → Type κ) (Q : A → Type μ) (m : Option A)
    → Returns P m
    → Ensures Q m
    → Returns (λ a. P a × Q a) m
Returns-Ensures P Q (some a) h k = (h, k)
Returns-Ensures P Q none h k = elim h [ ]

pub Ensures-imp {ℓ κ μ} :
    {A : Type ℓ} (P : A → Type κ) (Q : A → Type μ) (m : Option A)
    → ((a : A) → P a → Q a)
    → Ensures P m
    → Ensures Q m
Ensures-imp P Q (some a) k h = k a h
Ensures-imp P Q none k h = tt

pub Ensures-assert {ℓ κ} :
    {A : Type ℓ} (P : A → Type κ) (b : Bool) (m : Option A)
    → Ensures P m
    → Ensures P (assert b >> m)
Ensures-assert P true m h = h
Ensures-assert P false m h = tt

pub Ensures-if {ℓ κ} :
    {A : Type ℓ} (P : A → Type κ) (b : Bool) (m n : Option A)
    → Ensures P m
    → Ensures P n
    → Ensures P (if b then m else n)
Ensures-if P true m n h k = h
Ensures-if P false m n h k = k

pub of_Ensures {ℓ κ} :
    {A : Type ℓ} (P : A → Type κ) (m : Option A) (a : A) → Ensures P m → m ≡ some a → P a
of_Ensures P (some b) a h e = subst P (some-injective b a e) h
of_Ensures P none a h e = cc

pub Ensures-Returns {ℓ κ} : {A : Type ℓ} (P : A → Type κ) (m : Option A) → Returns P m → Ensures P m
Ensures-Returns P (some a) h = h
Ensures-Returns P none h = tt

pub Ensures-cases {ℓ κ} :
    {A : Type ℓ} (P : A → Type κ) (b : Bool) (m n : Option A)
    → (b ≡ true → Ensures P m)
    → (b ≡ false → Ensures P n)
    → Ensures P (if b then m else n)
Ensures-cases P true m n h k = h refl
Ensures-cases P false m n h k = k refl

pub anything {ℓ} : {A : Type ℓ} (m : Option A) → Ensures (λ a. Unit {0}) m
anything none = tt
anything (some a) = tt

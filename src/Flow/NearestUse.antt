-- ===== src/Flow/NearestUse.antt =====
-- src/quadr.c: `nearest_use_distance_from_quadr`, which reads what src/flow.c leaves in the blocks.
use javalette.Prelude.{
  ℕ, zero, suc, ◌+◌, ◌-◌, ◌^◌, ◌<◌, lt→ltb, Bool, true, false, not, ◌&&◌, List, [], ◌∷◌, Option,
  none, some, ◌≡◌, refl, ◌∙◌, ap, arith, if◌then◌else◌, assert, ◌>>=◌, ◌>>◌, ltb, length,
  Bool-cases, Option-cases, some-injective, inl, inr,
}
use javalette.Tree.Exprs.{ℤ, pos, negsuc}
use javalette.Quadr.{Quadr, used_in_quadr, assigned_in_quadr}
use javalette.Flow.{Children}
use javalette.Flow.Occurrences.{first_use}

-- An `int` that is assigned an `unsigned` of 32 bits.
abbrev pub to_int : ℕ → ℤ
to_int n = if ltb n (2 ^ 31) then pos n else negsuc (2 ^ 32 - 1 - n)

abbrev pub is_minus_one : ℤ → Bool
is_minus_one (negsuc zero) = true
is_minus_one _ = false

abbrev pub less_int : ℤ → ℤ → Bool
less_int (pos a) (pos b) = ltb a b
less_int (pos a) (negsuc b) = false
less_int (negsuc a) (pos b) = true
less_int (negsuc a) (negsuc b) = ltb b a

-- `dist + n` for a `dist` that is not negative; an `int` does not overflow.
abbrev pub add_int : ℕ → ℤ → Option ℤ
add_int dist (pos n) = assert (ltb (dist + n) (2 ^ 31)) >> some (pos (dist + n))
add_int dist (negsuc n) = some (if ltb n dist then pos (dist - suc n) else negsuc (n - dist))

-- -1, or the distance of the descriptor that `rb_search` finds.
abbrev pub found_dist : Option ℕ → ℤ
found_dist none = negsuc 0
found_dist (some d) = to_int d

-- `rb_search(child->vars_at_start, &snode)`: -1 where there is no child or no descriptor. The second
-- is looked for in the set of the first child.
abbrev pub start_dist : (ℕ → ℕ → Option ℕ) → Option ℕ → ℕ → ℤ
start_dist starts none var = negsuc 0
start_dist starts (some child) var = found_dist (starts child var)

abbrev pub second_dist : (ℕ → ℕ → Option ℕ) → Option ℕ → Option ℕ → ℕ → Option ℤ
second_dist starts child1 none var = some (negsuc 0)
second_dist starts none (some child2) var = none
second_dist starts (some child1) (some child2) var = some (found_dist (starts child1 var))

-- `INT_MAX / 64` where no child has the variable.
abbrev pub choose_dist : ℤ → ℤ → ℕ → Option ℤ
choose_dist bd1 bd2 dist =
    if is_minus_one bd1 && is_minus_one bd2
    then add_int dist (pos 33554431)
    else if not (is_minus_one bd1) && not (is_minus_one bd2)
    then add_int dist (if less_int bd1 bd2 then bd2 else bd1)
    else if not (is_minus_one bd1)
    then add_int dist bd1
    else add_int dist bd2

-- The end of the function, after the loop.
abbrev pub beyond_block : (ℕ → ℕ → Option ℕ) → Children → ℕ → ℕ → Option ℤ
beyond_block starts block var dist = do
  bd2 ← second_dist starts block.child1 block.child2 var
  choose_dist (start_dist starts block.child1 var) bd2 dist

-- The loop from a quadruple on, with `dist` so far; `live` is `var->live`.
unfoldable pub nearest_use : (ℕ → ℕ → Option ℕ) → Children → List Quadr → ℕ → Bool → ℕ → Option ℤ
nearest_use starts block [] var live dist = beyond_block starts block var dist
nearest_use starts block (quadr ∷ qs) var live dist =
    let rest = nearest_use starts block qs var live (suc dist) in
    if used_in_quadr quadr var
    then some (pos dist)
    else assert (not (live && assigned_in_quadr quadr var))
      >> (assert (ltb (suc dist) (2 ^ 31)) >> rest)

abbrev pub nearest_use_distance_from_quadr :
    (ℕ → ℕ → Option ℕ) → Children → List Quadr → ℕ → Bool → Option ℤ
nearest_use_distance_from_quadr starts block qs var live = nearest_use starts block qs var live 0

-- No quadruple uses the variable or sets it.
abbrev pub IsUntouched : List Quadr → ℕ → Type 0
IsUntouched [] v = Unit
IsUntouched (q ∷ qs) v =
    (used_in_quadr q v ≡ false) × (assigned_in_quadr q v ≡ false) × IsUntouched qs v

and_no : (a : Bool) → not (a && false) ≡ true
and_no true = refl
and_no false = refl

nearest_use_lem :
    (starts : ℕ → ℕ → Option ℕ) (block : Children) (qs : List Quadr) (v dist k : ℕ) (live : Bool)
    → first_use qs v ≡ some k
    → dist + k < 2 ^ 31
    → nearest_use starts block qs v live dist ≡ some (pos (dist + k))
unfolding nearest_use
nearest_use_lem starts block [] v dist k live e h = cc
nearest_use_lem starts block (q ∷ qs) v dist k live e h = elim (Bool-cases (used_in_quadr q v)) [
  | inl u ↦ rw u (ap (λ n. some (pos n)) (omega (arith, some-injective 0 k (rw u at e))))
  | inr u ↦ elim (Bool-cases (assigned_in_quadr q v)) [
    | inl s ↦ let no_use = (rw (u, s) at e) in cc
    | inr s ↦ elim (Option-cases (first_use qs v)) [
      | inl n ↦ let no_use = (rw (u, s, n) at e) in cc
      | inr (j, n) ↦
          let next = some-injective (suc j) k (rw (u, s, n) at e) in
          rw (u, s, and_no live, lt→ltb (suc dist) (2 ^ 31) (omega (arith, next, h)))
            (nearest_use_lem starts block qs v (suc dist) j live n (omega (arith, next, h))
              ∙ ap (λ n. some (pos n)) (omega (arith, next)))
    ]
  ]
]

untouched_lem :
    (starts : ℕ → ℕ → Option ℕ) (block : Children) (qs : List Quadr) (v dist : ℕ) (live : Bool)
    → IsUntouched qs v
    → dist + length qs < 2 ^ 31
    → nearest_use starts block qs v live dist ≡ beyond_block starts block v (dist + length qs)
unfolding nearest_use
untouched_lem starts block [] v dist live h l = ap (beyond_block starts block v) (omega arith)
untouched_lem starts block (q ∷ qs) v dist live h l =
    rw (h.0, h.1, and_no live, lt→ltb (suc dist) (2 ^ 31) (omega (arith, l)))
      (untouched_lem starts block qs v (suc dist) live h.2 (omega (arith, l))
        ∙ ap (beyond_block starts block v) (omega arith))

-- The distance at the start of a block.
abbrev pub distance_of : Option ℕ → ℕ
distance_of none = 33554431
distance_of (some d) = d

add_small : (dist n : ℕ) → dist + n < 2 ^ 31 → add_int dist (pos n) ≡ some (pos (dist + n))
add_small dist n h = rw (lt→ltb (dist + n) (2 ^ 31) h) refl

to_int_small : (d : ℕ) → d < 2 ^ 31 → to_int d ≡ pos d
to_int_small d h = rw (lt→ltb d (2 ^ 31) h) refl

same_choice : (d : ℕ) → (if ltb d d then pos d else pos d) ≡ pos d
same_choice d = elim (Bool-cases (ltb d d)) [ inl e ↦ rw e refl | inr e ↦ rw e refl ]

choose_both :
    (d dist : ℕ) → dist + d < 2 ^ 31 → choose_dist (pos d) (pos d) dist ≡ some (pos (dist + d))
choose_both d dist h = ap (add_int dist) (same_choice d) ∙ add_small dist d h

first_child :
    (starts : ℕ → ℕ → Option ℕ) (block : Children) (child v dist : ℕ)
    → block.child1 ≡ some child
    → dist + distance_of (starts child v) < 2 ^ 31
    → beyond_block starts block v dist ≡ some (pos (dist + distance_of (starts child v)))
first_child starts block child v dist c h = elim (Option-cases block.child2) [
  | inl e ↦ elim (Option-cases (starts child v)) [
    | inl s ↦ rw (c, e, s) (add_small dist 33554431 (rw s at h))
    | inr (d, s) ↦
        let l : dist + d < 2 ^ 31 = (rw s at h) in
        rw (c, e, s, to_int_small d (omega (arith, l))) (add_small dist d l)
  ]
  | inr (x, e) ↦ elim (Option-cases (starts child v)) [
    | inl s ↦ rw (c, e, s) (add_small dist 33554431 (rw s at h))
    | inr (d, s) ↦
        let l : dist + d < 2 ^ 31 = (rw s at h) in
        rw (c, e, s, to_int_small d (omega (arith, l))) (choose_both d dist l)
  ]
]

-- For a variable that the code uses before it sets it, at a position that is an `int`: the distance
-- is the position of its first use. For code that neither uses nor sets it, in a block with a first
-- child: the distance is the length of the code and the distance in the first child, or INT_MAX / 64
-- where the first child does not have the variable, if that sum is an `int`, whatever the second
-- child is and has.
pub nearest_use_distance-First :
    (starts : ℕ → ℕ → Option ℕ) (block : Children) (qs rest : List Quadr) (v k child : ℕ)
    (live : Bool)
    → first_use qs v ≡ some k
    → k < 2 ^ 31
    → IsUntouched rest v
    → block.child1 ≡ some child
    → length rest + distance_of (starts child v) < 2 ^ 31
    → (nearest_use_distance_from_quadr starts block qs v live ≡ some (pos k))
      × (nearest_use_distance_from_quadr starts block rest v live
          ≡ some (pos (length rest + distance_of (starts child v))))
nearest_use_distance-First starts block qs rest v k child live e l u c h = (
  nearest_use_lem starts block qs v 0 k live e (omega (arith, l))
      ∙ ap (λ n. some (pos n)) (omega arith),
  untouched_lem starts block rest v 0 live u (omega (arith, h))
      ∙ first_child starts block child v (0 + length rest) c (omega (arith, h))
      ∙ ap (λ n. some (pos n)) (omega arith),
)

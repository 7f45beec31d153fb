-- ===== src/Mem/Pool/Fresh.antt =====
-- src/mem.c: the list of free objects of a new pool.
use javalette.Prelude.{
  ℕ, suc, zero, ◌+◌, ◌*◌, ◌-◌, ◌%◌, ◌^◌, ◌≤◌, ◌<◌, ◌≡◌, ◌≢◌, ◌⊎◌, inl, inr, refl, sym, ap, ◌∙◌,
  Option, some, none, ◌==◌, ==_iff, Bool-cases, if_first, if_second, arith, Returns, ltb, ◌∷◌,
  Returns-imp, Returns-bind, subst, ltb→lt, ==_distinct, lt→ltb,
}
use javalette.Mem.Pool.{
  Pool, Cells, set_cell, free_list_loop, make_free_list, new_pool_node, new_pool, aligned_size, [],
}

-- PNEXT leads from the address through so many objects, one after the other, and then to NULL.
abbrev pub FreeList : Cells → ℕ → ℕ → ℕ → Type 0
FreeList cells a step zero = ⊥
FreeList cells a step (suc zero) = cells a ≡ none
FreeList cells a step (suc (suc n)) =
    (cells a ≡ some (a + step)) × FreeList cells (a + step) step (suc n)

abbrev Links : Cells → ℕ → ℕ → ℕ → Type 0
Links cells a step zero = Unit
Links cells a step (suc n) = (cells a ≡ some (a + step)) × Links cells (a + step) step n

abbrev reach : ℕ → ℕ → ℕ → ℕ
reach a step zero = a
reach a step (suc n) = reach (a + step) step n

reach_lower : (a step n : ℕ) → a ≤ reach a step n
reach_lower a step zero = omega arith
reach_lower a step (suc n) = omega (arith, reach_lower (a + step) step n)

reach_product : (a step n : ℕ) → reach a step n ≡ a + n * step
reach_product a step zero = omega arith
reach_product a step (suc n) = omega (arith, reach_product (a + step) step n)

reach_count : (a step n : ℕ) → 0 < step → a + n ≤ reach a step n
reach_count a step zero h = omega arith
reach_count a step (suc n) h = omega (arith, reach_count (a + step) step n h)

set_cell-other :
    (a b : ℕ) (next : Option ℕ) (cells : Cells) → b ≢ a → set_cell a next cells b ≡ cells b
set_cell-other a b next cells h = elim (Bool-cases (b == a)) [
  | inl e ↦ absurd (h ((==_iff b a).0 e))
  | inr e ↦ if_second (λ v. v ≡ cells b) (b == a) _ _ e refl
]

set_cell-at : (a b : ℕ) (next : Option ℕ) (cells : Cells) → b ≡ a → set_cell a next cells b ≡ next
set_cell-at a b next cells h = if_first (λ v. v ≡ next) (b == a) _ _ ((==_iff b a).1 h) refl

-- What the loop leaves when it has come to the end: the links, and what was written before.
record Linked (step n ptr : ℕ) (cells : Cells) (result : Cells) : Type 0 where
  pub links : Links result ptr step n
  pub before : (b : ℕ) → b < ptr → result b ≡ cells b

Linked-cons :
    (n ptr step : ℕ) (cells result : Cells)
    → 0 < step
    → Linked step n (ptr + step) (set_cell ptr (some (ptr + step)) cells) result
    → Linked step (suc n) ptr cells result
Linked-cons n ptr step cells result h l =
    let next = some (ptr + step) in
    record {
      links = (l.before ptr (omega arith) ∙ set_cell-at ptr ptr next cells refl, l.links);
      before = λ b k. l.before b (omega arith) ∙ set_cell-other ptr b next cells (λ e. omega arith);
    }

-- As many rounds are enough as there are objects.
free_list_loop-Linked :
    (n fuel ptr step : ℕ) (cells : Cells)
    → 0 < step
    → n ≤ fuel
    → Returns
        (Linked step n ptr cells)
        (free_list_loop (suc fuel) ptr (reach ptr step n) step cells)
free_list_loop-Linked zero fuel ptr step cells h k =
    if_first (Returns (Linked step zero ptr cells)) (ptr == ptr) _ _ ((==_iff ptr ptr).1 refl)
      (record { links = tt; before = λ b l. refl })
free_list_loop-Linked (suc n) zero ptr step cells h k = absurd (omega (arith, k))
free_list_loop-Linked (suc n) (suc fuel) ptr step cells h k =
    let next = ptr + step in
    let low = reach_lower next step n in
    let written = set_cell ptr (some next) cells in
    if_second (Returns (Linked step (suc n) ptr cells)) (ptr == reach next step n) _ _
      (==_distinct ptr (reach next step n) (λ e. omega arith))
      (Returns-imp (Linked step n next written) _ _
        (λ result l. Linked-cons n ptr step cells result h l)
        (free_list_loop-Linked n fuel next step written h (omega arith)))

-- NULL is written over the last link.
Links-FreeList :
    (m a step : ℕ) (cells : Cells)
    → 0 < step
    → Links cells a step (suc m)
    → FreeList (set_cell (reach a step (suc m) - step) none cells) a step (suc m)
Links-FreeList zero a step cells h l = set_cell-at (a + step - step) a none cells (omega arith)
Links-FreeList (suc m) a step cells h l =
    let low = reach_lower (a + step + step) step m in
    let last = reach (a + step + step) step m - step in
    (
      set_cell-other last a none cells (λ e. omega arith) ∙ l.0,
      Links-FreeList m (a + step) step cells h l.1,
    )

make_free_list-FreeList :
    (m ptr step : ℕ) (cells : Cells)
    → 0 < step
    → step < 2 ^ 31
    → Returns
        (λ result. FreeList result ptr step (suc m))
        (make_free_list ptr (reach ptr step (suc m)) step cells)
unfolding make_free_list
make_free_list-FreeList m ptr step cells h small =
    let end = reach ptr step (suc m) in
    let count = reach_count ptr step (suc m) h in
    let kept : step % 2 ^ 32 ≡ step = omega (arith, small) in
    rw (kept, lt→ltb step (2 ^ 31) small, lt→ltb ptr end (omega (arith, count)))
      (Returns-bind (Linked step (suc m) ptr cells) _ _ _
        (free_list_loop-Linked (suc m) (end - ptr) ptr step cells h (omega arith))
        (λ result l. Links-FreeList m ptr step result h l.links))

-- What padding does to a size.
record Aligned (elem_size step : ℕ) : Type 0 where
  pub aligned : step % 8 ≡ 0
  pub large : (8 ≤ step) × (elem_size ≤ step)
  pub tight : (step < elem_size + 8) ⊎ (step ≡ 8)

aligned_size-Aligned :
    (elem_size : ℕ) → elem_size + 7 < 2 ^ 64 → Aligned elem_size (aligned_size elem_size)
aligned_size-Aligned elem_size h = elim (Bool-cases (ltb elem_size 8)) [
  | inl e ↦
      if_first (λ n. Aligned elem_size ((n + 7) % 2 ^ 64 - (n + 7) % 2 ^ 64 % 8)) (ltb elem_size 8)
        8 elem_size e
        (let small = ltb→lt elem_size 8 e in
          record { aligned = refl; large = (omega arith, omega arith); tight = inr refl })
  | inr e ↦
      if_second (λ n. Aligned elem_size ((n + 7) % 2 ^ 64 - (n + 7) % 2 ^ 64 % 8)) (ltb elem_size 8)
        8 elem_size e
        (record {
          aligned = omega arith;
          large = (ground arith, omega arith);
          tight = inl (omega arith);
        })
]

-- What the client of a new pool relies on.
pub record Ready (heap size elem_size : ℕ) (pool : Pool) : Type 0 where
  pub aligned : pool.elem_size % 8 ≡ 0
  pub large : (8 ≤ pool.elem_size) × (elem_size ≤ pool.elem_size)
  pub tight : (pool.elem_size < elem_size + 8) ⊎ (pool.elem_size ≡ 8)
  pub current : pool.first_free ≡ some 0
  pub node : pool.nodes ≡ (
      record {
        size = size * pool.elem_size;
        data_ptr = heap;
        first_free = some heap;
        next_free = none;
      }
      ∷ [])
  pub objects : FreeList pool.cells heap pool.elem_size size

-- new_pool succeeds for a positive number of objects whose size is an `int` when it is padded, and a
-- size_t when it is also multiplied: the size of an object is a multiple of 8, at least 8 and at least what was asked
-- for, and no more than that needs; the one node's free list leads through all the objects, in the
-- order of their addresses from the start of the block, and then to NULL.
pub new_pool-Ready :
    (heap size elem_size : ℕ)
    → 0 < size
    → elem_size + 7 < 2 ^ 31
    → size * aligned_size elem_size < 2 ^ 64
    → Returns (Ready heap size elem_size) (new_pool heap size elem_size)
unfolding new_pool new_pool_node
new_pool-Ready heap zero elem_size h k l = absurd (omega (arith, h))
new_pool-Ready heap (suc m) elem_size h k l =
    let step = aligned_size elem_size in
    let a = aligned_size-Aligned elem_size (omega (arith, k)) in
    let small : step < 2 ^ 31 = elim a.tight [
      | inl q ↦ omega (arith, q, k)
      | inr q ↦ omega (arith, q)
    ] in
    let positive : 0 < step = omega (arith, a.large.0) in
    let bytes : (suc m * step) % 2 ^ 64 ≡ suc m * step = omega (arith, l) in
    let end : reach heap step (suc m) ≡ heap + (suc m * step) % 2 ^ 64 =
      reach_product heap step (suc m) ∙ ap (λ n. heap + n) (sym bytes) in
    Returns-bind (λ cells. FreeList cells heap step (suc m)) _ _ _
      (subst
        (λ e.
          Returns (λ cells. FreeList cells heap step (suc m))
            (make_free_list heap e step (λ _. none)))
        end (make_free_list-FreeList m heap step (λ _. none) positive small))
      (λ cells f. record {
        aligned = a.aligned;
        large = a.large;
        tight = a.tight;
        current = refl;
        node =
            ap
              (λ n.
                record { size = n; data_ptr = heap; first_free = some heap; next_free = none } ∷ [])
              bytes;
        objects = f;
      })

-- ===== src/Mem/Alloc/Tests.antt =====
-- src/mem.c: three objects, of which the last needs a second pool.
use javalette.Prelude.{ℕ, ◌≡◌, refl, List, [], ◌∷◌, some, All}
use javalette.Mem.Alloc.{Alloc, Block, new_alloc, alloc}
use javalette.Mem.Alloc.Disjoint.{allocs, allocs-new-Sound, InSome, AllDisjoint}

abbrev at : ℕ → ℕ → ℕ → Block
at pool offset size = record { pool = pool; offset = offset; size = size }

abbrev three : List Block
three = at 1 0 6 ∷ at 0 3 4 ∷ at 0 0 3 ∷ []

abbrev used : Alloc
used = record {
  first_free = record { pool = 1; pool_size = 16; pool_free = 6 };
  full = record { pool = 0; pool_size = 8; pool_free = 7 } ∷ [];
}

three_reached : allocs (3 ∷ 4 ∷ 6 ∷ []) [] (new_alloc 8) ≡ some (three, used)
unfolding allocs alloc
three_reached = refl

allocs-new-Sound_example : All (InSome (used.first_free ∷ used.full)) three × AllDisjoint three
allocs-new-Sound_example = allocs-new-Sound 8 (3 ∷ 4 ∷ 6 ∷ []) three used three_reached

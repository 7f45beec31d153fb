-- ===== src/Mem/Pool/Tests.antt =====
-- src/mem.c: pools on concrete inputs.
use javalette.Prelude.{
  ℕ, ◌≡◌, Option, some, none, refl, ◌>>=◌, ◌==◌, List, [], ◌∷◌, map, Returns, arith, inl,
  if◌then◌else◌,
}
use javalette.Mem.Pool.{Pool, new_pool, palloc, pfree, new_pool_node, make_free_list}
use javalette.Mem.Pool.Restored.{palloc-pfree, Takes}
use javalette.Mem.Pool.Fresh.{new_pool-Ready, Ready}

-- Three objects from a pool of two, and the first again after it was given back.
abbrev three : Option (ℕ × ℕ × ℕ × ℕ)
three = new_pool 64 2 5 >>= λ p. palloc p >>= λ a. palloc a.1 >>= λ b.
    palloc b.1 >>= λ c. pfree c.1 a.0 >>= λ p. palloc p >>= λ d. some (a.0, b.0, c.0, d.0)

three_objects : three ≡ some (64, 72, 80, 64)
unfolding new_pool palloc pfree new_pool_node make_free_list
three_objects = refl

-- The second node has 256 bytes where the first has 16.
abbrev sizes : Option (List ℕ)
sizes = new_pool 64 2 5 >>= λ p.
    palloc p >>= λ a. palloc a.1 >>= λ b. some (map (λ n. n.size) b.1.nodes)

grown_sizes : sizes ≡ some (16 ∷ 256 ∷ [])
unfolding new_pool palloc new_pool_node make_free_list
grown_sizes = refl

abbrev pair : Pool
pair = record {
  elem_size = 8;
  first_free = some 0;
  nodes = record { size = 16; data_ptr = 64; first_free = some 64; next_free = none } ∷ [];
  cells = (λ a. if a == 64 then some 72 else none);
  heap = 80;
}

pair-Takes :
    Takes pair 0 (record { size = 16; data_ptr = 64; first_free = some 64; next_free = none }) 64
pair-Takes = record { current = refl; holder = (refl, refl); free = refl; more = inl (λ e. cc) }

palloc-pfree_example : (palloc pair >>= λ r. pfree r.1 r.0) ≡ some pair
palloc-pfree_example =
    palloc-pfree pair 0
      (record { size = 16; data_ptr = 64; first_free = some 64; next_free = none }) 64 pair-Takes

new_pool-Ready_example : Returns (Ready 64 2 5) (new_pool 64 2 5)
new_pool-Ready_example = new_pool-Ready 64 2 5 (ground arith) (ground arith) (ground arith)

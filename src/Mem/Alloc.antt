-- ===== src/Mem/Alloc.antt =====
-- src/mem.c: `alloc_t`, objects that are freed all at once.
pub mod Disjoint
mod Tests
use javalette.Prelude.{
  ℕ, suc, ◌+◌, ◌*◌, ◌^◌, Bool, true, false, List, [], ◌∷◌, Option, none, some, ltb, if◌then◌else◌,
  assert, ◌>>=◌, ◌>>◌,
}

-- `alloc_node_t`; the address `pool` that malloc gave is the number of the calls before it.
pub record AllocNode : Type 0 where
  pub pool : ℕ
  pub pool_size : ℕ
  pub pool_free : ℕ

-- `alloc_t`: the node `first_free`, which is the last one, and the nodes before it, the latest
-- first.
pub record Alloc : Type 0 where
  pub first_free : AllocNode
  pub full : List AllocNode

-- A pointer into a pool, with the number of bytes that were asked for.
pub record Block : Type 0 where
  pub pool : ℕ
  pub offset : ℕ
  pub size : ℕ

abbrev pub new_alloc_node : ℕ → ℕ → AllocNode
new_alloc_node pool pool_size = record { pool = pool; pool_size = pool_size; pool_free = 0 }

abbrev pub new_alloc : ℕ → Alloc
new_alloc pool_size = record { first_free = new_alloc_node 0 pool_size; full = [] }

abbrev pub max : ℕ → ℕ → ℕ
max a b = if ltb a b then b else a

-- Sizes are `int`: `none` where the new one is not.
abbrev pub grow : Alloc → ℕ → Option Alloc
grow alc size =
    let node = alc.first_free in
    let wanted = max size (node.pool_size * 2) in
    assert (ltb wanted (2 ^ 31))
    >> some (record { first_free = new_alloc_node (suc node.pool) wanted; full = node ∷ alc.full })

abbrev pub reserve : Alloc → ℕ → Option Alloc
reserve alc size =
    let node = alc.first_free in
    if ltb node.pool_size (node.pool_free + size) then grow alc size else some alc

unfoldable pub alloc : Alloc → ℕ → Option (Block × Alloc)
alloc alc size = reserve alc size >>= λ alc.
    let node = alc.first_free in
    let block : Block = record { pool = node.pool; offset = node.pool_free; size = size } in
    some (block, record alc { first_free = record node { pool_free = node.pool_free + size } })

-- ===== src/Mem/Pool.antt =====
-- src/mem.c: `pool_t`, objects of one size that are freed one by one.
pub mod Restored
pub mod Fresh
mod Tests
use javalette.Prelude.{
  ℕ, suc, zero, ◌+◌, ◌*◌, ◌-◌, ◌%◌, ◌^◌, Bool, true, false, List, [], ◌∷◌, ◌++◌, Option, none, some,
  ltb, leb, ◌==◌, ◌&&◌, length, if◌then◌else◌, assert, ◌>>=◌, ◌>>◌,
}

-- `pool_node_t`; a node is its position in the list `nodes`, so `next` is the one after it.
pub record PoolNode : Type 0 where
  pub size : ℕ
  pub data_ptr : ℕ
  pub first_free : Option ℕ
  pub next_free : Option ℕ

-- The words that PNEXT reads, NULL where none has been written.
abbrev pub Cells : Type 0
Cells = ℕ → Option ℕ

-- `pool_t`, with the memory of its objects and the address at which malloc gives the next block.
pub record Pool : Type 0 where
  pub elem_size : ℕ
  pub first_free : Option ℕ
  pub nodes : List PoolNode
  pub cells : Cells
  pub heap : ℕ

-- `PNEXT(ptr) = next`.
abbrev pub set_cell : ℕ → Option ℕ → Cells → Cells
set_cell ptr next cells a = if a == ptr then next else cells a

-- On fuel.
abbrev pub free_list_loop : ℕ → ℕ → ℕ → ℕ → Cells → Option Cells
free_list_loop zero ptr end elem_size cells = none
free_list_loop (suc fuel) ptr end elem_size cells =
    let next = ptr + elem_size in
    let rest = free_list_loop fuel next end elem_size (set_cell ptr (some next) cells) in
    if ptr == end then some cells else rest

-- The parameter `elem_size` is an `int`: of a `size_t` it keeps the low 32 bits. `none` where it is
-- negative and the loop leaves the block at its start, where it is 0 and the loop does not end, and
-- where there is no element and NULL is written in front of the block.
unfoldable pub make_free_list : ℕ → ℕ → ℕ → Cells → Option Cells
make_free_list ptr end size cells =
    let elem_size = size % 2 ^ 32 in
    assert (ltb elem_size (2 ^ 31))
    >> (assert (ltb ptr end)
        >> (free_list_loop (suc (end - ptr)) ptr end elem_size cells >>= λ cells.
            some (set_cell (end - elem_size) none cells)))

-- A `size_t` has 64 bits. The node is added after those of the pool.
unfoldable pub new_pool_node : ℕ → Pool → Option Pool
new_pool_node size pool =
    let bytes = (size * pool.elem_size) % 2 ^ 64 in
    let node : PoolNode = record {
      size = bytes;
      data_ptr = pool.heap;
      first_free = some pool.heap;
      next_free = none;
    } in
    make_free_list pool.heap (pool.heap + bytes) pool.elem_size pool.cells >>= λ cells.
    some (record pool {
      first_free = some (length pool.nodes);
      nodes = pool.nodes ++ (node ∷ []);
      cells = cells;
      heap = pool.heap + bytes;
    })

-- At least a pointer, rounded up to a multiple of one.
abbrev pub aligned_size : ℕ → ℕ
aligned_size elem_size =
    let padded = ((if ltb elem_size 8 then 8 else elem_size) + 7) % 2 ^ 64 in padded - padded % 8

unfoldable pub new_pool : ℕ → ℕ → ℕ → Option Pool
new_pool heap size elem_size = new_pool_node size (record {
  elem_size = aligned_size elem_size;
  first_free = none;
  nodes = [];
  cells = (λ _. none);
  heap = heap;
})

-- The node at a position, and those that `next` leads to from it.
abbrev pub nodes_from : ℕ → List PoolNode → Option (PoolNode × List PoolNode)
nodes_from i [] = none
nodes_from zero (n ∷ ns) = some (n, ns)
nodes_from (suc i) (n ∷ ns) = nodes_from i ns

abbrev pub set_node : ℕ → PoolNode → List PoolNode → List PoolNode
set_node i node [] = []
set_node zero node (n ∷ ns) = node ∷ ns
set_node (suc i) node (n ∷ ns) = n ∷ set_node i node ns

-- The loop to the node whose `next` is NULL.
abbrev pub last_node : PoolNode → List PoolNode → PoolNode
last_node pn [] = pn
last_node pn (n ∷ ns) = last_node n ns

-- The node is full: the next one with a free element, or a new one.
abbrev pub next_node : PoolNode → List PoolNode → Pool → Option Pool
next_node pn following pool = elim (pn.next_free) [
  | some j ↦ some (record pool { first_free = some j })
  | none ↦ new_pool_node (((last_node pn following).size * 2) % 2 ^ 64) pool
]

unfoldable pub palloc : Pool → Option (ℕ × Pool)
palloc pool = pool.first_free >>= λ i. nodes_from i pool.nodes >>= λ r.
    let pn : PoolNode = r.0 in
    pn.first_free >>= λ ret.
    let next = pool.cells ret in
    let taken = record pool { nodes = set_node i (record pn { first_free = next }) pool.nodes } in
    (elim next [ some _ ↦ some taken | none ↦ next_node pn r.1 taken ]) >>= λ pool. some (ret, pool)

-- The first node in whose block the address is.
abbrev pub holds : ℕ → PoolNode → Bool
holds ptr n = leb n.data_ptr ptr && ltb ptr (n.data_ptr + n.size)

abbrev pub find_node : ℕ → List PoolNode → Option (ℕ × PoolNode)
find_node ptr [] = none
find_node ptr (n ∷ ns) =
    if holds ptr n then some (0, n) else (find_node ptr ns >>= λ r. some (suc r.0, r.1))

-- A node that was full becomes the first of those with a free element.
abbrev pub give_back : ℕ → ℕ → PoolNode → Pool → Pool
give_back ptr i pn pool = elim (pn.first_free) [
  | some next ↦ record pool { nodes = set_node i (record pn { first_free = some ptr }) pool.nodes }
  | none ↦ record pool {
    first_free = some i;
    nodes =
        set_node i (record pn { first_free = some ptr; next_free = pool.first_free }) pool.nodes;
  }
]

unfoldable pub pfree : Pool → ℕ → Option Pool
pfree pool ptr = find_node ptr pool.nodes >>= λ r.
    let cells = set_cell ptr (r.1.first_free) pool.cells in
    some (give_back ptr r.0 r.1 (record pool { cells = cells }))

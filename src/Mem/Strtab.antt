-- ===== src/Mem/Strtab.antt =====
-- src/mem.c: `strtab_t`, a hash table from strings to the memory of their data.
pub mod Walks
pub mod Filling
pub mod Stored
mod Tests
use javalette.Prelude.{
  ℕ, suc, zero, ◌+◌, ◌*◌, ◌/◌, ◌%◌, ◌^◌, Bool, true, false, List, [], ◌∷◌, Option, none, some, ltb,
  ◌==◌, ◌&&◌, length, if◌then◌else◌, assert, ◌>>=◌, ◌>>◌, ◌-◌,
}
use javalette.Mem.Alloc.{Alloc, Block, new_alloc, alloc}

-- `^` on so many low bits.
abbrev pub xor : ℕ → ℕ → ℕ → ℕ
xor zero a b = 0
xor (suc bits) a b = (a + b) % 2 + 2 * xor bits (a / 2) (b / 2)

-- A shift by k multiplies by 2 ^ k; an `unsigned` has 32 bits.
abbrev pub fnv_step : ℕ → ℕ → ℕ
fnv_step hval octet =
    xor 32
      ((hval + (hval * 2 + hval * 2 ^ 4 + hval * 2 ^ 7 + hval * 2 ^ 8 + hval * 2 ^ 24)) % 2 ^ 32)
      octet

abbrev pub fnv_loop : ℕ → List ℕ → ℕ
fnv_loop hval [] = hval
fnv_loop hval (octet ∷ str) = fnv_loop (fnv_step hval octet) str

-- 0x811c9dc5
unfoldable pub fnv_hash : List ℕ → ℕ
fnv_hash str = fnv_loop 2166136261 str

-- `hash_node_t`: the string is its memory and what has been copied there; `next` is an index.
pub record HashNode : Type 0 where
  pub hash : ℕ
  pub str : List ℕ
  pub str_block : Option Block
  pub data_block : Option Block
  pub next : Option ℕ

-- `strtab_t`
pub record Strtab : Type 0 where
  pub strbuf : Alloc
  pub databuf : Alloc
  pub elem_size : ℕ
  pub hash_size : ℕ
  pub hash_log : ℕ
  pub hash_nodes_size : ℕ
  pub hash_nodes_free : ℕ
  pub hashtab : ℕ → HashNode

abbrev pub set_entry : ℕ → HashNode → (ℕ → HashNode) → ℕ → HashNode
set_entry i node tab j = if j == i then node else tab j

-- `*pstr`, `*pdata` and the answer.
pub record Entry : Type 0 where
  pub inserted : Bool
  pub pstr : Option Block
  pub pdata : Option Block

abbrev pub same_str : List ℕ → List ℕ → Bool
same_str [] [] = true
same_str [] (b ∷ ys) = false
same_str (a ∷ xs) [] = false
same_str (a ∷ xs) (b ∷ ys) = (a == b) && same_str xs ys

-- Where the walk along a chain ends.
pub data Walk : Type 0 where
  found : HashNode → Walk
  missing : ℕ → Walk

abbrev pub matches : ℕ → List ℕ → HashNode → Bool
matches hash str node = (node.hash == hash) && same_str node.str str

-- On fuel.
abbrev pub find_str : ℕ → (ℕ → HashNode) → ℕ → List ℕ → ℕ → Option Walk
find_str zero tab hash str i = none
find_str (suc fuel) tab hash str i =
    let rest : Option Walk = elim (tab i).next [
      | none ↦ some (missing i)
      | some j ↦ find_str fuel tab hash str j
    ] in
    if matches hash str (tab i) then some (found (tab i)) else rest

-- `none` where the table would be moved: the pointers into it stay as they were.
abbrev pub new_hash_node : Strtab → Option (ℕ × Strtab)
new_hash_node tab =
    assert (ltb tab.hash_nodes_free tab.hash_nodes_size)
    >> some (tab.hash_nodes_free, record tab { hash_nodes_free = suc tab.hash_nodes_free })

-- The new node at an index.
unfoldable pub fill_node : ℕ → ℕ → List ℕ → Strtab → Option (Entry × Strtab)
fill_node i hash str tab = alloc tab.strbuf (suc (length str)) >>= λ s.
    alloc tab.databuf tab.elem_size >>= λ d.
    let node : HashNode = record {
      hash = hash;
      str = str;
      str_block = some s.0;
      data_block = some d.0;
      next = none;
    } in
    some (
      record { inserted = true; pstr = some s.0; pdata = some d.0 },
      record tab { strbuf = s.1; databuf = d.1; hashtab = set_entry i node tab.hashtab },
    )

-- What a walk has found, and what is done where it has found nothing.
abbrev pub after_walk : ℕ → List ℕ → Strtab → Walk → Option (Entry × Strtab)
after_walk hash str tab (found node) =
    some (record { inserted = false; pstr = node.str_block; pdata = node.data_block }, tab)
after_walk hash str tab (missing prev) = new_hash_node tab >>= λ r.
    let linked = record (r.1.hashtab prev) { next = some r.0 } in
    fill_node r.0 hash str (record r.1 { hashtab = set_entry prev linked r.1.hashtab })

-- `hash_size` is a power of two.
unfoldable pub add_str : Strtab → List ℕ → Option (Entry × Strtab)
add_str tab str =
    let hash = fnv_hash str in
    let index = hash % tab.hash_size in
    let chained =
      find_str tab.hash_nodes_free tab.hashtab hash str index >>= λ w. after_walk hash str tab w in
    let fresh = fill_node index hash str tab in
    if (tab.hashtab index).hash == 0 then fresh else chained

-- The number of bits, and a carry that any bit sets, the highest one too.
abbrev pub log_loop : ℕ → ℕ → ℕ → ℕ × ℕ
log_loop zero hash_size carry = (0, carry)
log_loop (suc fuel) hash_size carry =
    let rest = log_loop fuel (hash_size / 2) (if hash_size % 2 == 1 then 1 else carry) in
    if hash_size == 0 then (0, carry) else (suc rest.0, rest.1)

abbrev pub empty_node : HashNode
empty_node = record { hash = 0; str = []; str_block = none; data_block = none; next = none }

-- The division by 0 is undefined.
unfoldable pub new_strtab : ℕ → ℕ → ℕ → Option Strtab
new_strtab strings_size data_size data_elem_size =
    let entries = data_size / data_elem_size in
    let log = log_loop (suc entries) entries 0 in
    let hash_size = 2 ^ (log.0 + log.1) in
    assert (ltb 0 data_elem_size)
    >> some (record {
      strbuf = new_alloc strings_size;
      databuf = new_alloc data_size;
      elem_size = data_elem_size;
      hash_size = hash_size;
      hash_log = log.0 + log.1 - 1;
      hash_nodes_size = hash_size + hash_size / 2;
      hash_nodes_free = hash_size;
      hashtab = (λ _. empty_node);
    })

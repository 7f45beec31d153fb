-- ===== src/Mem/Alloc/Disjoint.antt =====
-- src/mem.c: where the objects of an `alloc_t` lie.
use javalette.Prelude.{
  ℕ, suc, ◌+◌, ◌*◌, ◌^◌, ◌≤◌, ◌<◌, ◌≡◌, ◌⊎◌, inl, inr, refl, List, [], ◌∷◌, Option, some, ltb,
  Returns, Returns-bind, Returns-if, Ensures, Ensures-bind, Ensures-assert, All, arith, ◌≢◌, ◌>>=◌,
  Ensures-cases, of_Ensures, Returns-assert,
}
use javalette.Mem.Alloc.{AllocNode, Alloc, Block, new_alloc, new_alloc_node, alloc, reserve, max}

-- The requests of a client, one after the other: the blocks, the latest first, and the state.
unfoldable pub allocs : List ℕ → List Block → Alloc → Option (List Block × Alloc)
allocs [] blocks alc = some (blocks, alc)
allocs (size ∷ sizes) blocks alc = alloc alc size >>= λ r. allocs sizes (r.0 ∷ blocks) r.1

abbrev pub Disjoint : Block → Block → Type 0
Disjoint a b = (a.pool ≢ b.pool) ⊎ ((a.offset + a.size ≤ b.offset) ⊎ (b.offset + b.size ≤ a.offset))

abbrev pub AllDisjoint : List Block → Type 0
AllDisjoint [] = Unit
AllDisjoint (b ∷ bs) = All (Disjoint b) bs × AllDisjoint bs

-- The block lies in the part of the node's pool that is in use.
abbrev pub Inside : AllocNode → Block → Type 0
Inside n b = (b.pool ≡ n.pool) × (b.offset + b.size ≤ n.pool_free)

abbrev pub InSome : List AllocNode → Block → Type 0
InSome [] b = ⊥
InSome (n ∷ ns) b = (Inside n b × (n.pool_free ≤ n.pool_size)) ⊎ InSome ns b

-- The current pool is in bounds, the older ones have smaller numbers, and the blocks lie in them.
pub record Sound (alc : Alloc) (blocks : List Block) : Type 0 where
  pub bounds : alc.first_free.pool_free ≤ alc.first_free.pool_size
  pub older : All (λ n. n.pool < alc.first_free.pool) alc.full
  pub inside : All (InSome (alc.first_free ∷ alc.full)) blocks
  pub apart : AllDisjoint blocks

All-imp {κ μ} :
    {A : Type 0} (P : A → Type κ) (Q : A → Type μ) (xs : List A)
    → ((a : A) → P a → Q a)
    → All P xs
    → All Q xs
All-imp P Q [] k h = tt
All-imp P Q (x ∷ xs) k h = (k x h.0, All-imp P Q xs k h.1)

-- A block in an older node is in another pool.
InSome-older :
    (ns : List AllocNode) (pool : ℕ) (b : Block)
    → All (λ n. n.pool < pool) ns
    → InSome ns b
    → b.pool < pool
InSome-older [] pool b h i = elim i [ ]
InSome-older (n ∷ ns) pool b h (inl i) = ground arith
InSome-older (n ∷ ns) pool b h (inr i) = InSome-older ns pool b h.1 i

grown-Sound :
    (alc : Alloc) (size wanted : ℕ) (blocks : List Block)
    → Sound alc blocks
    → size ≤ wanted
    → Sound
        (record {
          first_free = new_alloc_node (suc alc.first_free.pool) wanted;
          full = alc.first_free ∷ alc.full;
        })
        blocks
grown-Sound alc size wanted blocks s h = record {
  bounds = omega arith;
  older = (omega arith, All-imp _ _ alc.full (λ n k. omega arith) s.older);
  inside = All-imp _ _ blocks (λ b i. inr i) s.inside;
  apart = s.apart;
}

abbrev Room : ℕ → List Block → Alloc → Type 0
Room size blocks a = Sound a blocks × (a.first_free.pool_free + size ≤ a.first_free.pool_size)

reserve-Room :
    (alc : Alloc) (size : ℕ) (blocks : List Block)
    → Sound alc blocks
    → Ensures (Room size blocks) (reserve alc size)
reserve-Room alc size blocks s =
    let node = alc.first_free in
    let wanted = max size (node.pool_size * 2) in
    let enough : size ≤ wanted = ground arith in
    Ensures-cases (Room size blocks) (ltb node.pool_size (node.pool_free + size)) _ _
      (λ q.
        Ensures-assert (Room size blocks) (ltb wanted (2 ^ 31)) _
          (grown-Sound alc size wanted blocks s enough, omega arith))
      (λ q. (s, ground arith))

-- A block of the part in use, seen when more of the pool is in use.
kept :
    (n : AllocNode) (ns : List AllocNode) (size : ℕ) (b : Block)
    → n.pool_free + size ≤ n.pool_size
    → InSome (n ∷ ns) b
    → InSome (record n { pool_free = n.pool_free + size } ∷ ns) b
kept n ns size b room (inl i) = inl ((i.0.0, (let k = i.0.1 in omega arith)), room)
kept n ns size b room (inr i) = inr i

next_apart :
    (n : AllocNode) (ns : List AllocNode) (size : ℕ) (b : Block)
    → All (λ m. m.pool < n.pool) ns
    → InSome (n ∷ ns) b
    → Disjoint (record { pool = n.pool; offset = n.pool_free; size = size }) b
next_apart n ns size b older (inl i) = inr (inr i.0.1)
next_apart n ns size b older (inr i) =
    let k = InSome-older ns n.pool b older i in inl (λ e. omega arith)

-- The block that is taken where there is room for it.
taken-Sound :
    (alc : Alloc) (size : ℕ) (blocks : List Block)
    → Room size blocks alc
    → Sound
        (record alc {
          first_free = record alc.first_free { pool_free = alc.first_free.pool_free + size };
        })
        (record { pool = alc.first_free.pool; offset = alc.first_free.pool_free; size = size }
          ∷ blocks)
taken-Sound alc size blocks (s, room) = record {
  bounds = room;
  older = s.older;
  inside = (
    inl ((refl, omega arith), room),
    All-imp _ _ blocks (λ b i. kept alc.first_free alc.full size b room i) s.inside,
  );
  apart = (
    All-imp _ _ blocks (λ b i. next_apart alc.first_free alc.full size b s.older i) s.inside,
    s.apart,
  );
}

allocs-Sound :
    (sizes : List ℕ) (blocks : List Block) (alc : Alloc)
    → Sound alc blocks
    → Ensures (λ r. Sound r.1 r.0) (allocs sizes blocks alc)
unfolding allocs alloc
allocs-Sound [] blocks alc s = s
allocs-Sound (size ∷ sizes) blocks alc s =
    Ensures-bind (λ r. Sound r.1 (r.0 ∷ blocks)) (λ r. Sound r.1 r.0) _ _
      (Ensures-bind (Room size blocks) (λ r. Sound r.1 (r.0 ∷ blocks)) _ _
        (reserve-Room alc size blocks s) (λ a h. taken-Sound a size blocks h))
      (λ r h. allocs-Sound sizes (r.0 ∷ blocks) r.1 h)

-- From a new `alloc_t`, after any requests that are all met, every block lies in the used part of a
-- pool, the used part is no larger than the pool, and no two blocks overlap.
pub allocs-new-Sound :
    (pool_size : ℕ) (sizes : List ℕ) (blocks : List Block) (alc : Alloc)
    → allocs sizes [] (new_alloc pool_size) ≡ some (blocks, alc)
    → All (InSome (alc.first_free ∷ alc.full)) blocks × AllDisjoint blocks
allocs-new-Sound pool_size sizes blocks alc e =
    let start : Sound (new_alloc pool_size) [] = record {
      bounds = omega arith;
      older = tt;
      inside = tt;
      apart = tt;
    } in
    let sound =
      of_Ensures (λ r. Sound r.1 r.0) (allocs sizes [] (new_alloc pool_size)) (blocks, alc)
        (allocs-Sound sizes [] (new_alloc pool_size) start) e in
    (sound.inside, sound.apart)

-- A request is met when neither its size nor twice the size of the current pool reaches 2^31.
pub alloc-Returns :
    (alc : Alloc) (size : ℕ)
    → size < 2 ^ 31
    → alc.first_free.pool_size * 2 < 2 ^ 31
    → Returns (λ r. r.0.size ≡ size) (alloc alc size)
unfolding alloc
alloc-Returns alc size h k =
    let node = alc.first_free in
    Returns-bind (λ a. Unit {0}) (λ r. r.0.size ≡ size) _ _
      (Returns-if (λ a. Unit {0}) (ltb node.pool_size (node.pool_free + size)) _ _
        (λ q.
          Returns-assert (λ a. Unit {0}) (ltb (max size (node.pool_size * 2)) (2 ^ 31)) _
            (ground arith) tt)
        (λ q. tt))
      (λ a u. refl)

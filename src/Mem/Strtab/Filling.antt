-- ===== src/Mem/Strtab/Filling.antt =====
-- src/mem.c: the tables that `add_str` works on, and a node that is filled.
use javalette.Prelude.{
  ℕ, suc, ◌*◌, ◌%◌, ◌^◌, ◌≤◌, ◌<◌, ◌≡◌, inl, inr, refl, sym, ap, ◌∙◌, true, false, List, [], ◌∷◌,
  some, none, ◌==◌, ==_iff, Bool-cases, if_first, if_second, arith, Returns, Returns-bind, length,
  ◌>>=◌,
}
use native.Mathlib.Nat.{mod-lt}
use javalette.Mem.Alloc.{Alloc, alloc}
use javalette.Mem.Alloc.Disjoint.{alloc-Returns}
use javalette.Mem.Strtab.{
  HashNode, Strtab, Entry, Walk, find_str, matches, set_entry, same_str, fill_node, after_walk,
  add_str, fnv_hash,
}
use javalette.Mem.Strtab.Walks.{Forward}

-- There are buckets, and the nodes in use are linked forward.
pub record Sound (tab : Strtab) : Type 0 where
  pub buckets : 0 < tab.hash_size
  pub used : tab.hash_size ≤ tab.hash_nodes_free
  pub forward : Forward tab.hashtab tab.hash_nodes_free

-- No pool grows out of an `int`.
abbrev pub Fits : Alloc → ℕ → Type 0
Fits alc size = (size < 2 ^ 31) × (alc.first_free.pool_size * 2 < 2 ^ 31)

-- There is a node left, and memory for the string and its data.
pub record Room (tab : Strtab) (str : List ℕ) : Type 0 where
  pub node : tab.hash_nodes_free < tab.hash_nodes_size
  pub strings : Fits tab.strbuf (suc (length str))
  pub entries : Fits tab.databuf tab.elem_size

-- The table is sound, and it has the string with these pointers.
abbrev pub Stored : List ℕ → Entry × Strtab → Type 0
Stored str r = Sound r.1 × (add_str r.1 str ≡ some (record r.0 { inserted = false }, r.1))

same_str_refl : (str : List ℕ) → same_str str str ≡ true
same_str_refl [] = refl
same_str_refl (a ∷ str) = rw ((==_iff a a).1 refl) (same_str_refl str)

pub matches_own :
    (hash : ℕ) (str : List ℕ) (node : HashNode)
    → node.hash ≡ hash
    → node.str ≡ str
    → matches hash str node ≡ true
matches_own hash str node e f = rw (e, f, (==_iff hash hash).1 refl) (same_str_refl str)

module _ (tab : Strtab) (str : List ℕ) where
  abbrev pub bucket : ℕ
  bucket = fnv_hash str % tab.hash_size

  pub add_str-chained :
      (w : Walk)
      → ((tab.hashtab bucket).hash == 0) ≡ false
      → find_str tab.hash_nodes_free tab.hashtab (fnv_hash str) str bucket ≡ some w
      → add_str tab str ≡ after_walk (fnv_hash str) str tab w
  unfolding add_str
  add_str-chained w e f =
      if_second (λ v. v ≡ after_walk (fnv_hash str) str tab w) ((tab.hashtab bucket).hash == 0) _ _
        e (ap (λ v. v >>= λ w. after_walk (fnv_hash str) str tab w) f)

  pub bucket_used : Sound tab → bucket < tab.hash_nodes_free
  bucket_used s = omega (arith, s.used, mod-lt (fnv_hash str) s.buckets)

-- What fill_node does where there is memory.
pub record Filled (i hash : ℕ) (str : List ℕ) (tab : Strtab) (r : Entry × Strtab) : Type 0 where
  pub node : HashNode
  pub hash_is : node.hash ≡ hash
  pub str_is : node.str ≡ str
  pub ends : node.next ≡ none
  pub entry : r.0 ≡ record { inserted = true; pstr = node.str_block; pdata = node.data_block }
  pub table : r.1.hashtab ≡ set_entry i node tab.hashtab
  pub free : r.1.hash_nodes_free ≡ tab.hash_nodes_free
  pub size : r.1.hash_size ≡ tab.hash_size

pub fill_node-Filled :
    (i hash : ℕ) (str : List ℕ) (tab : Strtab)
    → Fits tab.strbuf (suc (length str))
    → Fits tab.databuf tab.elem_size
    → Returns (Filled i hash str tab) (fill_node i hash str tab)
unfolding fill_node
fill_node-Filled i hash str tab h k =
    Returns-bind _ (Filled i hash str tab) (alloc tab.strbuf (suc (length str))) _
      (alloc-Returns tab.strbuf (suc (length str)) h.0 h.1)
      (λ s u.
        Returns-bind _ (Filled i hash str tab) (alloc tab.databuf tab.elem_size) _
          (alloc-Returns tab.databuf tab.elem_size k.0 k.1)
          (λ d v. record {
            node = record {
              hash = hash;
              str = str;
              str_block = some s.0;
              data_block = some d.0;
              next = none;
            };
            hash_is = refl;
            str_is = refl;
            ends = refl;
            entry = refl;
            table = refl;
            free = refl;
            size = refl;
          }))

set_entry-Forward :
    (i : ℕ) (node : HashNode) (tab : ℕ → HashNode) (free : ℕ)
    → node.next ≡ none
    → Forward tab free
    → Forward (set_entry i node tab) free
set_entry-Forward i node tab free e h a j l q = elim (Bool-cases (a == i)) [
  | inl b ↦
      let same = ap (λ x. x.next) (if_first (λ v. v ≡ node) (a == i) node (tab a) b refl) in cc
  | inr b ↦
      h a j l (sym (ap (λ x. x.next) (if_second (λ v. v ≡ tab a) (a == i) node (tab a) b refl)) ∙ q)
]

pub Filled-Sound :
    (i hash : ℕ) (str : List ℕ) (tab : Strtab) (r : Entry × Strtab)
    → Sound tab
    → Filled i hash str tab r
    → Sound r.1
Filled-Sound i hash str tab r s f = record {
  buckets = rw (f.size) s.buckets;
  used = rw (f.size, f.free) s.used;
  forward = rw (f.table, f.free) (set_entry-Forward i f.node tab.hashtab _ f.ends s.forward);
}

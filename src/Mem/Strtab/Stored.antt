-- ===== src/Mem/Strtab/Stored.antt =====
-- src/mem.c: what has been added to a string table.
use javalette.Prelude.{
  ℕ, suc, ◌%◌, ◌<◌, ◌≡◌, ◌≢◌, sym, ap, ◌∙◌, subst, false, List, some, ◌==◌, arith, Returns,
  Returns-imp, ◌>>=◌, ==_distinct, Returns-if, of_Returns, lt→ltb,
}
use javalette.Mem.Strtab.{
  Strtab, Entry, Walk, found, missing, find_str, matches, set_entry, after_walk, add_str, fnv_hash,
  new_hash_node,
}
use javalette.Mem.Strtab.Walks.{
  find-hit, Ends, find_str-Ends, set_entry-at, linked-hash, linked-Forward,
}
use javalette.Mem.Strtab.Filling.{
  Sound, Room, Stored, bucket, add_str-chained, bucket_used, matches_own, Filled, fill_node-Filled,
  Filled-Sound,
}

-- The second time, the walk finds the node that has been filled.
Filled-again :
    (tab : Strtab) (str : List ℕ) (r : Entry × Strtab) (i : ℕ)
    (f : Filled i (fnv_hash str) str tab r)
    → ((r.1.hashtab (bucket r.1 str)).hash == 0) ≡ false
    → find_str r.1.hash_nodes_free r.1.hashtab (fnv_hash str) str (bucket r.1 str)
      ≡ some (found f.node)
    → add_str r.1 str ≡ some (record r.0 { inserted = false }, r.1)
Filled-again tab str r i f e w =
    add_str-chained r.1 str (found f.node) e w
    ∙ ap (λ x. some (record x { inserted = false }, r.1)) (sym f.entry)

module _ (tab : Strtab) (str : List ℕ) (s : Sound tab) (h : fnv_hash str ≢ 0) where
  -- In an empty bucket.
  Filled-Stored :
      (r : Entry × Strtab) → Filled (bucket tab str) (fnv_hash str) str tab r → Stored str r
  Filled-Stored r f =
      let own = matches_own (fnv_hash str) str f.node f.hash_is f.str_is in
      let at = set_entry-at (bucket tab str) f.node tab.hashtab in
      let b = ap (λ n. fnv_hash str % n) f.size in
      let here : r.1.hashtab (bucket r.1 str) ≡ f.node = (λ k. f.table k (b k)) ∙ at in
      let sound = Filled-Sound (bucket tab str) (fnv_hash str) str tab r s f in
      let positive : 0 < r.1.hash_nodes_free = omega (arith, sound.buckets, sound.used) in
      (
        sound,
        Filled-again tab str r (bucket tab str) f
            (==_distinct _ 0 (λ z. h (sym (ap (λ x. x.hash) here ∙ f.hash_is) ∙ z)))
            (find-hit (fnv_hash str) str _ _ r.1.hashtab positive
                (ap (matches (fnv_hash str) str) here ∙ own)
              ∙ ap (λ x. some (found x)) here),
      )

  -- At the end of a chain.
  module _ (p : ℕ) (below : p < tab.hash_nodes_free) where
    abbrev extended : Strtab
    extended = record tab {
      hash_nodes_free = suc tab.hash_nodes_free;
      hashtab =
          set_entry p (record (tab.hashtab p) { next = some tab.hash_nodes_free }) tab.hashtab;
    }

    extended-Stored :
        (r : Entry × Strtab)
        → ((tab.hashtab (bucket tab str)).hash == 0) ≡ false
        → Ends
            (fnv_hash str)
            str
            tab.hashtab
            tab.hash_nodes_free
            s.forward
            tab.hash_nodes_free
            (bucket tab str)
            (missing p)
        → Filled tab.hash_nodes_free (fnv_hash str) str extended r
        → Stored str r
    extended-Stored r e k f =
        let hash = fnv_hash str in
        let free = tab.hash_nodes_free in
        let own = matches_own hash str f.node f.hash_is f.str_is in
        let b = ap (λ n. hash % n) f.size in
        let kept =
          linked-hash hash str tab.hashtab free s.forward p (bucket tab str) f.node below
            (bucket_used tab str s) in
        let same : (r.1.hashtab (bucket r.1 str)).hash ≡ (tab.hashtab (bucket tab str)).hash =
          (λ x. (f.table x (b x)).hash) ∙ kept in
        (
          record {
            buckets = rw (f.size) s.buckets;
            used = rw (f.size, f.free) (omega (arith, s.used));
            forward =
                rw (f.table, f.free)
                  (linked-Forward hash str tab.hashtab free s.forward p f.node below f.ends);
          },
          Filled-again extended str r free f (ap (λ n. n == 0) same ∙ e)
              ((λ x. find_str (f.free x) (f.table x) hash str (b x)) ∙ k.2 f.node own),
        )

  after_walk-Stored :
      (w : Walk)
      → Room tab str
      → ((tab.hashtab (bucket tab str)).hash == 0) ≡ false
      → find_str tab.hash_nodes_free tab.hashtab (fnv_hash str) str (bucket tab str) ≡ some w
      → Ends
          (fnv_hash str)
          str
          tab.hashtab
          tab.hash_nodes_free
          s.forward
          tab.hash_nodes_free
          (bucket tab str)
          w
      → Returns (Stored str) (after_walk (fnv_hash str) str tab w)
  after_walk-Stored (found node) room e f k = (s, add_str-chained tab str (found node) e f)
  after_walk-Stored (missing p) room e f k =
      let free = tab.hash_nodes_free in
      let made : new_hash_node tab ≡ some (free, record tab { hash_nodes_free = suc free }) =
        rw (lt→ltb free tab.hash_nodes_size room.node) in
      rw (made) (
        Returns-imp (Filled free (fnv_hash str) str (extended p k.0)) _ _
          (λ r q. extended-Stored p k.0 r e k q)
          (fill_node-Filled free (fnv_hash str) str (extended p k.0) room.strings room.entries))

-- add_str succeeds on a sound table with a free node, for a string whose hash is not 0, where no size
-- in the two memories grows out of an `int`: the table stays sound, and adding the string again
-- answers that it was there, with the same two pointers, and changes nothing.
pub add_str-Stored :
    (tab : Strtab) (str : List ℕ)
    → Sound tab
    → fnv_hash str ≢ 0
    → Room tab str
    → Returns (Stored str) (add_str tab str)
unfolding add_str
add_str-Stored tab str s h room =
    Returns-if (Stored str) ((tab.hashtab (bucket tab str)).hash == 0) _ _
      (λ e.
        Returns-imp (Filled (bucket tab str) (fnv_hash str) str tab) _ _ (Filled-Stored tab str s h)
          (fill_node-Filled (bucket tab str) (fnv_hash str) str tab room.strings room.entries))
      (λ e.
        let w = of_Returns _ _ (
          find_str-Ends (fnv_hash str) str tab.hashtab tab.hash_nodes_free s.forward
            tab.hash_nodes_free (bucket tab str) (bucket_used tab str s) (omega arith)) in
        subst (λ x. Returns (Stored str) (x >>= λ w. after_walk (fnv_hash str) str tab w)) (sym w.1)
          (after_walk-Stored tab str s h w.0 room e w.1 w.2))

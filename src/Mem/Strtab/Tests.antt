-- ===== src/Mem/Strtab/Tests.antt =====
-- src/mem.c: a string table on concrete inputs.
use javalette.Mem.Strtab.Stored.{add_str-Stored}
use javalette.Mem.Strtab.Filling.{Sound, Stored}
use javalette.Prelude.{
  ◌≡◌, refl, [], ◌∷◌, Option, some, Bool, true, false, ◌>>=◌, Returns, arith, sym, ◌∙◌,
}
use javalette.Mem.Alloc.{alloc, new_alloc}
use javalette.Mem.Strtab.{Strtab, new_strtab, add_str, fnv_hash, fill_node, empty_node}

abbrev answers : Option (Bool × Bool × Bool)
answers = new_strtab 16 16 4 >>= λ t. add_str t (97 ∷ []) >>= λ a. add_str a.1 (98 ∷ []) >>= λ b.
    add_str b.1 (97 ∷ []) >>= λ c. some (a.0.inserted, b.0.inserted, c.0.inserted)

second_time : answers ≡ some (true, true, false)
unfolding new_strtab add_str fnv_hash fill_node alloc
second_time = refl

-- FNV-1 of "a".
hash_a : fnv_hash (97 ∷ []) ≡ 84696446
unfolding fnv_hash
hash_a = refl

abbrev small : Strtab
small = record {
  strbuf = new_alloc 16;
  databuf = new_alloc 16;
  elem_size = 4;
  hash_size = 16;
  hash_log = 3;
  hash_nodes_size = 24;
  hash_nodes_free = 16;
  hashtab = (λ _. empty_node);
}

small_new : new_strtab 16 16 4 ≡ some small
unfolding new_strtab
small_new = refl

small-Sound : Sound small
small-Sound = record { buckets = ground arith; used = ground arith; forward = λ i j h e. cc }

add_str-Stored_example : Returns (Stored (97 ∷ [])) (add_str small (97 ∷ []))
add_str-Stored_example =
    add_str-Stored small (97 ∷ []) small-Sound (λ e. let n = sym hash_a ∙ e in omega (arith, n))
      (record {
        node = ground arith;
        strings = (ground arith, ground arith);
        entries = (ground arith, ground arith);
      })

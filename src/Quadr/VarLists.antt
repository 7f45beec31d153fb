-- ===== src/Quadr/VarLists.antt =====
-- src/quadr.c: the lists of variables, `var_list_t`.
pub mod Sets
use javalette.Prelude.{
  ℕ, suc, Bool, true, false, List, [], ◌∷◌, Option, none, some, ◌==◌, if◌then◌else◌,
}

abbrev pub var_list_len : List ℕ → ℕ
var_list_len [] = 0
var_list_len (x ∷ vl) = suc (var_list_len vl)

abbrev pub erase_loop : List ℕ → ℕ → List ℕ
erase_loop [] var = []
erase_loop (x ∷ vl) var = if x == var then vl else x ∷ erase_loop vl var

abbrev pub vl_erase : List ℕ → ℕ → Option (List ℕ)
vl_erase [] var = none
vl_erase (x ∷ vl) var = some (erase_loop (x ∷ vl) var)

abbrev pub vl_insert : List ℕ → ℕ → List ℕ
vl_insert vl var = var ∷ vl

abbrev pub vl_find : List ℕ → ℕ → Bool
vl_find [] var = false
vl_find (x ∷ vl) var = if x == var then true else vl_find vl var

-- The loop: whether it comes to the end of the list, with `vl` at NULL.
abbrev pub insert_loop : List ℕ → ℕ → Bool
insert_loop [] var = true
insert_loop (x ∷ vl) var = if x == var then false else insert_loop vl var

abbrev pub vl_insert_if_absent : List ℕ → ℕ → Bool × List ℕ
vl_insert_if_absent vl var = if insert_loop vl var then (true, var ∷ vl) else (false, vl)

-- The loop of `vl_copy` builds the list in the other order; `reverse_list` turns it round.
abbrev pub copy_loop : List ℕ → List ℕ → List ℕ
copy_loop [] vl2 = vl2
copy_loop (x ∷ vl) vl2 = copy_loop vl (x ∷ vl2)

abbrev pub vl_copy : List ℕ → List ℕ
vl_copy vl = copy_loop (copy_loop vl []) []

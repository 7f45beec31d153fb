-- ===== src/Types/Tests.antt =====
-- The theorems on types at concrete types, and a run of `type_equiv` on three types.
use javalette.Prelude.{◌≡◌, ◌↔◌, refl, true, false}
use javalette.Types.{Ty, void, int, boolean, func, none_left, arg, type_equiv}
use javalette.Types.Compatible.{Compatible}
use javalette.Types.Laws.{type_equiv_iff, type_equiv_refl_sym}

abbrev two_ints : Ty
two_ints = func 1 int 2 (arg int (arg int none_left))

abbrev int_and_void : Ty
int_and_void = func 2 int 2 (arg int (arg void none_left))

type_equiv_iff_example :
    (type_equiv two_ints int_and_void ≡ true) ↔ Compatible two_ints int_and_void
type_equiv_iff_example = type_equiv_iff two_ints int_and_void

type_equiv_refl_sym_example :
    (type_equiv two_ints two_ints ≡ true)
    × (type_equiv two_ints int_and_void ≡ true → type_equiv int_and_void two_ints ≡ true)
type_equiv_refl_sym_example = type_equiv_refl_sym two_ints int_and_void

not_transitive :
    (type_equiv int void ≡ true)
    × (type_equiv void boolean ≡ true)
    × (type_equiv int boolean ≡ false)
unfolding type_equiv
not_transitive = (refl, refl, refl)

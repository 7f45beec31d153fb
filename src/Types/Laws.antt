-- ===== src/Types/Laws.antt =====
-- `type_equiv` and the rules of compatibility.
use javalette.Prelude.{◌≡◌, ◌↔◌, refl, true, arith, sym, false}
use javalette.Types.{
  Ty, Tys, void, int, double, str, boolean, func, array, none_left, arg, type_equiv, args_equiv,
}
use javalette.Types.Compatible.{
  Compatible, AllCompatible, voids, ints, doubles, strs, booleans, void_int, void_double,
  void_boolean, int_void, double_void, boolean_void, arrays, funcs, done, more,
}

mutual
  unfolding type_equiv args_equiv

  complete : {t u : Ty} → Compatible t u → type_equiv t u ≡ true
  complete voids = refl
  complete ints = refl
  complete doubles = refl
  complete strs = refl
  complete booleans = refl
  complete void_int = refl
  complete void_double = refl
  complete void_boolean = refl
  complete int_void = refl
  complete double_void = refl
  complete boolean_void = refl
  complete (arrays c e) = ground (arith, complete c)
  complete (funcs e c cs) = ground (arith, complete c, complete_all cs)

  complete_all : {ts us : Tys} → AllCompatible ts us → args_equiv ts us ≡ true
  complete_all done = refl
  complete_all (more c cs) = ground (arith, complete c, complete_all cs)

mutual
  unfolding type_equiv args_equiv

  sound : (t u : Ty) → type_equiv t u ≡ true → Compatible t u
  sound void void e = voids
  sound void int e = void_int
  sound void double e = void_double
  sound void boolean e = void_boolean
  sound int int e = ints
  sound int void e = int_void
  sound double double e = doubles
  sound double void e = double_void
  sound str str e = strs
  sound boolean boolean e = booleans
  sound boolean void e = boolean_void
  sound (array a t n) (array b u m) e = arrays (sound t u (ground arith)) (ground arith)
  sound (func a t n ts) (func b u m us) e =
      funcs (ground arith) (sound t u (ground arith)) (sound_all ts us (ground arith))
  sound _ _ e = cc

  sound_all : (ts us : Tys) → args_equiv ts us ≡ true → AllCompatible ts us
  sound_all none_left none_left e = done
  sound_all (arg t ts) (arg u us) e =
      more (sound t u (ground arith)) (sound_all ts us (ground arith))
  sound_all _ _ e = cc

-- `type_equiv` accepts two types exactly when the rules make them compatible.
pub type_equiv_iff : (t u : Ty) → (type_equiv t u ≡ true) ↔ Compatible t u
type_equiv_iff t u = (sound t u, complete)

mutual
  Compatible-refl : (t : Ty) → Compatible t t
  Compatible-refl void = voids
  Compatible-refl int = ints
  Compatible-refl double = doubles
  Compatible-refl str = strs
  Compatible-refl boolean = booleans
  Compatible-refl (func a t n ts) = funcs refl (Compatible-refl t) (AllCompatible-refl ts)
  Compatible-refl (array a t n) = arrays (Compatible-refl t) refl

  AllCompatible-refl : (ts : Tys) → AllCompatible ts ts
  AllCompatible-refl none_left = done
  AllCompatible-refl (arg t ts) = more (Compatible-refl t) (AllCompatible-refl ts)

mutual
  Compatible-sym : {t u : Ty} → Compatible t u → Compatible u t
  Compatible-sym voids = voids
  Compatible-sym ints = ints
  Compatible-sym doubles = doubles
  Compatible-sym strs = strs
  Compatible-sym booleans = booleans
  Compatible-sym void_int = int_void
  Compatible-sym void_double = double_void
  Compatible-sym void_boolean = boolean_void
  Compatible-sym int_void = void_int
  Compatible-sym double_void = void_double
  Compatible-sym boolean_void = void_boolean
  Compatible-sym (arrays c e) = arrays (Compatible-sym c) (sym e)
  Compatible-sym (funcs e c cs) = funcs (sym e) (Compatible-sym c) (AllCompatible-sym cs)

  AllCompatible-sym : {ts us : Tys} → AllCompatible ts us → AllCompatible us ts
  AllCompatible-sym done = done
  AllCompatible-sym (more c cs) = more (Compatible-sym c) (AllCompatible-sym cs)

-- Equivalence is reflexive and symmetric, for all types.
pub type_equiv_refl_sym :
    (t u : Ty) → (type_equiv t t ≡ true) × (type_equiv t u ≡ true → type_equiv u t ≡ true)
type_equiv_refl_sym t u =
    (complete (Compatible-refl t), λ e. complete (Compatible-sym (sound t u e)))

pub int_boolean : type_equiv int boolean ≡ false
unfolding type_equiv
int_boolean = refl

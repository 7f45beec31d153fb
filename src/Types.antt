-- ===== src/Types.antt =====
-- src/types.h and src/types.c: the types of the language and their equivalence.
pub mod Compatible
pub mod Laws
mod Tests
use javalette.Prelude.{ℕ, Bool, true, false, List, [], ◌∷◌, ◌==◌, ◌&&◌, if◌then◌else◌}

-- `type_cons_t`
pub data TypeCons : Type 0 where
  type_void type_int type_double type_str type_boolean type_func type_array : TypeCons

-- `type_t`, `func_type_t`, `array_type_t` and `type_list_t`. The basic types are single objects; a
-- function or array type that `cons_type` allocates begins with its address.
mutual
  pub data Ty : Type 0 where
    void int double str boolean : Ty
    func : ℕ → Ty → ℕ → Tys → Ty
    array : ℕ → Ty → ℕ → Ty

  pub data Tys : Type 0 where
    none_left : Tys
    arg : Ty → Tys → Tys

-- `type->cons`
abbrev pub cons_of : Ty → TypeCons
cons_of void = type_void
cons_of int = type_int
cons_of double = type_double
cons_of str = type_str
cons_of boolean = type_boolean
cons_of (func _ _ _ _) = type_func
cons_of (array _ _ _) = type_array

-- `type1 == type2` on pointers.
abbrev pub same_type : Ty → Ty → Bool
same_type void void = true
same_type int int = true
same_type double double = true
same_type str str = true
same_type boolean boolean = true
same_type (func a _ _ _) (func b _ _ _) = a == b
same_type (array a _ _) (array b _ _) = a == b
same_type _ _ = false

-- `cons != TYPE_STR && cons != TYPE_FUNC && cons != TYPE_ARRAY`
abbrev pub meets_void : Ty → Bool
meets_void str = false
meets_void (func _ _ _ _) = false
meets_void (array _ _ _) = false
meets_void _ = true

-- `type_equiv` and, for functions and arrays, `do_type_equiv`.
unfoldable mutual
  pub type_equiv : Ty → Ty → Bool
  type_equiv void t = meets_void t
  type_equiv int t = elim t [ int ↦ true | void ↦ true | _ ↦ false ]
  type_equiv double t = elim t [ double ↦ true | void ↦ true | _ ↦ false ]
  type_equiv str t = elim t [ str ↦ true | _ ↦ false ]
  type_equiv boolean t = elim t [ boolean ↦ true | void ↦ true | _ ↦ false ]
  type_equiv (func a r n as1) t = elim t [
    | func b r' m as2 ↦
        let rest = args_equiv as1 as2 in
        let returns = type_equiv r r' in if n == m then (if returns then rest else false) else false
    | _ ↦ false
  ]
  type_equiv (array a e n) t = elim t [ array b e' m ↦ type_equiv e e' && n == m | _ ↦ false ]

  -- The loop over the arguments.
  pub args_equiv : Tys → Tys → Bool
  args_equiv none_left ts = elim ts [ none_left ↦ true | arg _ _ ↦ false ]
  args_equiv (arg t as1) ts = elim ts [
    | none_left ↦ false
    | arg u as2 ↦ let rest = args_equiv as1 as2 in if type_equiv t u then rest else false
  ]

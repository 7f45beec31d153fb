-- ===== src/Types/Compatible.antt =====
-- When two types are equivalent, by rules.
use javalette.Prelude.{ℕ, ◌≡◌}
use javalette.Types.{Ty, Tys, void, int, double, str, boolean, func, array, none_left, arg}

mutual
  -- A type goes with itself; `void` goes with the types of single values but strings; functions and
  -- arrays go with such of equivalent parts, wherever they are stored.
  pub data Compatible : Ty → Ty → Type 0 where
    voids : Compatible void void
    ints : Compatible int int
    doubles : Compatible double double
    strs : Compatible str str
    booleans : Compatible boolean boolean
    void_int : Compatible void int
    void_double : Compatible void double
    void_boolean : Compatible void boolean
    int_void : Compatible int void
    double_void : Compatible double void
    boolean_void : Compatible boolean void
    arrays :
        {a b n m : ℕ} {t u : Ty} → Compatible t u → n ≡ m → Compatible (array a t n) (array b u m)
    funcs :
        {a b n m : ℕ} {t u : Ty} {ts us : Tys}
        → n ≡ m
        → Compatible t u
        → AllCompatible ts us
        → Compatible (func a t n ts) (func b u m us)

  pub data AllCompatible : Tys → Tys → Type 0 where
    done : AllCompatible none_left none_left
    more :
        {t u : Ty} {ts us : Tys}
        → Compatible t u
        → AllCompatible ts us
        → AllCompatible (arg t ts) (arg u us)

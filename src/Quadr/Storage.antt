-- ===== src/Quadr/Storage.antt =====
-- src/quadr.c: the arrays that hold the variables of a function.
use javalette.Prelude.{
  ℕ, suc, ◌+◌, ◌<◌, ◌≤◌, List, [], ◌∷◌, ◌≡◌, refl, arith, Returns, leb, leb→le, Bool-cases, inl,
  inr,
}
use javalette.Types.{Ty, int, double, boolean, array, void, str, func}
use javalette.Quadr.{VarType, vt_int, vt_double, vt_array}
use javalette.Quadr.Blocks.{
  Func, VarsNode, declare_function, declare_var, next_node, filled, add_var,
}
use javalette.Quadr.Emitted.{IsDeclarable}

-- The variables in the arrays before the last one, which are full.
abbrev pub stored : List VarsNode → ℕ
stored [] = 0
stored (n ∷ ns) = n.used + stored ns

abbrev pub AllFull : List VarsNode → Type 0
AllFull [] = Unit
AllFull (n ∷ ns) = (n.used ≡ n.vars_size) × AllFull ns

-- The variables are in the arrays, each within its own.
pub record IsStored (f : Func) : Type 0 where
  pub room : 0 < f.tail.vars_size
  pub within : f.tail.used ≤ f.tail.vars_size
  pub full_before : AllFull f.full
  pub all : f.var_count ≡ f.tail.used + stored f.full

abbrev pub Grown : Func → ℕ × Func → Type 0
Grown f (x, f') =
    (x ≡ f.var_count) × IsStored f' × (0 < f'.tail.used) × (f'.tail.used ≤ f'.tail.vars_size)

next_node-fits :
    (n : VarsNode) (ns : List VarsNode) (count : ℕ)
    → 0 < n.vars_size
    → n.used ≤ n.vars_size
    → AllFull ns
    → count ≡ n.used + stored ns
    → (0 < (next_node n).vars_size)
      × ((next_node n).used ≤ (next_node n).vars_size)
      × AllFull (filled n ns)
      × (suc count ≡ (next_node n).used + stored (filled n ns))
      × (0 < (next_node n).used)
next_node-fits n ns count r w a e = elim (Bool-cases (leb n.vars_size n.used)) [
  | inl q ↦
      let size = leb→le n.vars_size n.used q in
      rw q (
        omega (arith, r),
        omega (arith, r),
        (omega (arith, w, size), a),
        omega (arith, e),
        omega arith,
      )
  | inr q ↦
      let size : n.used < n.vars_size = ground arith in
      rw q (r, omega (arith, size), a, omega (arith, e), omega arith)
]

add_var-Grown : (type : Ty) (q : VarType) (f : Func) → IsStored f → Grown f (add_var type q f)
add_var-Grown type q f s =
    let h = next_node-fits f.tail f.full f.var_count s.room s.within s.full_before s.all in
    (refl, record { room = h.0; within = h.1; full_before = h.2; all = h.3 }, h.4, h.1)

-- A new function has its variables stored.
pub declare_function-IsStored : IsStored declare_function
declare_function-IsStored = record {
  room = omega arith;
  within = omega arith;
  full_before = tt;
  all = refl;
}

-- For a function whose variables are stored and a type that a variable can have: `declare_var` fails
-- no assertion, the variables are still stored, and the new one has the next number and lies in the
-- last array.
pub declare_var-Grown :
    (type : Ty) (f : Func) → IsStored f → IsDeclarable type → Returns (Grown f) (declare_var type f)
unfolding declare_var
declare_var-Grown int f s h = add_var-Grown int vt_int f s
declare_var-Grown double f s h = add_var-Grown double vt_double f s
declare_var-Grown boolean f s h = add_var-Grown boolean vt_int f s
declare_var-Grown (array a e n) f s h = add_var-Grown (array a e n) vt_array f s
declare_var-Grown void f s h = elim h [ ]
declare_var-Grown str f s h = elim h [ ]
declare_var-Grown (func a t n ts) f s h = elim h [ ]

-- ===== src/Quadr/Elements.antt =====
-- src/quadr.c: code that reads an element of an array.
use javalette.Prelude.{
  ℕ, suc, ◌<◌, ◌≤◌, Bool, true, List, [], ◌∷◌, ◌++◌, Option, some, ◌≡◌, refl, sym, ◌∙◌, ap, ◌>>=◌,
  Returns, Returns-bind, arith, ==_refl,
}
use javalette.Types.{Ty, int, double, boolean, array, void, str, func}
use javalette.Quadr.{Quadr, QuadrArg, qa_none, qa_var, q_get_addr, q_read_ptr, vt_ptr, VarType}
use javalette.Quadr.Blocks.{Func, Var, set_qtype}
use javalette.Quadr.Emit.{gen_get_addr, gen_array_ref, is_array_var, basic_type, Code}
use javalette.Quadr.Machine.{Arith, Store, set_val, set_points}
use javalette.Quadr.Runs.{
  Keeps-set_val, Keeps-set_points, Runs, Runs-trans, Runs-weaken, above_number,
}
use javalette.Quadr.Plain.{IsArrayTy}
use javalette.Quadr.Yields.{Yields, Makes}
use javalette.Quadr.Emitted.{
  At, Declared, Appended, Appended-trans, Declared-At, Declared-then, emit-Appended,
  declare_var-Declared, IsDeclarable, qtype_of,
}

array-IsDeclarable : (t : Ty) → IsArrayTy t → IsDeclarable t
array-IsDeclarable (array a e n) h = tt
array-IsDeclarable int h = tt
array-IsDeclarable double h = tt
array-IsDeclarable boolean h = tt
array-IsDeclarable void h = elim h [ ]
array-IsDeclarable str h = elim h [ ]
array-IsDeclarable (func a t n ts) h = elim h [ ]

scalar-IsDeclarable : (a n : ℕ) (t : Ty) → IsArrayTy (array a t n) → IsDeclarable t
scalar-IsDeclarable a n int h = tt
scalar-IsDeclarable a n double h = tt
scalar-IsDeclarable a n boolean h = tt
scalar-IsDeclarable a n (array b e m) h = elim h [ ]
scalar-IsDeclarable a n void h = elim h [ ]
scalar-IsDeclarable a n str h = elim h [ ]
scalar-IsDeclarable a n (func b t m ts) h = elim h [ ]

basic_type-IsDeclarable : (t : Ty) → IsArrayTy t → Returns IsDeclarable (basic_type t)
basic_type-IsDeclarable (array a e n) h = scalar-IsDeclarable a n e h
basic_type-IsDeclarable int h = elim h [ ]
basic_type-IsDeclarable double h = elim h [ ]
basic_type-IsDeclarable boolean h = elim h [ ]
basic_type-IsDeclarable void h = elim h [ ]
basic_type-IsDeclarable str h = elim h [ ]
basic_type-IsDeclarable (func a t n ts) h = elim h [ ]

abbrev pub address : ℕ → ℕ → Quadr
address ptr base = record {
  op = q_get_addr;
  result = qa_var ptr;
  arg1 = qa_var base;
  arg2 = qa_none;
}

set_qtype-Declared :
    (f : Func) (v : Var) (x : ℕ) (f1 : Func) (t : VarType)
    → Declared f v x f1
    → Returns (λ f2. Declared f (record v { qtype = t }) x f2) (set_qtype x t f1)
set_qtype-Declared f v x f1 t d = rw d.made (record {
  number = d.number;
  more = d.more;
  made = rw (==_refl x) refl;
  blocks_same = d.blocks_same;
  ids = d.ids;
  block_same = d.block_same;
  keeps = λ y p. rw (above_number f.var_count x y (omega (arith, d.number)) p) (d.keeps y p);
})

module _ (c : ℕ) (next : Option ℕ) (referenced : Bool) where
  -- A new pointer to the array.
  pub record Addressed (xs : List Quadr) (f : Func) (base ptr : ℕ) (f' : Func) : Type 0 where
    pub number : ptr ≡ f.var_count
    pub more : f'.var_count ≡ suc f.var_count
    pub appended : Appended c next referenced xs f f' (address ptr base ∷ [])

  pub gen_get_addr-Addressed :
      (xs : List Quadr) (f : Func) (base : ℕ) (v : Var)
      → At f c xs next referenced
      → f.var_at base ≡ some v
      → IsArrayTy v.ty
      → is_array_var v.qtype ≡ true
      → Returns (λ (r : ℕ × Func). Addressed xs f base r.0 r.1) (gen_get_addr base f)
  unfolding gen_get_addr
  gen_get_addr-Addressed xs f base v h e t q =
      rw (e, q)
        (Returns-bind
          (λ (r : ℕ × Func). Declared f (record { ty = v.ty; qtype = qtype_of v.ty }) r.0 r.1) _ _ _
          (declare_var-Declared v.ty f (array-IsDeclarable v.ty t))
          (λ (x, f1) d.
            Returns-bind (λ f2. Declared f (record { ty = v.ty; qtype = vt_ptr }) x f2) _ _ _
              (set_qtype-Declared f _ x f1 vt_ptr d)
              (λ f2 d2.
                Returns-bind
                  (λ f3.
                    Appended c next referenced xs f2 f3 (address x base ∷ [])
                    × (f3.var_count ≡ f2.var_count))
                  _ _ _
                  (emit-Appended c next referenced xs (address x base) f2
                    (Declared-At c next referenced xs f _ x f2 h d2) refl)
                  (λ f3 (w, n). record {
                    number = d.number;
                    more = n ∙ d2.more;
                    appended =
                        Declared-then c next referenced xs (address x base ∷ []) f _ x f2 f3 d2 w;
                  }))))

abbrev pub reading : ℕ → ℕ → ℕ → Quadr
reading tmp ptr off = record {
  op = q_read_ptr;
  result = qa_var tmp;
  arg1 = qa_var ptr;
  arg2 = qa_var off;
}

module _ {V : Type 0} ⦃ar : Arith V⦄ (c : ℕ) (next : Option ℕ) (referenced : Bool) where
  address-Runs :
      (k ptr base : ℕ)
      → k ≤ ptr
      → Runs {V = V} k (address ptr base ∷ []) (λ s s'. s' ≡ set_points ptr base s)
  address-Runs k ptr base m = λ s. (Keeps-set_points k ptr base s m, refl)

  reading-Runs :
      (k tmp ptr off : ℕ)
      → k ≤ tmp
      → Runs {V = V} k
          (reading tmp ptr off ∷ [])
          (λ s s'. s' ≡ set_val tmp (s.elem (s.points ptr) (ar.index (s.val off))) s)
  reading-Runs k tmp ptr off m = λ s. (Keeps-set_val k tmp _ s m, refl)

  -- The index, the address of the array, and the element.
  element-Runs :
      (k tmp ptr off base : ℕ) (ys : List Quadr) (value : Store V → Option V)
      → k ≤ tmp
      → k ≤ ptr
      → Runs k ys (λ s s'. value s ≡ some (s'.val off))
      → Runs k
          ((ys ++ address ptr base ∷ []) ++ reading tmp ptr off ∷ [])
          (λ s s'. (do i ← value s; some (s.elem base (ar.index i))) ≡ some (s'.val tmp))
  element-Runs k tmp ptr off base ys value m n e =
      Runs-trans k k (ys ++ address ptr base ∷ []) (reading tmp ptr off ∷ [])
        (λ s s'.
          (do i ← value s; some (s.elem base (ar.index i)))
          ≡ some (s'.elem (s'.points ptr) (ar.index (s'.val off))))
        (λ s s'. s' ≡ set_val tmp (s.elem (s.points ptr) (ar.index (s.val off))) s) _ (omega arith)
        (Runs-trans k k ys (address ptr base ∷ []) (λ s s'. value s ≡ some (s'.val off))
          (λ s s'. s' ≡ set_points ptr base s) _ (omega arith) e (address-Runs k ptr base n)
          (λ s s1 s2 h q h1 r. rw (q, r, ==_refl ptr) (ap some (sym (h.elems base _)))))
        (reading-Runs k tmp ptr off m) (λ s s1 s2 h q h1 r. q ∙ rw (r, ==_refl tmp) refl)

  -- `gen_array_ref`, for an index that has code.
  pub gen_array_ref-Yields :
      (xs : List Quadr) (f : Func) (base : ℕ) (v : Var) (index : Code) (value : Store V → Option V)
      → At f c xs next referenced
      → base < f.var_count
      → f.var_at base ≡ some v
      → IsArrayTy v.ty
      → is_array_var v.qtype ≡ true
      → Makes c next referenced f index.expr value
      → Returns
          (λ (r : QuadrArg × Func).
            Yields c next referenced xs f
              (λ s. do i ← value s; some (s.elem base (ar.index i)))
              r.0
              r.1)
          (gen_array_ref base index f)
  unfolding gen_array_ref
  gen_array_ref-Yields xs f base v index value h p e t q m = rw e (
      Returns-bind IsDeclarable _ _ _ (basic_type-IsDeclarable v.ty t) (λ element de.
        Returns-bind
          (λ (r : ℕ × Func). Declared f (record { ty = element; qtype = qtype_of element }) r.0 r.1)
          _ _ _ (declare_var-Declared element f de)
          (λ (tmp, f1) d.
            Returns-bind (λ (r : QuadrArg × Func). Yields c next referenced xs f1 value r.0 r.1) _ _
              _
              (m xs f1 (Declared-At c next referenced xs f _ tmp f1 h d) (omega (arith, d.more))
                d.keeps)
              (λ (off, f2) y.
                let w1 = Declared-then c next referenced xs y.code f _ tmp f1 f2 d y.appended in
                Returns-bind
                  (λ (r : ℕ × Func). Addressed c next referenced (xs ++ y.code) f2 base r.0 r.1) _ _
                  _
                  (gen_get_addr-Addressed c next referenced (xs ++ y.code) f2 base v w1.at
                    (w1.keeps base p ∙ e) t q)
                  (λ (ptr, f3) z.
                    let w2 =
                      Appended-trans c next referenced xs y.code (address ptr base ∷ []) f f2 f3 w1
                        z.appended in
                    rw y.is (
                      Returns-bind
                        (λ f4.
                          Appended c next referenced (xs ++ (y.code ++ address ptr base ∷ [])) f3 f4
                            (reading tmp ptr y.var ∷ [])
                          × (f4.var_count ≡ f3.var_count))
                        _ _ _
                        (emit-Appended c next referenced _ (reading tmp ptr y.var) f3 w2.at refl)
                        (λ f4 (w, n). record {
                          code = (y.code ++ address ptr base ∷ []) ++ reading tmp ptr y.var ∷ [];
                          var = tmp;
                          is = refl;
                          old = omega (arith, d.number, d.more, y.appended.count, z.more, n);
                          appended = Appended-trans c next referenced xs _ _ f f3 f4 w2 w;
                          runs =
                              element-Runs f.var_count tmp ptr y.var base y.code value
                                (omega (arith, d.number))
                                (omega (arith, z.number, d.more, y.appended.count))
                                (Runs-weaken f.var_count f1.var_count y.code _
                                  (omega (arith, d.more)) y.runs);
                        })))))))

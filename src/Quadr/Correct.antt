-- ===== src/Quadr/Correct.antt =====
-- src/quadr.c: the code of expressions and assignments computes their values.
use javalette.Prelude.{
  ℕ, Bool, true, false, List, [], Option, none, some, ◌≡◌, refl, ◌∙◌, Returns, Returns-imp,
}
use javalette.Types.{Ty, int, double, boolean, array, void, str, func}
use javalette.Tree.Exprs.{
  BinaryOp, op_add, op_sub, op_mul, op_div, op_mod, op_eq, op_neq, op_gt, op_lt, op_geq, op_leq,
  op_or, op_and, op_neg, op_not, op_plus,
}
use javalette.Quadr.{Quadr, QuadrArg, QuadrOp, qa_var, qa_int, qa_double, q_sub, is_block_end}
use javalette.Quadr.Blocks.{Func, Var}
use javalette.Quadr.Emit.{is_array_var}
use javalette.Quadr.Gen.{gen, with_bool_path, arith_op, neg_zero}
use javalette.Quadr.Typed.{
  Typed, binary, unary, int_node, bool_node, double_node, str_node, ident_node, array_node,
  call_node,
}
use javalette.Quadr.Machine.{Arith, Store, exec_op, eval, zero_of, set_val}
use javalette.Quadr.Runs.{Keeps, Keeps-refl}
use javalette.Quadr.Plain.{
  Plain, Plain-later, eval-Keeps, IsNumber, IsArith, IsArrayVar, IsArrayTy, IsDouble,
}
use javalette.Quadr.Emitted.{At, Appended-none, IsDeclarable}
use javalette.Quadr.Yields.{Yields, Makes, copy_new-Yields, operation-Yields}
use javalette.Quadr.Elements.{gen_array_ref-Yields}

number-IsDeclarable : (t : Ty) → IsNumber t → IsDeclarable t
number-IsDeclarable int h = tt
number-IsDeclarable double h = tt
number-IsDeclarable boolean h = elim h [ ]
number-IsDeclarable void h = elim h [ ]
number-IsDeclarable str h = elim h [ ]
number-IsDeclarable (array a e n) h = elim h [ ]
number-IsDeclarable (func a t n ts) h = elim h [ ]

double-IsNumber : (t : Ty) → IsDouble t → IsNumber t
double-IsNumber double h = tt
double-IsNumber int h = elim h [ ]
double-IsNumber boolean h = elim h [ ]
double-IsNumber void h = elim h [ ]
double-IsNumber str h = elim h [ ]
double-IsNumber (array a e n) h = elim h [ ]
double-IsNumber (func a t n ts) h = elim h [ ]

-- A number is not generated by jumps.
number_path :
    (t : Ty) (e : Func → Option (QuadrArg × Func)) (j : ℕ → Bool → Func → Option Func) (f : Func)
    → IsNumber t
    → (with_bool_path t e j).expr f ≡ e f
number_path int e j f h = refl
number_path double e j f h = refl
number_path boolean e j f h = elim h [ ]
number_path void e j f h = elim h [ ]
number_path str e j f h = elim h [ ]
number_path (array a t n) e j f h = elim h [ ]
number_path (func a t n ts) e j f h = elim h [ ]

array_var :
    (o : Option Var)
    → IsArrayVar o
    → (v : Var) × (o ≡ some v) × IsArrayTy v.ty × (is_array_var v.qtype ≡ true)
array_var none h = elim h [ ]
array_var (some v) h = (v, refl, h.0, h.1)

module _ (V : Type 0) ⦃ar : Arith V⦄ where
  -- How an arithmetic operator is generated and run.
  record IsOperator (op : BinaryOp) (qop : QuadrOp) : Type 0 where
    is : arith_op op ≡ some qop
    inside : is_block_end qop ≡ false
    run :
        (x a b : ℕ) (s : Store V)
        → exec_op qop (record { op = qop; result = qa_var x; arg1 = qa_var a; arg2 = qa_var b }) s
          ≡ some (set_val x (ar.apply qop (s.val a) (s.val b)) s)

  operator : (op : BinaryOp) → IsArith op → (qop : QuadrOp) × IsOperator op qop
  operator op_add h = (_, record { is = refl; inside = refl; run = λ x a b s. refl })
  operator op_sub h = (_, record { is = refl; inside = refl; run = λ x a b s. refl })
  operator op_mul h = (_, record { is = refl; inside = refl; run = λ x a b s. refl })
  operator op_div h = (_, record { is = refl; inside = refl; run = λ x a b s. refl })
  operator op_mod h = (_, record { is = refl; inside = refl; run = λ x a b s. refl })
  operator op_eq h = elim h [ ]
  operator op_neq h = elim h [ ]
  operator op_gt h = elim h [ ]
  operator op_lt h = elim h [ ]
  operator op_geq h = elim h [ ]
  operator op_leq h = elim h [ ]
  operator op_or h = elim h [ ]
  operator op_and h = elim h [ ]

module _ (V : Type 0) ⦃ar : Arith V⦄ (c : ℕ) (next : Option ℕ) (referenced : Bool) where
  -- The code of the expression, from any state.
  abbrev pub Compiles : Typed → Type 0
  Compiles e =
      (xs : List Quadr) (f : Func)
      → At f c xs next referenced
      → Plain f.var_count f.var_at e
      → Returns (λ (r : QuadrArg × Func). Yields {V = V} c next referenced xs f (eval e) r.0 r.1)
          ((gen e).expr f)

  Compiles-Makes :
      (e : Typed) (f : Func)
      → Compiles e
      → Plain f.var_count f.var_at e
      → Makes {V = V} c next referenced f (gen e).expr (eval e)
  Compiles-Makes e f h p =
      λ xs f' at m k. h xs f' at (Plain-later f.var_count f'.var_count f.var_at f'.var_at e m k p)

  neg_zero-Makes :
      (t : Ty) (f : Func)
      → IsDouble t
      → Makes {V = V} c next referenced f (neg_zero t) (λ s. some (zero_of t))
  neg_zero-Makes int f h = elim h [ ]
  neg_zero-Makes double f h = λ xs f' at m k.
      copy_new-Yields c next referenced xs f' double (qa_double 0) (ar.of_double 0) at tt
        (λ s. refl)
  neg_zero-Makes boolean f h = elim h [ ]
  neg_zero-Makes void f h = elim h [ ]
  neg_zero-Makes str f h = elim h [ ]
  neg_zero-Makes (array a e n) f h = elim h [ ]
  neg_zero-Makes (func a t n ts) f h = elim h [ ]

  Yields-as :
      (xs : List Quadr) (f : Func) (value value' : Store V → Option V)
      → ((s : Store V) → value' s ≡ value s)
      → (m : Option (QuadrArg × Func))
      → Returns (λ (r : QuadrArg × Func). Yields {V = V} c next referenced xs f value r.0 r.1) m
      → Returns (λ (r : QuadrArg × Func). Yields {V = V} c next referenced xs f value' r.0 r.1) m
  Yields-as xs f value value' h m y =
      Returns-imp (λ (r : QuadrArg × Func). Yields {V = V} c next referenced xs f value r.0 r.1) _ m
        (λ r u. record {
          code = u.code;
          var = u.var;
          is = u.is;
          old = u.old;
          appended = u.appended;
          runs = λ s.
              Returns-imp (λ s'. Keeps f.var_count s s' × (value s ≡ some (s'.val u.var))) _ _
                (λ s' (k, q). (k, h s ∙ q)) (u.runs s);
        })
        y

  pub gen-Compiles : (e : Typed) → Compiles e
  unfolding gen
  gen-Compiles (binary op type l r) xs f at p =
      let (qop, o) = operator V op p.0 in
      rw (number_path type _ _ f p.1, o.is)
        (Yields-as xs f _ (eval (binary op type l r)) (λ s. rw o.is refl) _
          (operation-Yields c next referenced xs f type qop (gen l).expr (gen r).expr (eval l)
            (eval r) at (number-IsDeclarable type p.1) (Compiles-Makes l f (gen-Compiles l) p.2)
            (Compiles-Makes r f (gen-Compiles r) p.3)
            (λ s s' k. eval-Keeps f.var_count f.var_at r s s' p.3 k) o.inside o.run))
  gen-Compiles (unary op_neg type e) xs f at p =
      rw (number_path type _ _ f (double-IsNumber type p.0)) (
        operation-Yields c next referenced xs f type q_sub (neg_zero type) (gen e).expr
          (λ s. some (zero_of type)) (eval e) at
          (number-IsDeclarable type (double-IsNumber type p.0)) (neg_zero-Makes type f p.0)
          (Compiles-Makes e f (gen-Compiles e) p.1)
          (λ s s' k. eval-Keeps f.var_count f.var_at e s s' p.1 k) refl (λ x a b s. refl))
  gen-Compiles (unary op_plus type e) xs f at p =
      rw (number_path type _ _ f p.0) (gen-Compiles e xs f at p.1)
  gen-Compiles (int_node int n) xs f at p =
      copy_new-Yields c next referenced xs f int (qa_int n) (ar.of_int n) at tt (λ s. refl)
  gen-Compiles (double_node double d) xs f at p =
      copy_new-Yields c next referenced xs f double (qa_double d) (ar.of_double d) at tt (λ s. refl)
  gen-Compiles (ident_node type x) xs f at p = record {
    code = [];
    var = x;
    is = refl;
    old = p;
    appended = Appended-none c next referenced xs f at;
    runs = λ s. (Keeps-refl f.var_count s, refl);
  }
  gen-Compiles (array_node type x index) xs f at p =
      let (v, e, t, q) = array_var (f.var_at x) p.1 in
      gen_array_ref-Yields c next referenced xs f x v (gen index) (eval index) at p.0 e t q
        (Compiles-Makes index f (gen-Compiles index) p.2)
  gen-Compiles (int_node void n) xs f at p = elim p [ ]
  gen-Compiles (int_node double n) xs f at p = elim p [ ]
  gen-Compiles (int_node str n) xs f at p = elim p [ ]
  gen-Compiles (int_node boolean n) xs f at p = elim p [ ]
  gen-Compiles (int_node (func a t m ts) n) xs f at p = elim p [ ]
  gen-Compiles (int_node (array a t m) n) xs f at p = elim p [ ]
  gen-Compiles (double_node void d) xs f at p = elim p [ ]
  gen-Compiles (double_node int d) xs f at p = elim p [ ]
  gen-Compiles (double_node str d) xs f at p = elim p [ ]
  gen-Compiles (double_node boolean d) xs f at p = elim p [ ]
  gen-Compiles (double_node (func a t m ts) d) xs f at p = elim p [ ]
  gen-Compiles (double_node (array a t m) d) xs f at p = elim p [ ]
  gen-Compiles (unary op_not type e) xs f at p = elim p [ ]
  gen-Compiles (bool_node type n) xs f at p = elim p [ ]
  gen-Compiles (str_node type n) xs f at p = elim p [ ]
  gen-Compiles (call_node type n es) xs f at p = elim p [ ]

-- ===== src/Quadr/Steps.antt =====
-- src/quadr.c: `++` and `--`.
use javalette.Prelude.{
  ℕ, ◌<◌, Bool, true, false, List, [], ◌∷◌, ◌++◌, Option, some, ◌≡◌, refl, ◌>>=◌, Returns,
  Returns-bind, Returns-imp, ==_refl,
}
use javalette.Types.{Ty, int, double, boolean, array, void, str, func}
use javalette.Tree.Exprs.{pos, BinaryOp, op_add, op_sub}
use javalette.Quadr.{
  Quadr, QuadrArg, QuadrOp, qa_var, qa_int, qa_double, q_add, q_sub, is_block_end,
}
use javalette.Quadr.Blocks.{Func}
use javalette.Quadr.Gen.{arith_op}
use javalette.Quadr.Typed.{Typed, binary, int_node, double_node, ident_node}
use javalette.Quadr.Instrs.{to_ident, inc, dec, gen_quadr, step_ident, is_number, one}
use javalette.Quadr.Machine.{Arith, Store, exec, exec_op, eval, set_val}
use javalette.Quadr.Runs.{Keeps, Runs, exec-append}
use javalette.Quadr.Plain.{IsNumber}
use javalette.Quadr.Emitted.{At, Appended, Appended-trans, emit-Appended}
use javalette.Quadr.Yields.{Yields, copy_new-Yields}
use javalette.Quadr.Assignments.{Assigns, Others}

-- The constant 1 of the type.
abbrev pub one_node : Ty → Typed
one_node double = double_node double 4607182418800017408
one_node type = int_node type (pos 1)

number_test : (type : Ty) → IsNumber type → is_number type ≡ true
number_test int h = refl
number_test double h = refl
number_test boolean h = elim h [ ]
number_test void h = elim h [ ]
number_test str h = elim h [ ]
number_test (array a e n) h = elim h [ ]
number_test (func a t n ts) h = elim h [ ]

module _ (V : Type 0) ⦃ar : Arith V⦄ (c : ℕ) (next : Option ℕ) (referenced : Bool) where
  one-Yields :
      (type : Ty) (xs : List Quadr) (f : Func)
      → At f c xs next referenced
      → IsNumber type
      → Returns
          (λ (r : QuadrArg × Func).
            Yields {V = V} c next referenced xs f (eval (one_node type)) r.0 r.1)
          (one type f)
  one-Yields int xs f at h =
      copy_new-Yields c next referenced xs f int (qa_int (pos 1)) (ar.of_int (pos 1)) at tt
        (λ s. refl)
  one-Yields double xs f at h =
      copy_new-Yields c next referenced xs f double (qa_double 4607182418800017408)
        (ar.of_double 4607182418800017408) at tt (λ s. refl)
  one-Yields boolean xs f at h = elim h [ ]
  one-Yields void xs f at h = elim h [ ]
  one-Yields str xs f at h = elim h [ ]
  one-Yields (array a e n) xs f at h = elim h [ ]
  one-Yields (func a t n ts) xs f at h = elim h [ ]

  step_runs :
      (k x y : ℕ) (code : List Quadr) (qop : QuadrOp) (value : Store V → Option V)
      → x < k
      → ((x a b : ℕ) (s : Store V)
          → exec_op qop (record { op = qop; result = qa_var x; arg1 = qa_var a; arg2 = qa_var b }) s
            ≡ some (set_val x (ar.apply qop (s.val a) (s.val b)) s))
      → Runs k code (λ s s'. value s ≡ some (s'.val y))
      → (s : Store V)
      → Returns
          (λ s'.
            ((value s >>= λ w. some (ar.apply qop (s.val x) w)) ≡ some (s'.val x))
            × Others k x s s')
          (exec
            (code ++ record { op = qop; result = qa_var x; arg1 = qa_var x; arg2 = qa_var y } ∷ [])
            s)
  step_runs k x y code qop value p run e s = rw (exec-append code _ s) (
      Returns-bind (λ s1. Keeps k s s1 × (value s ≡ some (s1.val y))) _ _ _ (e s)
        (λ s1 (h, q). rw (run x x y s1) (
          rw (q, ==_refl x, h.vals x p) refl,
          record { vals = λ z m d. rw d (h.vals z m); pointers = h.pointers; elems = h.elems },
        )))

  step-Assigns :
      (op : BinaryOp) (qop : QuadrOp) (xs : List Quadr) (f : Func) (type : Ty) (x : ℕ)
      → At f c xs next referenced
      → x < f.var_count
      → IsNumber type
      → arith_op op ≡ some qop
      → is_block_end qop ≡ false
      → ((x a b : ℕ) (s : Store V)
          → exec_op qop (record { op = qop; result = qa_var x; arg1 = qa_var a; arg2 = qa_var b }) s
            ≡ some (set_val x (ar.apply qop (s.val a) (s.val b)) s))
      → Returns
          (Assigns V c next referenced xs f x (binary op type (ident_node type x) (one_node type)))
          (step_ident qop type x f)
  step-Assigns op qop xs f type x at p n e i run = rw (number_test type n) (
      Returns-bind
        (λ (r : QuadrArg × Func).
          Yields {V = V} c next referenced xs f (eval (one_node type)) r.0 r.1)
        _ _ _ (one-Yields type xs f at n)
        (λ (arg, f1) y.
          let q : Quadr = record {
            op = qop;
            result = qa_var x;
            arg1 = qa_var x;
            arg2 = qa_var y.var;
          } in
          rw y.is (
            Returns-imp
              (λ f2.
                Appended c next referenced (xs ++ y.code) f1 f2 (q ∷ [])
                × (f2.var_count ≡ f1.var_count))
              _ _
              (λ f2 (w, m). record {
                code = y.code ++ q ∷ [];
                appended = Appended-trans c next referenced xs y.code (q ∷ []) f f1 f2 y.appended w;
                runs = λ s. rw e (
                    step_runs f.var_count x y.var y.code qop (eval (one_node type)) p run y.runs s);
              })
              (emit-Appended c next referenced (xs ++ y.code) q f1 y.appended.at i))))

  -- For a function whose current block can be added to and a variable of type `int` or `double`:
  -- `gen_quadr` of `x++` and of `x--` appends code to the block that does what an assignment of x + 1,
  -- or of x - 1, to the variable does.
  pub gen_quadr-ident :
      (xs : List Quadr) (f : Func) (type : Ty) (x : ℕ)
      → At f c xs next referenced
      → x < f.var_count
      → IsNumber type
      → Returns
          (Assigns V c next referenced xs f x
            (binary op_add type (ident_node type x) (one_node type)))
          (gen_quadr (inc (to_ident type x)) f)
        × Returns
            (Assigns V c next referenced xs f x
              (binary op_sub type (ident_node type x) (one_node type)))
            (gen_quadr (dec (to_ident type x)) f)
  unfolding gen_quadr
  gen_quadr-ident xs f type x at p n = (
    step-Assigns op_add q_add xs f type x at p n refl refl (λ x a b s. refl),
    step-Assigns op_sub q_sub xs f type x at p n refl refl (λ x a b s. refl),
  )

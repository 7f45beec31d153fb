-- ===== src/Quadr/Assignments.antt =====
-- src/quadr.c: the code of an assignment.
use javalette.Prelude.{
  ℕ, ◌<◌, Bool, false, List, [], ◌∷◌, ◌++◌, Option, some, ◌≡◌, refl, ◌∙◌, Returns, Returns-bind,
  Returns-imp, ==_refl, ◌==◌,
}
use javalette.Quadr.{Quadr, QuadrArg, qa_none, qa_var, q_copy}
use javalette.Quadr.Blocks.{Func}
use javalette.Quadr.Instrs.{gen_assign}
use javalette.Quadr.Typed.{Typed}
use javalette.Quadr.Machine.{Arith, Store, exec, eval}
use javalette.Quadr.Runs.{Keeps, Runs, exec-append}
use javalette.Quadr.Plain.{Plain}
use javalette.Quadr.Emitted.{At, Appended, Appended-trans, emit-Appended}
use javalette.Quadr.Yields.{Yields}
use javalette.Quadr.Correct.{gen-Compiles}

module _ {V : Type 0} ⦃ar : Arith V⦄ where
  -- The variables below `k` other than `x`, and the arrays, are as they were.
  pub record Others (k x : ℕ) (s s' : Store V) : Type 0 where
    pub vals : (y : ℕ) → y < k → (x == y) ≡ false → s'.val y ≡ s.val y
    pub pointers : (y : ℕ) → y < k → s'.points y ≡ s.points y
    pub elems : (a i : ℕ) → s'.elem a i ≡ s.elem a i

  copy_runs :
      (k x y : ℕ) (code : List Quadr) (value : Store V → Option V)
      → Runs k code (λ s s'. value s ≡ some (s'.val y))
      → (s : Store V)
      → Returns
          (λ s'. (value s ≡ some (s'.val x)) × Others k x s s')
          (exec
            (code
              ++ record { op = q_copy; result = qa_var x; arg1 = qa_var y; arg2 = qa_none } ∷ [])
            s)
  copy_runs k x y code value e s = rw (exec-append code _ s) (
      Returns-bind (λ s1. Keeps k s s1 × (value s ≡ some (s1.val y))) _ _ _ (e s)
        (λ s1 (h, q). (
          q ∙ rw (==_refl x) refl,
          record { vals = λ z p d. rw d (h.vals z p); pointers = h.pointers; elems = h.elems },
        )))

module _ (V : Type 0) ⦃ar : Arith V⦄ (c : ℕ) (next : Option ℕ) (referenced : Bool) where
  -- What an assignment's code does: it is appended to the current block, it runs from any store, puts
  -- the value of `e` into `x`, and leaves the other variables of the function and the arrays alone.
  pub record Assigns (xs : List Quadr) (f : Func) (x : ℕ) (e : Typed) (f' : Func) : Type 0 where
    pub code : List Quadr
    pub appended : Appended c next referenced xs f f' code
    pub runs :
        (s : Store V)
        → Returns (λ s'. (eval e s ≡ some (s'.val x)) × Others f.var_count x s s') (exec code s)

  -- For a function whose current block can be added to, a variable, and an expression of declared
  -- variables, elements of declared arrays, numbers and arithmetic operators, where only `double`s are
  -- negated: `gen_assign` fails no
  -- assertion, and appends code to the block that computes the value of the expression, over any
  -- arithmetic, into the variable; all other variables of the function, its arrays and its other
  -- blocks stay as they are.
  pub gen_assign-Assigns :
      (xs : List Quadr) (f : Func) (x : ℕ) (e : Typed)
      → At f c xs next referenced
      → Plain f.var_count f.var_at e
      → Returns (Assigns xs f x e) (gen_assign x e f)
  unfolding gen_assign
  gen_assign-Assigns xs f x e at p =
      Returns-bind (λ (r : QuadrArg × Func). Yields {V = V} c next referenced xs f (eval e) r.0 r.1)
        _ _ _ (gen-Compiles V c next referenced e xs f at p)
        (λ (arg, f1) y.
          let q : Quadr = record {
            op = q_copy;
            result = qa_var x;
            arg1 = qa_var y.var;
            arg2 = qa_none;
          } in
          rw y.is (
            Returns-imp
              (λ f2.
                Appended c next referenced (xs ++ y.code) f1 f2 (q ∷ [])
                × (f2.var_count ≡ f1.var_count))
              _ _
              (λ f2 (w, n). record {
                code = y.code ++ q ∷ [];
                appended = Appended-trans c next referenced xs y.code (q ∷ []) f f1 f2 y.appended w;
                runs = copy_runs f.var_count x y.var y.code (eval e) y.runs;
              })
              (emit-Appended c next referenced (xs ++ y.code) q f1 y.appended.at refl)))

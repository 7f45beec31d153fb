-- ===== src/Quadr/Yields.antt =====
-- src/quadr.c: code for a value, in a variable.
use javalette.Prelude.{
  ℕ, ◌<◌, ◌≤◌, Bool, false, List, [], ◌∷◌, ◌++◌, Option, some, ◌≡◌, refl, sym, ◌∙◌, ap, ◌>>=◌,
  Returns, Returns-bind, arith, ==_refl,
}
use javalette.Types.{Ty}
use javalette.Quadr.{Quadr, QuadrArg, QuadrOp, qa_none, qa_var, q_copy, is_block_end}
use javalette.Quadr.Blocks.{Func, declare_var}
use javalette.Quadr.Emit.{copy_new, gen_binop}
use javalette.Quadr.Machine.{Arith, Store, exec_op, set_val, value_of}
use javalette.Quadr.Runs.{Keeps, Keeps-set_val, Runs, Runs-trans, Runs-weaken}
use javalette.Quadr.Emitted.{
  At, Declared, Appended, Appended-trans, Declared-At, Declared-then, emit-Appended,
  declare_var-Declared, IsDeclarable, qtype_of,
}

module _ {V : Type 0} ⦃ar : Arith V⦄ where
  -- One quadruple that sets a variable above `k`.
  single_runs :
      (k x : ℕ) (q : Quadr) (Q : Store V → Store V → Type 0) (value : Store V → V)
      → k ≤ x
      → ((s : Store V) → exec_op q.op q s ≡ some (set_val x (value s) s))
      → ((s : Store V) → Q s (set_val x (value s) s))
      → Runs k (q ∷ []) Q
  single_runs k x q Q value m e h = λ s. rw (e s) (Keeps-set_val k x (value s) s m, h s)

  -- The values of two operands whose code stands one after the other.
  abbrev pub Both : (Store V → Option V) → (Store V → Option V) → ℕ → ℕ → Store V → Store V → Type 0
  Both left right a b s s' = (left s ≡ some (s'.val a)) × (right s ≡ some (s'.val b))

  pub operands-Runs :
      (k j i a b : ℕ) (ys zs : List Quadr) (left right : Store V → Option V)
      → k ≤ j
      → j ≤ i
      → a < i
      → ((s s' : Store V) → Keeps k s s' → right s' ≡ right s)
      → Runs j ys (λ s s'. left s ≡ some (s'.val a))
      → Runs i zs (λ s s'. right s ≡ some (s'.val b))
      → Runs k (ys ++ zs) (Both left right a b)
  operands-Runs k j i a b ys zs left right m n p keep e1 e2 =
      Runs-trans k i ys zs _ _ _ (omega (arith, m, n)) (Runs-weaken k j ys _ m e1) e2
        (λ s s1 s2 h q h1 q1. (q ∙ ap some (sym (h1.vals a p)), sym (keep s s1 h) ∙ q1))

  -- The operator after its operands.
  operation-Runs :
      (k x a b : ℕ) (code : List Quadr) (qop : QuadrOp) (left right : Store V → Option V)
      → k ≤ x
      → ((x a b : ℕ) (s : Store V)
          → exec_op qop (record { op = qop; result = qa_var x; arg1 = qa_var a; arg2 = qa_var b }) s
            ≡ some (set_val x (ar.apply qop (s.val a) (s.val b)) s))
      → Runs k code (Both left right a b)
      → Runs k
          (code ++ record { op = qop; result = qa_var x; arg1 = qa_var a; arg2 = qa_var b } ∷ [])
          (λ s s'. (do v ← left s; w ← right s; some (ar.apply qop v w)) ≡ some (s'.val x))
  operation-Runs k x a b code qop left right m run e =
      Runs-trans k k code _ (Both left right a b)
        (λ s s'. s'.val x ≡ ar.apply qop (s.val a) (s.val b)) _ (omega arith) e
        (single_runs k x _ _ (λ s. ar.apply qop (s.val a) (s.val b)) m (run x a b)
          (λ s. rw (==_refl x) refl))
        (λ s s1 s2 h (p, q) h1 r. rw (p, q) (ap some (sym r)))

module _ {V : Type 0} ⦃ar : Arith V⦄ (c : ℕ) (next : Option ℕ) (referenced : Bool) where
  -- The argument is a variable, and the code that has been appended puts the value there.
  pub record Yields (xs : List Quadr) (f : Func) (value : Store V → Option V) (arg : QuadrArg)
      (f' : Func) : Type 0 where
    pub code : List Quadr
    pub var : ℕ
    pub is : arg ≡ qa_var var
    pub old : var < f'.var_count
    pub appended : Appended c next referenced xs f f' code
    pub runs : Runs f.var_count code (λ s s'. value s ≡ some (s'.val var))

  pub copy_new-Yields :
      (xs : List Quadr) (f : Func) (type : Ty) (arg : QuadrArg) (value : V)
      → At f c xs next referenced
      → IsDeclarable type
      → ((s : Store V) → value_of s arg ≡ some value)
      → Returns (λ r. Yields xs f (λ s. some value) r.0 r.1) (copy_new type arg f)
  copy_new-Yields xs f type arg value h t e =
      Returns-bind (λ r. Declared f (record { ty = type; qtype = qtype_of type }) r.0 r.1) _ _ _
        (declare_var-Declared type f t)
        (λ (x, f1) d.
          let q : Quadr = record { op = q_copy; result = qa_var x; arg1 = arg; arg2 = qa_none } in
          Returns-bind
            (λ f2. Appended c next referenced xs f1 f2 (q ∷ []) × (f2.var_count ≡ f1.var_count)) _ _
            _
            (emit-Appended c next referenced xs q f1 (Declared-At c next referenced xs f _ x f1 h d)
              refl)
            (λ f2 (w, n). record {
              code = q ∷ [];
              var = x;
              is = refl;
              old = omega (arith, d.number, d.more, n);
              appended = Declared-then c next referenced xs (q ∷ []) f _ x f1 f2 d w;
              runs =
                  single_runs f.var_count x q _ (λ s. value) (omega (arith, d.number))
                    (λ s. rw (e s) refl) (λ s. rw (==_refl x) refl);
            }))

  -- The functions that make the operands, from any state that comes after `f`.
  abbrev pub Makes : (f : Func) → (Func → Option (QuadrArg × Func)) → (Store V → Option V) → Type 0
  Makes f make value =
      (xs : List Quadr) (f' : Func)
      → At f' c xs next referenced
      → f.var_count ≤ f'.var_count
      → ((x : ℕ) → x < f.var_count → f'.var_at x ≡ f.var_at x)
      → Returns (λ r. Yields xs f' value r.0 r.1) (make f')

  -- `gen_binop` on two operands, into a variable that is declared before them.
  pub operation-Yields :
      (xs : List Quadr) (f : Func) (type : Ty) (qop : QuadrOp)
      (make1 make2 : Func → Option (QuadrArg × Func)) (left right : Store V → Option V)
      → At f c xs next referenced
      → IsDeclarable type
      → Makes f make1 left
      → Makes f make2 right
      → ((s s' : Store V) → Keeps f.var_count s s' → right s' ≡ right s)
      → is_block_end qop ≡ false
      → ((x a b : ℕ) (s : Store V)
          → exec_op qop (record { op = qop; result = qa_var x; arg1 = qa_var a; arg2 = qa_var b }) s
            ≡ some (set_val x (ar.apply qop (s.val a) (s.val b)) s))
      → Returns
          (λ (r : QuadrArg × Func).
            Yields xs f (λ s. do v ← left s; w ← right s; some (ar.apply qop v w)) r.0 r.1)
          (do
            (result, f1) ← declare_var type f
            (arg1, f2) ← make1 f1
            (arg2, f3) ← make2 f2
            f4 ← gen_binop qop result arg1 arg2 f3
            some (qa_var result, f4))
  operation-Yields xs f type qop make1 make2 left right h t m1 m2 keep e run =
      Returns-bind (λ r. Declared f (record { ty = type; qtype = qtype_of type }) r.0 r.1) _ _ _
        (declare_var-Declared type f t)
        (λ (x, f1) d.
          Returns-bind (λ r. Yields xs f1 left r.0 r.1) _ _ _
            (m1 xs f1 (Declared-At c next referenced xs f _ x f1 h d) (omega (arith, d.more))
              d.keeps)
            (λ (arg1, f2) y1.
              let w1 = Declared-then c next referenced xs y1.code f _ x f1 f2 d y1.appended in
              Returns-bind (λ r. Yields (xs ++ y1.code) f2 right r.0 r.1) _ _ _
                (m2 (xs ++ y1.code) f2 w1.at w1.count w1.keeps)
                (λ (arg2, f3) y2.
                  let q : Quadr = record {
                    op = qop;
                    result = qa_var x;
                    arg1 = qa_var y1.var;
                    arg2 = qa_var y2.var;
                  } in
                  let w2 =
                    Appended-trans c next referenced xs y1.code y2.code f f2 f3 w1 y2.appended in
                  rw (y1.is, y2.is)
                    (Returns-bind
                      (λ f4.
                        Appended c next referenced (xs ++ (y1.code ++ y2.code)) f3 f4 (q ∷ [])
                        × (f4.var_count ≡ f3.var_count))
                      _ _ _
                      (emit-Appended c next referenced (xs ++ (y1.code ++ y2.code)) q f3 w2.at e)
                      (λ f4 (w, n). record {
                        code = (y1.code ++ y2.code) ++ q ∷ [];
                        var = x;
                        is = refl;
                        old =
                            omega
                              (arith, d.number, d.more, y1.appended.count, y2.appended.count, n);
                        appended =
                            Appended-trans c next referenced xs (y1.code ++ y2.code) (q ∷ []) f f3
                              f4 w2 w;
                        runs =
                            operation-Runs f.var_count x y1.var y2.var (y1.code ++ y2.code) qop left
                              right (omega (arith, d.number)) run
                              (operands-Runs f.var_count f1.var_count f2.var_count y1.var y2.var
                                y1.code y2.code left right (omega (arith, d.more)) y1.appended.count
                                y1.old keep y1.runs y2.runs);
                      })))))

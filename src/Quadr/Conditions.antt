-- ===== src/Quadr/Conditions.antt =====
-- src/quadr.c: the code of a comparison as a condition.
use javalette.Prelude.{
  ℕ, ◌<◌, Bool, true, false, not, List, [], ◌∷◌, ◌++◌, Option, some, ◌≡◌, refl, sym, ◌∙◌, subst,
  Returns, Returns-bind, Returns-imp, arith, ==_refl, ◌==◌, if◌then◌else◌, of_Returns,
  some-injective,
}
use javalette.Types.{boolean}
use javalette.Tree.Exprs.{
  BinaryOp, op_eq, op_neq, op_gt, op_lt, op_geq, op_leq, op_add, op_sub, op_mul, op_div, op_mod,
  op_or, op_and,
}
use javalette.Quadr.{Quadr, QuadrArg, QuadrOp, qa_var, qa_label, quadr_if_op, is_if_op}
use javalette.Quadr.Blocks.{Func, quadr_arg_label, put_block, emit, add_quadr}
use javalette.Quadr.Gen.{gen, compare_jump, cond_binary}
use javalette.Quadr.Emit.{Code}
use javalette.Quadr.Instrs.{gen_quadr_bool_expr}
use javalette.Quadr.Typed.{Typed, binary}
use javalette.Quadr.Machine.{Arith, eval}
use javalette.Quadr.Runs.{Runs}
use javalette.Quadr.Plain.{Plain, Plain-later, eval-Keeps}
use javalette.Quadr.Emitted.{At, Appended-trans}
use javalette.Quadr.Yields.{Yields, Both, operands-Runs}
use javalette.Quadr.Correct.{gen-Compiles}
use javalette.Quadr.Jumps.{Outcome, equal, holds, jumps, IsComparison, quadr_if_op-jumps}
use javalette.Quadr.Branches.{Opened, open_block-Opened}

-- A conditional jump on two variables.
abbrev pub jump_on : QuadrOp → ℕ → ℕ → ℕ → Quadr
jump_on qop label a b = record {
  op = qop;
  result = qa_label label;
  arg1 = qa_var a;
  arg2 = qa_var b;
}

comparison_code :
    (op : BinaryOp) (l r : Code) (label : ℕ) (wanted : Bool) (f : Func)
    → IsComparison op
    → cond_binary op l r label wanted f ≡ compare_jump op l r label wanted f
comparison_code op_eq l r d w f h = refl
comparison_code op_neq l r d w f h = refl
comparison_code op_gt l r d w f h = refl
comparison_code op_lt l r d w f h = refl
comparison_code op_geq l r d w f h = refl
comparison_code op_leq l r d w f h = refl
comparison_code op_add l r d w f h = elim h [ ]
comparison_code op_sub l r d w f h = elim h [ ]
comparison_code op_mul l r d w f h = elim h [ ]
comparison_code op_div l r d w f h = elim h [ ]
comparison_code op_mod l r d w f h = elim h [ ]
comparison_code op_or l r d w f h = elim h [ ]
comparison_code op_and l r d w f h = elim h [ ]

module _ (V : Type 0) ⦃ar : Arith V⦄ (c : ℕ) (referenced : Bool) where
  -- The code that tests a comparison at the end of the block `c`: it puts the operands' values into
  -- two variables and jumps to the label when the comparison is as wanted; otherwise control goes
  -- through an empty block to the new current block.
  pub record Tests (xs : List Quadr) (f : Func) (op : BinaryOp) (l r : Typed) (label : ℕ)
      (wanted : Bool) (f' : Func) : Type 0 where
    pub code : List Quadr
    pub qop : QuadrOp
    pub a : ℕ
    pub b : ℕ
    pub before : Func
    pub opened : Opened before c ((xs ++ code) ++ jump_on qop label a b ∷ []) referenced f'
    pub ids : before.next_block_id ≡ f.next_block_id
    pub others :
        (d : ℕ)
        → d < f.next_block_id
        → (c == d) ≡ false
        → (label == d) ≡ false
        → f'.blocks d ≡ f.blocks d
    pub runs : Runs {V = V} f.var_count code (Both (eval l) (eval r) a b)
    pub jump : (o : Outcome) → jumps qop o ≡ (if wanted then holds op o else not (holds op o))

  -- The label of a block that nothing refers to yet.
  quadr_arg_label-first :
      (f : Func) (d : ℕ) (next : Option ℕ)
      → f.blocks d ≡ some (record { lst = []; next = next; referenced = false })
      → quadr_arg_label d f
        ≡ some (qa_label d, put_block d (record { lst = []; next = next; referenced = true }) f)
  unfolding quadr_arg_label
  quadr_arg_label-first f d next e = rw e refl

  comparison :
      (op : BinaryOp) (wanted : Bool)
      → IsComparison op
      → (qop : QuadrOp) × (quadr_if_op op wanted ≡ some qop)
        × (is_if_op qop ≡ true)
        × ((o : Outcome) → jumps qop o ≡ (if wanted then holds op o else not (holds op o)))
  comparison op wanted h =
      let (q, e, p) = of_Returns _ _ (quadr_if_op-jumps op wanted equal h) in
      (
        q,
        e,
        p.0,
        λ o.
            let (q2, e2, p2) = of_Returns _ _ (quadr_if_op-jumps op wanted o h) in
            subst (λ z. jumps z o ≡ (if wanted then holds op o else not (holds op o)))
              (some-injective q2 q (sym e2 ∙ e)) p2.1,
      )

  emit_last :
      (f : Func) (xs : List Quadr) (next : Option ℕ) (q : Quadr)
      → At f c xs next referenced
      → emit q f
        ≡ some (put_block c (record { lst = xs ++ q ∷ []; next = next; referenced = referenced }) f)
  unfolding add_quadr
  emit_last f xs next q h = rw (h.current, h.here, h.unended) refl

  -- For a comparison of two expressions of declared variables, elements, numbers and arithmetic
  -- operators, where only `double`s are negated, a current block that can be added to, and a label whose block is another one, empty and
  -- not referenced yet: `gen_quadr_bool_expr` fails no assertion. The code at the end of the block
  -- puts the operands' values into two variables and jumps to the label exactly when the comparison
  -- of ordered values is as `jmp_if_true` says; control goes on otherwise to the new current block,
  -- and the blocks that were there, but for these two, are as they were.
  pub gen_quadr_bool_expr-Tests :
      (xs : List Quadr) (f : Func) (next lnext : Option ℕ) (op : BinaryOp) (l r : Typed) (label : ℕ)
      (wanted : Bool)
      → At f c xs next referenced
      → c < f.next_block_id
      → (label == c) ≡ false
      → f.blocks label ≡ some (record { lst = []; next = lnext; referenced = false })
      → IsComparison op
      → Plain f.var_count f.var_at l
      → Plain f.var_count f.var_at r
      → Returns
          (Tests xs f op l r label wanted)
          (gen_quadr_bool_expr (binary op boolean l r) label wanted f)
  unfolding gen
  gen_quadr_bool_expr-Tests xs f next lnext op l r label wanted at p away e h pl pr =
      let (qop, same, is_if, jump) = comparison op wanted h in
      let f1 = put_block label (record { lst = []; next = lnext; referenced = true }) f in
      let at1 : At f1 c xs next referenced = record {
        current = at.current;
        here = rw away at.here;
        unended = at.unended;
      } in
      rw
        (
          comparison_code op (gen l) (gen r) label wanted f h,
          quadr_arg_label-first f label lnext e,
          same,
        )
        (Returns-bind
          (λ (t : QuadrArg × Func). Yields {V = V} c next referenced xs f1 (eval l) t.0 t.1) _ _ _
          (gen-Compiles V c next referenced l xs f1 at1 pl)
          (λ (arg1, f2) y1.
            let w1 = y1.appended in
            Returns-bind
              (λ (t : QuadrArg × Func).
                Yields {V = V} c next referenced (xs ++ y1.code) f2 (eval r) t.0 t.1)
              _ _ _
              (gen-Compiles V c next referenced r (xs ++ y1.code) f2 w1.at
                (Plain-later f.var_count f2.var_count f.var_at f2.var_at r w1.count w1.keeps pr))
              (λ (arg2, f3) y2.
                let code = y1.code ++ y2.code in
                let w2 =
                  Appended-trans c next referenced xs y1.code y2.code f1 f2 f3 w1 y2.appended in
                let q = jump_on qop label y1.var y2.var in
                let f4 =
                  put_block c
                    (record { lst = (xs ++ code) ++ q ∷ []; next = next; referenced = referenced })
                    f3 in
                rw (y1.is, y2.is, emit_last f3 (xs ++ code) next q w2.at)
                  (Returns-imp (Opened f4 c ((xs ++ code) ++ q ∷ []) referenced) _ _
                    (λ f5 o. record {
                      code = code;
                      qop = qop;
                      a = y1.var;
                      b = y2.var;
                      before = f4;
                      opened = o;
                      ids = w2.ids;
                      others = λ d m n k.
                          o.others d (omega (arith, m, w2.ids)) n
                          ∙ rw n (w2.others d n ∙ rw k refl);
                      runs =
                          operands-Runs f.var_count f.var_count f2.var_count y1.var y2.var y1.code
                            y2.code (eval l) (eval r) (omega arith) w1.count y1.old
                            (λ s s' k. eval-Keeps f.var_count f.var_at r s s' pr k) y1.runs y2.runs;
                      jump = jump;
                    })
                    (open_block-Opened f4 c (xs ++ code) q next referenced w2.at.current
                      (rw (==_refl c) refl) (omega (arith, p, w2.ids)) is_if)))))

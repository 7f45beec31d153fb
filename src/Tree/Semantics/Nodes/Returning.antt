-- ===== src/Tree/Semantics/Nodes/Returning.antt =====
-- src/tree.c: the answer of `do_semantic_check` on returning, and the scopes after it.
use javalette.Prelude.{
  ℕ, ◌≡◌, Bool, true, false, ◌&&◌, Option, none, some, Ensures, Ensures-bind, Ensures-if,
  Ensures-imp, ◌>>=◌, of_Ensures, arith, if_elim,
}
use javalette.Types.{Ty}
use javalette.Tree.Exprs.{Expr, src_pos}
use javalette.Tree.Scopes.{push_scope, pop_scope}
use javalette.Tree.Scopes.Runs.{Runs, done, nested}
use javalette.Tree.Instrs.{
  Instr, Instrs, empty, expression, sequence, declaration, assign, inc, dec, if_node, if_else_node,
  while_node, for_node, return_node, no_instrs, block, instr,
}
use javalette.Tree.Semantics.{
  State, gen_expr, gen_quadr, should_generate_code, invalid_statement, ill_typed,
}
use javalette.Tree.Semantics.Nodes.{
  do_semantic_check, check_instrs, done_with, open_if, open_else, open_loop, close_loop, add_block,
  enter, leave,
}
use javalette.Tree.Semantics.Nodes.Reach.{Reach, generate-Reach, check_against-Reach, Ensures-self}
use javalette.Tree.Semantics.Nodes.Steps.{
  check_assign-Reach, check_step-Reach, check_declaration-Reach, check_return-Reach,
}
use javalette.Tree.Semantics.Nodes.Falling.{
  Falls, AllFall, Verdict, falling, Verdict-both, Verdict-else, Verdict-sequence, no_return,
  instr_parts, block_parts, empty_falls, expression_falls, declaration_falls, assign_falls,
  inc_falls, dec_falls, if_falls, while_falls, for_falls, instr_falls, block_falls, end_falls,
}

module _ (w : ℕ) where
  -- The scopes are reached and the answer is right.
  abbrev pub Post : State → Type 0 → Bool × State → Type 0
  Post s0 F r = Reach w s0 r.1 × Verdict r.0 F

  done_with-Post :
      (s0 : State) (F : Type 0) (b : Bool) (m : Option State)
      → Verdict b F
      → Ensures (Reach w s0) m
      → Ensures (Post s0 F) (done_with w b m)
  done_with-Post s0 F b m v h = Ensures-bind (Reach w s0) (Post s0 F) m _ h (λ s k. (k, v))

  open_if-Reach : (s0 : State) (e : Expr) (s : State) → Reach w s0 s → Reach w s0 (open_if w e s).1
  open_if-Reach s0 e s h =
      if_elim (λ (o : Option ℕ × State). Reach w s0 o.1) (should_generate_code s) _ _ h h

  open_loop-Reach : (s0 s : State) → Reach w s0 s → Reach w s0 (open_loop w s).2
  open_loop-Reach s0 s h =
      if_elim (λ (o : Option ℕ × Option ℕ × State). Reach w s0 o.2) (should_generate_code s) _ _ h h

  add_block-Reach :
      (s0 : State) (b : Option ℕ) (s : State)
      → Reach w s0 s
      → Ensures (Reach w s0) (add_block w b s)
  add_block-Reach s0 none s h = Ensures-if (Reach w s0) (should_generate_code s) _ _ tt h
  add_block-Reach s0 (some b) s h = Ensures-if (Reach w s0) (should_generate_code s) _ _ h h

  open_else-Reach :
      (s0 : State) (b : Option ℕ) (s : State)
      → Reach w s0 s
      → Ensures (λ o. Reach w s0 o.1) (open_else w b s)
  open_else-Reach s0 none s h = Ensures-if (λ o. Reach w s0 o.1) (should_generate_code s) _ _ tt h
  open_else-Reach s0 (some b) s h =
      Ensures-if (λ o. Reach w s0 o.1) (should_generate_code s) _ _ h h

  close_loop-Reach :
      (s0 : State) (e : Expr) (c b : Option ℕ) (s : State)
      → Reach w s0 s
      → Ensures (Reach w s0) (close_loop w e c b s)
  close_loop-Reach s0 e none b s h = Ensures-if (Reach w s0) (should_generate_code s) _ _ tt h
  close_loop-Reach s0 e (some c) none s h =
      Ensures-if (Reach w s0) (should_generate_code s) _ _ tt h
  close_loop-Reach s0 e (some c) (some b) s h =
      Ensures-if (Reach w s0) (should_generate_code s) _ _ h h

  pub enter-Entered : (s : State) → Ensures (λ s1. push_scope s.scopes ≡ some s1.scopes) (enter w s)
  enter-Entered s =
      Ensures-bind (λ t. push_scope s.scopes ≡ some t) (λ s1. push_scope s.scopes ≡ some s1.scopes)
        (push_scope s.scopes) _ (Ensures-self w (push_scope s.scopes)) (λ t e. e)

  pub leave-Popped : (s : State) → Ensures (λ s1. pop_scope s.scopes ≡ some s1.scopes) (leave w s)
  leave-Popped s =
      Ensures-bind (λ t. pop_scope s.scopes ≡ some t) (λ s1. pop_scope s.scopes ≡ some s1.scopes)
        (pop_scope s.scopes) _ (Ensures-self w (pop_scope s.scopes)) (λ t e. e)

  -- An expression that is checked and then something that goes on from there.
  then-Post :
      (s0 : State) (F : Type 0) (m : Option State) (k : State → Option (Bool × State))
      → Ensures (Reach w s0) m
      → ((s : State) → Reach w s0 s → Ensures (Post s0 F) (k s))
      → Ensures (Post s0 F) (m >>= k)
  then-Post s0 F m k h f = Ensures-bind (Reach w s0) (Post s0 F) m k h f

  -- A part whose answer is dropped.
  part :
      (s0 : State) (F G : Type 0) (m : Option (Bool × State))
      (k : Bool × State → Option (Bool × State))
      → Ensures (Post s0 F) m
      → ((r : Bool × State) → Post s0 F r → Ensures (Post s0 G) (k r))
      → Ensures (Post s0 G) (m >>= k)
  part s0 F G m k h f = Ensures-bind (Post s0 F) (Post s0 G) m k h f

  mutual
    unfolding do_semantic_check check_instrs

    pub do_semantic_check-Post :
        (ret : Ty) (i : Instr) (s0 s : State)
        → Reach w s0 s
        → Ensures (Post s0 (Falls i)) (do_semantic_check w ret i s)
    do_semantic_check-Post ret empty s0 s h = (h, falling _ empty_falls)
    do_semantic_check-Post ret (expression e) s0 s h =
        then-Post s0 _ _ _ (check_against-Reach w s0 e _ (src_pos e) invalid_statement s h)
          (λ s1 h1. (generate-Reach w s0 (gen_expr e) s1 h1, falling _ expression_falls))
    do_semantic_check-Post ret (sequence is) s0 s h =
        Ensures-imp (Post s0 (AllFall is)) (Post s0 (Falls (sequence is))) _
          (λ r p. (p.0, Verdict-sequence r.0 is p.1)) (check_instrs-Post ret is s0 s h)
    do_semantic_check-Post ret (declaration p t ds) s0 s h =
        done_with-Post s0 _ false _ (falling _ declaration_falls)
          (check_declaration-Reach w s0 s p t ds h)
    do_semantic_check-Post ret (assign p l e) s0 s h =
        done_with-Post s0 _ false _ (falling _ assign_falls) (check_assign-Reach w s0 s p l e h)
    do_semantic_check-Post ret (inc p l) s0 s h =
        done_with-Post s0 _ false _ (falling _ inc_falls) (check_step-Reach w s0 s (inc p l) p l h)
    do_semantic_check-Post ret (dec p l) s0 s h =
        done_with-Post s0 _ false _ (falling _ dec_falls) (check_step-Reach w s0 s (dec p l) p l h)
    do_semantic_check-Post ret (if_node p e i) s0 s h =
        then-Post s0 _ _ _ (check_against-Reach w s0 e _ (src_pos e) ill_typed s h) (λ s1 h1.
          part s0 (Falls i) _ _ _
            (do_semantic_check-Post ret i s0 (open_if w e s1).1 (open_if-Reach s0 e s1 h1))
            (λ r hr.
              done_with-Post s0 _ false _ (falling _ if_falls)
                (add_block-Reach s0 (open_if w e s1).0 r.1 hr.0)))
    do_semantic_check-Post ret (if_else_node p e i j) s0 s h =
        then-Post s0 _ _ _ (check_against-Reach w s0 e _ (src_pos e) ill_typed s h) (λ s1 h1.
          part s0 (Falls i) _ _ _
            (do_semantic_check-Post ret i s0 (open_if w e s1).1 (open_if-Reach s0 e s1 h1))
            (λ r hr.
              Ensures-bind (λ o. Reach w s0 o.1) (Post s0 _) _ _
                (open_else-Reach s0 (open_if w e s1).0 r.1 hr.0)
                (λ o ho. part s0 (Falls j) _ _ _ (do_semantic_check-Post ret j s0 o.1 ho) (λ q hq.
                  done_with-Post s0 _ (r.0 && q.0) _ (Verdict-else p e r.0 q.0 i j hr.1 hq.1)
                    (add_block-Reach s0 o.0 q.1 hq.0)))))
    do_semantic_check-Post ret (while_node p e i) s0 s h =
        then-Post s0 _ _ _ (check_against-Reach w s0 e _ (src_pos e) ill_typed s h) (λ s1 h1.
          part s0 (Falls i) _ _ _
            (do_semantic_check-Post ret i s0 (open_loop w s1).2 (open_loop-Reach s0 s1 h1))
            (λ r hr.
              done_with-Post s0 _ false _ (falling _ while_falls)
                (close_loop-Reach s0 e (open_loop w s1).0 (open_loop w s1).1 r.1 hr.0)))
    do_semantic_check-Post ret (for_node p i1 e i3 i) s0 s h =
        part s0 (Falls i1) _ _ _ (do_semantic_check-Post ret i1 s0 s h) (λ r1 h1.
          then-Post s0 _ _ _ (check_against-Reach w s0 e _ (src_pos e) ill_typed r1.1 h1.0)
            (λ s2 h2.
              part s0 (Falls i) _ _ _
                (do_semantic_check-Post ret i s0 (open_loop w s2).2 (open_loop-Reach s0 s2 h2))
                (λ r hr.
                  part s0 (Falls i3) _ _ _ (do_semantic_check-Post ret i3 s0 r.1 hr.0) (λ q hq.
                    done_with-Post s0 _ false _ (falling _ for_falls)
                      (close_loop-Reach s0 e (open_loop w s2).0 (open_loop w s2).1 q.1 hq.0)))))
    do_semantic_check-Post ret (return_node p e) s0 s h =
        then-Post s0 _ _ _ (check_return-Reach w s0 s ret p e h) (λ s1 h1. (
          generate-Reach w s0 (gen_quadr (return_node p e)) s1 h1,
          (λ q f. no_return f, λ q. absurd (ground arith)),
        ))

    check_instrs-Post :
        (ret : Ty) (is : Instrs) (s0 s : State)
        → Reach w s0 s
        → Ensures (Post s0 (AllFall is)) (check_instrs w ret is s)
    check_instrs-Post ret no_instrs s0 s h = (h, falling _ end_falls)
    check_instrs-Post ret (instr i is) s0 s h =
        part s0 (Falls i) _ _ _ (do_semantic_check-Post ret i s0 s h) (λ r hr.
          part s0 (AllFall is) _ _ _ (check_instrs-Post ret is s0 r.1 hr.0) (λ q hq. (
            hq.0,
            Verdict-both r.0 q.0 (Falls i) (AllFall is) _ instr_parts instr_falls hr.1 hq.1,
          )))
    check_instrs-Post ret (block i is) s0 s h =
        Ensures-bind (λ s1. push_scope s.scopes ≡ some s1.scopes) (Post s0 _) _ _ (enter-Entered s)
          (λ s1 e.
            Ensures-bind (Post s1 (Falls i)) (Post s0 _) _ _
              (do_semantic_check-Post ret i s1 s1 done)
              (λ r hr.
                Ensures-bind (λ s2. pop_scope r.1.scopes ≡ some s2.scopes) (Post s0 _) _ _
                  (leave-Popped r.1)
                  (λ s2 e'.
                    part s0 (AllFall is) _ _ _ (check_instrs-Post ret is s0 s2 (nested h e hr.0 e'))
                      (λ q hq. (
                        hq.0,
                        Verdict-both r.0 q.0 (Falls i) (AllFall is) _ block_parts block_falls hr.1
                            hq.1,
                      )))))

  -- When the check of an instruction completes, it answers that there was a return exactly when
  -- control cannot leave the instruction at its end, and it has changed the scopes only by
  -- declarations, initializations and blocks that were left again.
  pub do_semantic_check-Returning :
      (ret : Ty) (i : Instr) (s s' : State) (b : Bool)
      → do_semantic_check w ret i s ≡ some (b, s')
      → Runs w s.scopes s'.scopes × (b ≡ true → Falls i → ⊥) × (b ≡ false → Falls i)
  do_semantic_check-Returning ret i s s' b e =
      let p =
        of_Ensures (Post s (Falls i)) (do_semantic_check w ret i s) (b, s')
          (do_semantic_check-Post ret i s s done) e in
      (p.0, p.1.0, p.1.1)

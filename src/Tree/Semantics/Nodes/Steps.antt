-- ===== src/Tree/Semantics/Nodes/Steps.antt =====
-- src/tree.c: the scopes after the checks of the instructions without parts.
use javalette.Prelude.{
  ℕ, Bool, List, [], ◌∷◌, Option, none, some, Ensures, Ensures-bind, Ensures-if, anything,
}
use javalette.Types.{Ty, array, void, int, type_equiv, same_type}
use javalette.Tree.{Pos}
use javalette.Tree.Exprs.{Expr, src_pos, pos, negsuc}
use javalette.Tree.Instrs.{
  Optional, absent, present, Declarator, var_declarator, array_declarator, Instr, assign, Arg,
}
use javalette.Tree.Semantics.{
  State, generate, complain, check_lvalue, check_assign, check_step, compare_sides, need_int,
  new_var, gen_quadr, return_type, ill_typed, type_check, gen_assign, env, gen_copy_var,
  negative_size,
}
use javalette.Tree.Semantics.Nodes.{
  check_declarator, check_declarators, check_declaration, check_return, check_args,
}
use javalette.Tree.Semantics.Nodes.Reach.{
  Reach, generate-Reach, check_against-Reach, check_lvalue-Reach, declare_in-Reach,
  initialize_in-Reach, judge-Reach, Reach-if,
}

module _ (w : ℕ) where
  compare_sides-Reach :
      (s0 : State) (e : Expr) (b : Bool) (t o : Option Ty) (s : State)
      → Reach w s0 s
      → Ensures (Reach w s0) (compare_sides e b t (o, s))
  compare_sides-Reach s0 e b t none s h = h
  compare_sides-Reach s0 e b t (some l) s h =
      judge-Reach w s0 b t (λ u. type_equiv u l) (src_pos e) ill_typed s h

  pub check_assign-Reach :
      (s0 s : State) (p : Pos) (l e : Expr)
      → Reach w s0 s
      → Ensures (Reach w s0) (check_assign p l e s)
  check_assign-Reach s0 s p l e h =
      Ensures-bind (λ c. Unit {0}) (Reach w s0) (type_check (env s) e s.report) _ (anything _)
        (λ c k.
          Ensures-bind (λ r. Reach w s0 r.1) (Reach w s0)
            (check_lvalue l (record s { report = c.report })) _
            (check_lvalue-Reach w s0 l (record s { report = c.report }) h)
            (λ r hr.
              Ensures-bind (Reach w s0) (Reach w s0) (compare_sides e c.ok c.type r) _
                (compare_sides-Reach s0 e c.ok c.type r.0 r.1 hr)
                (λ s' hs. generate-Reach w s0 (gen_quadr (assign p l e)) s' hs)))

  need_int-Reach :
      (s0 : State) (p : Pos) (o : Option Ty) (s : State)
      → Reach w s0 s
      → Reach w s0 (need_int p (o, s))
  need_int-Reach s0 p none s h = h
  need_int-Reach s0 p (some t) s h = Reach-if w s0 (same_type t int) _ _ h h

  pub check_step-Reach :
      (s0 s : State) (node : Instr) (p : Pos) (l : Expr)
      → Reach w s0 s
      → Ensures (Reach w s0) (check_step node p l s)
  check_step-Reach s0 s node p l h =
      Ensures-bind (λ r. Reach w s0 r.1) (Reach w s0) (check_lvalue l s) _
        (check_lvalue-Reach w s0 l s h)
        (λ r hr.
          generate-Reach w s0 (gen_quadr node) (need_int p r) (need_int-Reach s0 p r.0 r.1 hr))

  check_declarator-Reach :
      (s0 s : State) (t : Ty) (d : Declarator)
      → Reach w s0 s
      → Ensures (Reach w s0) (check_declarator w t d s)
  check_declarator-Reach s0 s t (var_declarator p x absent) h =
      Ensures-bind (Reach w s0) (Reach w s0) _ _ (declare_in-Reach w s0 s x t p h) (λ s1 h1. h1)
  check_declarator-Reach s0 s t (var_declarator p x (present e)) h =
      Ensures-bind (Reach w s0) (Reach w s0) _ _
        (check_against-Reach w s0 e (λ u. type_equiv u t) (src_pos e) ill_typed s h)
        (λ s1 h1.
          Ensures-bind (Reach w s0) (Reach w s0) _ _
            (declare_in-Reach w s0 (generate (gen_assign s1.vars e) (new_var t s1)) x t p
              (generate-Reach w s0 (gen_assign s1.vars e) (new_var t s1) h1))
            (λ s2 h2.
              Ensures-bind (Reach w s0) (Reach w s0) _ _
                (initialize_in-Reach w s0 (new_var t s2) x h2)
                (λ s3 h3. generate-Reach w s0 (gen_copy_var s2.vars s1.vars) s3 h3)))
  check_declarator-Reach s0 s t (array_declarator p x a (pos n)) h =
      Ensures-bind (Reach w s0) (Reach w s0) _ _ (declare_in-Reach w s0 s x (array a t n) p h)
        (λ s1 h1.
          Ensures-bind (Reach w s0) (Reach w s0) _ _ (initialize_in-Reach w s0 s1 x h1)
            (λ s2 h2. h2))
  check_declarator-Reach s0 s t (array_declarator p x a (negsuc n)) h =
      Ensures-bind (Reach w s0) (Reach w s0) _ _
        (declare_in-Reach w s0 (complain p negative_size s) x (array a t 2147483647) p h)
        (λ s1 h1.
          Ensures-bind (Reach w s0) (Reach w s0) _ _ (initialize_in-Reach w s0 s1 x h1)
            (λ s2 h2. h2))

  check_declarators-Reach :
      (s0 s : State) (t : Ty) (ds : List Declarator)
      → Reach w s0 s
      → Ensures (Reach w s0) (check_declarators w t ds s)
  check_declarators-Reach s0 s t [] h = h
  check_declarators-Reach s0 s t (d ∷ ds) h =
      Ensures-bind (Reach w s0) (Reach w s0) _ _ (check_declarator-Reach s0 s t d h)
        (λ s1 h1. check_declarators-Reach s0 s1 t ds h1)

  pub check_declaration-Reach :
      (s0 s : State) (p : Pos) (t : Ty) (ds : List Declarator)
      → Reach w s0 s
      → Ensures (Reach w s0) (check_declaration w p t ds s)
  check_declaration-Reach s0 s p t ds h =
      Ensures-if (Reach w s0) (same_type t void) _ _ h (check_declarators-Reach s0 s t ds h)

  pub check_return-Reach :
      (s0 s : State) (ret : Ty) (p : Pos) (e : Optional)
      → Reach w s0 s
      → Ensures (Reach w s0) (check_return w ret p e s)
  check_return-Reach s0 s ret p absent h = Reach-if w s0 (same_type ret void) _ _ h h
  check_return-Reach s0 s ret p (present e) h =
      Ensures-if (Reach w s0) (same_type ret void) _ _ h
        (check_against-Reach w s0 e (type_equiv ret) p return_type s h)

  pub check_args-Reach :
      (s0 s : State) (args : List Arg) → Reach w s0 s → Ensures (Reach w s0) (check_args w args s)
  check_args-Reach s0 s [] h = h
  check_args-Reach s0 s (a ∷ rest) h =
      Ensures-bind (Reach w s0) (Reach w s0) _ _ (declare_in-Reach w s0 s a.ident a.type a.pos h)
        (λ s1 h1.
          Ensures-bind (Reach w s0) (Reach w s0) _ _ (initialize_in-Reach w s0 s1 a.ident h1)
            (λ s2 h2. check_args-Reach s0 (new_var a.type s2) rest h2))

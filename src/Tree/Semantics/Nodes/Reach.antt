-- ===== src/Tree/Semantics/Nodes/Reach.antt =====
-- src/tree.c: the scopes after the steps that the checks of instructions share.
use javalette.Tree.Semantics.Nodes.{initialize_in, declare_in}
use javalette.Prelude.{
  ℕ, ◌≡◌, refl, Bool, true, false, List, [], ◌∷◌, Option, none, some, Ensures, Ensures-bind,
  Ensures-imp, if◌then◌else◌, anything,
}
use javalette.Types.{Ty, array, func, void, int, double, str, boolean}
use javalette.Tree.{Pos}
use javalette.Tree.Exprs.{
  Expr, ident_node, array_node, binary, unary, int_node, bool_node, double_node, str_node,
  call_node,
}
use javalette.Tree.Scopes.{Decl, declare, initialize}
use javalette.Tree.Scopes.Runs.{Runs, declaring, initializing}
use javalette.Tree.Semantics.{
  State, Complaint, Call, judge, generate, check_against, check_lvalue, lvalue_array,
  should_generate_code, lvalue_ident, type_check, lvalue_element, env, func,
}

module _ (w : ℕ) where
  -- The scopes of the second state are reached from those of the first.
  abbrev pub Reach : State → State → Type 0
  Reach s s' = Runs w s.scopes s'.scopes

  -- An equation for each result of a step.
  pub Ensures-self {ℓ} : {A : Type ℓ} (m : Option A) → Ensures (λ a. m ≡ some a) m
  Ensures-self none = tt
  Ensures-self (some a) = refl

  pub Reach-if :
      (s0 : State) (b : Bool) (s s' : State)
      → Reach s0 s
      → Reach s0 s'
      → Reach s0 (if b then s else s')
  Reach-if s0 true s s' h k = h
  Reach-if s0 false s s' h k = k

  pub generate-Reach : (s0 : State) (c : Call) (s : State) → Reach s0 s → Reach s0 (generate c s)
  generate-Reach s0 c s h = Reach-if s0 (should_generate_code s) _ _ h h

  pub judge-Reach :
      (s0 : State) (b : Bool) (t : Option Ty) (fits : Ty → Bool) (p : Pos) (m : Complaint)
      (s : State)
      → Reach s0 s
      → Ensures (Reach s0) (judge b t fits p m s)
  judge-Reach s0 false t fits p m s h = h
  judge-Reach s0 true none fits p m s h = tt
  judge-Reach s0 true (some u) fits p m s h = Reach-if s0 (fits u) _ _ h h

  pub check_against-Reach :
      (s0 : State) (e : Expr) (fits : Ty → Bool) (p : Pos) (m : Complaint) (s : State)
      → Reach s0 s
      → Ensures (Reach s0) (check_against e fits p m s)
  check_against-Reach s0 e fits p m s h =
      Ensures-bind (λ c. Unit {0}) (Reach s0) (type_check (env s) e s.report) _ (anything _)
        (λ c k. judge-Reach s0 c.ok c.type fits p m (record s { report = c.report }) h)

  -- Marking a symbol's declaration.
  pub initialize-Reach :
      (s0 s : State) (x : ℕ)
      → Reach s0 s
      → Ensures (λ t. Runs w s0.scopes t) (initialize x s.scopes)
  initialize-Reach s0 s x h =
      Ensures-imp (λ t. initialize x s.scopes ≡ some t) (λ t. Runs w s0.scopes t)
        (initialize x s.scopes) (λ t e. initializing x h e) (Ensures-self (initialize x s.scopes))

  pub initialize_in-Reach :
      (s0 s : State) (x : ℕ) → Reach s0 s → Ensures (Reach s0) (initialize_in w x s)
  initialize_in-Reach s0 s x h =
      Ensures-bind (λ t. Runs w s0.scopes t) (Reach s0) (initialize x s.scopes) _
        (initialize-Reach s0 s x h) (λ t r. r)

  pub declare_in-Reach :
      (s0 s : State) (x : ℕ) (t : Ty) (p : Pos)
      → Reach s0 s
      → Ensures (Reach s0) (declare_in w x t p s)
  declare_in-Reach s0 s x t p h =
      Ensures-bind (λ s'. declare w x t p s.scopes ≡ some s') (Reach s0) (declare w x t p s.scopes)
        _ (Ensures-self (declare w x t p s.scopes)) (λ s' e. declaring x t p h e)

  lvalue_array-Reach :
      (s0 : State) (i : Expr) (s : State) (t : Ty)
      → Reach s0 s
      → Ensures (λ r. Reach s0 r.1) (lvalue_array i s t)
  lvalue_array-Reach s0 i s (array a e n) h =
      Ensures-bind (λ c. Unit {0}) (λ r. Reach s0 r.1) (type_check (env s) i s.report) _
        (anything _) (λ c k. h)
  lvalue_array-Reach s0 i s void h = tt
  lvalue_array-Reach s0 i s int h = tt
  lvalue_array-Reach s0 i s double h = tt
  lvalue_array-Reach s0 i s str h = tt
  lvalue_array-Reach s0 i s boolean h = tt
  lvalue_array-Reach s0 i s (func a r n ts) h = tt

  lvalue_ident-Reach :
      (s0 : State) (p : Pos) (x : ℕ) (s : State) (l : List Decl)
      → Reach s0 s
      → Ensures (λ r. Reach s0 r.1) (lvalue_ident p x s l)
  lvalue_ident-Reach s0 p x s [] h = h
  lvalue_ident-Reach s0 p x s (d ∷ prev) h =
      Ensures-bind (λ t. Runs w s0.scopes t) (λ r. Reach s0 r.1) (initialize x s.scopes) _
        (initialize-Reach s0 s x h) (λ t r. r)

  lvalue_element-Reach :
      (s0 : State) (p : Pos) (i : Expr) (s : State) (l : List Decl)
      → Reach s0 s
      → Ensures (λ r. Reach s0 r.1) (lvalue_element p i s l)
  lvalue_element-Reach s0 p i s [] h = h
  lvalue_element-Reach s0 p i s (d ∷ prev) h = lvalue_array-Reach s0 i s d.type h

  pub check_lvalue-Reach :
      (s0 : State) (e : Expr) (s : State)
      → Reach s0 s
      → Ensures (λ r. Reach s0 r.1) (check_lvalue e s)
  unfolding check_lvalue
  check_lvalue-Reach s0 (ident_node p x) s h = lvalue_ident-Reach s0 p x s (s.scopes.chains x) h
  check_lvalue-Reach s0 (array_node p x i) s h = lvalue_element-Reach s0 p i s (s.scopes.chains x) h
  check_lvalue-Reach s0 (binary op p a b) s h = h
  check_lvalue-Reach s0 (unary op p a) s h = h
  check_lvalue-Reach s0 (int_node p n) s h = h
  check_lvalue-Reach s0 (bool_node p n) s h = h
  check_lvalue-Reach s0 (double_node p n) s h = h
  check_lvalue-Reach s0 (str_node p n) s h = h
  check_lvalue-Reach s0 (call_node p f es) s h = h

-- ===== src/Tree/Semantics.antt =====
-- src/tree.c: the semantic check of instructions and functions, with the calls that generate code.
pub mod Nodes
use javalette.Prelude.{
  ℕ, suc, zero, ◌+◌, Bool, true, false, not, ◌&&◌, ◌||◌, List, [], ◌∷◌, ◌++◌, Option, none, some,
  length, ◌==◌, if◌then◌else◌, ◌>>=◌, ◌>>◌, assert,
}
use javalette.Types.{Ty, Tys, void, int, boolean, func, array, none_left, same_type, type_equiv}
use javalette.Tree.{Pos}
use javalette.Tree.Scopes.{Decl, Scopes, push_scope, pop_scope, declare, initialize}
use javalette.Tree.Exprs.{Expr, ident_node, array_node, src_pos, ℤ, pos, negsuc}
use javalette.Tree.Check.{Report, Checked, type_check, Env, array_of, index_result}
use javalette.Tree.Instrs.{
  Optional, absent, present, Declarator, var_declarator, array_declarator, Instr, Instrs, empty,
  expression, sequence, declaration, assign, inc, dec, if_node, if_else_node, while_node, for_node,
  return_node, no_instrs, block, instr, Func, Arg,
}

-- The messages of the semantic check.
pub data Complaint : Type 0 where
  undefined invalid_lvalue bad_index invalid_statement void_declaration ill_typed negative_size
        return_type missing_return main_type no_main :
      Complaint

-- The calls into src/quadr.c, in the order in which they are made. A basic block is the number of
-- blocks allocated before it, a variable the number of variables.
pub data Call : Type 0 where
  gen_quadr : Instr → Call
  gen_expr : Expr → Call
  declare_var0 : Ty → Call
  gen_assign : ℕ → Expr → Call
  gen_copy_var : ℕ → ℕ → Call
  gen_quadr_bool_expr : Expr → ℕ → Bool → Call
  add_basic_blocks : ℕ → Call
  gen_goto : ℕ → Call
  gen_quadr_return : Call
  start_function : ℕ → Call
  end_function : Call

-- The state of the semantic check: the declarations, the reports of the type check, its own
-- messages, the calls (the latest first), how many blocks and variables there are, and
-- `suppress_code_generation`.
pub record State : Type 0 where
  pub scopes : Scopes
  pub report : Report
  pub complaints : List (Pos × Complaint)
  pub calls : List Call
  pub blocks : ℕ
  pub vars : ℕ
  pub suppress_code_generation : Bool

-- `ident->decl` for every identifier.
abbrev pub first : List Decl → Option Decl
first [] = none
first (d ∷ prev) = some d

abbrev pub env : State → Env
env s x = first (s.scopes.chains x)

abbrev pub complain : Pos → Complaint → State → State
complain p m s = record s { complaints = (p, m) ∷ s.complaints }

abbrev pub errors_num : State → ℕ
errors_num s = length s.report.errors + length s.scopes.duplicates + length s.complaints

abbrev pub should_generate_code : State → Bool
should_generate_code s = errors_num s == 0 && not s.suppress_code_generation

abbrev pub call : Call → State → State
call c s = record s { calls = c ∷ s.calls }

-- A call under `if (should_generate_code())`.
abbrev pub generate : Call → State → State
generate c s = if should_generate_code s then call c s else s

abbrev pub new_basic_block : State → State
new_basic_block s = record s { blocks = suc s.blocks }

-- `declare_var0`, whose variable has the number `s.vars`.
abbrev pub new_var : Ty → State → State
new_var t s = record s { vars = suc s.vars; calls = declare_var0 t ∷ s.calls }

-- A complaint if an expression that type checks has a type that does not fit.
abbrev pub judge : Bool → Option Ty → (Ty → Bool) → Pos → Complaint → State → Option State
judge false t fits p m s = some s
judge true none fits p m s = none
judge true (some u) fits p m s = some (if fits u then s else complain p m s)

abbrev pub check_against : Expr → (Ty → Bool) → Pos → Complaint → State → Option State
check_against e fits p m s = type_check (env s) e s.report >>= λ c.
    judge c.ok c.type fits p m (record s { report = c.report })

abbrev pub check_condition : Expr → State → Option State
check_condition e = check_against e (λ u. type_equiv u boolean) (src_pos e) ill_typed

-- The type of an lvalue that passes, `none` for the result 0, and the state.
abbrev pub lvalue_ident : Pos → ℕ → State → List Decl → Option (Option Ty × State)
lvalue_ident p x s [] = some (none, complain p undefined s)
lvalue_ident p x s (d ∷ prev) =
    initialize x s.scopes >>= λ scopes. some (some d.type, record s { scopes = scopes })

abbrev pub indexed : Expr → Ty → ℕ → State → Checked → Option Ty × State
indexed i e n s c =
    (if (index_result i n c).0 then some e else none, record s { report = (index_result i n c).1 })

abbrev pub lvalue_array : Expr → State → Ty → Option (Option Ty × State)
lvalue_array i s (array a e n) = type_check (env s) i s.report >>= λ c. some (indexed i e n s c)
lvalue_array i s _ = none

abbrev pub lvalue_element : Pos → Expr → State → List Decl → Option (Option Ty × State)
lvalue_element p i s [] = some (none, complain p undefined s)
lvalue_element p i s (d ∷ prev) = lvalue_array i s d.type

unfoldable pub check_lvalue : Expr → State → Option (Option Ty × State)
check_lvalue (ident_node p x) s = lvalue_ident p x s (s.scopes.chains x)
check_lvalue (array_node p x i) s = lvalue_element p i s (s.scopes.chains x)
check_lvalue e s = some (none, complain (src_pos e) invalid_lvalue s)

-- The comparison of the two sides of an assignment, where both have passed.
abbrev pub compare_sides : Expr → Bool → Option Ty → Option Ty × State → Option State
compare_sides e flag t (none, s) = some s
compare_sides e flag t (some l, s) = judge flag t (λ u. type_equiv u l) (src_pos e) ill_typed s

abbrev pub check_assign : Pos → Expr → Expr → State → Option State
check_assign p l e s = type_check (env s) e s.report >>= λ c.
    check_lvalue l (record s { report = c.report }) >>= λ r.
    compare_sides e c.ok c.type r >>= λ s'. some (generate (gen_quadr (assign p l e)) s')

abbrev pub need_int : Pos → Option Ty × State → State
need_int p (none, s) = s
need_int p (some t, s) = if same_type t int then s else complain p ill_typed s

abbrev pub check_step : Instr → Pos → Expr → State → Option State
check_step node p l s = check_lvalue l s >>= λ r. some (generate (gen_quadr node) (need_int p r))

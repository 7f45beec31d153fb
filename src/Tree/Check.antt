-- ===== src/Tree/Check.antt =====
-- src/tree.c: the type check of expressions.
pub mod Typing
pub mod Rules
pub mod Sound
pub mod Complete
pub mod Stopping
pub mod Reports
pub mod Loud
pub mod Decides
mod Tests
use javalette.Prelude.{
  ℕ, Bool, true, false, not, ◌&&◌, ◌||◌, List, [], ◌∷◌, Option, none, some, ltb, leb, if◌then◌else◌,
  ◌>>=◌, ◌>>◌, assert,
}
use javalette.Types.{
  Ty, Tys, void, int, double, str, boolean, func, array, none_left, arg, same_type, type_equiv,
}
use javalette.Tree.{Pos}
use javalette.Tree.Scopes.{Decl}
use javalette.Tree.Exprs.{
  ℤ, pos, negsuc, BinaryOp, op_add, op_sub, op_mul, op_div, op_mod, op_eq, op_neq, op_gt, op_lt,
  op_geq, op_leq, op_or, op_and, UnaryOp, op_neg, op_not, op_plus, Expr, Exprs, binary, unary,
  int_node, bool_node, double_node, str_node, ident_node, array_node, call_node, no_exprs,
  expr_list, src_pos,
}

-- The messages of the check.
pub data Message : Type 0 where
  uninitialized undefined_identifier undefined_function not_a_function bad_index wrong_argument
        wrong_count type_error :
      Message

-- What `error` and `warn` have printed, the latest first, and `suppress_type_errors`.
pub record Report : Type 0 where
  pub errors : List (Pos × Message)
  pub warnings : List Pos
  pub suppress : Bool

abbrev pub error : Pos → Message → Report → Report
error p m r = record r { errors = (p, m) ∷ r.errors }

abbrev pub suppressed : Report → Report
suppressed r = record r { suppress = true }

-- `ident->decl`, the innermost declaration.
abbrev pub Env : Type 0
Env = ℕ → Option Decl

-- The result of a check, `expr->type` after it, and the report.
pub record Checked : Type 0 where
  pub ok : Bool
  pub type : Option Ty
  pub report : Report

abbrev pub checked : Bool → Option Ty → Report → Checked
checked b t r = record { ok = b; type = t; report = r }

-- `a == b` on the types of two nodes.
abbrev pub same : Option Ty → Option Ty → Bool
same (some a) (some b) = same_type a b
same none none = true
same _ _ = false

abbrev pub is_int : Option Ty → Bool
is_int t = same t (some int)

abbrev pub is_number : Option Ty → Bool
is_number t = same t (some int) || same t (some double)

-- The type that a binary operator gives to operands of one type; `none` where `ret` is reset.
abbrev pub binary_type : BinaryOp → Option Ty → Option Ty
binary_type op_or t = if same t (some boolean) then some boolean else none
binary_type op_and t = if same t (some boolean) then some boolean else none
binary_type op_add t = if is_number t then t else none
binary_type op_sub t = if is_number t then t else none
binary_type op_div t = if is_number t then t else none
binary_type op_mul t = if is_number t then t else none
binary_type op_mod t = if is_int t then t else none
binary_type op_geq t = if is_number t then some boolean else none
binary_type op_leq t = if is_number t then some boolean else none
binary_type op_gt t = if is_number t then some boolean else none
binary_type op_lt t = if is_number t then some boolean else none
binary_type op_eq t = some boolean
binary_type op_neq t = some boolean

abbrev pub unary_ok : UnaryOp → Ty → Bool
unary_ok op_not int = false
unary_ok op_not double = false
unary_ok op_not boolean = true
unary_ok op_not _ = false
unary_ok _ int = true
unary_ok _ double = true
unary_ok _ _ = false

-- The end of `do_type_check`: a failure that nothing has reported is reported here.
abbrev pub finish : Pos → Bool → Option Ty → Report → Checked
finish p b t r =
    checked b t (if not r.suppress && not b then suppressed (error p type_error r) else r)

-- An operator's result: the check succeeds if it gives a type.
abbrev pub conclude : Pos → Option Ty → Report → Checked
conclude p none r = finish p false none r
conclude p (some t) r = finish p true (some t) r

-- The three conditions of a binary operator, the second operand checked after the first.
abbrev pub both : BinaryOp → Pos → Checked → Checked → Checked
both op p l r =
    if r.ok && same l.type r.type
    then conclude p (binary_type op l.type) r.report
    else finish p false none r.report

-- `node->arg->type->cons` is read only after a check that succeeded.
abbrev pub unary_result : UnaryOp → Pos → Option Ty → Report → Option Checked
unary_result op p none r = none
unary_result op p (some t) r =
    if unary_ok op t then some (finish p true (some t) r) else some (finish p false none r)

-- `NODE_INT` with a value outside `[0, array_size)`.
abbrev pub out_of_range : Expr → ℕ → Bool
out_of_range (int_node p (pos n)) size = leb size n
out_of_range (int_node p (negsuc n)) size = true
out_of_range _ size = false

abbrev pub decided : Bool → Report → Report → Bool × Report
decided true accepted rejected = (true, accepted)
decided false accepted rejected = (false, rejected)

-- `check_array_index`, after the check of the index.
abbrev pub index_result : Expr → ℕ → Checked → Bool × Report
index_result i size c =
    decided (c.ok && is_int c.type)
      (if out_of_range i size
        then record c.report { warnings = src_pos i ∷ c.report.warnings }
        else c.report)
      (error (src_pos i) bad_index c.report)

abbrev pub undefined : Pos → Message → Report → Checked
undefined p m r = finish p false none (suppressed (error p m r))

-- An array's element, given the check of its index and the type of the identifier.
abbrev pub array_of : Pos → Expr → Option Checked → Ty → Option Checked
array_of p i index (array a e n) =
    index >>= λ c. some (finish p (index_result i n c).0 (some e) (index_result i n c).1)
array_of p i index _ = none

abbrev pub array_result : Pos → Expr → Report → Option Checked → Option Decl → Option Checked
array_result p i r index none = some (undefined p undefined_identifier r)
array_result p i r index (some d) = array_of p i index d.type

abbrev pub ident_result : Pos → Option Decl → Report → Checked
ident_result p none r = undefined p undefined_identifier r
ident_result p (some d) r =
    finish p true (some d.type) (if d.initialized then r else error p uninitialized r)

-- `type_equiv` on an argument's type, which is read only after a check that succeeded.
abbrev pub argument_ok : Checked → Ty → Option Bool
argument_ok c t = if c.ok then (c.type >>= λ u. some (type_equiv u t)) else some false

-- Where the loop over the arguments ends: `ret` so far, and whether an argument or a parameter is
-- left.
pub record Called : Type 0 where
  pub fits : Bool
  pub left : Bool
  pub report : Report

abbrev pub called : Bool → Bool → Report → Called
called b l r = record { fits = b; left = l; report = r }

abbrev pub any_left : Exprs → Tys → Bool
any_left no_exprs none_left = false
any_left _ _ = true

abbrev pub call_result : Pos → Ty → Called → Checked
call_result p t c =
    if c.left
    then finish p false none (suppressed (error p wrong_count c.report))
    else if c.fits
    then finish p true (some t) c.report
    else finish p false none c.report

-- A call, given the loop over its arguments and the type of the identifier.
abbrev pub call_of : Pos → Report → (Tys → Option Called) → Ty → Option Checked
call_of p r args (func a t n params) = args params >>= λ c. some (call_result p t c)
call_of p r args _ = some (undefined p not_a_function r)

abbrev pub call_declared : Pos → Report → (Tys → Option Called) → Option Decl → Option Checked
call_declared p r args none = some (undefined p undefined_function r)
call_declared p r args (some d) = call_of p r args d.type

unfoldable mutual
  -- `do_type_check`, on an expression not checked before; `none` is a failed assertion, or a read
  -- through a null pointer.
  pub do_type_check : Env → Expr → Report → Option Checked
  do_type_check env (binary op p a b) r = do_type_check env a r >>= λ l.
      if l.ok
      then (do_type_check env b l.report >>= λ c. some (both op p l c))
      else some (finish p false none l.report)
  do_type_check env (unary op p a) r = do_type_check env a r >>= λ c.
      if c.ok then unary_result op p c.type c.report else some (finish p false none c.report)
  do_type_check env (int_node p n) r = some (finish p true (some int) r)
  do_type_check env (bool_node p n) r = some (finish p true (some boolean) r)
  do_type_check env (double_node p n) r = some (finish p true (some double) r)
  do_type_check env (str_node p n) r = some (finish p true (some str) r)
  do_type_check env (ident_node p x) r = some (ident_result p (env x) r)
  do_type_check env (array_node p x i) r =
      array_result p i r (do_type_check env i (record r { suppress = false })) (env x)
  do_type_check env (call_node p f es) r = call_declared p r (λ ts. check_args env es ts r) (env f)

  -- The loop over the arguments of a call.
  pub check_args : Env → Exprs → Tys → Report → Option Called
  check_args env no_exprs none_left r = some (called true false r)
  check_args env no_exprs (arg t ts) r = some (called true true r)
  check_args env (expr_list p e es) none_left r = some (called true true r)
  check_args env (expr_list p e es) (arg t ts) r = do_type_check env e r >>= λ c.
      argument_ok c t >>= λ b.
      if b
      then check_args env es ts c.report
      else some (called false (any_left es ts) (error p wrong_argument (suppressed c.report)))

-- `type_check`
unfoldable pub type_check : Env → Expr → Report → Option Checked
type_check env e r = do_type_check env e (record r { suppress = false })

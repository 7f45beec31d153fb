-- ===== src/Tree/Check/Reports.antt =====
-- src/tree.c: the reports of a check, as `do_type_check` ends it.
use javalette.Tree.Check.Rules.{failed}
use javalette.Prelude.{
  ◌≡◌, ◌≤◌, ◌<◌, refl, sym, Option, none, some, true, false, length, arith, Bool-cases, inl, inr,
  Never,
}
use javalette.Types.{Ty, array}
use javalette.Tree.{Pos}
use javalette.Tree.Scopes.{Decl}
use javalette.Tree.Exprs.{Expr, Exprs, binary, unary, array_node, call_node, no_exprs, expr_list}
use javalette.Tree.Check.{Env, Report, Checked, Called, finish}

abbrev pub IsArray : Ty → Type 0
IsArray (array a e n) = Unit
IsArray _ = Never

abbrev pub IsArrayIfDeclared : Option Decl → Type 0
IsArrayIfDeclared none = Unit
IsArrayIfDeclared (some d) = IsArray d.type

-- Only arrays are indexed.
abbrev mutual
  pub Indexable : Env → Expr → Type 0
  Indexable env (binary op p a b) = Indexable env a × Indexable env b
  Indexable env (unary op p a) = Indexable env a
  Indexable env (array_node p x i) = IsArrayIfDeclared (env x) × Indexable env i
  Indexable env (call_node p f es) = IndexableAll env es
  Indexable env _ = Unit

  pub IndexableAll : Env → Exprs → Type 0
  IndexableAll env no_exprs = Unit
  IndexableAll env (expr_list p e es) = Indexable env e × IndexableAll env es

-- What the check of an expression leaves in the report, started with errors not suppressed.
pub record Outcome (r : Report) (c : Checked) : Type 0 where
  pub grown : length r.errors ≤ length c.report.errors
  pub accepted : c.ok ≡ true → (c.report.suppress ≡ false) × ((t : Ty) × (c.type ≡ some t))
  pub rejected :
      c.ok ≡ false → (c.report.suppress ≡ true) × (length r.errors < length c.report.errors)

-- The same for the loop over the arguments.
pub record ArgumentsOutcome (r : Report) (c : Called) : Type 0 where
  pub grown : length r.errors ≤ length c.report.errors
  pub accepted : c.fits ≡ true → c.report.suppress ≡ false
  pub rejected :
      c.fits ≡ false → (c.report.suppress ≡ true) × (length r.errors < length c.report.errors)

pub finish-false :
    (p : Pos) (t : Option Ty) (r r' : Report)
    → length r.errors ≤ length r'.errors
    → (r'.suppress ≡ true → length r.errors < length r'.errors)
    → Outcome r (finish p false t r')
finish-false p t r r' le lt = elim (Bool-cases r'.suppress) [
  | inl q ↦ record { grown = ground arith; accepted = λ h. failed h; rejected = λ h. ground arith }
  | inr q ↦ record { grown = ground arith; accepted = λ h. failed h; rejected = λ h. ground arith }
]

pub finish-true :
    (p : Pos) (t : Ty) (r r' : Report)
    → length r.errors ≤ length r'.errors
    → r'.suppress ≡ false
    → Outcome r (finish p true (some t) r')
finish-true p t r r' le q = record {
  grown = ground arith;
  accepted = λ h. (ground arith, (t, refl));
  rejected = λ h. failed (sym h);
}

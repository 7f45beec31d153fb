-- ===== src/Tree/Check/Typing.antt =====
-- The type system of the expressions of src/tree.c, as rules.
use javalette.Prelude.{ℕ, ◌≡◌, some, true}
use javalette.Types.{Ty, Tys, int, double, str, boolean, func, array, none_left, arg, same_type}
use javalette.Tree.{Pos}
use javalette.Tree.Scopes.{Decl}
use javalette.Tree.Exprs.{
  ℤ, BinaryOp, op_add, op_sub, op_mul, op_div, op_mod, op_eq, op_neq, op_gt, op_lt, op_geq, op_leq,
  op_or, op_and, UnaryOp, op_neg, op_not, op_plus, Expr, Exprs, binary, unary, int_node, bool_node,
  double_node, str_node, ident_node, array_node, call_node, no_exprs, expr_list,
}
use javalette.Types.Compatible.{Compatible}
use javalette.Tree.Check.{Env}

pub data Number : Ty → Type 0 where
  int_number : Number int
  double_number : Number double

pub data Arithmetic : BinaryOp → Type 0 where
  adds : Arithmetic op_add
  subtracts : Arithmetic op_sub
  multiplies : Arithmetic op_mul
  divides : Arithmetic op_div

pub data Ordering : BinaryOp → Type 0 where
  greater : Ordering op_gt
  less : Ordering op_lt
  greater_equal : Ordering op_geq
  less_equal : Ordering op_leq

pub data Logical : BinaryOp → Type 0 where
  disjunction : Logical op_or
  conjunction : Logical op_and

pub data Equality : BinaryOp → Type 0 where
  equal : Equality op_eq
  unequal : Equality op_neq

-- The operator takes two operands of the first type and gives the second.
pub data BinaryRule : BinaryOp → Ty → Ty → Type 0 where
  arithmetic : {op : BinaryOp} {t : Ty} → Arithmetic op → Number t → BinaryRule op t t
  modulo : BinaryRule op_mod int int
  ordering : {op : BinaryOp} {t : Ty} → Ordering op → Number t → BinaryRule op t boolean
  logical : {op : BinaryOp} → Logical op → BinaryRule op boolean boolean
  equality : {op : BinaryOp} {t : Ty} → Equality op → BinaryRule op t boolean

pub data UnaryRule : UnaryOp → Ty → Type 0 where
  negation : {t : Ty} → Number t → UnaryRule op_neg t
  identity : {t : Ty} → Number t → UnaryRule op_plus t
  complement : UnaryRule op_not boolean

-- Two operands must have the same type object; an argument need only be compatible with its
-- parameter.
mutual
  pub data HasType (env : Env) : Expr → Ty → Type 0 where
    of_binary :
        {op : BinaryOp} {p : Pos} {a b : Expr} {t u v : Ty}
        → HasType env a t
        → HasType env b u
        → same_type t u ≡ true
        → BinaryRule op t v
        → HasType env (binary op p a b) v
    of_unary :
        {op : UnaryOp} {p : Pos} {a : Expr} {t : Ty}
        → HasType env a t
        → UnaryRule op t
        → HasType env (unary op p a) t
    of_int : {p : Pos} {n : ℤ} → HasType env (int_node p n) int
    of_bool : {p : Pos} {n : ℤ} → HasType env (bool_node p n) boolean
    of_double : {p : Pos} {n : ℕ} → HasType env (double_node p n) double
    of_str : {p : Pos} {n : ℕ} → HasType env (str_node p n) str
    of_ident :
        {p : Pos} {x : ℕ} {d : Decl} {t : Ty}
        → env x ≡ some d
        → d.type ≡ t
        → HasType env (ident_node p x) t
    of_array :
        {p : Pos} {x a n : ℕ} {i : Expr} {d : Decl} {t : Ty}
        → env x ≡ some d
        → d.type ≡ array a t n
        → HasType env i int
        → HasType env (array_node p x i) t
    of_call :
        {p : Pos} {f a n : ℕ} {es : Exprs} {ts : Tys} {d : Decl} {t : Ty}
        → env f ≡ some d
        → d.type ≡ func a t n ts
        → Arguments env es ts
        → HasType env (call_node p f es) t

  pub data Arguments (env : Env) : Exprs → Tys → Type 0 where
    no_arguments : Arguments env no_exprs none_left
    argument :
        {p : Pos} {e : Expr} {es : Exprs} {t u : Ty} {ts : Tys}
        → HasType env e u
        → Compatible u t
        → Arguments env es ts
        → Arguments env (expr_list p e es) (arg t ts)

-- ===== src/Quadr/Typed.antt =====
-- src/tree.h: expressions as src/quadr.c reads them, after the type check.
use javalette.Prelude.{ℕ}
use javalette.Types.{Ty}
use javalette.Tree.Exprs.{ℤ, BinaryOp, UnaryOp}

-- `expr_t` with `expr->type`. An identifier is `ident->decl->u.var`, or `u.func` in a call; a string
-- is its address, a `double` its bit pattern.
mutual
  pub data Typed : Type 0 where
    binary : BinaryOp → Ty → Typed → Typed → Typed
    unary : UnaryOp → Ty → Typed → Typed
    int_node : Ty → ℤ → Typed
    bool_node : Ty → ℤ → Typed
    double_node : Ty → ℕ → Typed
    str_node : Ty → ℕ → Typed
    ident_node : Ty → ℕ → Typed
    array_node : Ty → ℕ → Typed → Typed
    call_node : Ty → ℕ → TypedList → Typed

  pub data TypedList : Type 0 where
    no_exprs : TypedList
    expr_list : Typed → TypedList → TypedList

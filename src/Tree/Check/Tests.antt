-- ===== src/Tree/Check/Tests.antt =====
-- src/tree.c: a declaration `boolean ok; int[] a` and the check of `-a[2] * 3 < f(ok)`.
use javalette.Types.Laws.{int_boolean}
use javalette.Prelude.{
  ℕ, ◌≡◌, refl, Option, none, some, true, false, [], ◌∷◌, Returns, ◌==◌, if◌then◌else◌, length, ◌<◌,
  ap,
}
use javalette.Tree.Check.Stopping.{FirstWrong, here, do_type_check-FirstWrong}
use javalette.Types.{Ty, int, boolean, func, array, none_left, arg}
use javalette.Tree.{Pos}
use javalette.Tree.Scopes.{Decl}
use javalette.Tree.Exprs.{
  Expr, binary, unary, int_node, ident_node, array_node, call_node, no_exprs, expr_list, op_mul,
  op_lt, op_neg, pos,
}
use javalette.Tree.Check.{
  Env, Report, do_type_check, type_check, check_args, wrong_count, wrong_argument,
}
use javalette.Tree.Check.Typing.{HasType}
use javalette.Tree.Check.Sound.{Typed}
use javalette.Tree.Check.Complete.{Found}
use javalette.Tree.Check.Decides.{type_check-decides}

abbrev at : ℕ → Pos
at c = record { line = 1; col = c; len = 1 }

abbrev declared : Ty → Option Decl
declared t = some (record { type = t; scope = 0; initialized = true })

-- `ok` is symbol 1, `a` symbol 2, `f` symbol 3.
abbrev env : Env
env x =
    if x == 1
    then declared boolean
    else if x == 2
    then declared (array 80 int 10)
    else if x == 3
    then declared (func 90 int 2 (arg boolean (arg int none_left)))
    else none

abbrev quiet : Report
quiet = record { errors = []; warnings = []; suppress = false }

abbrev scaled : Expr
scaled =
    binary op_mul (at 6) (unary op_neg (at 1) (array_node (at 2) 2 (int_node (at 4) (pos 2))))
      (int_node (at 8) (pos 3))

abbrev comparison : Expr
comparison = binary op_lt (at 9) scaled (
    call_node (at 11) 3 (
      expr_list (at 13) (ident_node (at 13) 1)
        (expr_list (at 14) (int_node (at 14) (pos 0)) no_exprs)))

scaled_is_boolean :
    type_check env (binary op_lt (at 9) scaled (int_node (at 10) (pos 4))) quiet
    ≡ some (record { ok = true; type = some boolean; report = quiet })
unfolding type_check do_type_check
scaled_is_boolean = refl

-- An index past the end is a warning, an index that is no integer an error.
warned :
    type_check env (array_node (at 2) 2 (int_node (at 4) (pos 10))) quiet
    ≡ some (record { ok = true; type = some int; report = record quiet { warnings = at 4 ∷ [] } })
unfolding type_check do_type_check check_args
warned = refl

type_check-decides_example :
    Returns
      (λ c.
        Typed env comparison c
        × ((t : Ty) → HasType env comparison t → Found t c)
        × (c.ok ≡ false → length quiet.errors < length c.report.errors))
      (type_check env comparison quiet)
type_check-decides_example =
    type_check-decides env comparison quiet (((tt, tt), tt), (tt, (tt, tt)))

-- `f(0, 0)`, where the first argument is wrong and the number is right.
abbrev zero_at : ℕ → Expr
zero_at n = int_node (at n) (pos 0)

zero_checked :
    do_type_check env (zero_at 3) quiet
    ≡ some (record { ok = true; type = some int; report = quiet })
unfolding do_type_check
zero_checked = refl

zero_is_wrong :
    FirstWrong env
      (expr_list (at 3) (zero_at 3) (expr_list (at 5) (zero_at 5) no_exprs))
      (arg boolean (arg int none_left))
      quiet
      (at 3)
      (expr_list (at 5) (zero_at 5) no_exprs)
      (arg int none_left)
      quiet
zero_is_wrong = here zero_checked (ap some int_boolean)

do_type_check-FirstWrong_example :
    Returns
      (λ c.
        (c.ok ≡ false)
        × (c.report.errors ≡ (at 1, wrong_count) ∷ (at 3, wrong_argument) ∷ quiet.errors))
      (do_type_check env
        (call_node (at 1) 3 (expr_list (at 3) (zero_at 3) (expr_list (at 5) (zero_at 5) no_exprs)))
        quiet)
do_type_check-FirstWrong_example =
    do_type_check-FirstWrong env (at 1) (at 3) 3 90 2 int
      (expr_list (at 3) (zero_at 3) (expr_list (at 5) (zero_at 5) no_exprs))
      (expr_list (at 5) (zero_at 5) no_exprs) (arg boolean (arg int none_left)) (arg int none_left)
      (record {
        type = func 90 int 2 (arg boolean (arg int none_left));
        scope = 0;
        initialized = true;
      })
      quiet quiet refl refl zero_is_wrong

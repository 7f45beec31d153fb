-- ===== src/Tree/Semantics/Nodes/Tests.antt =====
-- src/tree.c: the check of `int f(boolean b) { { int b; } ; }`, run through the theorems.
use javalette.Prelude.{◌≡◌, refl, true, false, Bool, [], ◌∷◌, Option, none, some}
use javalette.Types.{Ty, int, boolean, func, arg, none_left, same_type, void}
use javalette.Tree.{Pos}
use javalette.Tree.Scopes.{decl_init, push_decl, push_scope, pop_scope, pop_decls, declare}
use javalette.Tree.Scopes.Runs.{Runs}
use javalette.Tree.Scopes.Leaving.{Left}
use javalette.Tree.Instrs.{
  Instr, Instrs, absent, declaration, var_declarator, sequence, block, instr, no_instrs, empty,
  return_node, Func,
}
use javalette.Tree.Semantics.{State}
use javalette.Tree.Semantics.Nodes.{do_semantic_check, check_instrs, check_func}
use javalette.Tree.Semantics.Nodes.Falling.{Falls}
use javalette.Tree.Semantics.Nodes.Returning.{do_semantic_check-Returning}
use javalette.Tree.Semantics.Nodes.Funcs.{Missing, check_func-Ended}

abbrev at : Pos
at = record { line = 2; col = 3; len = 1 }

abbrev f_type : Ty
f_type = func 70 int 1 (arg boolean none_left)

abbrev start : State
start = record {
  scopes = record (push_decl 1 f_type (decl_init 8)) { decls = 1 ∷ [] };
  report = record { errors = []; warnings = []; suppress = false };
  complaints = [];
  calls = [];
  blocks = 0;
  vars = 0;
  suppress_code_generation = false;
}

abbrev inner : Instrs
inner = instr (declaration at int (var_declarator at 2 absent ∷ [])) no_instrs

abbrev falls_through : Instr
falls_through = sequence (block (sequence inner) (instr empty no_instrs))

abbrev returns : Instr
returns = sequence (block (sequence inner) (instr (return_node at absent) no_instrs))

abbrev f : Func
f = record {
  pos = at;
  type = f_type;
  ident = 1;
  args = record { pos = at; type = boolean; ident = 2 } ∷ [];
  body = sequence (block falls_through no_instrs);
}

abbrev or_else : State → Option State → State
or_else s none = s
or_else s (some t) = t

abbrev state_of : Option (Bool × State) → State
state_of none = start
state_of (some r) = r.1

abbrev returned : State
unfolding do_semantic_check check_instrs push_scope pop_scope pop_decls declare
returned = state_of (do_semantic_check 8 int returns start)

abbrev checked_f : State
unfolding check_func do_semantic_check check_instrs push_scope pop_scope pop_decls declare
checked_f = or_else start (check_func 8 f start)

returned_reached : do_semantic_check 8 int returns start ≡ some (true, returned)
unfolding do_semantic_check check_instrs push_scope pop_scope pop_decls declare
returned_reached = refl

checked_f_reached : check_func 8 f start ≡ some checked_f
unfolding check_func do_semantic_check check_instrs push_scope pop_scope pop_decls declare
checked_f_reached = refl

do_semantic_check-Returning_example :
    Runs 8 start.scopes returned.scopes
    × (true ≡ true → Falls returns → ⊥)
    × (true ≡ false → Falls returns)
do_semantic_check-Returning_example =
    do_semantic_check-Returning 8 int returns start returned true returned_reached

check_func-Ended_example :
    Left start.scopes checked_f.scopes
    × (Falls f.body → same_type int void ≡ false → Missing at checked_f)
check_func-Ended_example = check_func-Ended 8 f int start checked_f refl checked_f_reached

-- ===== src/Tree/Scopes/Tests.antt =====
-- src/tree.c: a block in which an outer variable is declared again, run through the theorems.
use javalette.Prelude.{zero, ℕ, suc, ◌≡◌, refl, List, [], ◌∷◌, none, some, Returns, arith}
use javalette.Types.{int, double}
use javalette.Tree.{Pos}
use javalette.Tree.Scopes.{Scopes, update, decl_init, push_scope, pop_scope, declare, push_decl}
use javalette.Tree.Scopes.Runs.{done, declaring}
use javalette.Tree.Scopes.Leaving.{Left, leave-Left}
use javalette.Tree.Scopes.Capacity.{declare_full}

abbrev somewhere : Pos
somewhere = record { line = 3; col = 5; len = 1 }

-- A function body with an `int` at address 7.
abbrev outer : Scopes
outer = record (push_decl 7 int (decl_init 8)) { decls = 7 ∷ [] }

abbrev inside : Scopes
inside = record outer { cur_scope = 1; scopes = update (λ _. 0) 1 1 }

abbrev shadowed : Scopes
shadowed = record (push_decl 7 double inside) { decls = 7 ∷ 7 ∷ [] }

inside_reached : push_scope outer ≡ some inside
unfolding push_scope
inside_reached = refl

shadowed_reached : declare 8 7 double somewhere inside ≡ some shadowed
unfolding declare
shadowed_reached = refl

leave-Left_example : Returns (Left outer) (pop_scope shadowed)
leave-Left_example =
    leave-Left 8 outer inside shadowed inside_reached
      (declaring 7 double somewhere done shadowed_reached)

abbrev copies : ℕ → ℕ → List ℕ
copies zero x = []
copies (suc n) x = x ∷ copies n x

abbrev crowded : Scopes
crowded = record (decl_init 8) { decls = copies 1024 7 }

declare_full_example : declare 8 9 int somewhere crowded ≡ none
declare_full_example = declare_full 8 9 int somewhere crowded (ground arith) refl refl refl

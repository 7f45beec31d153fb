-- ===== src/Tree/Scopes.antt =====
-- src/tree.c: the stack of scopes and the declarations of each symbol.
pub mod Restore
pub mod Runs
pub mod Leaving
pub mod Capacity
pub mod Room
mod Tests
use javalette.Prelude.{
  ℕ, suc, zero, ◌+◌, ◌*◌, Bool, true, false, ◌&&◌, List, [], ◌∷◌, ◌++◌, Option, none, some, length,
  ◌==◌, ltb, leb, if◌then◌else◌, ◌>>=◌, ◌>>◌, assert,
}
use javalette.Types.{Ty}
use javalette.Tree.{Pos}

-- `decl_t`, without what the code generator keeps in `u`.
pub record Decl : Type 0 where
  pub type : Ty
  pub scope : ℕ
  pub initialized : Bool

-- The static variables of tree.c. A symbol is its address, and `chains x` is the list that starts
-- at `x->decl`; `decls` is the array up to `decls_free`, `decls_bytes` the size of its memory.
pub record Scopes : Type 0 where
  pub chains : ℕ → List Decl
  pub decls : List ℕ
  pub scopes : ℕ → ℕ
  pub cur_scope : ℕ
  pub decls_size : ℕ
  pub decls_bytes : ℕ
  pub duplicates : List Pos

abbrev pub update {ℓ} : {A : Type ℓ} → (ℕ → A) → ℕ → A → ℕ → A
update f x a y = if y == x then a else f y

abbrev pub max_scopes : ℕ
max_scopes = 64

-- `decl_init`, on the symbol table as it then is.
abbrev pub decl_init : ℕ → Scopes
decl_init pointer_size = record {
  chains = (λ _. []);
  decls = [];
  scopes = (λ _. 0);
  cur_scope = 0;
  decls_size = 1024;
  decls_bytes = pointer_size * 1024;
  duplicates = [];
}

-- `xabort` is `none`.
unfoldable pub push_scope : Scopes → Option Scopes
push_scope s =
    let scope = suc (s.cur_scope) in
    if leb max_scopes scope
    then none
    else some (record s { cur_scope = scope; scopes = update (s.scopes) scope (length (s.decls)) })

-- `decls` from the index `n`, and before it.
abbrev pub drop {ℓ} : {A : Type ℓ} → ℕ → List A → List A
drop zero xs = xs
drop (suc n) [] = []
drop (suc n) (x ∷ xs) = drop n xs

abbrev pub take {ℓ} : {A : Type ℓ} → ℕ → List A → List A
take zero xs = []
take (suc n) [] = []
take (suc n) (x ∷ xs) = x ∷ take n xs

-- `decls[i]->decl = decl->prev`
abbrev pub pop_decl : ℕ → (ℕ → List Decl) → List Decl → Option (ℕ → List Decl)
pop_decl x chains [] = none
pop_decl x chains (d ∷ prev) = some (update chains x prev)

-- The loop of `pop_scope`.
unfoldable pub pop_decls : List ℕ → (ℕ → List Decl) → Option (ℕ → List Decl)
pop_decls [] chains = some chains
pop_decls (x ∷ xs) chains = pop_decl x chains (chains x) >>= pop_decls xs

-- `pop_scope` in the scope of the given number.
abbrev pub pop_level : Scopes → ℕ → Option Scopes
pop_level s zero = none
pop_level s (suc scope) =
    let first = s.scopes (suc scope) in
    pop_decls (drop first s.decls) s.chains >>= λ chains.
    some (record s { chains = chains; decls = take first s.decls; cur_scope = scope })

unfoldable pub pop_scope : Scopes → Option Scopes
pop_scope s = pop_level s s.cur_scope

-- `sym->decl != NULL && sym->decl->scope == cur_scope`
abbrev pub declared_in : ℕ → List Decl → Bool
declared_in scope [] = false
declared_in scope (d ∷ prev) = d.scope == scope

-- The array grows when it is full; the new size is passed to `xrealloc` as a number of bytes.
abbrev pub grow : Scopes → Scopes
grow s =
    if length (s.decls) == s.decls_size
    then record s { decls_size = s.decls_size * 2; decls_bytes = s.decls_size * 2 }
    else s

-- `decls[decls_free++] = sym`: `none` when the entry is not in the array's memory.
abbrev pub store : ℕ → ℕ → Scopes → Option Scopes
store pointer_size x s =
    if leb (pointer_size * suc (length (s.decls))) (s.decls_bytes)
    then some (record s { decls = s.decls ++ (x ∷ []) })
    else none

abbrev pub push_decl : ℕ → Ty → Scopes → Scopes
push_decl x t s = record s {
  chains =
      update s.chains x
        (record { type = t; scope = s.cur_scope; initialized = false } ∷ s.chains x);
}

unfoldable pub declare : ℕ → ℕ → Ty → Pos → Scopes → Option Scopes
declare pointer_size x t p s =
    if declared_in (s.cur_scope) (s.chains x)
    then some (record s { duplicates = p ∷ s.duplicates })
    else store pointer_size x (grow (push_decl x t s))

-- `decl->initialized = true` for the declaration of `x` in scope.
abbrev pub initialize_first : ℕ → Scopes → List Decl → Option Scopes
initialize_first x s [] = none
initialize_first x s (d ∷ prev) =
    some (record s { chains = update s.chains x ((record d { initialized = true }) ∷ prev) })

abbrev pub initialize : ℕ → Scopes → Option Scopes
initialize x s = initialize_first x s (s.chains x)

-- ===== src/Tree/Scopes/Room.antt =====
-- src/tree.c: how many declarations the array has room for.
use javalette.Prelude.{
  ℕ, ◌*◌, ◌≤◌, ◌≡◌, length, [], ◌∷◌, ◌++◌, Option, some, none, Bool, true, false,
}
use javalette.Types.{Ty}
use javalette.Tree.Scopes.{Scopes, push_decl}
use javalette.Tree.Scopes.Runs.{Runs}

-- The array has its first size and the memory for it, and is not overfull.
pub record IsFirst (w : ℕ) (s : Scopes) : Type 0 where
  pub size : s.decls_size ≡ 1024
  pub bytes : s.decls_bytes ≡ w * 1024
  pub bound : length s.decls ≤ 1024

abbrev pub succeeds {ℓ} : {A : Type ℓ} → Option A → Bool
succeeds none = false
succeeds (some a) = true

-- A declaration that is new in its scope.
abbrev stored : ℕ → Ty → Scopes → Scopes
stored x t s = record (push_decl x t s) { decls = s.decls ++ (x ∷ []) }

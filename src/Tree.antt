-- ===== src/Tree.antt =====
-- src/tree.h: the data of the syntax tree that its checks share.
pub mod Scopes
pub mod Exprs
pub mod Check
pub mod Instrs
pub mod Semantics
use javalette.Prelude.{ℕ}

-- `src_pos_t`
pub record Pos : Type 0 where
  pub line : ℕ
  pub col : ℕ
  pub len : ℕ

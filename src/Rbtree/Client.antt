-- ===== src/Rbtree/Client.antt =====
-- What the compiler does with a set of keys: any sequence of the operations that change a tree,
-- beside the same sequence on a sorted list of addresses.
pub mod Abstract
pub mod Refines
use javalette.Prelude.{
  ℕ, Bool, true, false, Option, none, some, List, [], ◌∷◌, ltb, ◌==◌, ◌||◌, if◌then◌else◌, ◌>>=◌,
}
use javalette.Rbtree.{RbPair, Rbtree, first}
use javalette.Rbtree.Insert.{insert, insert_if_absent}
use javalette.Rbtree.Delete.{delete}
use javalette.Rbtree.Walk.{clear}

pub data Op {ℓ} (K : Type ℓ) : Type ℓ where
  add add_if_absent remove : K → Op K
  wipe : Op K

module _ {ℓ} {K : Type ℓ} ⦃p : RbPair K⦄ where
  unfoldable pub step : Op K → Rbtree K → Option (Rbtree K)
  step (add x) t = insert t x
  step (add_if_absent x) t = do (t', found) ← insert_if_absent t x; some t'
  step (remove x) t = delete t x
  step wipe t = some (clear t)

  unfoldable pub run : List (Op K) → Rbtree K → Option (Rbtree K)
  run [] t = some t
  run (op ∷ ops) t = do t' ← step op t; run ops t'

-- The abstract set: a sorted list of addresses, where an address may stand more than once.
abbrev pub put : ℕ → List ℕ → List ℕ
put a [] = a ∷ []
put a (b ∷ bs) = if ltb a b then a ∷ b ∷ bs else b ∷ put a bs

abbrev pub member : ℕ → List ℕ → Bool
member a [] = false
member a (b ∷ bs) = a == b || member a bs

abbrev pub take_out : ℕ → List ℕ → List ℕ
take_out a [] = []
take_out a (b ∷ bs) = if a == b then bs else b ∷ take_out a bs

module _ {ℓ} {K : Type ℓ} ⦃p : RbPair K⦄ where
  abbrev pub replay_step : Op K → List ℕ → List ℕ
  replay_step (add x) l = put (p.first x) l
  replay_step (add_if_absent x) l = if member (p.first x) l then l else put (p.first x) l
  replay_step (remove x) l = take_out (p.first x) l
  replay_step wipe l = []

  abbrev pub replay : List (Op K) → List ℕ → List ℕ
  replay [] l = l
  replay (op ∷ ops) l = replay ops (replay_step op l)

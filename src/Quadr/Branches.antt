-- ===== src/Quadr/Branches.antt =====
-- src/quadr.c: the blocks after a conditional jump.
use javalette.Prelude.{
  ℕ, suc, ◌<◌, Bool, true, false, List, [], ◌∷◌, ◌++◌, Option, none, some, ◌≡◌, refl, Returns,
  arith, ==_refl, ◌==◌, ◌||◌, not,
}
use javalette.Quadr.{Quadr, is_if_op}
use javalette.Quadr.Blocks.{Func, new_basic_block, is_empty}
use javalette.Quadr.Linking.{add_basic_blocks, open_block, last_block, is_null}
use javalette.Quadr.Emitted.{last-append}

other_block : (n x : ℕ) → x < n → (n == x) ≡ false
other_block n x p = ground arith

next_other : (n : ℕ) → (n == suc n) ≡ false
next_other n = ground arith

back_other : (x n : ℕ) → x < n → (x == n) ≡ false
back_other x n p = ground arith

link_test :
    (prev : Option ℕ) (xs : List Quadr) (q : Quadr) (referenced : Bool)
    → (is_null prev || not (is_empty (xs ++ q ∷ [])) || referenced) ≡ true
link_test none [] q r = refl
link_test none (x ∷ xs) q r = refl
link_test (some p) [] q r = refl
link_test (some p) (x ∷ xs) q r = refl

-- The block `c` ends in a jump and is followed by an empty block, and that by the current one.
pub record Opened (f : Func) (c : ℕ) (lst : List Quadr) (referenced : Bool) (f' : Func)
    : Type 0 where
  pub jump_block :
      f'.blocks c
      ≡ some (record { lst = lst; next = some (suc f.next_block_id); referenced = referenced })
  pub dummy :
      f'.blocks (suc f.next_block_id)
      ≡ some (record { lst = []; next = some f.next_block_id; referenced = true })
  pub after :
      f'.blocks f.next_block_id ≡ some (record { lst = []; next = none; referenced = false })
  pub current : f'.cur_block ≡ some f.next_block_id
  pub others : (d : ℕ) → d < f.next_block_id → (c == d) ≡ false → f'.blocks d ≡ f.blocks d
  pub vars : f'.var_count ≡ f.var_count

pub open_block-Opened :
    (f : Func) (c : ℕ) (xs : List Quadr) (q : Quadr) (next : Option ℕ) (referenced : Bool)
    → f.cur_block ≡ some c
    → f.blocks c ≡ some (record { lst = xs ++ q ∷ []; next = next; referenced = referenced })
    → c < f.next_block_id
    → is_if_op q.op ≡ true
    → Returns (Opened f c (xs ++ q ∷ []) referenced) (open_block f)
unfolding new_basic_block add_basic_blocks last_block
open_block-Opened f c xs q next referenced cur e p i =
    let n = f.next_block_id in
    let away1 = other_block n c p in
    let away2 = other_block (suc n) c (omega (arith, p)) in
    let back1 = back_other c n p in
    let back2 = back_other c (suc n) (omega (arith, p)) in
    simp
      (
        cur,
        e,
        last-append xs q,
        i,
        link_test f.prev_block xs q referenced,
        away1,
        away2,
        back1,
        back2,
        next_other n,
        other_block (suc n) n (omega arith),
        ==_refl n,
        ==_refl (suc n),
      )
      (record {
        jump_block = rw (==_refl c) refl;
        dummy = simp (back2, ==_refl (suc n));
        after = simp (back1, other_block (suc n) n (omega arith), ==_refl n);
        current = refl;
        others = λ d m o. simp (o, other_block n d m, other_block (suc n) d (omega (arith, m)));
        vars = refl;
      })

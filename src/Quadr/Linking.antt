-- ===== src/Quadr/Linking.antt =====
-- src/quadr.c: the list of the blocks of a function.
use javalette.Prelude.{
  ℕ, zero, suc, Bool, true, false, not, ◌||◌, [], Option, none, some, ◌==◌, if◌then◌else◌, assert,
  ◌>>=◌, ◌>>◌,
}
use javalette.Quadr.{Quadr, last_quadr}
use javalette.Quadr.Blocks.{Block, Func, assign, ends_in_if, is_empty, new_basic_block, put_block}

-- The dummy block after a conditional jump.
abbrev pub dummy_block : ℕ → Func → ℕ × Func
dummy_block blocks f =
    let made = new_basic_block f in
    (made.0, put_block made.0 (record { lst = []; next = some blocks; referenced = true }) made.1)

abbrev pub with_dummy : Option Quadr → ℕ → Func → ℕ × Func
with_dummy last blocks f = if ends_in_if last then dummy_block blocks f else (blocks, f)

-- `block->next = next`
abbrev pub set_next : ℕ → Option ℕ → Func → Option Func
set_next block next f = do b ← f.blocks block; some (put_block block (record b { next = next }) f)

-- `prev_block->next == cur_block`
abbrev pub same_block : Option ℕ → ℕ → Bool
same_block none b = false
same_block (some a) b = a == b

-- The current block is empty and nothing refers to it.
abbrev pub replace_block : Option ℕ → ℕ → ℕ → Func → Option Func
replace_block none cur blocks f = none
replace_block (some prev) cur blocks f = do
  p ← f.blocks prev
  assert (same_block p.next cur)
  set_next prev (some blocks) (record f { blocks = assign cur none f.blocks })

abbrev pub is_null : Option ℕ → Bool
is_null none = true
is_null (some x) = false

-- The current block stays, and becomes the previous one.
abbrev pub link_current : ℕ → ℕ → Func → Option Func
link_current cur blocks f = do
  f1 ← set_next cur (some blocks) f
  some (record f1 { prev_block = some cur })

abbrev pub link_after : ℕ → Block → ℕ → Func → Option Func
link_after cur b blocks f =
    if is_null f.prev_block || not (is_empty b.lst) || b.referenced
    then link_current cur blocks f
    else replace_block f.prev_block cur blocks f

-- `while (blocks->next != NULL)`, on fuel.
unfoldable pub last_block : ℕ → ℕ → Func → Option Func
last_block zero blocks f = none
last_block (suc fuel) blocks f = do
  b ← f.blocks blocks
  elim b.next [
    | none ↦ some (record f { cur_block = some blocks })
    | some next ↦ last_block fuel next (record f { prev_block = some blocks })
  ]

abbrev pub link_blocks : Option ℕ → ℕ → Func → Option (ℕ × Func)
link_blocks none blocks f = some (blocks, record f { first_block = some blocks; prev_block = none })
link_blocks (some cur) blocks f = do
  b ← f.blocks cur
  let (first, f1) = with_dummy (last_quadr b.lst) blocks f in
      link_after cur b first f1 >>= λ f2. some (first, f2)

unfoldable pub add_basic_blocks : ℕ → Func → Option Func
add_basic_blocks blocks f = do
  (first, f1) ← link_blocks f.cur_block blocks f
  last_block (suc f1.next_block_id) first f1

-- `add_basic_blocks(new_basic_block())`
abbrev pub open_block : Func → Option Func
open_block f = let made = new_basic_block f in add_basic_blocks made.0 made.1

-- `start_function`, for a function that has no blocks yet.
unfoldable pub start_function : Func → Func
start_function f =
    let made = new_basic_block f in
    record made.1 { first_block = some made.0; cur_block = some made.0; prev_block = none }

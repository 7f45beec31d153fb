-- ===== src/Quadr/Blocks.antt =====
-- src/quadr.c: the variables and the basic blocks of the function that code is generated for.
use javalette.Prelude.{
  ℕ, suc, ◌*◌, Bool, true, false, not, List, [], ◌∷◌, ◌++◌, Option, none, some, leb, ◌==◌,
  if◌then◌else◌, assert, ◌>>=◌, ◌>>◌,
}
use javalette.Types.{Ty, TypeCons, cons_of, type_int, type_double, type_boolean, type_array}
use javalette.Quadr.{
  VarType, vt_int, vt_double, vt_array, QuadrArg, qa_label, Quadr, is_if_op, is_block_end,
  last_quadr,
}

-- `var_t`, as far as the generation of code reads and writes it.
pub record Var : Type 0 where
  pub ty : Ty
  pub qtype : VarType

-- `vars_node_t`: the length of the array `vars`, and `last_var + 1`.
pub record VarsNode : Type 0 where
  pub vars_size : ℕ
  pub used : ℕ

-- `basic_block_t`: `next` and `MARK_REFERENCED`.
pub record Block : Type 0 where
  pub lst : List Quadr
  pub next : Option ℕ
  pub referenced : Bool

-- `cur_func` with its variables, numbered in the order of their declarations, and its blocks, each at
-- the address that its `id` is; a block that is not allocated or is freed is `none`.
pub record Func : Type 0 where
  pub first_block : Option ℕ
  pub blocks : ℕ → Option Block
  pub next_block_id : ℕ
  pub prev_block : Option ℕ
  pub cur_block : Option ℕ
  pub var_at : ℕ → Option Var
  pub var_count : ℕ
  pub tail : VarsNode
  pub full : List VarsNode

abbrev pub assign {ℓ} : {A : Type ℓ} → ℕ → A → (ℕ → A) → ℕ → A
assign b a f x = if b == x then a else f x

-- `*block = b`
abbrev pub put_block : ℕ → Block → Func → Func
put_block a b f = record f { blocks = assign a (some b) f.blocks }

-- `declare_function` for a function of the program.
abbrev pub declare_function : Func
declare_function = record {
  first_block = none;
  blocks = λ a. none;
  next_block_id = 0;
  prev_block = none;
  cur_block = none;
  var_at = λ x. none;
  var_count = 0;
  tail = record { vars_size = 64; used = 0 };
  full = [];
}

-- The switch on `type->cons` in `declare_var`.
abbrev pub var_type_of : TypeCons → Option VarType
var_type_of type_boolean = some vt_int
var_type_of type_int = some vt_int
var_type_of type_double = some vt_double
var_type_of type_array = some vt_array
var_type_of _ = none

-- The node with the place for one variable more: the last one, or a new one twice as large when the
-- last one is full.
abbrev pub next_node : VarsNode → VarsNode
next_node node =
    if leb node.vars_size node.used
    then record { vars_size = node.vars_size * 2; used = 1 }
    else record node { used = suc node.used }

abbrev pub filled : VarsNode → List VarsNode → List VarsNode
filled node full = if leb node.vars_size node.used then node ∷ full else full

abbrev pub add_var : Ty → VarType → Func → ℕ × Func
add_var type qtype f = (
  f.var_count,
  record f {
    tail = next_node f.tail;
    full = filled f.tail f.full;
    var_at = assign f.var_count (some (record { ty = type; qtype = qtype })) f.var_at;
    var_count = suc f.var_count;
  },
)

unfoldable pub declare_var : Ty → Func → Option (ℕ × Func)
declare_var type f = do qtype ← var_type_of (cons_of type); some (add_var type qtype f)

-- `ptr->qtype = t`
abbrev pub set_qtype : ℕ → VarType → Func → Option Func
set_qtype x t f = do
  v ← f.var_at x
  some (record f { var_at = assign x (some (record v { qtype = t })) f.var_at })

unfoldable pub new_basic_block : Func → ℕ × Func
new_basic_block f = (
  f.next_block_id,
  record f {
    blocks =
        assign f.next_block_id (some (record { lst = []; next = none; referenced = false }))
          f.blocks;
    next_block_id = suc f.next_block_id;
  },
)

-- `block->lst.tail != NULL` and it ends the block.
abbrev pub ends_block : Option Quadr → Bool
ends_block none = false
ends_block (some q) = is_block_end q.op

abbrev pub ends_in_if : Option Quadr → Bool
ends_in_if none = false
ends_in_if (some q) = is_if_op q.op

unfoldable pub add_quadr : ℕ → Quadr → Func → Option Func
add_quadr block quadr f = do
  b ← f.blocks block
  assert (not (ends_block (last_quadr b.lst)))
  some (put_block block (record b { lst = b.lst ++ quadr ∷ [] }) f)

-- `add_quadr(cur_block, quadr)`
abbrev pub emit : Quadr → Func → Option Func
emit quadr f = do block ← f.cur_block; add_quadr block quadr f

-- `lst.head == NULL`
abbrev pub is_empty : List Quadr → Bool
is_empty [] = true
is_empty (q ∷ qs) = false

-- A block between the label and its successor, for a label that is referenced already.
abbrev pub insert_block : ℕ → Block → Func → ℕ × Func
insert_block label b f =
    let made = new_basic_block f in
    (
      made.0,
      put_block made.0 (record { lst = []; next = b.next; referenced = true })
          (put_block label (record b { next = some made.0 }) made.1),
    )

abbrev pub referenced_label : ℕ → Block → Func → ℕ × Func
referenced_label label b f =
    if is_empty b.lst
    then if b.referenced
      then insert_block label b f
      else (label, put_block label (record b { referenced = true }) f)
    else (label, f)

unfoldable pub quadr_arg_label : ℕ → Func → Option (QuadrArg × Func)
quadr_arg_label label f = do
  b ← f.blocks label
  let (l, f1) = referenced_label label b f in some (qa_label l, f1)

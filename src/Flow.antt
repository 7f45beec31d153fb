-- ===== src/Flow.antt =====
-- src/flow.c: the flow graph and the liveness analysis.
pub mod Liveness
pub mod Occurrences
pub mod Effects
pub mod Live
pub mod Traversal
pub mod Loop
pub mod Graph
pub mod Exact
mod Tests
pub mod Trees
pub mod Finish
pub mod NearestUse
use javalette.Prelude.{
  ℕ, zero, suc, ◌+◌, ◌*◌, Bool, true, false, List, [], ◌∷◌, Option, none, some, ltb, ◌==◌, ◌||◌,
  ◌≡◌, if◌then◌else◌, ◌>>=◌, length, not,
}
use javalette.Quadr.{
  QuadrArg, QuadrOp, Quadr, qa_none, qa_var, qa_label, is_if_op, q_return, q_goto, used_in_quadr,
  assigned_in_quadr, last_quadr,
}

-- Whether a list has a variable.
abbrev pub mem : List ℕ → ℕ → Bool
mem [] v = false
mem (x ∷ xs) v = x == v || mem xs v

-- What the analysis uses of src/rbtree.c: trees whose keys are ordered by the variable's address.
-- `member` is `rb_search` with the null node as `false`, `put` is `rb_insert_if_absent`, `keys` the
-- order in which `compute_in_out` visits the nodes.
pub record VarSet (S : Type 0) : Type 0 where
  pub empty : S
  pub member : S → ℕ → Bool
  pub put : S → ℕ → S
  pub remove : S → ℕ → S
  pub keys : S → List ℕ
  pub member-empty : (v : ℕ) → member empty v ≡ false
  pub member-put : (s : S) (x v : ℕ) → member (put s x) v ≡ (x == v || member s v)
  pub member-remove :
      (s : S) (x v : ℕ) → member (remove s x) v ≡ (if x == v then false else member s v)
  pub mem-keys : (s : S) (v : ℕ) → mem (keys s) v ≡ member s v

-- `f[b] = a`
abbrev pub assign {ℓ} : {A : Type ℓ} → ℕ → A → (ℕ → A) → ℕ → A
assign b a f x = if b == x then a else f x

-- `flow_data_t` of one block. The descriptors in `live_in` are the set of their variables with
-- their distances.
pub record FlowData (S : Type 0) : Type 0 where
  pub live_def : S
  pub live_in : S
  pub live_out : S
  pub instr_num : ℕ
  pub nearest_use_dist : ℕ → ℕ

-- `child1` and `child2` of a block. A block is its position in the function's list.
pub record Children : Type 0 where
  pub child1 : Option ℕ
  pub child2 : Option ℕ

-- The label that a jump names.
abbrev pub label_of : QuadrArg → Option ℕ
label_of (qa_label l) = some l
label_of _ = none

-- The switch on `last->op`; `next` is `block->next`.
abbrev pub children_by : QuadrOp → Option ℕ → Option ℕ → Children
children_by q_return label next = record { child1 = none; child2 = none }
children_by q_goto label next = record { child1 = label; child2 = none }
children_by op label next =
    if is_if_op op
    then record { child1 = label; child2 = next }
    else record { child1 = next; child2 = none }

abbrev pub block_children : Option Quadr → Option ℕ → Children
block_children none next = record { child1 = next; child2 = none }
block_children (some last) next = children_by last.op (label_of last.result) next

-- The loop of `create_block_graph` from the block at position `b` on.
abbrev pub create_block_graph : ℕ → List (List Quadr) → List Children
create_block_graph b [] = []
create_block_graph b (code ∷ []) = block_children (last_quadr code) none ∷ []
create_block_graph b (code ∷ next ∷ rest) =
    block_children (last_quadr code) (some (suc b)) ∷ create_block_graph (suc b) (next ∷ rest)

-- The children of a block.
abbrev pub children : List Children → ℕ → Children
children [] b = record { child1 = none; child2 = none }
children (c ∷ g) zero = c
children (c ∷ g) (suc b) = children g b

module _ {S : Type 0} ⦃sets : VarSet S⦄ where
  abbrev pub new_flow_data : FlowData S
  new_flow_data = record {
    live_def = sets.empty;
    live_in = sets.empty;
    live_out = sets.empty;
    instr_num = 0;
    nearest_use_dist = λ v. 0;
  }

  abbrev pub update_live : FlowData S → ℕ → ℕ → FlowData S
  update_live fd var nud = record fd {
    live_def = sets.remove fd.live_def var;
    live_in = sets.put fd.live_in var;
    nearest_use_dist = assign var nud fd.nearest_use_dist;
  }

  -- The arguments: `if (quadr->arg1.tag == QA_VAR) update_live(use, def, var, i)`.
  abbrev pub use_arg : QuadrArg → ℕ → FlowData S → FlowData S
  use_arg (qa_var var) i fd = update_live fd var i
  use_arg _ i fd = fd

  abbrev pub define_var : FlowData S → ℕ → FlowData S
  define_var fd var = record fd {
    live_in = sets.remove fd.live_in var;
    live_def = sets.put fd.live_def var;
  }

  -- The result: an assignment, or the use of a pointer.
  abbrev pub use_result : Quadr → QuadrArg → ℕ → FlowData S → FlowData S
  use_result quadr (qa_var var) i fd =
      if assigned_in_quadr quadr var
      then define_var fd var
      else if used_in_quadr quadr var
      then update_live fd var i
      else fd
  use_result quadr _ i fd = fd

  -- The round of the loop for the quadruple at position `i`.
  abbrev pub live_round : Quadr → ℕ → FlowData S → FlowData S
  live_round quadr i fd =
      use_arg quadr.arg2 i (use_arg quadr.arg1 i (use_result quadr quadr.result i fd))

  -- The rounds from the last quadruple down to position `i`; `qstack` turns the list round.
  abbrev pub live_rounds : List Quadr → ℕ → FlowData S → FlowData S
  live_rounds [] i fd = fd
  live_rounds (quadr ∷ qs) i fd = live_round quadr i (live_rounds qs (suc i) fd)

  unfoldable pub compute_live_def_use : List Quadr → FlowData S
  compute_live_def_use code = live_rounds code 0 (record new_flow_data { instr_num = length code })

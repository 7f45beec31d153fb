-- ===== src/Flow/Liveness.antt =====
-- src/flow.c: the rounds of the liveness analysis over the flow graph.
use javalette.Prelude.{
  ℕ, zero, suc, ◌+◌, ◌*◌, ◌%◌, ◌^◌, Bool, true, false, List, [], ◌∷◌, Option, none, some, ltb,
  if◌then◌else◌, ◌>>=◌, length,
}
use javalette.Quadr.{Quadr}
use javalette.Flow.{
  VarSet, FlowData, Children, assign, children, create_block_graph, compute_live_def_use,
  new_flow_data,
}

-- The flow data of the blocks, the flag `changed`, and the blocks whose `visited_mark` is the
-- current one.
pub record Analysis (S : Type 0) : Type 0 where
  pub flow : ℕ → FlowData S
  pub changed : Bool
  pub visited : ℕ → Bool

module _ {S : Type 0} ⦃sets : VarSet S⦄ where
  -- A variable that `live_in` of the block does not have yet.
  abbrev pub add_live : ℕ → ℕ → ℕ → Analysis S → Analysis S
  add_live block var nud a =
      let fd = a.flow block in
      record a {
        changed = true;
        flow =
            assign block
              (record fd {
                live_in = sets.put fd.live_in var;
                nearest_use_dist = assign var nud fd.nearest_use_dist;
              })
              a.flow;
      }

  -- A variable that it has: the distance that is compared and set is the one in `node->key`, the
  -- descriptor of the successor.
  abbrev pub lower_dist : ℕ → ℕ → ℕ → Analysis S → Analysis S
  lower_dist successor var nud a =
      let fd = a.flow successor in
      if ltb nud (fd.nearest_use_dist var)
      then record a {
        flow =
            assign successor (record fd { nearest_use_dist = assign var nud fd.nearest_use_dist })
              a.flow;
      }
      else a

  -- `nearest_use_dist` is an `unsigned`, of 32 bits. `nud` is an `int` of the same bits, which the
  -- comparison and the assignments make an `unsigned` again.
  abbrev pub update_in : ℕ → ℕ → ℕ → Analysis S → Analysis S
  update_in block successor var a =
      let fd = a.flow block in
      let nud = ((a.flow successor).nearest_use_dist var + fd.instr_num) % 2 ^ 32 in
      if sets.member fd.live_def var
      then a
      else if sets.member fd.live_in var
      then lower_dist successor var nud a
      else add_live block var nud a

  abbrev pub update_out : ℕ → ℕ → Analysis S → Analysis S
  update_out block var a =
      let fd = a.flow block in
      record a { flow = assign block (record fd { live_out = sets.put fd.live_out var }) a.flow }

  -- One node of the successor's tree.
  abbrev pub in_out_node : ℕ → ℕ → ℕ → Analysis S → Analysis S
  in_out_node block successor var a = update_out block var (update_in block successor var a)

  abbrev pub in_out_nodes : ℕ → ℕ → List ℕ → Analysis S → Analysis S
  in_out_nodes block successor [] a = a
  in_out_nodes block successor (var ∷ vars) a =
      in_out_nodes block successor vars (in_out_node block successor var a)

  -- The successor's tree as it is at the call. Where the block is its own successor, all its
  -- variables are in `live_in` already.
  unfoldable pub compute_in_out : ℕ → Option ℕ → Analysis S → Analysis S
  compute_in_out block none a = a
  compute_in_out block (some successor) a =
      in_out_nodes block successor (sets.keys (a.flow successor).live_in) a

  abbrev pub visit : ℕ → Analysis S → Analysis S
  visit block a = record a { visited = assign block true a.visited }

  -- `if (child != NULL && !visited(child)) do_liveness(child)`
  abbrev pub descend :
      (ℕ → Analysis S → Option (Analysis S)) → Option ℕ → Analysis S → Option (Analysis S)
  descend f none a = some a
  descend f (some child) a = if a.visited child then some a else f child a

  -- On fuel: each call visits one block more.
  unfoldable pub do_liveness : (ℕ → Children) → ℕ → ℕ → Analysis S → Option (Analysis S)
  do_liveness g zero block a = none
  do_liveness g (suc fuel) block a = do
    a1 ← descend (do_liveness g fuel) (g block).child1 (visit block a)
    a2 ← descend (do_liveness g fuel) (g block).child2 a1
    some (compute_in_out block (g block).child2 (compute_in_out block (g block).child1 a2))

  -- `changed = false; begin_traversal();`
  abbrev pub begin_pass : Analysis S → Analysis S
  begin_pass a = record a { changed = false; visited = λ b. false }

  -- `while (changed)`, the blocks being fewer than `blocks`, on fuel: each pass that changes
  -- something adds a variable to a block.
  unfoldable pub liveness_loop : (ℕ → Children) → ℕ → ℕ → Analysis S → Option (Analysis S)
  liveness_loop g blocks zero a = none
  liveness_loop g blocks (suc fuel) a =
      if a.changed
      then do_liveness g blocks 0 (begin_pass a) >>= liveness_loop g blocks fuel
      else some a

  -- The flow data that the first loop of `analyze_liveness` sets up.
  abbrev pub start_flow : List (List Quadr) → ℕ → FlowData S
  start_flow [] b = new_flow_data
  start_flow (code ∷ rest) zero = compute_live_def_use code
  start_flow (code ∷ rest) (suc b) = start_flow rest b

  abbrev pub start_analysis : List (List Quadr) → Analysis S
  start_analysis codes = record { flow = start_flow codes; changed = true; visited = λ b. false }

  -- `create_block_graph`, then `analyze_liveness` up to the last loop; the variables are fewer than
  -- `vars`.
  unfoldable pub analyze_liveness : ℕ → List (List Quadr) → Option (Analysis S)
  analyze_liveness vars codes =
      liveness_loop (children (create_block_graph 0 codes)) (length codes)
        (suc (suc (length codes * vars))) (start_analysis codes)

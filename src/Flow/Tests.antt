-- ===== src/Flow/Tests.antt =====
-- src/flow.c on a small loop.
use javalette.Prelude.{true, false, ◌≡◌, refl, List, [], ◌∷◌, some, none, Returns, ◌↔◌, inl, arith}
use javalette.Quadr.{
  Quadr, new_quadr, new_copy_var_quadr, qa_label, qa_var, q_add, q_return, q_if_lt,
}
use javalette.Flow.{compute_live_def_use, FlowData, length, ℕ, Option}
use javalette.Flow.Liveness.{Analysis, analyze_liveness}
use javalette.Flow.Effects.{in_of, out_of}
use javalette.Flow.Live.{Live, LiveAfter}
use javalette.Flow.Occurrences.{Says, first_set, first_use, compute_live_def_use-Says}
use javalette.Flow.Graph.{CodeFits, flow_graph}
use javalette.Flow.Loop.{entry, step}
use javalette.Flow.Exact.{uses_first, sets_first, analyze_liveness-Live}
use javalette.Flow.Trees.{
  VarTree, var_trees, new_tree, tree_put, new_tree-vars, tree_put-vars, inorder-vars, tree_member,
}
use javalette.Flow.Finish.{finish_liveness_computation, finish_liveness_computation-Filled}
use javalette.Flow.NearestUse.{nearest_use_distance_from_quadr, nearest_use_distance-First}
use javalette.Tree.Exprs.{pos}
use javalette.Rbtree.Order.{inorder}
use javalette.Prelude.{◌+◌, ◌<◌, ◌^◌}
use javalette.Flow.{Children, mem}

-- v0 = v1; do { v0 = v0 + v1 } while (v0 < v2); return v0
abbrev before_loop : List Quadr
before_loop = new_copy_var_quadr 0 1 ∷ []

abbrev in_loop : List Quadr
in_loop =
    new_quadr q_add (some 0) (some 0) (some 1)
    ∷ record { op = q_if_lt; result = qa_label 1; arg1 = qa_var 0; arg2 = qa_var 2 }
    ∷ []

abbrev after_loop : List Quadr
after_loop = new_quadr q_return none (some 0) none ∷ []

abbrev loop_code : List (List Quadr)
loop_code = before_loop ∷ in_loop ∷ after_loop ∷ []

loop_code-CodeFits : CodeFits 3 3 loop_code
loop_code-CodeFits = ground arith

uses_in_loop : (first_use in_loop 2 ≡ some 1) × (first_set before_loop 0 ≡ true)
uses_in_loop = (refl, refl)

compute_live_def_use-Says_example :
    Says
      (compute_live_def_use {S = VarTree} in_loop)
      2
      (first_set in_loop 2)
      (first_use in_loop 2)
      0
compute_live_def_use-Says_example = compute_live_def_use-Says {S = VarTree} in_loop 2

analyze_liveness-Live_example :
    Returns
      (λ (a : Analysis VarTree).
        (a.changed ≡ false)
        × ((in_of a 1 2 ≡ true)
            ↔ Live (flow_graph loop_code) (uses_first loop_code) (sets_first loop_code) 2 1)
        × ((out_of a 1 2 ≡ true)
            ↔ LiveAfter (flow_graph loop_code) (uses_first loop_code) (sets_first loop_code) 2 1))
      (analyze_liveness 3 loop_code)
analyze_liveness-Live_example =
    analyze_liveness-Live VarTree 3 before_loop (in_loop ∷ after_loop ∷ []) 1 2 loop_code-CodeFits
      (step entry (inl refl))

-- A block at whose end one variable is live.
abbrev one_live : VarTree
one_live = tree_put new_tree 3

abbrev one_live_block : FlowData VarTree
one_live_block = record {
  live_def = new_tree;
  live_in = one_live;
  live_out = one_live;
  instr_num = 2;
  nearest_use_dist = λ v. 1;
}

one_live-short : length (inorder one_live_block.live_out.tree.root) < 2 ^ 31
one_live-short = rw (inorder-vars one_live, tree_put-vars new_tree 3, new_tree-vars) (omega arith)

finish_liveness_computation-Filled_example :
    Returns
      (λ b.
        (b.lsize ≡ length b.live_at_end)
        × (mem b.live_at_end 3 ≡ tree_member one_live_block.live_out 3)
        × (b.vars_at_start ≡ one_live_block.live_in))
      (finish_liveness_computation one_live_block)
finish_liveness_computation-Filled_example =
    finish_liveness_computation-Filled one_live_block 3 one_live-short

-- Variable 2 is 5 quadruples from its use at the start of block 1.
abbrev five_away : ℕ → ℕ → Option ℕ
five_away block v = some 5

abbrev to_both : Children
to_both = record { child1 = some 1; child2 = some 2 }

nearest_use_distance-First_example :
    (nearest_use_distance_from_quadr five_away to_both in_loop 2 true ≡ some (pos 1))
    × (nearest_use_distance_from_quadr five_away to_both before_loop 2 true
        ≡ some (pos (length before_loop + 5)))
nearest_use_distance-First_example =
    nearest_use_distance-First five_away to_both in_loop before_loop 2 1 1 true refl (ground arith)
      (ground arith) refl (ground arith)

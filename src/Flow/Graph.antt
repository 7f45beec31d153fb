-- ===== src/Flow/Graph.antt =====
-- src/flow.c: the flow graph of code whose variables and labels exist.
use javalette.Prelude.{
  ℕ, zero, suc, ◌+◌, Bool, true, false, ◌||◌, ◌&&◌, ◌≡◌, refl, sym, ◌∙◌, subst, Bool-cases, ◌⊎◌,
  inl, inr, ◌<◌, ◌≤◌, ==_iff, List, [], ◌∷◌, Option, some, none, arith, length, All, some-injective,
}
use javalette.Quadr.{
  Quadr, QuadrArg, QuadrOp, qa_none, qa_var, qa_int, qa_double, qa_label, qa_str, qa_func,
  used_in_quadr, assigned_in_quadr, is_var, is_write, q_add, q_sub, q_div, q_mul, q_mod, q_copy,
  q_read_ptr, q_write_ptr, q_get_addr, q_return, q_param, q_call, q_if_eq, q_if_ne, q_if_lt,
  q_if_gt, q_if_le, q_if_ge, q_goto, q_none,
}
use javalette.Flow.{
  Children, children, create_block_graph, block_children, children_by, label_of, last_quadr,
}
use javalette.Flow.Live.{IsChild}
use javalette.Flow.Occurrences.{first_use, is_some, shifted}

-- Variables are below `vars`, labels below `blocks`.
abbrev pub ArgFits : ℕ → ℕ → QuadrArg → Type 0
ArgFits blocks vars (qa_var x) = x < vars
ArgFits blocks vars (qa_label l) = l < blocks
ArgFits blocks vars _ = Unit

abbrev pub QuadrFits : ℕ → ℕ → Quadr → Type 0
QuadrFits blocks vars q =
    ArgFits blocks vars q.result × ArgFits blocks vars q.arg1 × ArgFits blocks vars q.arg2

abbrev pub CodeFits : ℕ → ℕ → List (List Quadr) → Type 0
CodeFits blocks vars codes = All (All (QuadrFits blocks vars)) codes

abbrev pub code_at : List (List Quadr) → ℕ → List Quadr
code_at [] b = []
code_at (code ∷ codes) zero = code
code_at (code ∷ codes) (suc b) = code_at codes b

-- The flow graph of a function.
abbrev pub flow_graph : List (List Quadr) → ℕ → Children
flow_graph codes = children (create_block_graph 0 codes)

code_at-Fits :
    (blocks vars : ℕ) (codes : List (List Quadr)) (b : ℕ)
    → CodeFits blocks vars codes
    → All (QuadrFits blocks vars) (code_at codes b)
code_at-Fits blocks vars [] b h = tt
code_at-Fits blocks vars (code ∷ codes) zero h = h.0
code_at-Fits blocks vars (code ∷ codes) (suc b) h = code_at-Fits blocks vars codes b h.1

is_var-fits :
    (blocks vars : ℕ) (a : QuadrArg) (v : ℕ) → ArgFits blocks vars a → is_var a v ≡ true → v < vars
is_var-fits blocks vars (qa_var x) v h e = subst (λ z. z < vars) ((==_iff x v).0 e) h
is_var-fits blocks vars qa_none v h e = cc
is_var-fits blocks vars (qa_int n) v h e = cc
is_var-fits blocks vars (qa_double n) v h e = cc
is_var-fits blocks vars (qa_label n) v h e = cc
is_var-fits blocks vars (qa_str n) v h e = cc
is_var-fits blocks vars (qa_func n) v h e = cc

one_of : (p q w r : Bool) → (p || q || (w && r)) ≡ true → (p ≡ true) ⊎ ((q ≡ true) ⊎ (r ≡ true))
one_of true q w r e = inl refl
one_of false true w r e = inr (inl refl)
one_of false false true r e = inr (inr e)
one_of false false false r e = cc

used-fits :
    (blocks vars : ℕ) (q : Quadr) (v : ℕ)
    → QuadrFits blocks vars q
    → used_in_quadr q v ≡ true
    → v < vars
used-fits blocks vars q v h e =
    elim (one_of (is_var q.arg1 v) (is_var q.arg2 v) (is_write q.op) (is_var q.result v) e) [
      | inl u ↦ is_var-fits blocks vars q.arg1 v h.1 u
      | inr (inl u) ↦ is_var-fits blocks vars q.arg2 v h.2 u
      | inr (inr u) ↦ is_var-fits blocks vars q.result v h.0 u
    ]

is_some-shifted : (o : Option ℕ) → is_some (shifted o) ≡ is_some o
is_some-shifted none = refl
is_some-shifted (some k) = refl

first_use-fits :
    (blocks vars : ℕ) (code : List Quadr) (v : ℕ)
    → All (QuadrFits blocks vars) code
    → is_some (first_use code v) ≡ true
    → v < vars
first_use-fits blocks vars [] v h e = cc
first_use-fits blocks vars (q ∷ qs) v h e = elim (Bool-cases (used_in_quadr q v)) [
  | inl u ↦ used-fits blocks vars q v h.0 u
  | inr u ↦ elim (Bool-cases (assigned_in_quadr q v)) [
    | inl s ↦ let no_use = (rw (u, s) at e) in cc
    | inr s ↦
        first_use-fits blocks vars qs v h.1
          (sym (is_some-shifted (first_use qs v)) ∙ (rw (u, s) at e))
  ]
]

-- A variable that a block uses exists.
pub code_at-fits :
    (blocks vars : ℕ) (codes : List (List Quadr)) (b v : ℕ)
    → CodeFits blocks vars codes
    → is_some (first_use (code_at codes b) v) ≡ true
    → v < vars
code_at-fits blocks vars codes b v h e =
    first_use-fits blocks vars (code_at codes b) v (code_at-Fits blocks vars codes b h) e

-- A child among two, where there is one at most.
falls : {o p : Option ℕ} {c : ℕ} → (o ≡ some c) ⊎ (none ≡ some c) → (p ≡ some c) ⊎ (o ≡ some c)
falls (inl e) = inr e
falls (inr e) = cc

children_by_labels :
    (op : QuadrOp) (label next : Option ℕ) (c : ℕ)
    → ((children_by op label next).child1 ≡ some c) ⊎ ((children_by op label next).child2 ≡ some c)
    → (label ≡ some c) ⊎ (next ≡ some c)
children_by_labels q_add label next c = λ h. falls h
children_by_labels q_sub label next c = λ h. falls h
children_by_labels q_div label next c = λ h. falls h
children_by_labels q_mul label next c = λ h. falls h
children_by_labels q_mod label next c = λ h. falls h
children_by_labels q_copy label next c = λ h. falls h
children_by_labels q_read_ptr label next c = λ h. falls h
children_by_labels q_write_ptr label next c = λ h. falls h
children_by_labels q_get_addr label next c = λ h. falls h
children_by_labels q_return label next c = λ h. elim h [ inl e ↦ cc | inr e ↦ cc ]
children_by_labels q_param label next c = λ h. falls h
children_by_labels q_call label next c = λ h. falls h
children_by_labels q_if_eq label next c = λ h. h
children_by_labels q_if_ne label next c = λ h. h
children_by_labels q_if_lt label next c = λ h. h
children_by_labels q_if_gt label next c = λ h. h
children_by_labels q_if_le label next c = λ h. h
children_by_labels q_if_ge label next c = λ h. h
children_by_labels q_goto label next c = λ h. elim h [ inl e ↦ inl e | inr e ↦ cc ]
children_by_labels q_none label next c = λ h. falls h

label_of-fits :
    (blocks vars : ℕ) (a : QuadrArg) (c : ℕ)
    → ArgFits blocks vars a
    → label_of a ≡ some c
    → c < blocks
label_of-fits blocks vars (qa_label l) c h e = subst (λ z. z < blocks) (some-injective l c e) h
label_of-fits blocks vars qa_none c h e = cc
label_of-fits blocks vars (qa_var n) c h e = cc
label_of-fits blocks vars (qa_int n) c h e = cc
label_of-fits blocks vars (qa_double n) c h e = cc
label_of-fits blocks vars (qa_str n) c h e = cc
label_of-fits blocks vars (qa_func n) c h e = cc

block_children-inside :
    (blocks vars : ℕ) (code : List Quadr) (next : Option ℕ) (c : ℕ)
    → All (QuadrFits blocks vars) code
    → (next ≡ some c → c < blocks)
    → ((block_children (last_quadr code) next).child1 ≡ some c)
      ⊎ ((block_children (last_quadr code) next).child2 ≡ some c)
    → c < blocks
block_children-inside blocks vars [] next c h n e = elim e [ inl q ↦ n q | inr q ↦ cc ]
block_children-inside blocks vars (q ∷ []) next c h n e =
    elim (children_by_labels q.op (label_of q.result) next c e) [
      | inl l ↦ label_of-fits blocks vars q.result c h.0.0 l
      | inr l ↦ n l
    ]
block_children-inside blocks vars (q ∷ r ∷ qs) next c h n e =
    block_children-inside blocks vars (r ∷ qs) next c h.1 n e

graph-inside :
    (blocks vars k : ℕ) (codes : List (List Quadr)) (b c : ℕ)
    → CodeFits blocks vars codes
    → k + length codes ≤ blocks
    → IsChild (children (create_block_graph k codes)) b c
    → c < blocks
graph-inside blocks vars k [] b c h p e = elim e [ inl q ↦ cc | inr q ↦ cc ]
graph-inside blocks vars k (code ∷ []) zero c h p e =
    block_children-inside blocks vars code none c h.0 (λ q. cc) e
graph-inside blocks vars k (code ∷ []) (suc b) c h p e = elim e [ inl q ↦ cc | inr q ↦ cc ]
graph-inside blocks vars k (code ∷ next ∷ rest) zero c h p e =
    block_children-inside blocks vars code (some (suc k)) c h.0
      (λ q. omega (arith, p, some-injective (suc k) c q)) e
graph-inside blocks vars k (code ∷ next ∷ rest) (suc b) c h p e =
    graph-inside blocks vars (suc k) (next ∷ rest) b c h.1 (omega (arith, p)) e

-- The children of a block are blocks.
pub flow_graph-inside :
    (vars : ℕ) (codes : List (List Quadr)) (b c : ℕ)
    → CodeFits (length codes) vars codes
    → IsChild (flow_graph codes) b c
    → c < length codes
flow_graph-inside vars codes b c h e =
    graph-inside (length codes) vars 0 codes b c h (omega arith) e

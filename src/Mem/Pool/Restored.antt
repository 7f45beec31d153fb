-- ===== src/Mem/Pool/Restored.antt =====
-- src/mem.c: an object that is taken from a pool and given back.
use javalette.Prelude.{
  ℕ, suc, zero, ◌≡◌, ◌≢◌, ◌⊎◌, inl, inr, refl, sym, ap, ◌∙◌, true, false, List, [], ◌∷◌, Option,
  some, none, ◌==◌, ==_iff, Bool-cases, ◌>>=◌, if_first, if_second, subst, Option-cases,
}
use javalette.Mem.Pool.{
  Pool, PoolNode, palloc, pfree, find_node, holds, nodes_from, set_node, set_cell, Cells,
}

-- The node `pn` is at the position, and it is the first in whose block the address is.
abbrev pub FirstAt : ℕ → ℕ → PoolNode → List PoolNode → Type 0
FirstAt ptr i pn [] = ⊥
FirstAt ptr zero pn (n ∷ ns) = (n ≡ pn) × (holds ptr n ≡ true)
FirstAt ptr (suc i) pn (n ∷ ns) = (holds ptr n ≡ false) × FirstAt ptr i pn ns

find_node-first :
    (ptr i : ℕ) (pn : PoolNode) (ns : List PoolNode)
    → FirstAt ptr i pn ns
    → find_node ptr ns ≡ some (i, pn)
find_node-first ptr i pn [] h = elim h [ ]
find_node-first ptr zero pn (n ∷ ns) h =
    if_first (λ v. v ≡ some (0, pn)) (holds ptr n) _ _ h.1 (ap (λ m. some (0, m)) h.0)
find_node-first ptr (suc i) pn (n ∷ ns) h =
    if_second (λ v. v ≡ some (suc i, pn)) (holds ptr n) _ _ h.0
      (ap (λ v. v >>= λ r. some (suc r.0, r.1)) (find_node-first ptr i pn ns h.1))

nodes_from-first :
    (ptr i : ℕ) (pn : PoolNode) (ns : List PoolNode)
    → FirstAt ptr i pn ns
    → (rest : List PoolNode) × (nodes_from i ns ≡ some (pn, rest))
nodes_from-first ptr i pn [] h = elim h [ ]
nodes_from-first ptr zero pn (n ∷ ns) h = (ns, ap (λ m. some (m, ns)) h.0)
nodes_from-first ptr (suc i) pn (n ∷ ns) h = nodes_from-first ptr i pn ns h.1

set_node-FirstAt :
    (ptr i : ℕ) (pn new : PoolNode) (ns : List PoolNode)
    → FirstAt ptr i pn ns
    → holds ptr new ≡ true
    → FirstAt ptr i new (set_node i new ns)
set_node-FirstAt ptr i pn new [] h k = h
set_node-FirstAt ptr zero pn new (n ∷ ns) h k = (refl, k)
set_node-FirstAt ptr (suc i) pn new (n ∷ ns) h k = (h.0, set_node-FirstAt ptr i pn new ns h.1 k)

FirstAt-holds :
    (ptr i : ℕ) (pn : PoolNode) (ns : List PoolNode) → FirstAt ptr i pn ns → holds ptr pn ≡ true
FirstAt-holds ptr i pn [] h = elim h [ ]
FirstAt-holds ptr zero pn (n ∷ ns) h = subst (λ m. holds ptr m ≡ true) h.0 h.1
FirstAt-holds ptr (suc i) pn (n ∷ ns) h = FirstAt-holds ptr i pn ns h.1

set_node_back :
    (ptr i : ℕ) (pn new : PoolNode) (ns : List PoolNode)
    → FirstAt ptr i pn ns
    → set_node i pn (set_node i new ns) ≡ ns
set_node_back ptr i pn new [] h = refl
set_node_back ptr zero pn new (n ∷ ns) h = ap (λ m. m ∷ ns) (sym h.0)
set_node_back ptr (suc i) pn new (n ∷ ns) h = ap (λ ms. n ∷ ms) (set_node_back ptr i pn new ns h.1)

set_cell-same : (cells : Cells) (a b : ℕ) → set_cell a (cells a) cells b ≡ cells b
set_cell-same cells a b = elim (Bool-cases (b == a)) [
  | inl e ↦ if_first (λ v. v ≡ cells b) (b == a) _ _ e (ap cells (sym ((==_iff b a).0 e)))
  | inr e ↦ if_second (λ v. v ≡ cells b) (b == a) _ _ e refl
]

-- An object is taken from the node at `i`, and it is not the last free one of the pool.
pub record Takes (pool : Pool) (i : ℕ) (pn : PoolNode) (ptr : ℕ) : Type 0 where
  pub current : pool.first_free ≡ some i
  pub holder : FirstAt ptr i pn pool.nodes
  pub free : pn.first_free ≡ some ptr
  pub more : (pool.cells ptr ≢ none) ⊎ (pn.next_free ≢ none)

-- The pool after an object has been taken.
abbrev took : Pool → ℕ → PoolNode → Option ℕ → Option ℕ → Pool
took pool i pn next first = record pool {
  first_free = first;
  nodes = set_node i (record pn { first_free = next }) pool.nodes;
}

module _ (pool : Pool) (i : ℕ) (pn : PoolNode) (ptr : ℕ) (t : Takes pool i pn ptr) where
  palloc-some :
      (q : ℕ) → pool.cells ptr ≡ some q → palloc pool ≡ some (ptr, took pool i pn (some q) (some i))
  unfolding palloc
  palloc-some q e =
      let r = nodes_from-first ptr i pn pool.nodes t.holder in
      rw (t.current, r.1, t.free, e) (λ k. some (ptr, took pool i pn (e k) (t.current k)))

  palloc-next :
      (j : ℕ)
      → pool.cells ptr ≡ none
      → pn.next_free ≡ some j
      → palloc pool ≡ some (ptr, took pool i pn none (some j))
  unfolding palloc
  palloc-next j e f =
      let r = nodes_from-first ptr i pn pool.nodes t.holder in
      rw (t.current, r.1, t.free, e, f)
        (ap (λ v. some (ptr, took pool i (record pn { next_free = some j }) v (some j))) e)

  -- Writing back the node, the link and the head of the list is writing nothing.
  put_back :
      (m new : PoolNode) (v first : Option ℕ)
      → m ≡ pn
      → v ≡ pool.cells ptr
      → first ≡ some i
      → record pool {
        first_free = first;
        nodes = set_node i m (set_node i new pool.nodes);
        cells = set_cell ptr v pool.cells;
      }
        ≡ pool
  put_back m new v first em ev ef =
      let nodes : set_node i m (set_node i new pool.nodes) ≡ pool.nodes =
        ap (λ x. set_node i x (set_node i new pool.nodes)) em
        ∙ set_node_back ptr i pn new pool.nodes t.holder in
      let cells : (b : ℕ) → set_cell ptr v pool.cells b ≡ pool.cells b =
        λ b. ap (λ x. set_cell ptr x pool.cells b) ev ∙ set_cell-same pool.cells ptr b in
      let first_free = ef ∙ sym t.current in
      λ k. record pool { first_free = first_free k; nodes = nodes k; cells = (λ b. cells b k) }

  found :
      (next : Option ℕ)
      → find_node ptr (set_node i (record pn { first_free = next }) pool.nodes)
        ≡ some (i, record pn { first_free = next })
  found next =
      find_node-first ptr i (record pn { first_free = next }) _
        (set_node-FirstAt ptr i pn (record pn { first_free = next }) pool.nodes t.holder
          (FirstAt-holds ptr i pn pool.nodes t.holder))

  pfree-some :
      (q : ℕ) → pool.cells ptr ≡ some q → pfree (took pool i pn (some q) (some i)) ptr ≡ some pool
  unfolding pfree
  pfree-some q e = rw (found (some q)) (
      ap some (
        put_back (record pn { first_free = some ptr }) (record pn { first_free = some q }) (some q)
          (some i) (ap (λ v. record pn { first_free = v }) (sym t.free)) (sym e) refl))

  pfree-next :
      (j : ℕ)
      → pool.cells ptr ≡ none
      → pn.next_free ≡ some j
      → pfree (took pool i pn none (some j)) ptr ≡ some pool
  unfolding pfree
  pfree-next j e f = rw (found none) (
      ap some (
        put_back (record pn { first_free = some ptr; next_free = some j })
          (record pn { first_free = none }) none (some i)
          (λ k. record pn { first_free = sym t.free k; next_free = sym f k }) (sym e) refl))

  -- An object that is taken and given back at once leaves the pool as it was, when the first node
  -- that has its address in its block is the current one, and it is not the last free object: PNEXT
  -- leads from it to another, or there is another node with free objects.
  pub palloc-pfree : (palloc pool >>= λ r. pfree r.1 r.0) ≡ some pool
  palloc-pfree =
      let back = λ (r : ℕ × Pool). pfree r.1 r.0 in
      elim (Option-cases (pool.cells ptr)) [
        | inr q ↦ ap (λ v. v >>= back) (palloc-some q.0 q.1) ∙ pfree-some q.0 q.1
        | inl e ↦ elim (Option-cases pn.next_free) [
          | inr j ↦ ap (λ v. v >>= back) (palloc-next j.0 e j.1) ∙ pfree-next j.0 e j.1
          | inl f ↦ elim t.more [ inl h ↦ absurd (h e) | inr h ↦ absurd (h f) ]
        ]
      ]

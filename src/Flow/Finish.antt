-- ===== src/Flow/Finish.antt =====
-- src/flow.c: `finish_liveness_computation`.
use javalette.Prelude.{
  ℕ, suc, ◌+◌, ◌^◌, ◌<◌, ◌≤◌, ◌==◌, ◌≡◌, refl, sym, ◌∙◌, ap, List, [], ◌∷◌, ◌++◌, Option, some,
  none, arith, if◌then◌else◌, assert, ◌>>=◌, ◌>>◌, ltb, length, length-append, append_assoc,
  append-nil, Returns, lt→ltb, ◌%◌, Returns-assert, ==_iff,
}
use javalette.Rbtree.{Node, nil, node}
use javalette.Rbtree.Walk.{size, do_for_each}
use javalette.Rbtree.Order.{inorder}
use javalette.Rbtree.Search.{is_node}
use javalette.Rbtree.Contents.{size-length}
use javalette.Flow.{FlowData, mem}
use javalette.Flow.Trees.{
  VarTree, var_trees, var_key, tree_member, mem-append, inorder-vars, mem-member, tree_member_lem,
}

-- `i` and the array `live_at_end` up to it.
abbrev pub Filled : Type 0
Filled = ℕ × List ℕ

abbrev pub fill : ℕ → ℕ → Filled → Option Filled
fill lsize var (i, live_at_end) = assert (ltb i lsize) >> some (suc i, live_at_end ++ var ∷ [])

-- The loop goes on with one child, after a call for the left one if there are two.
abbrev pub go_on :
    Node ℕ → Node ℕ → (Filled → Option Filled) → (Filled → Option Filled) → Filled → Option Filled
go_on left right on_left on_right a =
    if is_node left then if is_node right then on_left a >>= on_right else on_left a else on_right a

unfoldable pub make_live_at_end : ℕ → Node ℕ → Filled → Option Filled
make_live_at_end lsize nil a = some a
make_live_at_end lsize (node c l k r) a =
    fill lsize k a >>= go_on l r (make_live_at_end lsize l) (make_live_at_end lsize r)

-- The conversion of an `unsigned` to the `int` that `lsize` is: a negative one fails the first
-- assertion in `make_live_at_end`.
abbrev pub to_lsize : ℕ → Option ℕ
to_lsize n = assert (ltb n (2 ^ 31)) >> some n

-- What is kept of a block: `vars_at_start` with its distances, `lsize` and `live_at_end`.
pub record BlockLive : Type 0 where
  pub vars_at_start : VarTree
  pub start_dist : ℕ → ℕ
  pub lsize : ℕ
  pub live_at_end : List ℕ

unfoldable pub finish_liveness_computation : FlowData VarTree → Option BlockLive
finish_liveness_computation fd =
    let out = fd.live_out.tree in
    do
      lsize ← to_lsize (size out)
      (s, live_at_end) ← make_live_at_end lsize out.root (0, [])
      assert (s == size out)
      some (record {
        vars_at_start = fd.live_in;
        start_dist = fd.nearest_use_dist;
        lsize = lsize;
        live_at_end = live_at_end;
      })

bind_some : (m : Option Filled) → m ≡ (m >>= λ a. some a)
bind_some none = refl
bind_some (some a) = refl

same_filled :
    (i j : ℕ) (a b : List ℕ) → i ≡ j → a ≡ b → Path (Option Filled) (some (i, a)) (some (j, b))
same_filled i j a b e h = rw (e, h) refl

go_on_lem :
    (lsize : ℕ) (l r : Node ℕ) (a : Filled)
    → go_on l r (make_live_at_end lsize l) (make_live_at_end lsize r) a
      ≡ (make_live_at_end lsize l a >>= make_live_at_end lsize r)
unfolding make_live_at_end
go_on_lem lsize nil r a = refl
go_on_lem lsize (node c l k x) nil a = bind_some (make_live_at_end lsize (node c l k x) a)
go_on_lem lsize (node c l k x) (node d y m z) a = refl

count_node : (l r : List ℕ) (k : ℕ) → length (l ++ k ∷ r) ≡ suc (length l + length r)
count_node l r k = omega (arith, length-append l (k ∷ r))

make_live_at_end_lem :
    (lsize : ℕ) (t : Node ℕ) (i : ℕ) (a : List ℕ)
    → i + length (inorder t) ≤ lsize
    → make_live_at_end lsize t (i, a) ≡ some (i + length (inorder t), a ++ do_for_each t)
unfolding make_live_at_end do_for_each
make_live_at_end_lem lsize nil i a h = same_filled _ _ _ _ (omega arith) (sym (append-nil a))
make_live_at_end_lem lsize (node c l k r) i a h =
    let count = count_node (inorder l) (inorder r) k in
    rw (lt→ltb i lsize (omega (arith, h, count))) (
      go_on_lem lsize l r (suc i, a ++ k ∷ [])
      ∙ rw (make_live_at_end_lem lsize l (suc i) (a ++ k ∷ []) (omega (arith, h, count))) (
          make_live_at_end_lem lsize r (suc i + length (inorder l)) _ (omega (arith, h, count))
          ∙ same_filled _ _ _ _ (omega (arith, count)) (simp append_assoc)))

mem-do_for_each : (t : Node ℕ) (v : ℕ) → mem (do_for_each t) v ≡ mem (inorder t) v
unfolding do_for_each
mem-do_for_each nil v = refl
mem-do_for_each (node c l k r) v = ground (
  arith,
  mem-append (do_for_each l) (do_for_each r) v,
  mem-append (inorder l) (k ∷ inorder r) v,
  mem-do_for_each l v,
  mem-do_for_each r v,
)

length-do_for_each : (t : Node ℕ) → length (do_for_each t) ≡ length (inorder t)
unfolding do_for_each
length-do_for_each nil = refl
length-do_for_each (node c l k r) = omega (
  arith,
  length-append (do_for_each l) (do_for_each r),
  count_node (inorder l) (inorder r) k,
  length-do_for_each l,
  length-do_for_each r,
)

-- The variables of a set's tree.
mem-tree : (s : VarTree) (v : ℕ) → mem (do_for_each s.tree.root) v ≡ tree_member s v
mem-tree s v =
    mem-do_for_each s.tree.root v
    ∙ ap (λ l. mem l v) (inorder-vars s)
    ∙ mem-member s.vars v
    ∙ sym (tree_member_lem s v)

modulo : (n : ℕ) → n < 2 ^ 32 → n % 2 ^ 32 ≡ n
modulo n h = omega arith

-- For a block with fewer than 2 to the 31 variables in `live_out`: `finish_liveness_computation`
-- fails no assertion and writes nothing outside `live_at_end`; `lsize` is the number of variables
-- there, which are just those of `live_out`, and `vars_at_start` is `live_in`.
pub finish_liveness_computation-Filled :
    (fd : FlowData VarTree) (v : ℕ)
    → length (inorder fd.live_out.tree.root) < 2 ^ 31
    → Returns
        (λ b.
          (b.lsize ≡ length b.live_at_end)
          × (mem b.live_at_end v ≡ tree_member fd.live_out v)
          × (b.vars_at_start ≡ fd.live_in))
        (finish_liveness_computation fd)
unfolding finish_liveness_computation
finish_liveness_computation-Filled fd v h =
    let t = fd.live_out.tree in
    let n : size t ≡ length (inorder t.root) = size-length t ∙ modulo _ (omega (arith, h)) in
    rw
      (
        lt→ltb (size t) (2 ^ 31) (omega (arith, n, h)),
        make_live_at_end_lem (size t) t.root 0 [] (omega (arith, n)),
      )
      (Returns-assert
        (λ (b : BlockLive).
          (b.lsize ≡ length b.live_at_end)
          × (mem b.live_at_end v ≡ tree_member fd.live_out v)
          × (b.vars_at_start ≡ fd.live_in))
        (0 + length (inorder t.root) == size t) _
        ((==_iff (0 + length (inorder t.root)) (size t)).1 (omega (arith, n)))
        (n ∙ sym (length-do_for_each t.root), mem-tree fd.live_out v, refl))

-- ===== src/Flow/Trees.antt =====
-- src/flow.c with src/rbtree.c: the sets of variables are trees.
use javalette.Prelude.{
  ℕ, Bool, true, false, ◌==◌, ◌||◌, ◌≡◌, refl, sym, ◌∙◌, subst, ap, Bool-cases, ◌<◌, List, [], ◌∷◌,
  ◌++◌, map, arith, if◌then◌else◌, of_Returns, inl, inr, ==_iff,
}
use javalette.Rbtree.{RbPair, Rbtree, Node, nil, node}
use javalette.Rbtree.Walk.{new, search}
use javalette.Rbtree.Order.{inorder}
use javalette.Rbtree.Search.{is_node, search-contains}
use javalette.Rbtree.Client.{add_if_absent, remove, step, replay_step, put, member, take_out}
use javalette.Rbtree.Client.Abstract.{contains-member}
use javalette.Rbtree.Client.Refines.{Stands, step-Stands, new-Stands}
use javalette.Flow.{VarSet, mem}

-- A key is the address of its variable.
instance abbrev pub var_key : RbPair ℕ
var_key = record { first = λ v. v }

-- Every element is greater than the one before.
abbrev pub AllAbove : ℕ → List ℕ → Type 0
AllAbove a [] = Unit
AllAbove a (b ∷ bs) = (a < b) × AllAbove a bs

abbrev pub IsStrict : List ℕ → Type 0
IsStrict [] = Unit
IsStrict (a ∷ l) = AllAbove a l × IsStrict l

AllAbove-trans : (a b : ℕ) (l : List ℕ) → a < b → AllAbove b l → AllAbove a l
AllAbove-trans a b [] p h = tt
AllAbove-trans a b (c ∷ l) p h = (omega (arith, p, h.0), AllAbove-trans a b l p h.1)

AllAbove-put : (a x : ℕ) (l : List ℕ) → a < x → AllAbove a l → AllAbove a (put x l)
AllAbove-put a x [] p h = (p, tt)
AllAbove-put a x (b ∷ l) p h = ground (arith, AllAbove-put a x l p h.1)

put-IsStrict : (x : ℕ) (l : List ℕ) → IsStrict l → member x l ≡ false → IsStrict (put x l)
put-IsStrict x [] s m = (tt, tt)
put-IsStrict x (b ∷ l) s m =
    ground (arith, AllAbove-trans x b l, AllAbove-put b x l, put-IsStrict x l)

member-put : (x v : ℕ) (l : List ℕ) → member v (put x l) ≡ (x == v || member v l)
member-put x v [] = ground arith
member-put x v (b ∷ l) = ground (arith, member-put x v l)

AllAbove-take_out : (a x : ℕ) (l : List ℕ) → AllAbove a l → AllAbove a (take_out x l)
AllAbove-take_out a x [] h = tt
AllAbove-take_out a x (b ∷ l) h = ground (arith, AllAbove-take_out a x l)

take_out-IsStrict : (x : ℕ) (l : List ℕ) → IsStrict l → IsStrict (take_out x l)
take_out-IsStrict x [] s = tt
take_out-IsStrict x (b ∷ l) s = ground (arith, AllAbove-take_out b x l, take_out-IsStrict x l)

member-above : (v : ℕ) (l : List ℕ) → AllAbove v l → member v l ≡ false
member-above v [] h = refl
member-above v (b ∷ l) h = ground (arith, member-above v l h.1)

member-take_out :
    (x v : ℕ) (l : List ℕ)
    → IsStrict l
    → member v (take_out x l) ≡ (if x == v then false else member v l)
member-take_out x v [] s = ground arith
member-take_out x v (b ∷ l) s = ground (arith, member-above v l, member-take_out x v l s.1)

pub mem-append : (xs ys : List ℕ) (v : ℕ) → mem (xs ++ ys) v ≡ (mem xs v || mem ys v)
mem-append [] ys v = refl
mem-append (x ∷ xs) ys v = ground (arith, mem-append xs ys v)

-- The nodes as `compute_in_out` visits them: the node, its right subtree, its left subtree.
abbrev pub visited_keys : Node ℕ → List ℕ
visited_keys nil = []
visited_keys (node c l k r) = k ∷ (visited_keys r ++ visited_keys l)

mem-visited_keys : (t : Node ℕ) (v : ℕ) → mem (visited_keys t) v ≡ mem (inorder t) v
mem-visited_keys nil v = refl
mem-visited_keys (node c l k r) v = ground (
  arith,
  mem-append (visited_keys r) (visited_keys l) v,
  mem-append (inorder l) (k ∷ inorder r) v,
  mem-visited_keys l v,
  mem-visited_keys r v,
)

-- A tree that stands for a set of variables.
pub record VarTree : Type 0 where
  pub tree : Rbtree ℕ
  pub vars : List ℕ
  pub stands : Stands tree vars
  pub strict : IsStrict vars

map_id : (l : List ℕ) → map (λ v. v) l ≡ l
map_id [] = refl
map_id (a ∷ l) = ap (λ z. a ∷ z) (map_id l)

pub mem-member : (l : List ℕ) (v : ℕ) → mem l v ≡ member v l
mem-member [] v = refl
mem-member (a ∷ l) v = ground (arith, mem-member l v)

pub inorder-vars : (s : VarTree) → inorder s.tree.root ≡ s.vars
inorder-vars s = sym (map_id (inorder s.tree.root)) ∙ s.stands.keys

abbrev pub tree_member : VarTree → ℕ → Bool
tree_member s v = is_node (search s.tree v)

pub tree_member_lem : (s : VarTree) (v : ℕ) → tree_member s v ≡ member v s.vars
tree_member_lem s v =
    (search-contains s.tree v s.stands.sorted).0
    ∙ contains-member v (inorder s.tree.root)
    ∙ ap (member v) s.stands.keys

pub new_tree : VarTree
new_tree = record { tree = new; vars = []; stands = new-Stands; strict = tt }

insert_list_IsStrict :
    (x : ℕ) (l : List ℕ) → IsStrict l → IsStrict (replay_step (add_if_absent x) l)
insert_list_IsStrict x l s = elim (Bool-cases (member x l)) [
  | inl e ↦ rw e s
  | inr e ↦ rw e (put-IsStrict x l s e)
]

-- The tree that `rb_insert_if_absent` leaves, and the one that `rb_delete` leaves.
pub tree_put : VarTree → ℕ → VarTree
tree_put s x =
    let (t, e, h) =
      of_Returns (λ t. Stands t (replay_step (add_if_absent x) s.vars))
        (step (add_if_absent x) s.tree) (step-Stands (add_if_absent x) s.tree s.vars s.stands) in
    record {
      tree = t;
      vars = replay_step (add_if_absent x) s.vars;
      stands = h;
      strict = insert_list_IsStrict x s.vars s.strict;
    }

pub tree_remove : VarTree → ℕ → VarTree
tree_remove s x =
    let (t, e, h) =
      of_Returns (λ t. Stands t (replay_step (remove x) s.vars)) (step (remove x) s.tree)
        (step-Stands (remove x) s.tree s.vars s.stands) in
    record {
      tree = t;
      vars = take_out x s.vars;
      stands = h;
      strict = take_out-IsStrict x s.vars s.strict;
    }

pub new_tree-vars : new_tree.vars ≡ []
unfolding new_tree
new_tree-vars = refl

pub tree_put-vars :
    (s : VarTree) (x : ℕ) → (tree_put s x).vars ≡ replay_step (add_if_absent x) s.vars
unfolding tree_put
tree_put-vars s x = refl

-- A variable that is present is there already.
found_or : (x v : ℕ) (l : List ℕ) → member x l ≡ true → member v l ≡ (x == v || member v l)
found_or x v l e = elim (Bool-cases (x == v)) [
  | inl q ↦ rw q (subst (λ z. member z l ≡ true) ((==_iff x v).0 q) e)
  | inr q ↦ rw q refl
]

member-replay :
    (x v : ℕ) (l : List ℕ) → member v (replay_step (add_if_absent x) l) ≡ (x == v || member v l)
member-replay x v l = elim (Bool-cases (member x l)) [
  | inl e ↦ rw e (found_or x v l e)
  | inr e ↦ rw e (member-put x v l)
]

instance pub var_trees : VarSet VarTree
unfolding new_tree tree_put tree_remove
var_trees = record {
  empty = new_tree;
  member = tree_member;
  put = tree_put;
  remove = tree_remove;
  keys = λ s. visited_keys s.tree.root;
  member-empty = λ v. tree_member_lem new_tree v;
  member-put = λ s x v.
      tree_member_lem (tree_put s x) v
      ∙ member-replay x v s.vars
      ∙ ap (λ m. x == v || m) (sym (tree_member_lem s v));
  member-remove = λ s x v.
      tree_member_lem (tree_remove s x) v
      ∙ member-take_out x v s.vars s.strict
      ∙ ap (λ m. if x == v then false else m) (sym (tree_member_lem s v));
  mem-keys = λ s v.
      mem-visited_keys s.tree.root v
      ∙ ap (λ l. mem l v) (inorder-vars s)
      ∙ mem-member s.vars v
      ∙ sym (tree_member_lem s v);
}

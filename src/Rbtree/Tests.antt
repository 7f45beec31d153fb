-- ===== src/Rbtree/Tests.antt =====
-- The theorems on red-black trees at concrete trees whose keys are addresses, and runs of the code.
use javalette.Rbtree.Insert.{locate, insert_if_absent, insert, reserve}
use javalette.Rbtree.Join.{join}
use javalette.Rbtree.Join.Correct.{JoinSpec, join-JoinSpec}
use javalette.Rbtree.Insert.Sorted.{Grown, insert-Grown}
use javalette.Rbtree.Search.{is_node, Matches, search-contains}
use javalette.Rbtree.Client.Refines.{Stands, run-new-Stands}
use javalette.Rbtree.Insert.Correct.{InsertedOrFound, insert_if_absent-InsertedOrFound}
use javalette.Rbtree.Delete.{delete, delete_node, successor, unlink, delete_fixup, restore_right}
use javalette.Rbtree.Delete.Correct.{Deletes, delete-Deletes}
use javalette.Rbtree.Contents.{key_of, size-length, minimum-head?, for_each-perm}
use mathlib.Core.List.{Perm, head?}
use javalette.Rbtree.Search.{search-contains, is_node, Matches}
use javalette.Rbtree.Walk.{search, size, do_for_each, minimum, copy}
use javalette.Prelude.{ℕ, ◌≡◌, ◌%◌, ◌^◌, refl, some, List, [], ◌∷◌, arith, Returns, length, none}
use javalette.Rbtree.{RbPair, Node, nil, node, Rbtree, red, black}
use javalette.Rbtree.Order.{inorder}
use javalette.Rbtree.Balance.{IsRedBlack}
use javalette.Rbtree.Sorting.{IsSorted, contains}
use javalette.Rbtree.Walk.{new, size, copy, minimum}
use javalette.Rbtree.Client.{Op, add, add_if_absent, remove, run, replay}

instance abbrev address_pair : RbPair ℕ
address_pair = record { first = λ a. a }

abbrev leaf : ℕ → Node ℕ
leaf a = node black nil a nil

-- Two black levels above a red one.
abbrev sample : Rbtree ℕ
sample = record {
  root = node black (node black nil 20 (node red nil 25 nil)) 30 (leaf 40);
  stack_size = 5;
  bh = 2;
}

abbrev higher : Rbtree ℕ
higher = record { root = node black (leaf 60) 70 (leaf 80); stack_size = 0; bh = 2 }

sample-IsRedBlack : IsRedBlack sample
sample-IsRedBlack = ground arith

sample-IsSorted : IsSorted (inorder sample.root)
sample-IsSorted = omega arith

insert-Grown_example : Returns (Grown sample 26) (insert sample 26)
insert-Grown_example = insert-Grown sample 26 sample-IsRedBlack sample-IsSorted

insert_if_absent-InsertedOrFound_example :
    Returns (InsertedOrFound sample 25) (insert_if_absent sample 25)
insert_if_absent-InsertedOrFound_example =
    insert_if_absent-InsertedOrFound sample 25 sample-IsRedBlack sample-IsSorted

delete-Deletes_example : Returns (λ t'. IsRedBlack t' × Deletes 30 sample t') (delete sample 30)
delete-Deletes_example = delete-Deletes sample 30 sample-IsRedBlack sample-IsSorted

abbrev script : List (Op ℕ)
script = add 5 ∷ add 5 ∷ add_if_absent 7 ∷ remove 5 ∷ []

run-new-Stands_example : Returns (λ t. Stands {K = ℕ} t (replay script [])) (run script new)
run-new-Stands_example = run-new-Stands script

join-JoinSpec_example :
    Returns (JoinSpec sample 50 higher sample.root higher.root) (join sample 50 higher)
join-JoinSpec_example =
    join-JoinSpec sample 50 higher sample-IsRedBlack (ground arith) (omega arith) (omega arith)

search-contains_example :
    (is_node (search sample 25) ≡ contains 25 (inorder sample.root)) × Matches 25 (search sample 25)
search-contains_example = search-contains sample 25 sample-IsSorted

size-length_example : size sample ≡ length (inorder sample.root) % 2 ^ 32
size-length_example = size-length sample

for_each-perm_example : Perm (do_for_each sample.root) (inorder sample.root)
for_each-perm_example = for_each-perm sample.root

minimum-head?_example : key_of (minimum sample) ≡ head? (inorder sample.root)
minimum-head?_example = minimum-head? sample

-- The memory of a copied node is too small for it.
copied : copy sample ≡ none
unfolding copy new
copied = refl

-- Deleting the root brings up its successor, and the black height stays.
delete_root :
    delete sample 30
    ≡ some (record { root = node black (leaf 20) 25 (leaf 40); stack_size = 5; bh = 2 })
unfolding delete locate reserve delete_node successor unlink delete_fixup restore_right
delete_root = refl

-- ===== src/Tree/Avl/Tests.antt =====
-- The AVL tree at concrete trees.
use foo.Prelude.{
  count, Bool, ℕ, ◌+◌, ◌/◌, ◌^◌, ◌≤◌, ◌≡◌, refl, not, true, some, arith, length, [], ◌∷◌,
}
use foo.Tree.Samples.{nat_compare, nat_compare-IsStrict}
use foo.Tree.Avl.{
  Node, nil, node, AvlTree, is_null, insert_node, search, insert, remove, tree_height, insert_left,
  insert_right, refresh, join, create_node, left_left_rotation, left_right_rotation,
  right_right_rotation, right_left_rotation,
}
use foo.Tree.Avl.Rotations.{keys}
use foo.Tree.Avl.Contents.{IsSubtree, HasKey}
use foo.Tree.Avl.Sorted.{IsAscending, insert_key, remove_key, find_key}
use foo.Tree.Avl.Traverse.{pre_order, in_order, post_order, destroy}
use foo.Tree.Avl.Traverse.Stacks.{subtrees, forward_loop, backward_loop, traversals_follow_stacks}
use foo.Tree.Avl.Operations.{
  depth, IsValid, removed, insert_refines, remove_refines, search_refines, tree_height_bound,
}

abbrev leaf : ℕ → Node ℕ
leaf k = node nil k 1 nil

abbrev sample : AvlTree ℕ
sample = record { root = node (node (leaf 1) 3 2 nil) 5 3 (leaf 8); compare = nat_compare }

sample-IsValid : IsValid sample
sample-IsValid = record { balanced = ground arith; ascending = ground arith }

-- The insertion of 2 needs a double rotation.
insert_sample :
    insert_node nat_compare true sample.root 2 ≡ node (node (leaf 1) 2 2 (leaf 3)) 5 3 (leaf 8)
unfolding insert_node insert_left insert_right refresh join create_node left_left_rotation
    left_right_rotation right_right_rotation right_left_rotation
insert_sample = refl

insert_refines_example :
    let t' = record sample { root = insert_node nat_compare true sample.root 2 } in
    (insert true (some sample) (some 2) ≡ some t')
    × IsValid t'
    × (keys t'.root ≡ insert_key nat_compare 2 (keys sample.root))
insert_refines_example = insert_refines sample 2 nat_compare-IsStrict sample-IsValid

remove_refines_example :
    (remove (some sample) (some 5) ≡ some (removed sample 5))
    × IsValid (removed sample 5)
    × (keys (removed sample 5).root ≡ remove_key nat_compare 5 (keys sample.root))
remove_refines_example = remove_refines sample 5 nat_compare-IsStrict sample-IsValid

search_refines_example :
    let n = search (some sample) (some 8) in
    (not (is_null n) ≡ find_key nat_compare 8 (keys sample.root))
    × IsSubtree n sample.root
    × HasKey nat_compare 8 n
search_refines_example = search_refines sample 8 nat_compare-IsStrict sample-IsValid

tree_height_bound_example :
    (tree_height (some sample) ≡ depth sample.root)
    × (2 ^ (tree_height (some sample) / 2) ≤ length (keys sample.root) + 1)
tree_height_bound_example = tree_height_bound sample sample-IsValid

traversals_follow_stacks_example :
    IsAscending nat_compare (in_order (some sample) true)
    × ((p : ℕ → Bool)
        → count p (in_order (some sample) true) ≡ count p (pre_order (some sample) true))
    × (pre_order (some sample) true ≡ forward_loop (subtrees sample.root) (sample.root ∷ []))
    × (post_order (some sample) true ≡ backward_loop (subtrees sample.root) (sample.root ∷ []) [])
    × (destroy (some sample) ≡ post_order (some sample) true)
traversals_follow_stacks_example = traversals_follow_stacks sample sample-IsValid.ascending

-- Preorder visits 5, 3, 1, 8, and postorder 1, 3, 8, 5.
forward_loop-sample : forward_loop 9 (sample.root ∷ []) ≡ 5 ∷ 3 ∷ 1 ∷ 8 ∷ []
forward_loop-sample = refl

backward_loop-sample : backward_loop 9 (sample.root ∷ []) [] ≡ 1 ∷ 3 ∷ 8 ∷ 5 ∷ []
backward_loop-sample = refl

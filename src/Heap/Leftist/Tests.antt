-- ===== src/Heap/Leftist/Tests.antt =====
-- The leftist heap at concrete trees.
use foo.Prelude.{ℕ, ◌+◌, ◌*◌, ◌^◌, ◌≤◌, ◌≡◌, refl, Bool, some, arith, one_if, count, leb}
use foo.Heap.Samples.{nat_compare, nat_compare-IsOrder}
use foo.Heap.Leftist.{
  Node, nil, node, LeftistHeap, size, merge_node, merge_nodes, get_minimum, remove, merge,
  remove_node,
}
use foo.Heap.Leftist.Order.{occurs, AllAbove}
use foo.Heap.Leftist.Balance.{rank, shortest, right_spine}
use foo.Heap.Leftist.Depth.{merge_depth}
use foo.Heap.Leftist.Operations.{
  IsValid, inserted, removed, remove_correct, merge_correct, count-remove_node,
}

abbrev leaf : ℕ → Node ℕ
leaf k = node nil k 0 nil

abbrev sample : LeftistHeap ℕ
sample = record { root = node (leaf 5) 2 1 (leaf 3); compare = nat_compare }

abbrev single : LeftistHeap ℕ
single = record { root = leaf 4; compare = nat_compare }

sample-IsValid : IsValid sample
sample-IsValid = record { ordered = ground arith; leftist = ground arith }

single-IsValid : IsValid single
single-IsValid = record { ordered = ground arith; leftist = ground arith }

insert_sample :
    inserted sample 1
    ≡ record { root = node (node (leaf 5) 2 1 (leaf 3)) 1 0 nil; compare = nat_compare }
unfolding merge_nodes merge_node
insert_sample = refl

remove_correct_example :
    (get_minimum (some sample) ≡ some 2)
    × (remove (some sample) ≡ some (removed nat_compare (leaf 5) (leaf 3)))
    × IsValid (removed nat_compare (leaf 5) (leaf 3))
    × AllAbove nat_compare 2 (removed nat_compare (leaf 5) (leaf 3)).root
    × ((p : ℕ → Bool)
        → occurs p sample.root
          ≡ one_if (p 2) + occurs p (removed nat_compare (leaf 5) (leaf 3)).root)
remove_correct_example =
    remove_correct nat_compare (leaf 5) 2 1 (leaf 3) nat_compare-IsOrder sample-IsValid

merge_correct_example :
    let joined = record sample { root = merge_nodes nat_compare sample.root single.root } in
    (merge (some sample) (some single) ≡ (some joined, some (record single { root = nil })))
    × IsValid joined
    × ((p : ℕ → Bool) → occurs p joined.root ≡ occurs p sample.root + occurs p single.root)
merge_correct_example =
    merge_correct sample single nat_compare-IsOrder sample-IsValid single-IsValid refl

count-remove_node_example : count (leb 3) (remove_node sample.root) ≡ occurs (leb 3) sample.root
count-remove_node_example = count-remove_node (leb 3) sample.root

merge_depth_example :
    let t = merge_nodes nat_compare sample.root single.root in
    let depth = right_spine sample.root + right_spine single.root in
    (merge_node nat_compare depth sample.root single.root ≡ t)
    × (2 ^ depth ≤ (size sample.root + 1) * (size single.root + 1))
    × (rank t ≡ shortest t)
    × (right_spine t ≡ shortest t)
    × (2 ^ right_spine t ≤ size sample.root + size single.root + 1)
merge_depth_example = merge_depth sample single sample-IsValid single-IsValid

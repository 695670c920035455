-- ===== src/Heap/Skew/Tests.antt =====
-- The skew heap at concrete trees.
use foo.Prelude.{ℕ, ◌+◌, ◌≡◌, refl, Bool, some, arith, one_if}
use foo.Heap.Samples.{nat_compare, nat_compare-IsOrder}
use foo.Heap.Skew.{Node, nil, node, SkewHeap, merge_node, merge_nodes, get_minimum, remove, merge}
use foo.Heap.Skew.Order.{occurs, AllAbove}
use foo.Heap.Skew.Operations.{IsValid, inserted, removed, remove_takes_least, merge_joins}

abbrev leaf : ℕ → Node ℕ
leaf k = node nil k nil

abbrev sample : SkewHeap ℕ
sample = record { root = node (leaf 5) 2 (leaf 3); compare = nat_compare }

abbrev single : SkewHeap ℕ
single = record { root = leaf 4; compare = nat_compare }

sample-IsValid : IsValid sample
sample-IsValid = record { ordered = ground arith }

single-IsValid : IsValid single
single-IsValid = record { ordered = ground arith }

insert_sample :
    inserted sample 1
    ≡ record { root = node (node (leaf 5) 2 (leaf 3)) 1 nil; compare = nat_compare }
unfolding merge_nodes merge_node
insert_sample = refl

remove_takes_least_example :
    (get_minimum (some sample) ≡ some 2)
    × (remove (some sample) ≡ some (removed nat_compare (leaf 5) (leaf 3)))
    × IsValid (removed nat_compare (leaf 5) (leaf 3))
    × AllAbove nat_compare 2 (removed nat_compare (leaf 5) (leaf 3)).root
    × ((p : ℕ → Bool)
        → occurs p sample.root
          ≡ one_if (p 2) + occurs p (removed nat_compare (leaf 5) (leaf 3)).root)
remove_takes_least_example =
    remove_takes_least nat_compare (leaf 5) 2 (leaf 3) nat_compare-IsOrder sample-IsValid

merge_joins_example :
    let joined = record sample { root = merge_nodes nat_compare sample.root single.root } in
    (merge (some sample) (some single) ≡ (some joined, some (record single { root = nil })))
    × IsValid joined
    × ((p : ℕ → Bool) → occurs p joined.root ≡ occurs p sample.root + occurs p single.root)
merge_joins_example =
    merge_joins sample single nat_compare-IsOrder sample-IsValid single-IsValid refl

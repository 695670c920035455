-- ===== src/Tree/Bs/Tests.antt =====
-- The binary search tree at concrete trees.
use foo.Prelude.{ℕ, ◌≡◌, ◌⊎◌, true, some, arith, count, leb}
use foo.Heap.Compare.{is_same}
use foo.Tree.Samples.{nat_compare, nat_compare-IsStrict}
use foo.Tree.Bs.{Node, nil, node, BsTree, insert_node, search, insert, destroy}
use foo.Tree.Bs.Sorted.{insert_key, AllDiffer, IsSorted}
use foo.Tree.Bs.Contents.{keys, IsSubtree}
use foo.Tree.Bs.Operations.{insert_keeps_IsSorted, search_finds, count-destroy}

abbrev leaf : ℕ → Node ℕ
leaf k = node nil k nil

abbrev sample : BsTree ℕ
sample = record { root = node (leaf 1) 5 (node (leaf 6) 8 nil); compare = nat_compare }

sample-IsSorted : IsSorted nat_compare (keys sample.root)
sample-IsSorted = ground arith

insert_keeps_IsSorted_example :
    let t' = record sample { root = insert_node nat_compare sample.root 5 } in
    (insert true (some sample) 5 ≡ some t')
    × (keys t'.root ≡ insert_key nat_compare 5 (keys sample.root))
    × IsSorted nat_compare (keys t'.root)
insert_keeps_IsSorted_example = insert_keeps_IsSorted sample 5 nat_compare-IsStrict sample-IsSorted

search_finds_example :
    let n = search (some sample) (some 6) in
    ((n ≡ nil) × AllDiffer nat_compare (keys sample.root) 6)
    ⊎ ((l : Node ℕ) × (k : ℕ) × (r : Node ℕ) × (n ≡ node l k r)
        × (is_same (nat_compare k 6) ≡ true)
        × IsSubtree n sample.root)
search_finds_example = search_finds sample 6 nat_compare-IsStrict sample-IsSorted

count-destroy_example : count (leb 5) (destroy (some sample)) ≡ count (leb 5) (keys sample.root)
count-destroy_example = count-destroy (leb 5) sample

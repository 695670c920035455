-- ===== src/Tree/Splay/Tests.antt =====
-- The splay tree at concrete trees.
use foo.Prelude.{ℕ, ◌≡◌, not, refl, true, some, arith}
use foo.Tree.Samples.{nat_compare, nat_compare-IsStrict}
use foo.Tree.Avl.Sorted.{insert_key, remove_key, find_key, IsAscending}
use foo.Tree.Splay.{
  nil, node, SplayTree, splay_node, splay_loop, rotate_left, rotate_right, assemble, fill_left,
  fill_right, insert_splay, remove_node, search, is_null, insert, remove, splay,
}
use foo.Tree.Splay.Keys.{keys}
use foo.Tree.Splay.Root.{root_is}
use foo.Tree.Splay.Operations.{
  insert_refines_list, remove_refines_list, splay_brings_to_root, search_refines_list, IsSubtree,
  HasKey,
}

abbrev sample : SplayTree ℕ
sample = record {
  root = node (node (node nil 1 nil) 3 (node nil 4 nil)) 6 (node nil 9 nil);
  compare = nat_compare;
}

sample-IsAscending : IsAscending nat_compare (keys sample.root)
sample-IsAscending = ground arith

-- 6 is hung on the right before 4 comes to the root.
splay_sample :
    splay_node nat_compare sample.root 4
    ≡ node (node (node nil 1 nil) 3 nil) 4 (node nil 6 (node nil 9 nil))
unfolding splay_node splay_loop rotate_left rotate_right assemble fill_left fill_right
splay_sample = refl

insert_refines_list_example :
    let t' = record sample { root = insert_splay nat_compare true sample.root 5 } in
    (insert true (some sample) 5 ≡ some t')
    × (keys t'.root ≡ insert_key nat_compare 5 (keys sample.root))
    × IsAscending nat_compare (keys t'.root)
insert_refines_list_example = insert_refines_list sample 5 nat_compare-IsStrict sample-IsAscending

remove_refines_list_example :
    let t' = record sample { root = remove_node nat_compare sample.root 4 } in
    (remove (some sample) 4 ≡ some t')
    × (keys t'.root ≡ remove_key nat_compare 4 (keys sample.root))
    × IsAscending nat_compare (keys t'.root)
remove_refines_list_example = remove_refines_list sample 4 nat_compare-IsStrict sample-IsAscending

splay_brings_to_root_example :
    let t' = record sample { root = splay_node nat_compare sample.root 4 } in
    (splay (some sample) 4 ≡ some t')
    × (keys t'.root ≡ keys sample.root)
    × (root_is nat_compare 4 t'.root ≡ find_key nat_compare 4 (keys sample.root))
splay_brings_to_root_example = splay_brings_to_root sample 4 nat_compare-IsStrict sample-IsAscending

search_refines_list_example :
    let n = search (some sample) 4 in
    (not (is_null n) ≡ find_key nat_compare 4 (keys sample.root))
    × IsSubtree n sample.root
    × HasKey nat_compare 4 n
search_refines_list_example = search_refines_list sample 4 nat_compare-IsStrict sample-IsAscending

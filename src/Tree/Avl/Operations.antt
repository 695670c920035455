-- ===== src/Tree/Avl/Operations.antt =====
-- What `insert`, `remove` and `search` of the AVL tree do to a valid tree, and its height.
use native.Mathlib.Nat.{pow-suc, pow-le-pow_right}
use foo.Prelude.{
  ℕ, suc, ◌+◌, ◌-◌, ◌/◌, ◌^◌, dec_lt, ◌∙◌, ◌≤◌, ◌<◌, ◌≡◌, refl, sym, subst, true, not, some, max,
  ◌∷◌, arith, length, length-append, if◌then◌else◌, Bool-cases, inl, inr,
}
use foo.Tree.Avl.{
  Node, nil, node, AvlTree, get_height, insert_node, remove_node, found, is_null, search, insert,
  remove, tree_height,
}
use foo.Tree.Avl.Rotations.{keys, IsAvl}
use foo.Tree.Avl.Insertion.{insert_node-Grown}
use foo.Tree.Avl.Removal.{remove_node-Shrunk}
use foo.Tree.Avl.Sorted.{
  remove_key-absent, IsStrict, insert_key, remove_key, find_key, IsAscending,
  insert_key-IsAscending, remove_key-IsAscending,
}
use foo.Tree.Avl.Contents.{
  keys-insert_node, keys-remove_node, found-find_key, IsSubtree, HasKey, search_node-IsSubtree,
  search_node-HasKey,
}

module _ {K : Type 0} where
  pub record IsValid (t : AvlTree K) : Type 0 where
    pub balanced : IsAvl t.root
    pub ascending : IsAscending t.compare (keys t.root)

  -- On a valid AVL tree (heights right, balanced, keys strictly ascending) under a strict compare
  -- function, with memory for a node, insert refines the insertion into the ascending list of the
  -- keys, which leaves an existing key alone, and the tree stays valid.
  pub insert_refines :
      (t : AvlTree K) (key : K)
      → IsStrict t.compare
      → IsValid t
      → let t' = record t { root = insert_node t.compare true t.root key } in
        (insert true (some t) (some key) ≡ some t')
        × IsValid t'
        × (keys t'.root ≡ insert_key t.compare key (keys t.root))
  unfolding insert
  insert_refines t key o v =
      let e = keys-insert_node t.compare o t.root key v.balanced v.ascending in
      (
        refl,
        record {
          balanced = (insert_node-Grown t.compare true t.root key v.balanced).avl;
          ascending =
              subst (IsAscending t.compare) (sym e)
                (insert_key-IsAscending t.compare o key (keys t.root) v.ascending);
        },
        e,
      )

  -- The tree after `remove`.
  abbrev pub removed : AvlTree K → K → AvlTree K
  removed t key =
      if found t.compare t.root key then record t { root = remove_node t.compare t.root key } else t

  -- On a valid AVL tree under a strict compare function, remove refines the removal from the
  -- ascending list of the keys, which changes nothing where the key is not there, and the tree
  -- stays valid.
  pub remove_refines :
      (t : AvlTree K) (key : K)
      → IsStrict t.compare
      → IsValid t
      → (remove (some t) (some key) ≡ some (removed t key))
        × IsValid (removed t key)
        × (keys (removed t key).root ≡ remove_key t.compare key (keys t.root))
  unfolding remove
  remove_refines t key o v = elim (Bool-cases (found t.compare t.root key)) [
    | inl present ↦
        let e = keys-remove_node t.compare o t.root key v.balanced v.ascending in
        rw present (
          refl,
          record {
            balanced = (remove_node-Shrunk t.compare t.root key v.balanced).avl;
            ascending =
                subst (IsAscending t.compare) (sym e)
                  (remove_key-IsAscending t.compare key (keys t.root) v.ascending);
          },
          e,
        )
    | inr missing ↦
        let f = found-find_key t.compare o t.root key v.ascending in
        rw missing (refl, v, sym (remove_key-absent t.compare key (keys t.root) (sym f ∙ missing)))
  ]

  -- On a valid AVL tree under a strict compare function, search returns null exactly for the keys
  -- that are not in the ascending list, and else a node of the tree whose key compares as equal.
  pub search_refines :
      (t : AvlTree K) (key : K)
      → IsStrict t.compare
      → IsValid t
      → let n = search (some t) (some key) in
        (not (is_null n) ≡ find_key t.compare key (keys t.root))
        × IsSubtree n t.root
        × HasKey t.compare key n
  unfolding search
  search_refines t key o v = (
    found-find_key t.compare o t.root key v.ascending,
    search_node-IsSubtree t.compare o t.root key,
    search_node-HasKey t.compare o t.root key,
  )

  half_height :
      (l : Node K) (k : K) (h : ℕ) (r : Node K) (m : ℕ)
      → IsAvl (node l k h r)
      → h ≡ m + 2
      → (m / 2 ≤ get_height l / 2) × (m / 2 ≤ get_height r / 2)
  half_height l k h r m v e = omega arith

  pow-half_height : (t : Node K) → IsAvl t → 2 ^ (get_height t / 2) ≤ length (keys t) + 1
  pow-half_height nil v = omega arith
  pow-half_height (node l k h r) v = elim (dec_lt h 2) [
    | yes low ↦ rw (small low) (omega arith)
    | no high ↦
        let (p, q) = half_height l k h r (h - 2) v (omega arith) in
        rw (large high) (
          omega (
            arith,
            pow-suc 2 ((h - 2) / 2),
            pow-le-pow_right {n = 2} (omega arith) {i = (h - 2) / 2} {j = get_height l / 2} p,
            pow-le-pow_right {n = 2} (omega arith) {i = (h - 2) / 2} {j = get_height r / 2} q,
            pow-half_height l v.3,
            pow-half_height r v.4,
            length-append (keys l) (k ∷ keys r),
          ))
  ]
    where
      small : h < 2 → h / 2 ≡ 0
      small p = omega arith

      large : ¬ (h < 2) → h / 2 ≡ suc ((h - 2) / 2)
      large p = omega arith

  -- The nodes on a longest way from the root down.
  abbrev pub depth : Node K → ℕ
  depth nil = 0
  depth (node l k h r) = max (depth l) (depth r) + 1

  get_height-depth : (t : Node K) → IsAvl t → get_height t ≡ depth t
  get_height-depth nil v = refl
  get_height-depth (node l k h r) v =
      omega (arith, v.0, get_height-depth l v.3, get_height-depth r v.4)

  -- getHeight of a valid AVL tree is the number of nodes on a longest way from the root down, and
  -- two to half of it exceeds the number of the keys by one at most: the height is logarithmic.
  pub tree_height_bound :
      (t : AvlTree K)
      → IsValid t
      → (tree_height (some t) ≡ depth t.root)
        × (2 ^ (tree_height (some t) / 2) ≤ length (keys t.root) + 1)
  unfolding tree_height
  tree_height_bound t v = (get_height-depth t.root v.balanced, pow-half_height t.root v.balanced)

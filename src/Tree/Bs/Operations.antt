-- ===== src/Tree/Bs/Operations.antt =====
-- What `insert`, `search` and `destroy` of the binary search tree do on a sorted tree.
use mathlib.Core.List.{append_assoc}
use foo.Prelude.{
  ◌≡◌, refl, sym, ap, ◌∙◌, subst, ◌⊎◌, inl, inr, Bool, true, some, List, [], ◌∷◌, ◌++◌, arith,
  count, count-append,
}
use foo.Tree.Bs.{
  Node, nil, node, BsTree, create_node, insert_node, search_node, search, insert, minimum, maximum,
  get_minimum, get_maximum, destroy, destroy_node,
}
use foo.Heap.Compare.{is_same}
use foo.Tree.Avl.Sorted.{IsStrict}
use foo.Tree.Bs.Sorted.{insert_key, AllDiffer, IsSorted, insert_key-IsSorted}
use foo.Tree.Bs.Contents.{
  keys, keys-insert_node, search_node-nil, search_node-IsSubtree, search_node-HasKey, IsSubtree,
  HasKey,
}

module _ {K : Type 0} where
  -- On a sorted binary search tree under a strict compare function, with memory for a node, insert
  -- puts the key into the sorted list of the keys, after those that compare as equal, and the keys
  -- stay sorted.
  pub insert_keeps_IsSorted :
      (t : BsTree K) (key : K)
      → IsStrict t.compare
      → IsSorted t.compare (keys t.root)
      → let t' = record t { root = insert_node t.compare t.root key } in
        (insert true (some t) key ≡ some t')
        × (keys t'.root ≡ insert_key t.compare key (keys t.root))
        × IsSorted t.compare (keys t'.root)
  unfolding insert create_node
  insert_keeps_IsSorted t key o v =
      let e = keys-insert_node t.compare o t.root key v in
      (
        refl,
        e,
        subst (IsSorted t.compare) (sym e) (insert_key-IsSorted t.compare o key (keys t.root) v),
      )

  -- On a sorted binary search tree under a strict compare function, either search returns null and
  -- no key of the tree compares as equal, or it returns a node of the tree whose key does.
  pub search_finds :
      (t : BsTree K) (key : K)
      → IsStrict t.compare
      → IsSorted t.compare (keys t.root)
      → let n = search (some t) (some key) in
        ((n ≡ nil) × AllDiffer t.compare (keys t.root) key)
        ⊎ ((l : Node K) × (k : K) × (r : Node K) × (n ≡ node l k r)
            × (is_same (t.compare k key) ≡ true)
            × IsSubtree n t.root)
  unfolding search
  search_finds t key o v =
      go (search_node t.compare t.root key) refl (search_node-HasKey t.compare t.root key)
    where
      go :
          (n : Node K)
          → search_node t.compare t.root key ≡ n
          → HasKey t.compare key n
          → ((search_node t.compare t.root key ≡ nil) × AllDiffer t.compare (keys t.root) key)
            ⊎ ((l : Node K) × (k : K) × (r : Node K) × (search_node t.compare t.root key
                  ≡ node l k r)
                × (is_same (t.compare k key) ≡ true)
                × IsSubtree (search_node t.compare t.root key) t.root)
      go nil e h = inl (e, search_node-nil t.compare o t.root key v e)
      go (node l k r) e h = inr (l, k, r, e, h, search_node-IsSubtree t.compare t.root key)

  count-destroy_node : (p : K → Bool) (t : Node K) → count p (destroy_node t) ≡ count p (keys t)
  unfolding destroy_node
  count-destroy_node p nil = refl
  count-destroy_node p (node l k r) = omega (
    arith,
    count-append p (destroy_node l) (destroy_node r ++ k ∷ []),
    count-append p (destroy_node r) (k ∷ []),
    count-append p (keys l) (k ∷ keys r),
    count-destroy_node p l,
    count-destroy_node p r,
  )

  -- `destroy` deletes every node of the tree once: the deleted keys are the keys of the tree.
  pub count-destroy :
      (p : K → Bool) (t : BsTree K) → count p (destroy (some t)) ≡ count p (keys t.root)
  unfolding destroy
  count-destroy p t = count-destroy_node p t.root

  get_minimum_first :
      (l : Node K) (k : K) (r : Node K)
      → (y : K) × (ks : List K) × (get_minimum (node l k r) ≡ some y) × (keys (node l k r) ≡ y ∷ ks)
  unfolding get_minimum
  get_minimum_first nil k r = (k, keys r, refl, refl)
  get_minimum_first (node a j b) k r =
      let (y, ks, e, f) = get_minimum_first a j b in
      (y, ks ++ k ∷ keys r, e, ap (λ xs. xs ++ k ∷ keys r) f)

  get_maximum_last :
      (l : Node K) (k : K) (r : Node K)
      → (z : K) × (ks : List K) × (get_maximum (node l k r) ≡ some z)
        × (keys (node l k r) ≡ ks ++ z ∷ [])
  unfolding get_maximum
  get_maximum_last l k nil = (k, keys l, refl, refl)
  get_maximum_last l k (node a j b) =
      let (z, ks, e, f) = get_maximum_last a j b in
      (
        z,
        keys l ++ k ∷ ks,
        e,
        ap (λ xs. keys l ++ k ∷ xs) f ∙ sym (append_assoc (keys l) (k ∷ ks) (z ∷ [])),
      )

  -- getMinimum of a binary search tree that is not empty returns the first key in order, and
  -- getMaximum the last.
  minimum-maximum :
      (t : BsTree K) (l : Node K) (k : K) (r : Node K)
      → t.root ≡ node l k r
      → ((y : K) × (ks : List K) × (minimum (some t) ≡ some y) × (keys t.root ≡ y ∷ ks))
        × ((z : K) × (ks : List K) × (maximum (some t) ≡ some z) × (keys t.root ≡ ks ++ z ∷ []))
  unfolding minimum maximum
  minimum-maximum t l k r e = rw e (get_minimum_first l k r, get_maximum_last l k r)

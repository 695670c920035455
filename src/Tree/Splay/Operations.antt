-- ===== src/Tree/Splay/Operations.antt =====
-- What `insert`, `remove`, `search` and `splay` of the splay tree do to an ascending tree.
use mathlib.Core.List.{append_assoc}
use foo.Prelude.{
  ◌≡◌, ◌⊎◌, not, refl, sym, ap, ◌∙◌, subst, true, some, [], ◌∷◌, ◌++◌, arith, Bool-cases, inl, inr,
}
use foo.Heap.Compare.{Sign, is_neg, is_same}
use foo.Tree.Avl.Sorted.{
  IsStrict, insert_key, remove_key, find_key, IsAscending, AllBefore, insert_key-before,
  insert_key-after, remove_key-after, find_key-before, find_key-after, insert_key-IsAscending,
  remove_key-IsAscending, IsAscending-left, IsAscending-right, AllBefore-of_not_neg,
  remove_key-absent,
}
use foo.Tree.Splay.{
  Node, nil, node, SplayTree, create_node, insert_node, search_node, found, is_null, splay_node,
  insert_splay, without_root, remove_node, search, insert, remove, splay,
}
use foo.Tree.Splay.Keys.{keys, keys-splay_node}
use foo.Tree.Splay.Root.{root_is, right_null, root_is-splay_node, right_null-splay_node}

-- The node is null, or a node of the tree with all that is below it.
abbrev pub IsSubtree : {K : Type 0} → Node K → Node K → Type 0
IsSubtree n nil = n ≡ nil
IsSubtree n (node l k r) = (n ≡ node l k r) ⊎ IsSubtree n l ⊎ IsSubtree n r

-- The node is null, or its key compares as equal.
abbrev pub HasKey : {K : Type 0} → (K → K → Sign) → K → Node K → Type 0
HasKey cmp key nil = Unit {0}
HasKey cmp key (node l k r) = is_same (cmp k key) ≡ true

module _ {K : Type 0} (cmp : K → K → Sign) (o : IsStrict cmp) where
  found-find_key :
      (t : Node K) (key : K)
      → IsAscending cmp (keys t)
      → found cmp t key ≡ find_key cmp key (keys t)
  unfolding search_node find_key
  found-find_key nil key v = refl
  found-find_key (node l k r) key v = elim (Bool-cases (is_neg (cmp key k))) [
    | inl low ↦ ground (
      arith,
      o.swapped key k,
      found-find_key l key (IsAscending-left cmp (keys l) (k ∷ keys r) v),
      find_key-before cmp key k (keys l) (keys r),
    )
    | inr high ↦ ground (
      arith,
      o.swapped key k,
      found-find_key r key (IsAscending-right cmp (keys l) k (keys r) v),
      find_key-after cmp key (keys l) (k ∷ keys r)
          (AllBefore-of_not_neg cmp o key k (keys l) (keys r) v high),
    )
  ]

  -- The search ends at a subtree, whose root has the key.
  search_node-IsSubtree : (t : Node K) (key : K) → IsSubtree (search_node cmp t key) t
  unfolding search_node
  search_node-IsSubtree nil key = refl
  search_node-IsSubtree (node l k r) key = elim (Bool-cases (is_same (cmp k key))) [
    | inl hit ↦ rw (search_node, hit) (inl refl)
    | inr miss ↦ elim (Bool-cases (is_neg (cmp key k))) [
      | inl low ↦
          let step : search_node cmp (node l k r) key ≡ search_node cmp l key =
            rw (search_node, miss, low) refl in
          subst (λ n. IsSubtree n (node l k r)) (sym step) (inr (inl (search_node-IsSubtree l key)))
      | inr high ↦
          let step : search_node cmp (node l k r) key ≡ search_node cmp r key =
            rw (search_node, miss, high) refl in
          subst (λ n. IsSubtree n (node l k r)) (sym step) (inr (inr (search_node-IsSubtree r key)))
    ]
  ]

  search_node-HasKey : (t : Node K) (key : K) → HasKey cmp key (search_node cmp t key)
  unfolding search_node
  search_node-HasKey nil key = tt
  search_node-HasKey (node l k r) key = elim (Bool-cases (is_same (cmp k key))) [
    | inl hit ↦ rw (search_node, hit) hit
    | inr miss ↦ elim (Bool-cases (is_neg (cmp key k))) [
      | inl low ↦ rw (search_node, miss, low) (search_node-HasKey l key)
      | inr high ↦ rw (search_node, miss, high) (search_node-HasKey r key)
    ]
  ]

  keys-insert_node :
      (t : Node K) (key : K)
      → IsAscending cmp (keys t)
      → keys (insert_node cmp t key) ≡ insert_key cmp key (keys t)
  unfolding insert_node insert_key
  keys-insert_node nil key v = refl
  keys-insert_node (node l k r) key v = elim (Bool-cases (is_neg (cmp key k))) [
    | inl low ↦ ground (
      arith,
      keys-insert_node l key (IsAscending-left cmp (keys l) (k ∷ keys r) v),
      insert_key-before cmp key k (keys l) (keys r),
    )
    | inr high ↦ ground (
      arith,
      keys-insert_node r key (IsAscending-right cmp (keys l) k (keys r) v),
      insert_key-after cmp key (keys l) (k ∷ keys r)
          (AllBefore-of_not_neg cmp o key k (keys l) (keys r) v high),
    )
  ]

  -- The last key of the left subtree takes the place of the root.
  keys-without_root :
      (l : Node K) (k : K) (r : Node K) (key : K)
      → AllBefore cmp key (keys l)
      → keys (without_root cmp (node l k r) key) ≡ keys l ++ keys r
  unfolding without_root
  keys-without_root nil k r key v = refl
  keys-without_root (node a j b) k r key v =
      go (splay_node cmp (node a j b) key) (right_null-splay_node cmp key (node a j b) refl v)
        (keys-splay_node cmp key (node a j b))
    where
      go :
          (x : Node K)
          → right_null cmp key x ≡ true
          → keys x ≡ keys (node a j b)
          → keys (elim x [ nil ↦ r | node xl xk xr ↦ node xl xk r ]) ≡ keys (node a j b) ++ keys r
      go nil e f = absurd cc
      go (node xl xk nil) e f =
          sym (append_assoc (keys xl) (xk ∷ []) (keys r)) ∙ ap (λ xs. xs ++ keys r) f
      go (node xl xk (node c m d)) e f = absurd cc

  keys-without_splayed :
      (s : Node K) (key : K)
      → root_is cmp key s ≡ true
      → IsAscending cmp (keys s)
      → keys (without_root cmp s key) ≡ remove_key cmp key (keys s)
  unfolding remove_key
  keys-without_splayed nil key e v = absurd cc
  keys-without_splayed (node l k r) key e v =
      let before = AllBefore-of_not_neg cmp o key k (keys l) (keys r) v (ground arith) in
      keys-without_root l k r key before
      ∙ sym (
          remove_key-after cmp key (keys l) (k ∷ keys r) before
          ∙ ap (λ xs. keys l ++ xs) (ground arith))

  keys-remove_node :
      (t : Node K) (key : K)
      → IsAscending cmp (keys t)
      → keys (remove_node cmp t key) ≡ remove_key cmp key (keys t)
  unfolding remove_node
  keys-remove_node nil key v = unfold remove_key in refl
  keys-remove_node (node l k r) key v =
      let t = node l k r in
      let f = found-find_key t key v in
      elim (Bool-cases (found cmp t key)) [
        | inl present ↦
            let e = keys-splay_node cmp key t in
            rw present (
              keys-without_splayed (splay_node cmp t key) key
                (root_is-splay_node cmp key o t present) (subst (IsAscending cmp) (sym e) v)
              ∙ ap (remove_key cmp key) e)
        | inr missing ↦ rw missing (sym (remove_key-absent cmp key (keys t) (sym f ∙ missing)))
      ]

  root_is-found :
      (s : Node K) (key : K)
      → IsAscending cmp (keys s)
      → root_is cmp key s ≡ true
      → find_key cmp key (keys s) ≡ true
  unfolding find_key
  root_is-found nil key v e = absurd cc
  root_is-found (node l k r) key v e =
      find_key-after cmp key (keys l) (k ∷ keys r)
        (AllBefore-of_not_neg cmp o key k (keys l) (keys r) v (ground arith))
      ∙ ground arith

  root_is-find_key :
      (s : Node K) (key : K)
      → IsAscending cmp (keys s)
      → (find_key cmp key (keys s) ≡ true → root_is cmp key s ≡ true)
      → root_is cmp key s ≡ find_key cmp key (keys s)
  root_is-find_key s key v back = elim (Bool-cases (root_is cmp key s)) [
    | inl e ↦ e ∙ sym (root_is-found s key v e)
    | inr e ↦ elim (Bool-cases (find_key cmp key (keys s))) [
      | inl f ↦ back f ∙ sym f
      | inr f ↦ e ∙ sym f
    ]
  ]

module _ {K : Type 0} where
  -- On a splay tree with strictly ascending keys under a strict compare function, with memory for
  -- a node, insert refines the insertion into the list of the keys, which leaves an existing key
  -- alone, and the keys stay ascending.
  pub insert_refines_list :
      (t : SplayTree K) (key : K)
      → IsStrict t.compare
      → IsAscending t.compare (keys t.root)
      → let t' = record t { root = insert_splay t.compare true t.root key } in
        (insert true (some t) key ≡ some t')
        × (keys t'.root ≡ insert_key t.compare key (keys t.root))
        × IsAscending t.compare (keys t'.root)
  unfolding insert insert_splay create_node
  insert_refines_list t key o v =
      let e =
        keys-splay_node t.compare key (insert_node t.compare t.root key)
        ∙ keys-insert_node t.compare o t.root key v in
      (
        refl,
        e,
        subst (IsAscending t.compare) (sym e)
            (insert_key-IsAscending t.compare o key (keys t.root) v),
      )

  -- On a splay tree with strictly ascending keys under a strict compare function, remove refines
  -- the removal from the list of the keys, which changes nothing where the key is not there, and
  -- the keys stay ascending.
  pub remove_refines_list :
      (t : SplayTree K) (key : K)
      → IsStrict t.compare
      → IsAscending t.compare (keys t.root)
      → let t' = record t { root = remove_node t.compare t.root key } in
        (remove (some t) key ≡ some t')
        × (keys t'.root ≡ remove_key t.compare key (keys t.root))
        × IsAscending t.compare (keys t'.root)
  unfolding remove
  remove_refines_list t key o v =
      let e = keys-remove_node t.compare o t.root key v in
      (
        refl,
        e,
        subst (IsAscending t.compare) (sym e)
            (remove_key-IsAscending t.compare key (keys t.root) v),
      )

  -- On a splay tree with strictly ascending keys under a strict compare function, splay keeps the
  -- keys in their order, and afterwards the root compares as equal to the key if and only if the
  -- key is in the tree.
  pub splay_brings_to_root :
      (t : SplayTree K) (key : K)
      → IsStrict t.compare
      → IsAscending t.compare (keys t.root)
      → let t' = record t { root = splay_node t.compare t.root key } in
        (splay (some t) key ≡ some t')
        × (keys t'.root ≡ keys t.root)
        × (root_is t.compare key t'.root ≡ find_key t.compare key (keys t.root))
  unfolding splay
  splay_brings_to_root t key o v =
      let e = keys-splay_node t.compare key t.root in
      (
        refl,
        e,
        root_is-find_key t.compare o (splay_node t.compare t.root key) key
              (subst (IsAscending t.compare) (sym e) v)
              (λ f.
                root_is-splay_node t.compare key o t.root (
                  found-find_key t.compare o t.root key v
                  ∙ ap (find_key t.compare key) (sym e)
                  ∙ f))
            ∙ ap (find_key t.compare key) e,
      )

  -- On a splay tree with strictly ascending keys under a strict compare function, search returns
  -- null exactly for the keys that are not in the list, and else a node of the tree whose key
  -- compares as equal.
  pub search_refines_list :
      (t : SplayTree K) (key : K)
      → IsStrict t.compare
      → IsAscending t.compare (keys t.root)
      → let n = search (some t) key in
        (not (is_null n) ≡ find_key t.compare key (keys t.root))
        × IsSubtree n t.root
        × HasKey t.compare key n
  unfolding search
  search_refines_list t key o v = (
    found-find_key t.compare o t.root key v,
    search_node-IsSubtree t.compare o t.root key,
    search_node-HasKey t.compare o t.root key,
  )

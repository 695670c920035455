-- ===== src/Tree/Avl/Contents.antt =====
-- The operations of the AVL tree on the ascending list of its keys.
use mathlib.Core.List.{append-nil, append_assoc}
use foo.Prelude.{
  ◌≡◌, ◌⊎◌, refl, sym, ap, ◌∙◌, subst, true, false, List, [], ◌∷◌, ◌++◌, arith, not, ◌&&◌, ltb,
  Bool-cases, inl, inr,
}
use foo.Heap.Compare.{Sign, neg, same, pos, is_pos, is_neg, is_same}
use foo.Tree.Avl.{
  Node, nil, node, get_height, is_null, refresh, insert_node, remove_node, search_node, found,
  key_or_max, key_or_min,
}
use foo.Tree.Avl.Rotations.{keys, IsAvl}
use foo.Tree.Avl.Insertion.{insert_left-Grown, insert_right-Grown, insert_node-Grown, refresh-node}
use foo.Tree.Avl.Removal.{rebalance-Balanced, only_child-Balanced, remove_node-Shrunk}
use foo.Tree.Avl.Sorted.{
  IsStrict, compare_self, insert_key, remove_key, find_key, AllBefore, IsAscending,
  insert_key-before, insert_key-after, remove_key-before, remove_key-after, find_key-before,
  find_key-after, IsAscending-left, IsAscending-right, AllBefore-of_not_neg, opposite,
}

neg_of : (s : Sign) → is_neg s ≡ true → s ≡ neg
neg_of neg e = refl
neg_of same e = cc
neg_of pos e = cc

-- The node is null, or a node of the tree with all that is below it.
abbrev pub IsSubtree : {K : Type 0} → Node K → Node K → Type 0
IsSubtree n nil = n ≡ nil
IsSubtree n (node l k h r) = (n ≡ node l k h r) ⊎ IsSubtree n l ⊎ IsSubtree n r

-- The node is null, or its key compares as equal.
abbrev pub HasKey : {K : Type 0} → (K → K → Sign) → K → Node K → Type 0
HasKey cmp key nil = Unit {0}
HasKey cmp key (node l k h r) = is_same (cmp k key) ≡ true

module _ {K : Type 0} (cmp : K → K → Sign) (o : IsStrict cmp) where
  -- `insert` with memory inserts the key into the list of keys.
  pub keys-insert_node :
      (t : Node K) (key : K)
      → IsAvl t
      → IsAscending cmp (keys t)
      → keys (insert_node cmp true t key) ≡ insert_key cmp key (keys t)
  unfolding insert_node
  keys-insert_node nil key v a = unfold refresh insert_key in refl
  keys-insert_node (node l k h r) key v a = elim (Bool-cases (is_neg (cmp key k))) [
    | inl n ↦
        rw (n, insert_node)
          ((insert_left-Grown cmp key l _ k h r n v (insert_node-Grown cmp true l key v.3)).1
            ∙ ap (λ xs. xs ++ (k ∷ keys r))
                (keys-insert_node l key v.3 (IsAscending-left cmp (keys l) _ a))
            ∙ sym (insert_key-before cmp key k (keys l) (keys r) (neg_of _ n)))
    | inr n ↦
        let before = AllBefore-of_not_neg cmp o key k (keys l) (keys r) a n in
        elim (Bool-cases (is_pos (cmp key k))) [
          | inl p ↦
              rw (n, p, insert_node)
                ((insert_right-Grown cmp key l k h r _ n p v
                    (insert_node-Grown cmp true r key v.4)).1
                  ∙ ap (λ xs. keys l ++ (k ∷ xs))
                      (keys-insert_node r key v.4 (IsAscending-right cmp (keys l) k (keys r) a))
                  ∙ sym (
                      insert_key-after cmp key (keys l) (k ∷ keys r) before
                      ∙ unfold insert_key in rw (n, p)))
          | inr q ↦
              rw (n, q, refresh-node cmp l k h r v)
                (sym (
                  insert_key-after cmp key (keys l) (k ∷ keys r) before
                  ∙ unfold insert_key in rw (n, q)))
        ]
  ]

  -- The search of the tree is the search of its list of keys.
  pub found-find_key :
      (t : Node K) (key : K)
      → IsAscending cmp (keys t)
      → found cmp t key ≡ find_key cmp key (keys t)
  unfolding search_node
  found-find_key nil key a = unfold find_key in refl
  found-find_key (node l k h r) key a =
      go (cmp key k) refl (o.swapped key k)
        (found-find_key l key (IsAscending-left cmp (keys l) _ a))
        (found-find_key r key (IsAscending-right cmp (keys l) k (keys r) a))
    where
      go :
          (s : Sign)
          → cmp key k ≡ s
          → cmp k key ≡ opposite (cmp key k)
          → found cmp l key ≡ find_key cmp key (keys l)
          → found cmp r key ≡ find_key cmp key (keys r)
          → found cmp (node l k h r) key ≡ find_key cmp key (keys l ++ (k ∷ keys r))
      go neg e f in_l in_r = rw (find_key-before cmp key k (keys l) (keys r) e, f, e) in_l
      go same e f in_l in_r =
          rw (find_key-after cmp key (keys l) (k ∷ keys r) (before e), f, e)
            (unfold find_key in rw e)
        where
          before : cmp key k ≡ same → AllBefore cmp key (keys l)
          before e = AllBefore-of_not_neg cmp o key k (keys l) (keys r) a (ap is_neg e)
      go pos e f in_l in_r =
          rw (find_key-after cmp key (keys l) (k ∷ keys r) (before e), f, e)
            (unfold find_key in rw e in_r)
        where
          before : cmp key k ≡ pos → AllBefore cmp key (keys l)
          before e = AllBefore-of_not_neg cmp o key k (keys l) (keys r) a (ap is_neg e)

  -- The search ends at a subtree, whose root has the key.
  pub search_node-IsSubtree : (t : Node K) (key : K) → IsSubtree (search_node cmp t key) t
  unfolding search_node
  search_node-IsSubtree nil key = refl
  search_node-IsSubtree (node l k h r) key = elim (Bool-cases (is_same (cmp k key))) [
    | inl hit ↦ rw (search_node, hit) (inl refl)
    | inr miss ↦ elim (Bool-cases (is_neg (cmp key k))) [
      | inl low ↦
          let step : search_node cmp (node l k h r) key ≡ search_node cmp l key =
            rw (search_node, miss, low) refl in
          subst (λ n. IsSubtree n (node l k h r)) (sym step)
            (inr (inl (search_node-IsSubtree l key)))
      | inr high ↦
          let step : search_node cmp (node l k h r) key ≡ search_node cmp r key =
            rw (search_node, miss, high) refl in
          subst (λ n. IsSubtree n (node l k h r)) (sym step)
            (inr (inr (search_node-IsSubtree r key)))
    ]
  ]

  pub search_node-HasKey : (t : Node K) (key : K) → HasKey cmp key (search_node cmp t key)
  unfolding search_node
  search_node-HasKey nil key = tt
  search_node-HasKey (node l k h r) key = elim (Bool-cases (is_same (cmp k key))) [
    | inl hit ↦ rw (search_node, hit) hit
    | inr miss ↦ elim (Bool-cases (is_neg (cmp key k))) [
      | inl low ↦ rw (search_node, miss, low) (search_node-HasKey l key)
      | inr high ↦ rw (search_node, miss, high) (search_node-HasKey r key)
    ]
  ]

  -- The last and the first key of a tree.
  last_key :
      (t : Node K) (d : K)
      → is_null t ≡ false
      → (xs : List K) × (keys t ≡ xs ++ (key_or_max t d ∷ []))
  last_key nil d e = cc
  last_key (node l k h nil) d e = (keys l, refl)
  last_key (node l k h (node b j i c)) d e =
      let (xs, f) = last_key (node b j i c) k refl in
      (keys l ++ (k ∷ xs), ap (λ ys. keys l ++ (k ∷ ys)) f ∙ sym (append_assoc (keys l) (k ∷ xs) _))

  first_key :
      (t : Node K) (d : K) → is_null t ≡ false → (xs : List K) × (keys t ≡ key_or_min t d ∷ xs)
  first_key nil d e = cc
  first_key (node nil k h r) d e = (keys r, refl)
  first_key (node (node b j i c) k h r) d e =
      let (xs, f) = first_key (node b j i c) k refl in
      (xs ++ (k ∷ keys r), ap (λ ys. ys ++ (k ∷ keys r)) f)

  remove_last :
      (m : K) (xs ys : List K)
      → ys ≡ xs ++ (m ∷ [])
      → IsAscending cmp ys
      → remove_key cmp m ys ++ (m ∷ []) ≡ ys
  remove_last m xs ys e a =
      rw
        (
          e,
          remove_key-after cmp m xs (m ∷ []) (
              AllBefore-of_not_neg cmp o m m xs [] (subst (IsAscending cmp) e a)
                (ap is_neg (compare_self cmp o m))),
        )
        (unfold remove_key in rw (compare_self cmp o m, append-nil))

  remove_first : (m : K) (xs ys : List K) → ys ≡ m ∷ xs → m ∷ remove_key cmp m ys ≡ ys
  remove_first m xs ys e = rw e (unfold remove_key in rw (compare_self cmp o m))

  -- `removeNode` takes out of the keys the one that compares as equal, and no other.
  pub keys-remove_node :
      (t : Node K) (key : K)
      → IsAvl t
      → IsAscending cmp (keys t)
      → keys (remove_node cmp t key) ≡ remove_key cmp key (keys t)
  unfolding remove_node
  keys-remove_node nil key v a = unfold remove_key in refl
  keys-remove_node (node l k h r) key v a =
      let left = IsAscending-left cmp (keys l) (k ∷ keys r) a in
      let right = IsAscending-right cmp (keys l) k (keys r) a in
      elim (Bool-cases (is_neg (cmp key k))) [
        | inl n ↦
            let s = remove_node-Shrunk cmp l key v.3 in
            rw (n, remove_node)
              ((rebalance-Balanced cmp (remove_node cmp l key) k r s.avl v.4 (omega arith)
                  (omega arith)).same
                ∙ ap (λ xs. xs ++ (k ∷ keys r)) (keys-remove_node l key v.3 left)
                ∙ sym (remove_key-before cmp key k (keys l) (keys r) (neg_of _ n)))
        | inr n ↦
            let before = AllBefore-of_not_neg cmp o key k (keys l) (keys r) a n in
            let passed = remove_key-after cmp key (keys l) (k ∷ keys r) before in
            elim (Bool-cases (is_pos (cmp key k))) [
              | inl p ↦
                  let s = remove_node-Shrunk cmp r key v.4 in
                  rw (n, p, remove_node)
                    ((rebalance-Balanced cmp l k (remove_node cmp r key) v.3 s.avl (omega arith)
                        (omega arith)).same
                      ∙ ap (λ xs. keys l ++ (k ∷ xs)) (keys-remove_node r key v.4 right)
                      ∙ sym (passed ∙ unfold remove_key in rw (n, p)))
              | inr q ↦
                  let gone : remove_key cmp key (keys l ++ (k ∷ keys r)) ≡ keys l ++ keys r =
                    passed ∙ unfold remove_key in rw (n, q) in
                  elim (Bool-cases (not (is_null l) && not (is_null r))) [
                    | inr single ↦
                        rw (n, q, single, remove_node)
                          ((only_child-Balanced cmp l r v.3 v.4 single).same ∙ sym gone)
                    | inl both ↦ elim (Bool-cases (ltb (get_height r) (get_height l))) [
                      | inl by_max ↦
                          let m = key_or_max l k in
                          let s = remove_node-Shrunk cmp l m v.3 in
                          let (xs, e) = last_key l k (ground arith) in
                          rw (n, q, both, by_max, remove_node)
                            ((rebalance-Balanced cmp (remove_node cmp l m) m r s.avl v.4
                                (omega arith) (omega arith)).same
                              ∙ ap (λ xs. xs ++ (m ∷ keys r)) (keys-remove_node l m v.3 left)
                              ∙ sym (append_assoc (remove_key cmp m (keys l)) (m ∷ []) (keys r))
                              ∙ ap (λ xs. xs ++ keys r) (remove_last m xs (keys l) e left)
                              ∙ sym gone)
                      | inr by_min ↦
                          let m = key_or_min r k in
                          let s = remove_node-Shrunk cmp r m v.4 in
                          let (xs, e) = first_key r k (ground arith) in
                          rw (n, q, both, by_min, remove_node)
                            ((rebalance-Balanced cmp l m (remove_node cmp r m) v.3 s.avl
                                (omega arith) (omega arith)).same
                              ∙ ap (λ xs. keys l ++ (m ∷ xs)) (keys-remove_node r m v.4 right)
                              ∙ ap (λ xs. keys l ++ xs) (remove_first m xs (keys r) e)
                              ∙ sym gone)
                    ]
                  ]
            ]
      ]

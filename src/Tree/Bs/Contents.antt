-- ===== src/Tree/Bs/Contents.antt =====
-- What the walks of the binary search tree do to its keys in order.

use foo.Prelude.{
  ◌≡◌, ◌⊎◌, subst, refl, sym, ap, ◌∙◌, inl, inr, true, false, List, [], ◌∷◌, ◌++◌, arith,
  Bool-cases,
}
use foo.Heap.Compare.{Sign, is_neg, is_same}
use foo.Tree.Bs.{Node, nil, node, insert_node, search_node}
use foo.Tree.Avl.Sorted.{IsStrict}
use foo.Tree.Bs.Sorted.{
  insert_key, AllDiffer, IsSorted, IsSorted-split, insert_key-left, insert_key-right,
  AllDiffer-from, AllDiffer-to,
}

-- The node is null, or a node of the tree with all that is below it.
abbrev pub IsSubtree : {K : Type 0} → Node K → Node K → Type 0
IsSubtree n nil = n ≡ nil
IsSubtree n (node l k r) = (n ≡ node l k r) ⊎ IsSubtree n l ⊎ IsSubtree n r

-- The node is null, or its key compares as equal.
abbrev pub HasKey : {K : Type 0} → (K → K → Sign) → K → Node K → Type 0
HasKey cmp key nil = Unit {0}
HasKey cmp key (node l k r) = is_same (cmp k key) ≡ true

module _ {K : Type 0} where
  -- The keys in order.
  abbrev pub keys : Node K → List K
  keys nil = []
  keys (node l k r) = keys l ++ k ∷ keys r

module _ {K : Type 0} (cmp : K → K → Sign) where
  pub keys-insert_node :
      IsStrict cmp
      → (t : Node K) (key : K) → IsSorted cmp (keys t)
      → keys (insert_node cmp t key) ≡ insert_key cmp key (keys t)
  unfolding insert_node insert_key
  keys-insert_node o nil key v = refl
  keys-insert_node o (node l k r) key v =
      let (below, low, above, high) = IsSorted-split cmp (keys l) k (keys r) v in
      elim (Bool-cases (is_neg (cmp key k))) [
        | inl e ↦ rw e (
            ap (λ xs. xs ++ k ∷ keys r) (keys-insert_node o l key low)
            ∙ sym (insert_key-left cmp key (keys l) k (keys r) e))
        | inr e ↦ rw e (
            ap (λ xs. keys l ++ k ∷ xs) (keys-insert_node o r key high)
            ∙ sym (insert_key-right cmp o key (keys l) k (keys r) below e))
      ]

  -- The search ends at a subtree, whose root has the key.
  pub search_node-IsSubtree : (t : Node K) (key : K) → IsSubtree (search_node cmp t key) t
  unfolding search_node
  search_node-IsSubtree nil key = refl
  search_node-IsSubtree (node l k r) key = elim (Bool-cases (is_same (cmp k key))) [
    | inl hit ↦ rw (search_node, hit) (inl refl)
    | inr miss ↦ elim (Bool-cases (is_neg (cmp key k))) [
      | inl low ↦
          let step : search_node cmp (node l k r) key ≡ search_node cmp l key =
            rw (search_node, miss, low) refl in
          subst (λ n. IsSubtree n (node l k r)) (sym step) (inr (inl (search_node-IsSubtree l key)))
      | inr high ↦
          let step : search_node cmp (node l k r) key ≡ search_node cmp r key =
            rw (search_node, miss, high) refl in
          subst (λ n. IsSubtree n (node l k r)) (sym step) (inr (inr (search_node-IsSubtree r key)))
    ]
  ]

  pub search_node-HasKey : (t : Node K) (key : K) → HasKey cmp key (search_node cmp t key)
  unfolding search_node
  search_node-HasKey nil key = tt
  search_node-HasKey (node l k r) key = elim (Bool-cases (is_same (cmp k key))) [
    | inl hit ↦ rw (search_node, hit) hit
    | inr miss ↦ elim (Bool-cases (is_neg (cmp key k))) [
      | inl low ↦ rw (search_node, miss, low) (search_node-HasKey l key)
      | inr high ↦ rw (search_node, miss, high) (search_node-HasKey r key)
    ]
  ]

  AllDiffer-append :
      (xs : List K) (k : K) (ys : List K) (key : K)
      → AllDiffer cmp xs key
      → is_same (cmp k key) ≡ false
      → AllDiffer cmp ys key
      → AllDiffer cmp (xs ++ k ∷ ys) key
  AllDiffer-append [] k ys key h e g = (e, g)
  AllDiffer-append (x ∷ xs) k ys key h e g = (h.0, AllDiffer-append xs k ys key h.1 e g)

  -- A key that is not found occurs nowhere.
  pub search_node-nil :
      IsStrict cmp
      → (t : Node K) (key : K) → IsSorted cmp (keys t)
      → search_node cmp t key ≡ nil
      → AllDiffer cmp (keys t) key
  unfolding search_node
  search_node-nil o nil key v e = tt
  search_node-nil o (node l k r) key v e =
      let (below, low, above, high) = IsSorted-split cmp (keys l) k (keys r) v in
      elim (Bool-cases (is_same (cmp k key))) [
        | inl same ↦ absurd (ground arith)
        | inr differ ↦ elim (Bool-cases (is_neg (cmp key k))) [
          | inl q ↦
              AllDiffer-append (keys l) k (keys r) key (search_node-nil o l key low (ground arith))
                differ (AllDiffer-from cmp o key k (keys r) q above)
          | inr q ↦
              AllDiffer-append (keys l) k (keys r) key
                (AllDiffer-to cmp o key k (keys l) q differ below) differ
                (search_node-nil o r key high (ground arith))
        ]
      ]

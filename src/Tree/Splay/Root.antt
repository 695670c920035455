-- ===== src/Tree/Splay/Root.antt =====
-- What `splay` brings to the root.
use foo.Prelude.{
  ℕ, zero, suc, ◌≤◌, ◌≡◌, refl, sym, subst, Bool, true, false, List, [], ◌∷◌, ◌++◌, arith,
  Bool-cases, inl, inr,
}
use foo.Heap.Compare.{Sign, neg, same, pos, is_neg, is_pos, is_same}
use foo.Tree.Avl.Sorted.{IsStrict, AllBefore}
use foo.Tree.Splay.{
  Node, nil, node, size, is_null, assemble, fill_right, rotate_right, rotate_left, splay_loop,
  splay_node, search_node, found,
}
use foo.Tree.Splay.Keys.{keys, keys-rotate_left, keys-rotate_right}

module _ {K : Type 0} (cmp : K → K → Sign) (key : K) where
  -- The root's key compares as equal.
  abbrev pub root_is : Node K → Bool
  root_is nil = false
  root_is (node l k r) = is_same (cmp key k)

  -- There is a root, and it has no right child.
  abbrev pub right_null : Node K → Bool
  right_null nil = false
  right_null (node l k r) = is_null r

  search-rotate_right :
      IsStrict cmp
      → (l : Node K) (k : K) (r : Node K) → is_neg (cmp key k) ≡ true
      → found cmp (node l k r) key ≡ true
      → let (a, j, b) = rotate_right cmp key l k r in found cmp a key ≡ true
  unfolding rotate_right search_node
  search-rotate_right o nil k r low e = ground (arith, o.swapped key k)
  search-rotate_right o (node a j b) k r low e = ground (arith, o.swapped key k, o.swapped key j)

  search-rotate_left :
      IsStrict cmp
      → (l : Node K) (k : K) (r : Node K) → is_pos (cmp key k) ≡ true
      → found cmp (node l k r) key ≡ true
      → let (c, m, d) = rotate_left cmp key l k r in found cmp d key ≡ true
  unfolding rotate_left search_node
  search-rotate_left o l k nil high e = ground (arith, o.swapped key k)
  search-rotate_left o l k (node a j b) high e = ground (arith, o.swapped key k, o.swapped key j)

  not_null : (t : Node K) → found cmp t key ≡ true → is_null t ≡ false
  unfolding search_node
  not_null nil e = sym e
  not_null (node l k r) e = refl

  pos_of : (s : Sign) → is_same s ≡ false → is_neg s ≡ false → is_pos s ≡ true
  pos_of neg e f = sym f
  pos_of same e f = sym e
  pos_of pos e f = refl

  root_is-splay_loop :
      IsStrict cmp
      → (fuel : ℕ) (ls : List (Node K × K)) (rs : List (K × Node K)) (root : Node K)
      → size root ≤ fuel
      → found cmp root key ≡ true
      → root_is (splay_loop cmp fuel key ls rs root) ≡ true
  unfolding splay_loop assemble
  root_is-splay_loop o zero ls rs nil h e = absurd (unfold search_node in cc)
  root_is-splay_loop o zero ls rs (node l k r) h e = absurd (omega arith)
  root_is-splay_loop o (suc fuel) ls rs nil h e = absurd (unfold search_node in cc)
  root_is-splay_loop o (suc fuel) ls rs (node l k r) h e =
      let (a, j, b) = rotate_right cmp key l k r in
      let (c, m, d) = rotate_left cmp key l k r in
      let q = (keys-rotate_right cmp key l k r).1 in
      let t = (keys-rotate_left cmp key l k r).1 in
      elim (Bool-cases (is_same (cmp key k))) [
        | inl hit ↦ rw hit hit
        | inr differ ↦ elim (Bool-cases (is_neg (cmp key k))) [
          | inl low ↦
              let f = search-rotate_right o l k r low e in
              rw (differ, low, not_null a f)
                (root_is-splay_loop o fuel ls ((j, b) ∷ rs) a (omega arith) f)
          | inr high ↦
              let f = search-rotate_left o l k r (pos_of (cmp key k) differ high) e in
              rw (differ, high, not_null d f)
                (root_is-splay_loop o fuel ((c, m) ∷ ls) rs d (omega arith) f)
        ]
      ]

  -- A key that is found comes to the root.
  pub root_is-splay_node :
      IsStrict cmp
      → (root : Node K) → found cmp root key ≡ true
      → root_is (splay_node cmp root key) ≡ true
  unfolding splay_node
  root_is-splay_node o root e = root_is-splay_loop o (size root) [] [] root (omega arith) e

  AllBefore-middle :
      (xs : List K) (y : K) (ys : List K) → AllBefore cmp key (xs ++ y ∷ ys) → cmp key y ≡ pos
  AllBefore-middle [] y ys h = h.0
  AllBefore-middle (x ∷ xs) y ys h = AllBefore-middle xs y ys h.1

  AllBefore-right :
      (xs : List K) (y : K) (ys : List K) → AllBefore cmp key (xs ++ y ∷ ys) → AllBefore cmp key ys
  AllBefore-right [] y ys h = h.1
  AllBefore-right (x ∷ xs) y ys h = AllBefore-right xs y ys h.1

  right_null-splay_loop :
      (fuel : ℕ) (ls : List (Node K × K)) (root : Node K)
      → size root ≤ fuel
      → is_null root ≡ false
      → AllBefore cmp key (keys root)
      → right_null (splay_loop cmp fuel key ls [] root) ≡ true
  unfolding splay_loop assemble fill_right
  right_null-splay_loop zero ls nil h e v = absurd cc
  right_null-splay_loop zero ls (node l k r) h e v = absurd (omega arith)
  right_null-splay_loop (suc fuel) ls nil h e v = absurd cc
  right_null-splay_loop (suc fuel) ls (node l k r) h e v =
      let (c, m, d) = rotate_left cmp key l k r in
      let (s, t) = keys-rotate_left cmp key l k r in
      let high = AllBefore-middle (keys l) k (keys r) v in
      let above = AllBefore-right (keys c) m (keys d) (subst (AllBefore cmp key) (sym s) v) in
      elim (Bool-cases (is_null d)) [
        | inl empty ↦ rw (high, empty) empty
        | inr full ↦
            rw (high, full) (right_null-splay_loop fuel ((c, m) ∷ ls) d (omega arith) full above)
      ]

  -- If the key is after all keys of the tree, the last of them comes to the root.
  pub right_null-splay_node :
      (root : Node K)
      → is_null root ≡ false
      → AllBefore cmp key (keys root)
      → right_null (splay_node cmp root key) ≡ true
  unfolding splay_node
  right_null-splay_node root e v = right_null-splay_loop (size root) [] root (omega arith) e v

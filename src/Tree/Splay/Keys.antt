-- ===== src/Tree/Splay/Keys.antt =====
-- `splay` keeps the keys of the tree in their order.
use mathlib.Core.List.{append_assoc, append-nil}
use foo.Prelude.{
  ℕ, zero, suc, ◌≤◌, ◌≡◌, refl, sym, ap, ◌∙◌, false, List, [], ◌∷◌, ◌++◌, arith, Bool-cases, inl,
  inr,
}
use foo.Heap.Compare.{Sign, is_neg, is_pos, is_same}
use foo.Tree.Splay.{
  Node, nil, node, size, is_null, fill_left, fill_right, assemble, rotate_right, rotate_left,
  splay_loop, splay_node,
}

module _ {K : Type 0} where
  -- The keys in order.
  abbrev pub keys : Node K → List K
  keys nil = []
  keys (node l k r) = keys l ++ k ∷ keys r

  abbrev left_keys : List (Node K × K) → List K
  left_keys [] = []
  left_keys ((a, k) ∷ ls) = left_keys ls ++ (keys a ++ k ∷ [])

  abbrev right_keys : List (K × Node K) → List K
  right_keys [] = []
  right_keys ((k, b) ∷ rs) = k ∷ (keys b ++ right_keys rs)

  keys-fill_left :
      (ls : List (Node K × K)) (x : Node K) → keys (fill_left ls x) ≡ left_keys ls ++ keys x
  unfolding fill_left
  keys-fill_left [] x = refl
  keys-fill_left ((a, k) ∷ ls) x =
      keys-fill_left ls (node a k x)
      ∙ sym (
          append_assoc (left_keys ls) (keys a ++ k ∷ []) (keys x)
          ∙ ap (λ xs. left_keys ls ++ xs) (append_assoc (keys a) (k ∷ []) (keys x)))

  keys-fill_right :
      (rs : List (K × Node K)) (x : Node K) → keys (fill_right rs x) ≡ keys x ++ right_keys rs
  unfolding fill_right
  keys-fill_right [] x = sym (append-nil (keys x))
  keys-fill_right ((k, b) ∷ rs) x =
      keys-fill_right rs (node x k b) ∙ append_assoc (keys x) (k ∷ keys b) (right_keys rs)

  -- The keys of the whole while the loop runs.
  abbrev whole_keys : List (Node K × K) → Node K → List (K × Node K) → List K
  whole_keys ls root rs = left_keys ls ++ (keys root ++ right_keys rs)

  keys-assemble :
      (ls : List (Node K × K)) (a : Node K) (k : K) (b : Node K) (rs : List (K × Node K))
      → keys (assemble ls a k b rs) ≡ whole_keys ls (node a k b) rs
  unfolding assemble
  keys-assemble ls a k b rs =
      rw (keys-fill_left ls a, keys-fill_right rs b)
        (append_assoc (left_keys ls) (keys a) (k ∷ (keys b ++ right_keys rs))
          ∙ ap (λ xs. left_keys ls ++ xs)
              (sym (append_assoc (keys a) (k ∷ keys b) (right_keys rs))))

  -- The node that is hung on the right is counted with the right.
  hang_right :
      (ls : List (Node K × K)) (a : Node K) (j : K) (b : Node K) (rs : List (K × Node K))
      → whole_keys ls a ((j, b) ∷ rs) ≡ whole_keys ls (node a j b) rs
  hang_right ls a j b rs =
      ap (λ xs. left_keys ls ++ xs) (sym (append_assoc (keys a) (j ∷ keys b) (right_keys rs)))

  hang_left :
      (ls : List (Node K × K)) (c : Node K) (m : K) (d : Node K) (rs : List (K × Node K))
      → whole_keys ((c, m) ∷ ls) d rs ≡ whole_keys ls (node c m d) rs
  hang_left ls c m d rs =
      append_assoc (left_keys ls) (keys c ++ m ∷ []) (keys d ++ right_keys rs)
      ∙ ap (λ xs. left_keys ls ++ xs)
          (append_assoc (keys c) (m ∷ []) (keys d ++ right_keys rs)
            ∙ sym (append_assoc (keys c) (m ∷ keys d) (right_keys rs)))

module _ {K : Type 0} (cmp : K → K → Sign) (key : K) where
  pub keys-rotate_right :
      (l : Node K) (k : K) (r : Node K)
      → let (a, j, b) = rotate_right cmp key l k r in
        (keys (node a j b) ≡ keys (node l k r)) × (size a ≤ size l)
  unfolding rotate_right
  keys-rotate_right nil k r = (refl, omega arith)
  keys-rotate_right (node a j b) k r = elim (Bool-cases (is_neg (cmp key j))) [
    | inl e ↦ rw e (sym (append_assoc (keys a) (j ∷ keys b) (k ∷ keys r)), omega arith)
    | inr e ↦ rw e (refl, omega arith)
  ]

  pub keys-rotate_left :
      (l : Node K) (k : K) (r : Node K)
      → let (c, m, d) = rotate_left cmp key l k r in
        (keys (node c m d) ≡ keys (node l k r)) × (size d ≤ size r)
  unfolding rotate_left
  keys-rotate_left l k nil = (refl, omega arith)
  keys-rotate_left l k (node a j b) = elim (Bool-cases (is_pos (cmp key j))) [
    | inl e ↦ rw e (append_assoc (keys l) (k ∷ keys a) (j ∷ keys b), omega arith)
    | inr e ↦ rw e (refl, omega arith)
  ]

  -- The loop has enough fuel, and ends with all keys in their order.
  pub keys-splay_loop :
      (fuel : ℕ) (ls : List (Node K × K)) (rs : List (K × Node K)) (root : Node K)
      → size root ≤ fuel
      → is_null root ≡ false
      → keys (splay_loop cmp fuel key ls rs root) ≡ whole_keys ls root rs
  unfolding splay_loop
  keys-splay_loop zero ls rs nil h e = absurd cc
  keys-splay_loop zero ls rs (node l k r) h e = absurd (omega arith)
  keys-splay_loop (suc fuel) ls rs nil h e = absurd cc
  keys-splay_loop (suc fuel) ls rs (node l k r) h e =
      let (a, j, b) = rotate_right cmp key l k r in
      let (c, m, d) = rotate_left cmp key l k r in
      let (p, q) = keys-rotate_right l k r in
      let (s, t) = keys-rotate_left l k r in
      let same_right = ap (λ xs. left_keys ls ++ (xs ++ right_keys rs)) p in
      let same_left = ap (λ xs. left_keys ls ++ (xs ++ right_keys rs)) s in
      elim (Bool-cases (is_same (cmp key k))) [
        | inl same ↦ rw same (keys-assemble ls l k r rs)
        | inr differ ↦ elim (Bool-cases (is_neg (cmp key k))) [
          | inl low ↦ elim (Bool-cases (is_null a)) [
            | inl empty ↦ rw (differ, low, empty) (keys-assemble ls a j b rs ∙ same_right)
            | inr full ↦
                rw (differ, low, full)
                  (keys-splay_loop fuel ls ((j, b) ∷ rs) a (omega arith) full
                    ∙ hang_right ls a j b rs
                    ∙ same_right)
          ]
          | inr high ↦ elim (Bool-cases (is_null d)) [
            | inl empty ↦ rw (differ, high, empty) (keys-assemble ls c m d rs ∙ same_left)
            | inr full ↦
                rw (differ, high, full)
                  (keys-splay_loop fuel ((c, m) ∷ ls) rs d (omega arith) full
                    ∙ hang_left ls c m d rs
                    ∙ same_left)
          ]
        ]
      ]

  pub keys-splay_node : (root : Node K) → keys (splay_node cmp root key) ≡ keys root
  unfolding splay_node splay_loop
  keys-splay_node nil = refl
  keys-splay_node (node l k r) =
      keys-splay_loop (size (node l k r)) [] [] (node l k r) (omega arith) refl
      ∙ append-nil (keys (node l k r))

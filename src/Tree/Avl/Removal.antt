-- ===== src/Tree/Avl/Removal.antt =====
-- Removal from the AVL tree keeps the balance.
use mathlib.Core.List.{append-nil}
use foo.Prelude.{
  ℕ, ◌+◌, max, ◌≤◌, ◌≡◌, ◌⊎◌, refl, sym, ◌∙◌, List, ◌∷◌, ◌++◌, arith, false, ltb, ltb→lt, ltb→ge,
  not, ◌&&◌, Bool-cases, inl, inr, if◌then◌else◌,
}
use foo.Heap.Compare.{Sign, is_pos, is_neg}
use foo.Tree.Avl.{
  Node, nil, node, get_height, is_null, join, leans_left, leans_right, rebalance, only_child,
  remove_node, key_or_max, key_or_min, left_left_rotation, right_right_rotation,
  left_right_rotation, right_left_rotation,
}
use foo.Tree.Avl.Rotations.{
  keys, IsAvl, Rotated, join-IsAvl, left_left-Rotated, right_right-Rotated, left_right-Rotated,
  right_left-Rotated,
}

module _ {K : Type 0} (cmp : K → K → Sign) where
  -- A balanced tree with the keys `ks`, and its height between two bounds.
  pub record Balanced (t : Node K) (low high : ℕ) (ks : List K) : Type 0 where
    pub avl : IsAvl t
    pub least : low ≤ get_height t
    pub most : get_height t ≤ high
    pub same : keys t ≡ ks

  of_Rotated :
      (t : Node K) (height low high : ℕ) (ks : List K)
      → Rotated t height ks
      → low ≤ height
      → height ≤ high
      → Balanced t low high ks
  of_Rotated t height low high ks r p q = record {
    avl = r.avl;
    least = omega (arith, r.tall);
    most = omega (arith, r.tall);
    same = r.same;
  }

  widen :
      {t : Node K} {low high low' high' : ℕ} {ks : List K}
      → Balanced t low high ks
      → low' ≤ low
      → high ≤ high'
      → Balanced t low' high' ks
  widen b p q = record {
    avl = b.avl;
    least = omega (arith, b.least);
    most = omega (arith, b.most);
    same = b.same;
  }

  -- The least height of the tree with children of heights `m` and `n`: a rotation may save one.
  abbrev lowest : ℕ → ℕ → ℕ
  lowest m n = if ltb (n + 1) m then max m n else if ltb (m + 1) n then max m n else max m n + 1

  left_heavy :
      (l : Node K) (k : K) (r : Node K)
      → IsAvl l
      → IsAvl r
      → get_height l ≡ get_height r + 2
      → Balanced
          (if leans_right l
            then left_right_rotation (join l k r)
            else left_left_rotation (join l k r))
          (get_height l)
          (get_height l + 1)
          (keys l ++ (k ∷ keys r))
  unfolding join
  left_heavy nil k r p q e = absurd (omega arith)
  left_heavy (node a j i b) k r p q e = elim (Bool-cases (ltb (get_height a) (get_height b))) [
    | inl right ↦
        let less = ltb→lt (get_height a) (get_height b) right in
        rw right (
          of_Rotated _ (get_height r + 2) _ _ _
            (left_right-Rotated a j i b k _ r p.3 p.4 q (omega arith) (omega arith)) (omega arith)
            (omega arith))
    | inr left ↦
        let ge = ltb→ge (get_height a) (get_height b) left in
        rw left (
          of_Rotated _ (get_height b + 2) _ _ _
            (left_left-Rotated a j i b k _ r p.3 p.4 q (omega arith) (omega arith) (omega arith))
            (omega arith) (omega arith))
  ]

  right_heavy :
      (l : Node K) (k : K) (r : Node K)
      → IsAvl l
      → IsAvl r
      → get_height r ≡ get_height l + 2
      → Balanced
          (if leans_left r
            then right_left_rotation (join l k r)
            else right_right_rotation (join l k r))
          (get_height r)
          (get_height r + 1)
          (keys l ++ (k ∷ keys r))
  unfolding join
  right_heavy l k nil p q e = absurd (omega arith)
  right_heavy l k (node a j i b) p q e = elim (Bool-cases (ltb (get_height b) (get_height a))) [
    | inl left ↦
        let less = ltb→lt (get_height b) (get_height a) left in
        rw left (
          of_Rotated _ (get_height l + 2) _ _ _
            (right_left-Rotated l k _ a j i b p q.3 q.4 (omega arith) (omega arith)) (omega arith)
            (omega arith))
    | inr right ↦
        let ge = ltb→ge (get_height b) (get_height a) right in
        rw right (
          of_Rotated _ (get_height a + 2) _ _ _
            (right_right-Rotated l k _ a j i b p q.3 q.4 (omega arith) (omega arith) (omega arith))
            (omega arith) (omega arith))
  ]

  pub rebalance-Balanced :
      (l : Node K) (k : K) (r : Node K)
      → IsAvl l
      → IsAvl r
      → get_height l ≤ get_height r + 2
      → get_height r ≤ get_height l + 2
      → Balanced
          (rebalance cmp l k r)
          (lowest (get_height l) (get_height r))
          (max (get_height l) (get_height r) + 1)
          (keys l ++ (k ∷ keys r))
  unfolding rebalance
  rebalance-Balanced l k r p q u v = elim (Bool-cases (ltb (get_height r + 1) (get_height l))) [
    | inl left ↦
        let less = ltb→lt (get_height r + 1) (get_height l) left in
        rw left (widen (left_heavy l k r p q (omega arith)) (omega arith) (omega arith))
    | inr not_left ↦ elim (Bool-cases (ltb (get_height l + 1) (get_height r))) [
      | inl right ↦
          let less = ltb→lt (get_height l + 1) (get_height r) right in
          rw (not_left, right)
            (widen (right_heavy l k r p q (omega arith)) (omega arith) (omega arith))
      | inr even ↦
          rw (not_left, even)
            (record {
              avl =
                  join-IsAvl l k r p q (omega (arith, ltb→ge _ _ not_left))
                    (omega (arith, ltb→ge _ _ even));
              least = unfold join in omega arith;
              most = unfold join in omega arith;
              same = unfold join in refl;
            })
    ]
  ]

  pub lowest_even : (m n : ℕ) → m ≤ n + 1 → n ≤ m + 1 → lowest m n ≡ max m n + 1
  lowest_even m n p q = ground arith

  lowest_cases :
      (m n : ℕ)
      → (lowest m n ≡ max m n + 1) ⊎ ((lowest m n ≡ max m n) × ((n + 2 ≤ m) ⊎ (m + 2 ≤ n)))
  lowest_cases m n = ground arith

  pub only_child-Balanced :
      (l r : Node K)
      → IsAvl l
      → IsAvl r
      → (not (is_null l) && not (is_null r)) ≡ false
      → Balanced
          (only_child cmp l r)
          (max (get_height l) (get_height r))
          (max (get_height l) (get_height r))
          (keys l ++ keys r)
  unfolding only_child
  only_child-Balanced nil nil p q e = record {
    avl = tt;
    least = omega arith;
    most = omega arith;
    same = refl;
  }
  only_child-Balanced nil (node a j i b) p q e =
      widen (rebalance-Balanced a j b q.3 q.4 (omega arith) (omega arith))
        (omega (arith, lowest_even (get_height a) (get_height b))) (omega arith)
  only_child-Balanced (node a j i b) nil p q e =
      let t = rebalance-Balanced a j b p.3 p.4 (omega arith) (omega arith) in
      record {
        avl = t.avl;
        least = omega (arith, t.least, lowest_even (get_height a) (get_height b));
        most = omega (arith, t.most);
        same = t.same ∙ sym (append-nil _);
      }
  only_child-Balanced (node a j i b) (node c m n d) p q e = cc

  -- What a removal leaves of a tree of height `h`.
  pub record Shrunk (t : Node K) (h : ℕ) : Type 0 where
    pub avl : IsAvl t
    pub least : h ≤ get_height t + 1
    pub most : get_height t ≤ h

  shrink_left :
      (l l' : Node K) (j k : K) (h : ℕ) (r : Node K)
      → IsAvl (node l k h r)
      → Shrunk l' (get_height l)
      → Shrunk (rebalance cmp l' j r) h
  shrink_left l l' j k h r v s =
      let t = rebalance-Balanced l' j r s.avl v.4 (omega arith) (omega arith) in
      record {
        avl = t.avl;
        least = omega (arith, t.least, lowest_cases (get_height l') (get_height r));
        most = omega (arith, t.most);
      }

  shrink_right :
      (l r' : Node K) (j k : K) (h : ℕ) (r : Node K)
      → IsAvl (node l k h r)
      → Shrunk r' (get_height r)
      → Shrunk (rebalance cmp l j r') h
  shrink_right l r' j k h r v s =
      let t = rebalance-Balanced l j r' v.3 s.avl (omega arith) (omega arith) in
      record {
        avl = t.avl;
        least = omega (arith, t.least, lowest_cases (get_height l) (get_height r'));
        most = omega (arith, t.most);
      }

  -- `removeNode` keeps the balance, and makes the tree lower by one at most.
  pub remove_node-Shrunk :
      (t : Node K) (key : K) → IsAvl t → Shrunk (remove_node cmp t key) (get_height t)
  unfolding remove_node
  remove_node-Shrunk nil key v = record { avl = tt; least = omega arith; most = omega arith }
  remove_node-Shrunk (node l k h r) key v = elim (Bool-cases (is_neg (cmp key k))) [
    | inl neg ↦
        rw (neg, remove_node)
          (shrink_left l (remove_node cmp l key) k k h r v (remove_node-Shrunk l key v.3))
    | inr not_neg ↦ elim (Bool-cases (is_pos (cmp key k))) [
      | inl pos ↦
          rw (not_neg, pos, remove_node)
            (shrink_right l (remove_node cmp r key) k k h r v (remove_node-Shrunk r key v.4))
      | inr not_pos ↦ elim (Bool-cases (not (is_null l) && not (is_null r))) [
        | inl both ↦ elim (Bool-cases (ltb (get_height r) (get_height l))) [
          | inl by_max ↦
              rw (not_neg, not_pos, both, by_max, remove_node)
                (shrink_left l _ (key_or_max l k) k h r v
                  (remove_node-Shrunk l (key_or_max l k) v.3))
          | inr by_min ↦
              rw (not_neg, not_pos, both, by_min, remove_node)
                (shrink_right l _ (key_or_min r k) k h r v
                  (remove_node-Shrunk r (key_or_min r k) v.4))
        ]
        | inr single ↦
            let c = only_child-Balanced l r v.3 v.4 single in
            rw (not_neg, not_pos, single, remove_node)
              (record { avl = c.avl; least = omega (arith, c.least); most = omega (arith, c.most) })
      ]
    ]
  ]

-- ===== src/Tree/Avl/Insertion.antt =====
-- Insertion into the AVL tree keeps the balance.
use foo.Prelude.{
  ℕ, ◌+◌, max, ◌≤◌, ◌<◌, ◌≡◌, ◌⊎◌, refl, sym, ◌∙◌, ap, List, ◌∷◌, ◌++◌, arith, Bool, true, false,
  ltb, ltb→lt, ltb→ge, dec_lt, Bool-cases, inl, inr, if◌then◌else◌,
}
use foo.Heap.Compare.{Sign, is_pos, is_neg, is_pos_of_neg}
use foo.Tree.Avl.{
  Node, nil, node, get_height, join, refresh, insert_left, insert_right, insert_node,
  left_left_rotation, right_right_rotation, left_right_rotation, right_left_rotation,
}
use foo.Tree.Avl.Rotations.{
  keys, IsAvl, Rotated, left_left-Rotated, right_right-Rotated, left_right-Rotated,
  right_left-Rotated,
}

module _ {K : Type 0} (cmp : K → K → Sign) where
  -- A tree that has grown by the insertion of `key` is higher on the side of `key`, or is a leaf.
  abbrev Leans : K → Node K → Type 0
  Leans key nil = ⊥
  Leans key (node a j i b) =
      (i ≡ 1)
      ⊎ (((is_neg (cmp key j) ≡ true) × (get_height a ≡ get_height b + 1))
          ⊎ ((is_neg (cmp key j) ≡ false)
              × (is_pos (cmp key j) ≡ true)
              × (get_height b ≡ get_height a + 1)))

  -- What an insertion makes of a tree of height `h`.
  pub record Grown (key : K) (t : Node K) (h : ℕ) : Type 0 where
    pub avl : IsAvl t
    pub grew : (get_height t ≡ h) ⊎ ((get_height t ≡ h + 1) × Leans key t)

  pub refresh-node :
      (l : Node K) (k : K) (h : ℕ) (r : Node K)
      → IsAvl (node l k h r)
      → refresh (node l k h r) ≡ node l k h r
  unfolding refresh
  refresh-node l k h r v = ap (λ n. node l k n r) (sym v.0)

  refresh-avl : (t : Node K) → IsAvl t → refresh t ≡ t
  refresh-avl nil v = unfold refresh in refl
  refresh-avl (node l k h r) v = refresh-node l k h r v

  -- A balanced tree of height `h` with the keys `ks`, after a rotation.
  settled :
      (key : K) (t : Node K) (h height : ℕ) (ks : List K)
      → Rotated t height ks
      → height ≡ h
      → Grown key (refresh t) h × (keys (refresh t) ≡ ks)
  settled key t h height ks r e =
      rw (refresh-avl t r.avl) (record { avl = r.avl; grew = inl (r.tall ∙ e) }, r.same)

  plain_left :
      (key : K) (l l' : Node K) (k : K) (h : ℕ) (r : Node K)
      → is_neg (cmp key k) ≡ true
      → IsAvl (node l k h r)
      → Grown key l' (get_height l)
      → get_height l' ≤ get_height r + 1
      → Grown key (refresh (node l' k h r)) h
        × (keys (refresh (node l' k h r)) ≡ keys l' ++ (k ∷ keys r))
  unfolding refresh join
  plain_left key l l' k h r neg v g low =
      (record { avl = (refl, low, near, g.avl, v.4); grew = grew (tall g.grew) near }, refl)
    where
      tall :
          ((get_height l' ≡ get_height l) ⊎ ((get_height l' ≡ get_height l + 1) × Leans key l'))
          → (get_height l' ≡ get_height l) ⊎ (get_height l' ≡ get_height l + 1)
      tall (inl e) = inl e
      tall (inr (e, f)) = inr e

      near : get_height r ≤ get_height l' + 1
      near = omega (arith, tall g.grew)

      grew :
          (get_height l' ≡ get_height l) ⊎ (get_height l' ≡ get_height l + 1)
          → get_height r ≤ get_height l' + 1
          → (max (get_height l') (get_height r) + 1 ≡ h)
            ⊎ ((max (get_height l') (get_height r) + 1 ≡ h + 1)
                × Leans key (node l' k (max (get_height l') (get_height r) + 1) r))
      grew (inl e) n = inl (omega arith)
      grew (inr e) n = elim (dec_lt (get_height l) (get_height r)) [
        | yes p ↦ inl (omega arith)
        | no p ↦ inr (omega arith, inr (inl (neg, omega arith)))
      ]

  -- The balance and the keys of the tree after the left child has grown.
  pub insert_left-Grown :
      (key : K) (l l' : Node K) (k : K) (h : ℕ) (r : Node K)
      → is_neg (cmp key k) ≡ true
      → IsAvl (node l k h r)
      → Grown key l' (get_height l)
      → Grown key (refresh (insert_left cmp key l' k h r)) h
        × (keys (refresh (insert_left cmp key l' k h r)) ≡ keys l' ++ (k ∷ keys r))
  unfolding insert_left
  insert_left-Grown key l nil k h r neg v g = plain_left key l nil k h r neg v g (omega arith)
  insert_left-Grown key l (node a j i b) k h r neg v g =
      elim (Bool-cases (ltb (get_height r + 1) i)) [
        | inl high ↦ rw high (rotated (ltb→lt _ _ high) g.avl g.grew)
        | inr low ↦ rw low (plain_left key l (node a j i b) k h r neg v g (ltb→ge _ _ low))
      ]
    where
      rotated :
          get_height r + 1 < i
          → IsAvl (node a j i b)
          → ((i ≡ get_height l) ⊎ ((i ≡ get_height l + 1) × Leans key (node a j i b)))
          → let t =
              if is_neg (cmp key j)
              then left_left_rotation (node (node a j i b) k h r)
              else left_right_rotation (node (node a j i b) k h r) in
            Grown key (refresh t) h × (keys (refresh t) ≡ (keys a ++ (j ∷ keys b)) ++ (k ∷ keys r))
      rotated p w (inl e) = absurd (omega arith)
      rotated p w (inr (e, inl f)) = absurd (omega arith)
      rotated p w (inr (e, inr (inl (s, f)))) = rw s (
          settled key _ h (get_height b + 2) _
            (left_left-Rotated a j i b k h r w.3 w.4 v.4 (omega arith) (omega arith) (omega arith))
            (omega arith))
      rotated p w (inr (e, inr (inr (s, q, f)))) = rw s (
          settled key _ h (get_height r + 2) _
            (left_right-Rotated a j i b k h r w.3 w.4 v.4 (omega arith) (omega arith))
            (omega arith))

  plain_right :
      (key : K) (l : Node K) (k : K) (h : ℕ) (r r' : Node K)
      → is_neg (cmp key k) ≡ false
      → is_pos (cmp key k) ≡ true
      → IsAvl (node l k h r)
      → Grown key r' (get_height r)
      → get_height r' ≤ get_height l + 1
      → Grown key (refresh (node l k h r')) h
        × (keys (refresh (node l k h r')) ≡ keys l ++ (k ∷ keys r'))
  unfolding refresh join
  plain_right key l k h r r' not_neg pos v g low =
      (record { avl = (refl, near, low, v.3, g.avl); grew = grew (tall g.grew) near }, refl)
    where
      tall :
          ((get_height r' ≡ get_height r) ⊎ ((get_height r' ≡ get_height r + 1) × Leans key r'))
          → (get_height r' ≡ get_height r) ⊎ (get_height r' ≡ get_height r + 1)
      tall (inl e) = inl e
      tall (inr (e, f)) = inr e

      near : get_height l ≤ get_height r' + 1
      near = omega (arith, tall g.grew)

      grew :
          (get_height r' ≡ get_height r) ⊎ (get_height r' ≡ get_height r + 1)
          → get_height l ≤ get_height r' + 1
          → (max (get_height l) (get_height r') + 1 ≡ h)
            ⊎ ((max (get_height l) (get_height r') + 1 ≡ h + 1)
                × Leans key (node l k (max (get_height l) (get_height r') + 1) r'))
      grew (inl e) n = inl (omega arith)
      grew (inr e) n = elim (dec_lt (get_height r) (get_height l)) [
        | yes p ↦ inl (omega arith)
        | no p ↦ inr (omega arith, inr (inr (not_neg, pos, omega arith)))
      ]

  -- The balance and the keys of the tree after the right child has grown.
  pub insert_right-Grown :
      (key : K) (l : Node K) (k : K) (h : ℕ) (r r' : Node K)
      → is_neg (cmp key k) ≡ false
      → is_pos (cmp key k) ≡ true
      → IsAvl (node l k h r)
      → Grown key r' (get_height r)
      → Grown key (refresh (insert_right cmp key l k h r')) h
        × (keys (refresh (insert_right cmp key l k h r')) ≡ keys l ++ (k ∷ keys r'))
  unfolding insert_right
  insert_right-Grown key l k h r nil not_neg pos v g =
      plain_right key l k h r nil not_neg pos v g (omega arith)
  insert_right-Grown key l k h r (node a j i b) not_neg pos v g =
      elim (Bool-cases (ltb (get_height l + 1) i)) [
        | inl high ↦ rw high (rotated (ltb→lt _ _ high) g.avl g.grew)
        | inr low ↦ rw low (plain_right key l k h r (node a j i b) not_neg pos v g (ltb→ge _ _ low))
      ]
    where
      rotated :
          get_height l + 1 < i
          → IsAvl (node a j i b)
          → ((i ≡ get_height r) ⊎ ((i ≡ get_height r + 1) × Leans key (node a j i b)))
          → let t =
              if is_pos (cmp key j)
              then right_right_rotation (node l k h (node a j i b))
              else right_left_rotation (node l k h (node a j i b)) in
            Grown key (refresh t) h × (keys (refresh t) ≡ keys l ++ (k ∷ (keys a ++ (j ∷ keys b))))
      rotated p w (inl e) = absurd (omega arith)
      rotated p w (inr (e, inl f)) = absurd (omega arith)
      rotated p w (inr (e, inr (inl (s, f)))) = rw (is_pos_of_neg (cmp key j) s) (
          settled key _ h (get_height l + 2) _
            (right_left-Rotated l k h a j i b v.3 w.3 w.4 (omega arith) (omega arith))
            (omega arith))
      rotated p w (inr (e, inr (inr (s, q, f)))) = rw q (
          settled key _ h (get_height a + 2) _
            (right_right-Rotated l k h a j i b v.3 w.3 w.4 (omega arith) (omega arith)
              (omega arith))
            (omega arith))

  -- An insertion keeps the balance, and makes the tree higher by one at most.
  pub insert_node-Grown :
      (fresh : Bool) (t : Node K) (key : K)
      → IsAvl t
      → Grown key (insert_node cmp fresh t key) (get_height t)
  unfolding insert_node
  insert_node-Grown false nil key v = unfold refresh in (record { avl = tt; grew = inl refl })
  insert_node-Grown true nil key v =
      unfold refresh in
      (record { avl = (refl, omega arith, omega arith, tt, tt); grew = inr (refl, inl refl) })
  insert_node-Grown fresh (node l k h r) key v = elim (Bool-cases (is_neg (cmp key k))) [
    | inl neg ↦
        rw (neg, insert_node)
          (insert_left-Grown key l _ k h r neg v (insert_node-Grown fresh l key v.3)).0
    | inr not_neg ↦ elim (Bool-cases (is_pos (cmp key k))) [
      | inl pos ↦
          rw (not_neg, pos, insert_node)
            (insert_right-Grown key l k h r _ not_neg pos v (insert_node-Grown fresh r key v.4)).0
      | inr not_pos ↦
          rw (not_neg, not_pos, refresh-node l k h r v) (record { avl = v; grew = inl refl })
    ]
  ]

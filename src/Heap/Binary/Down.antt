-- ===== src/Heap/Binary/Down.antt =====
-- `filterDown` restores the heap order when only the edges below its start may be out of order.
use foo.Prelude.{
  ℕ, zero, suc, ◌+◌, ◌-◌, ◌*◌, ◌≤◌, ◌<◌, ◌≡◌, ◌≢◌, refl, some, not, if◌then◌else◌, true, arith,
  Bool, count_slots, count_slots-update, one_if, ap, ltb, leb, update, Bool-cases, inl, inr, leb→le,
}
use foo.Cache.Interface.{◌>>=◌}
use foo.Heap.Compare.{Sign, is_pos, Le, IsOrder, le_of_pos, le_self}
use foo.Heap.Binary.{left_child, filter_down_loop, filter_down, select_child}
use foo.Heap.Binary.Up.{parent_of, InOrder, update_copy}

module _ {K : Type 0} (cmp : K → K → Sign) where
  -- Only the edges below `i` may be out of order, and the children of `i` fit its parent.
  pub record DownInv (n : ℕ) (d : ℕ → K) (i : ℕ) : Type 0 where
    pub edges : (c : ℕ) → 0 < c → c < n → parent_of c ≢ i → Le cmp (d (parent_of c)) (d c)
    pub bridged : (c : ℕ) → 0 < c → c < n → parent_of c ≡ i → 0 < i → Le cmp (d (parent_of i)) (d c)

  -- `s` is a child of `i` whose key is at or below those of all children of `i`.
  pub record Least (n : ℕ) (d : ℕ → K) (i s : ℕ) : Type 0 where
    pub child : (0 < s) × (s < n) × (parent_of s ≡ i)
    pub least : (c : ℕ) → 0 < c → c < n → parent_of c ≡ i → Le cmp (d s) (d c)

  select_child-Least :
      IsOrder cmp
      → (n : ℕ) (d : ℕ → K) (i : ℕ) → 2 * i + 1 ≤ n - 1
      → 0 < n
      → Least n d i (select_child cmp d (n - 1) (2 * i + 1))
  unfolding select_child
  select_child-Least o n d i h pos = elim (Bool-cases (ltb (2 * i + 1) (n - 1))) [
    | inl two ↦ elim (Bool-cases (is_pos (cmp (d (2 * i + 1)) (d (2 * i + 1 + 1))))) [
      | inl right ↦
          rw (two, right)
            (record {
              child = (omega arith, ground arith, omega arith);
              least = λ c p q r. ground (
                arith,
                le_self cmp o (d (2 * i + 1 + 1)),
                le_of_pos cmp o (d (2 * i + 1)) (d (2 * i + 1 + 1)) right,
              );
            })
      | inr left ↦
          rw (two, left)
            (record {
              child = (omega arith, omega arith, omega arith);
              least = λ c p q r. ground (arith, le_self cmp o (d (2 * i + 1)));
            })
    ]
    | inr one ↦ rw one (record {
      child = (omega arith, omega arith, omega arith);
      least = λ c p q r. ground (arith, le_self cmp o (d (2 * i + 1)));
    })
  ]

  select_child_after : (d : ℕ → K) (n i : ℕ) → i < select_child cmp d (n - 1) (2 * i + 1)
  unfolding select_child
  select_child_after d n i = ground arith

  select_child_inside :
      (d : ℕ → K) (n i : ℕ) → 2 * i + 1 ≤ n - 1 → i < n → select_child cmp d (n - 1) (2 * i + 1) < n
  unfolding select_child
  select_child_inside d n i h k = ground arith

  -- One round: the child's key moves up to `i`, and the key `t` is held over the child.
  sink :
      IsOrder cmp
      → (n : ℕ) (d : ℕ → K) (i s : ℕ) (t : K) → Least n d i s
      → is_pos (cmp t (d s)) ≡ true
      → DownInv n (update d i t) i
      → DownInv n (update (update d i (d s)) s t) s
  sink o n d i s t w above v =
      let over = le_of_pos cmp o t (d s) above in
      record {
        edges = λ c p q r. ground (arith, over, w.child, w.least c p q, v.edges c p q, v.bridged s);
        bridged = λ c p q r h. ground (arith, w.child, v.edges c p q);
      }

  -- The slots after `filterDown` where no `int` overflows.
  lower_loop : ℕ → (ℕ → K) → ℕ → ℕ → ℕ → K → ℕ → K
  lower_loop zero d end child selected temp = update d child temp
  lower_loop (suc fuel) d end child selected temp =
      let s = select_child cmp d end selected in
      let rest = lower_loop fuel (update d child (d s)) end s (2 * s + 1) temp in
      if leb selected end
      then (if not (is_pos (cmp temp (d s))) then update d child temp else rest)
      else update d child temp

  pub lower : (ℕ → K) → ℕ → ℕ → ℕ → K
  unfolding lower_loop
  lower d n i = lower_loop (n + 1) d (n - 1) i (2 * i + 1) (d i)

  left_child_lem : (i : ℕ) → i < 1073741824 → left_child i ≡ some (2 * i + 1)
  unfolding left_child
  left_child_lem i h = let fits : leb (2 * i + 1) 2147483647 ≡ true = ground arith in rw fits refl

  filter_down_loop-lower_loop :
      (n fuel : ℕ) (d : ℕ → K) (i : ℕ) (t : K)
      → n < 1073741824
      → i ≤ n
      → n < fuel + i
      → filter_down_loop cmp fuel d (n - 1) i (2 * i + 1) t
        ≡ some (lower_loop fuel d (n - 1) i (2 * i + 1) t)
  unfolding filter_down_loop lower_loop
  filter_down_loop-lower_loop n zero d i t b h f = absurd (omega arith)
  filter_down_loop-lower_loop n (suc fuel) d i t b h f =
      elim (Bool-cases (leb (2 * i + 1) (n - 1))) [
        | inl inside ↦
            let s = select_child cmp d (n - 1) (2 * i + 1) in
            let below : s < n = select_child_inside d n i (leb→le _ _ inside) (ground arith) in
            let after = select_child_after d n i in
            elim (Bool-cases (is_pos (cmp t (d s)))) [
              | inl above ↦
                  rw
                    (
                      filter_down_loop,
                      lower_loop,
                      inside,
                      above,
                      left_child_lem s (omega arith),
                      ◌>>=◌,
                    )
                    (filter_down_loop-lower_loop n fuel (update d i (d s)) s t b (omega arith)
                      (omega arith))
              | inr settled ↦ rw (filter_down_loop, lower_loop, inside, settled) refl
            ]
        | inr outside ↦ rw (filter_down_loop, lower_loop, outside) refl
      ]

  -- For fewer than 2 ^ 30 slots no `int` of `filterDown` overflows.
  pub filter_down-lower :
      (n : ℕ) (d : ℕ → K) (i : ℕ)
      → n < 1073741824
      → i ≤ n
      → filter_down cmp d n i ≡ some (lower d n i)
  unfolding filter_down lower
  filter_down-lower n d i b h =
      rw (left_child_lem i (omega arith), ◌>>=◌)
        (filter_down_loop-lower_loop n (n + 1) d i (d i) b h (omega arith))

  lower_loop-InOrder :
      IsOrder cmp
      → (n fuel : ℕ) (d : ℕ → K) (i : ℕ) (t : K) → n < fuel + (i + 1)
      → DownInv n (update d i t) i
      → InOrder cmp n (lower_loop fuel d (n - 1) i (2 * i + 1) t)
  unfolding lower_loop
  lower_loop-InOrder o n zero d i t f v = λ c p q. ground (arith, v.edges c p q)
  lower_loop-InOrder o n (suc fuel) d i t f v = elim (Bool-cases (leb (2 * i + 1) (n - 1))) [
    | inl inside ↦
        let w = select_child-Least o n d i (leb→le _ _ inside) (ground arith) in
        let s = select_child cmp d (n - 1) (2 * i + 1) in
        elim (Bool-cases (is_pos (cmp t (d s)))) [
          | inl above ↦
              rw (inside, above, lower_loop)
                (lower_loop-InOrder o n fuel (update d i (d s)) s t (omega (arith, w.child))
                  (sink o n d i s t w above v))
          | inr settled ↦
              rw (inside, settled, lower_loop)
                (λ c p q.
                  ground (arith, v.edges c p q, w.child, w.least c p q, o.trans t (d s) (d c)))
        ]
    | inr outside ↦ rw (outside, lower_loop) (λ c p q. ground (arith, v.edges c p q))
  ]

  count-lower_loop :
      (p : K → Bool) (n fuel : ℕ) (d : ℕ → K) (i : ℕ) (t : K)
      → i < n
      → count_slots p (lower_loop fuel d (n - 1) i (2 * i + 1) t) n + one_if (p (d i))
        ≡ count_slots p d n + one_if (p t)
  unfolding lower_loop
  count-lower_loop p n zero d i t h = count_slots-update p d n i t h
  count-lower_loop p n (suc fuel) d i t h = elim (Bool-cases (leb (2 * i + 1) (n - 1))) [
    | inl inside ↦
        let s = select_child cmp d (n - 1) (2 * i + 1) in
        elim (Bool-cases (is_pos (cmp t (d s)))) [
          | inl above ↦
              rw (inside, above, lower_loop)
                (omega (
                  arith,
                  count-lower_loop p n fuel (update d i (d s)) s t
                      (select_child_inside d n i (leb→le _ _ inside) h),
                  count_slots-update p d n i (d s) h,
                  ap (λ x. one_if (p x)) (update_copy d i s),
                ))
          | inr settled ↦ rw (inside, settled, lower_loop) (count_slots-update p d n i t h)
        ]
    | inr outside ↦ rw (outside, lower_loop) (count_slots-update p d n i t h)
  ]

  -- `filterDown` writes no slot before its start.
  lower_loop_before :
      (n fuel : ℕ) (d : ℕ → K) (i : ℕ) (t : K) (j : ℕ)
      → j < i
      → lower_loop fuel d (n - 1) i (2 * i + 1) t j ≡ d j
  unfolding lower_loop
  lower_loop_before n zero d i t j h = ground arith
  lower_loop_before n (suc fuel) d i t j h =
      let s = select_child cmp d (n - 1) (2 * i + 1) in
      ground (arith, select_child_after d n i, lower_loop_before n fuel (update d i (d s)) s t j)

  -- What it leaves at its start is the key that it began with, or one at or below that.
  lower_loop_start :
      IsOrder cmp
      → (n fuel : ℕ) (d : ℕ → K) (i : ℕ) (t : K)
      → Le cmp (lower_loop fuel d (n - 1) i (2 * i + 1) t i) t
  unfolding lower_loop
  lower_loop_start o n zero d i t = ground (arith, le_self cmp o t)
  lower_loop_start o n (suc fuel) d i t =
      let s = select_child cmp d (n - 1) (2 * i + 1) in
      ground (
        arith,
        le_self cmp o t,
        le_of_pos cmp o t (d s),
        select_child_after d n i,
        lower_loop_before n fuel (update d i (d s)) s t i,
      )

  -- `filterDown` from `i` restores the heap order where only the edges below `i` may be wrong.
  pub lower-InOrder :
      IsOrder cmp → (n : ℕ) (d : ℕ → K) (i : ℕ) → DownInv n d i → InOrder cmp n (lower d n i)
  unfolding lower
  lower-InOrder o n d i v = lower_loop-InOrder o n (n + 1) d i (d i) (omega arith) (record {
    edges = λ c p q r. ground (arith, v.edges c p q);
    bridged = λ c p q r h. ground (arith, v.bridged c p q);
  })

  pub count-lower :
      (p : K → Bool) (n : ℕ) (d : ℕ → K) (i : ℕ)
      → i < n
      → count_slots p (lower d n i) n ≡ count_slots p d n
  unfolding lower
  count-lower p n d i h = omega (arith, count-lower_loop p n (n + 1) d i (d i) h)

  pub lower_before : (n : ℕ) (d : ℕ → K) (i j : ℕ) → j < i → lower d n i j ≡ d j
  unfolding lower
  lower_before n d i j h = lower_loop_before n (n + 1) d i (d i) j h

  pub lower_start : IsOrder cmp → (n : ℕ) (d : ℕ → K) (i : ℕ) → Le cmp (lower d n i i) (d i)
  unfolding lower
  lower_start o n d i = lower_loop_start o n (n + 1) d i (d i)

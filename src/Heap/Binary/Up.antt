-- ===== src/Heap/Binary/Up.antt =====
-- `filterUp` restores the heap order when only the edge above its start may be out of order.
use foo.Prelude.{
  ℕ, zero, suc, ◌+◌, ◌-◌, ◌/◌, ◌<◌, ◌≡◌, ◌≢◌, ap, Bool, true, arith, ltb, update, count_slots,
  count_slots-update, one_if, Bool-cases, inl, inr, ltb→lt,
}
use foo.Heap.Compare.{Sign, is_neg, Le, IsOrder, is_pos_of_neg}
use foo.Heap.Binary.{filter_up_loop, filter_up}

abbrev pub parent_of : ℕ → ℕ
parent_of c = (c - 1) / 2

pub update_copy : {K : Type 0} (d : ℕ → K) (i j : ℕ) → update d i (d j) j ≡ d j
update_copy d i j = ground arith

module _ {K : Type 0} (cmp : K → K → Sign) where
  -- In the first `n` slots no key is below the key of its parent.
  abbrev pub InOrder : ℕ → (ℕ → K) → Type 0
  InOrder n d = (c : ℕ) → 0 < c → c < n → Le cmp (d (parent_of c)) (d c)

  -- Only the edge above `i` may be out of order, and the children of `i` fit its parent.
  pub record UpInv (n : ℕ) (d : ℕ → K) (i : ℕ) : Type 0 where
    pub inside : i < n
    pub edges : (c : ℕ) → 0 < c → c < n → c ≢ i → Le cmp (d (parent_of c)) (d c)
    pub bridged : (c : ℕ) → 0 < c → c < n → parent_of c ≡ i → 0 < i → Le cmp (d (parent_of i)) (d c)

  pub settled :
      (n : ℕ) (d : ℕ → K) (i : ℕ)
      → UpInv n d i
      → (0 < i → Le cmp (d (parent_of i)) (d i))
      → InOrder n d
  settled n d i v h c p q = ground (arith, v.edges c p q)

  -- One round: the parent's key moves down to `i`, and the key `t` is held over the parent.
  rise :
      IsOrder cmp
      → (n : ℕ) (d : ℕ → K) (i : ℕ) (t : K) → 0 < i
      → is_neg (cmp t (d (parent_of i))) ≡ true
      → UpInv n (update d i t) i
      → UpInv n (update (update d i (d (parent_of i))) (parent_of i) t) (parent_of i)
  rise o n d i t pos below v =
      let under = is_pos_of_neg (cmp t (d (parent_of i))) below in
      record {
        inside = omega (arith, v.inside);
        edges = λ c p q r.
            ground
              (arith, under, v.edges c p q, v.bridged c p q, o.trans t (d (parent_of i)) (d c));
        bridged = λ c p q r s. ground (
          arith,
          v.edges c p q,
          v.edges (parent_of i),
          o.trans (d (parent_of (parent_of i))) (d (parent_of i)) (d c),
        );
      }

  filter_up_loop-InOrder :
      IsOrder cmp
      → (n fuel : ℕ) (d : ℕ → K) (i : ℕ) (t : K) → i < fuel
      → UpInv n (update d i t) i
      → InOrder n (filter_up_loop cmp fuel d i (parent_of i) t)
  unfolding filter_up_loop
  filter_up_loop-InOrder o n zero d i t f v = absurd (omega arith)
  filter_up_loop-InOrder o n (suc fuel) d i t f v = elim (Bool-cases (ltb 0 i)) [
    | inl pos ↦ elim (Bool-cases (is_neg (cmp t (d (parent_of i))))) [
      | inl below ↦
          rw (pos, below, filter_up_loop)
            (filter_up_loop-InOrder o n fuel (update d i (d (parent_of i))) (parent_of i) t
              (ground arith) (rise o n d i t (ltb→lt 0 i pos) below v))
      | inr above ↦
          rw (pos, above, filter_up_loop)
            (settled n (update d i t) i v (λ h. ground (arith, o.total t (d (parent_of i)) above)))
    ]
    | inr root ↦
        rw (root, filter_up_loop) (settled n (update d i t) i v (λ h. absurd (ground arith)))
  ]

  count-filter_up_loop :
      (p : K → Bool) (n fuel : ℕ) (d : ℕ → K) (i : ℕ) (t : K)
      → i < n
      → count_slots p (filter_up_loop cmp fuel d i (parent_of i) t) n + one_if (p (d i))
        ≡ count_slots p d n + one_if (p t)
  unfolding filter_up_loop
  count-filter_up_loop p n zero d i t h = count_slots-update p d n i t h
  count-filter_up_loop p n (suc fuel) d i t h = elim (Bool-cases (ltb 0 i)) [
    | inl pos ↦ elim (Bool-cases (is_neg (cmp t (d (parent_of i))))) [
      | inl below ↦
          rw (pos, below, filter_up_loop)
            (omega (
              arith,
              count-filter_up_loop p n fuel (update d i (d (parent_of i))) (parent_of i) t
                  (omega arith),
              count_slots-update p d n i (d (parent_of i)) h,
              ap (λ x. one_if (p x)) (update_copy d i (parent_of i)),
            ))
      | inr above ↦ rw (pos, above, filter_up_loop) (count_slots-update p d n i t h)
    ]
    | inr root ↦ rw (root, filter_up_loop) (count_slots-update p d n i t h)
  ]

  -- `filterUp` from `i` restores the heap order where only the edge above `i` may be wrong, and
  -- permutes the slots.
  pub filter_up-InOrder :
      IsOrder cmp → (n : ℕ) (d : ℕ → K) (i : ℕ) → UpInv n d i → InOrder n (filter_up cmp d i)
  unfolding filter_up
  filter_up-InOrder o n d i v = filter_up_loop-InOrder o n (i + 1) d i (d i) (omega arith) (record {
    inside = v.inside;
    edges = λ c p q r. ground (arith, v.edges c p q);
    bridged = λ c p q r s. ground (arith, v.bridged c p q);
  })

  pub count-filter_up :
      (p : K → Bool) (n : ℕ) (d : ℕ → K) (i : ℕ)
      → i < n
      → count_slots p (filter_up cmp d i) n ≡ count_slots p d n
  unfolding filter_up
  count-filter_up p n d i h = omega (arith, count-filter_up_loop p n (i + 1) d i (d i) h)

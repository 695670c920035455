-- ===== src/Heap/Binary/Operations.antt =====
-- What `insert` and `remove` of the binary heap do to a valid heap, and where `remove` fails.
use foo.Prelude.{
  ℕ, zero, suc, ◌+◌, ◌-◌, ◌≤◌, ◌<◌, ◌≡◌, refl, ap, ◌∙◌, Bool, true, false, ◌==◌, some, arith,
  update, count_slots, count_slots-update, count_slots-update_above, count_slots-add_one,
  count_slots_ext, ℕ_discrete, one_if,
}
use foo.Cache.Interface.{◌>>=◌}
use foo.Heap.Compare.{Sign, is_pos, is_same, Le, IsOrder}
use foo.Heap.Binary.{BinaryHeap, get_index_loop, get_index, filter_up, insert, remove_at, remove}
use foo.Heap.Binary.Up.{parent_of, InOrder, filter_up-InOrder, count-filter_up}
use foo.Heap.Binary.Down.{
  DownInv, lower, filter_down-lower, lower-InOrder, count-lower, lower_before, lower_start,
}

module _ {K : Type 0} where
  pub record IsValid (h : BinaryHeap K) : Type 0 where
    pub ordered : InOrder h.compare h.size h.slots
    pub bounded : h.size ≤ h.capacity

  -- The keys in the heap that pass a test.
  abbrev pub occurs : (K → Bool) → BinaryHeap K → ℕ
  occurs p h = count_slots p h.slots h.size

  abbrev pub inserted : BinaryHeap K → K → BinaryHeap K
  inserted h k = record h {
    slots = filter_up h.compare (update h.slots h.size k) h.size;
    size = h.size + 1;
  }

  count-push :
      (p : K → Bool) (d : ℕ → K) (n : ℕ) (k : K)
      → count_slots p (update d n k) (n + 1) ≡ one_if (p k) + count_slots p d n
  count-push p d n k =
      ground (arith, count_slots-add_one p (update d n k) n, count_slots-update_above p d n n k)

  count-inserted :
      (p : K → Bool) (h : BinaryHeap K) (k : K)
      → occurs p (inserted h k) ≡ one_if (p k) + occurs p h
  count-inserted p h k = omega (
    arith,
    count-filter_up h.compare p (h.size + 1) (update h.slots h.size k) h.size (omega arith),
    count-push p h.slots h.size k,
  )

  -- insert into a valid binary heap that is not full adds that key and no other, and the heap
  -- stays valid, under a total and transitive compare function.
  pub insert_keeps_order :
      (h : BinaryHeap K) (k : K)
      → IsOrder h.compare
      → IsValid h
      → h.size < h.capacity
      → (insert (some h) (some k) ≡ (some (inserted h k), true))
        × IsValid (inserted h k)
        × ((p : K → Bool) → occurs p (inserted h k) ≡ one_if (p k) + occurs p h)
  unfolding insert
  insert_keeps_order h k o v room = (
    ground arith,
    record {
      ordered = filter_up-InOrder h.compare o (h.size + 1) _ h.size (record {
        inside = omega arith;
        edges = λ c p q r. ground (arith, v.ordered c p);
        bridged = λ c p q r s. absurd (omega arith);
      });
      bounded = omega arith;
    },
    λ p. count-inserted p h k,
  )

  get_index_loop_found :
      (cmp : K → K → Sign) (d : ℕ → K) (key : K) (i left j : ℕ)
      → get_index_loop cmp d key i left ≡ some j
      → (j < i + left) × (is_same (cmp (d j) key) ≡ true)
  unfolding get_index_loop
  get_index_loop_found cmp d key i zero j e = cc
  get_index_loop_found cmp d key i (suc left) j e =
      ground (arith, get_index_loop_found cmp d key (i + 1) left j)

  -- `getIndex` finds an index of the heap, at a key that compares as equal.
  pub get_index_found :
      (h : BinaryHeap K) (key : K) (i : ℕ)
      → get_index (some h) (some key) ≡ some i
      → (i < h.size) × (is_same (h.compare (h.slots i) key) ≡ true)
  unfolding get_index
  get_index_found h key i e =
      let f = get_index_loop_found h.compare h.slots key 0 h.size i e in (omega arith, f.1)

  get_index_loop_first :
      (cmp : K → K → Sign) (d : ℕ → K) (key : K) (i left j : ℕ)
      → i ≤ j
      → j < i + left
      → is_same (cmp (d j) key) ≡ true
      → ((k : ℕ) → k < j → is_same (cmp (d k) key) ≡ false)
      → get_index_loop cmp d key i left ≡ some j
  unfolding get_index_loop
  get_index_loop_first cmp d key i zero j h b e first = absurd (omega arith)
  get_index_loop_first cmp d key i (suc left) j h b e first = elim (ℕ_discrete i j) [
    | yes g ↦ rw (get_index_loop, g, e) refl
    | no g ↦
        rw (get_index_loop, first i (omega arith))
          (get_index_loop_first cmp d key (i + 1) left j (omega arith) (omega arith) e first)
  ]

  -- At `i` is the first key that compares as equal.
  pub record IsFirst (h : BinaryHeap K) (key : K) (i : ℕ) : Type 0 where
    pub inside : i < h.size
    pub equal : is_same (h.compare (h.slots i) key) ≡ true
    pub first : (j : ℕ) → j < i → is_same (h.compare (h.slots j) key) ≡ false

  get_index_first :
      (h : BinaryHeap K) (key : K) (i : ℕ)
      → IsFirst h key i
      → get_index (some h) (some key) ≡ some i
  unfolding get_index
  get_index_first h key i v =
      get_index_loop_first h.compare h.slots key 0 h.size i (omega arith) (omega (arith, v.inside))
        v.equal v.first

  -- The slots after the last key is put at the index and filtered down.
  removed : BinaryHeap K → ℕ → ℕ → K
  removed h i = lower h.compare (update h.slots i (h.slots (h.size - 1))) (h.size - 1) i

  remove_found :
      (h : BinaryHeap K) (key : K) (i : ℕ)
      → h.size ≤ 1073741824
      → get_index (some h) (some key) ≡ some i
      → remove (some h) (some key)
        ≡ some (some (record h { slots = removed h i; size = h.size - 1 }), true)
  unfolding remove remove_at removed
  remove_found h key i b e =
      let f = get_index_found h key i e in
      let occupied : (h.size == 0) ≡ false = ground arith in
      let d = update h.slots i (h.slots (h.size - 1)) in
      rw
        (
          occupied,
          e,
          remove_at,
          filter_down-lower h.compare (h.size - 1) d i (omega arith) (omega arith),
          ◌>>=◌,
        )
        refl

  remove_at-DownInv :
      (cmp : K → K → Sign) (d : ℕ → K) (n i : ℕ)
      → IsOrder cmp
      → InOrder cmp (n + 1) d
      → i < n + 1
      → (0 < i → Le cmp (d (parent_of i)) (d n))
      → DownInv cmp n (update d i (d n)) i
  remove_at-DownInv cmp d n i o v inside fits = record {
    edges = λ c p q r. ground (arith, v c p);
    bridged = λ c p q r s. ground (arith, v c p, v i s, o.trans (d (parent_of i)) (d i) (d c));
  }

  count-remove_at :
      (cmp : K → K → Sign) (p : K → Bool) (d : ℕ → K) (n i : ℕ)
      → i < n + 1
      → count_slots p d (n + 1)
        ≡ one_if (p (d i)) + count_slots p (lower cmp (update d i (d n)) n i) n
  count-remove_at cmp p d n i h = elim (ℕ_discrete i n) [
    | yes e ↦ rw e (
        omega (
          arith,
          count_slots-add_one p d n,
          count_slots_ext p (lower cmp (update d n (d n)) n n) (update d n (d n)) n
              (λ j k. lower_before cmp n (update d n (d n)) n j k),
          count_slots-update_above p d n n (d n) (omega arith),
        ))
    | no ne ↦ omega (
      arith,
      count_slots-add_one p d n,
      count-lower cmp p n (update d i (d n)) i (omega arith),
      count_slots-update p d n i (d n) (omega arith),
    )
  ]

  -- On a valid binary heap of at most 2 ^ 30 keys under a total and transitive compare function,
  -- remove of a key takes out the first key in the array that compares as equal to it and no
  -- other, and the heap stays valid, if that key is at the root or the last key is not below the
  -- key of its parent.
  pub remove_keeps_order :
      (h : BinaryHeap K) (key : K) (i : ℕ)
      → IsOrder h.compare
      → IsValid h
      → h.size ≤ 1073741824
      → IsFirst h key i
      → (0 < i → Le h.compare (h.slots (parent_of i)) (h.slots (h.size - 1)))
      → (h' : BinaryHeap K) × (remove (some h) (some key) ≡ some (some h', true))
        × IsValid h'
        × (h'.compare ≡ h.compare)
        × ((p : K → Bool) → occurs p h ≡ one_if (p (h.slots i)) + occurs p h')
  unfolding removed
  remove_keeps_order h key i o v b first fits =
      let f = first.inside in
      let whole : h.size ≡ h.size - 1 + 1 = omega arith in
      (
        record h { slots = removed h i; size = h.size - 1 },
        remove_found h key i b (get_index_first h key i first),
        record {
          ordered = lower-InOrder h.compare o (h.size - 1) _ i (
              remove_at-DownInv h.compare h.slots (h.size - 1) i o
                (λ c p q. v.ordered c p (omega arith)) (omega arith) fits);
          bounded = omega (arith, v.bounded);
        },
        refl,
        λ p.
            ap (count_slots p h.slots) whole
            ∙ count-remove_at h.compare p h.slots (h.size - 1) i (omega arith),
      )

  -- remove does not filter up: on a valid binary heap of at most 2 ^ 30 keys under a total and
  -- transitive compare function, if the key is found below the root and the last key is below the
  -- key of the parent of its index, the heap that remove leaves is not in heap order.
  pub remove_breaks_order :
      (h : BinaryHeap K) (key : K) (i : ℕ)
      → IsOrder h.compare
      → IsValid h
      → h.size ≤ 1073741824
      → get_index (some h) (some key) ≡ some i
      → 0 < i
      → is_pos (h.compare (h.slots (parent_of i)) (h.slots (h.size - 1))) ≡ true
      → (h' : BinaryHeap K) × (remove (some h) (some key) ≡ some (some h', true))
        × ¬ InOrder h.compare h'.size h'.slots
  unfolding removed
  remove_breaks_order h key i o v b e pos low =
      (record h { slots = removed h i; size = h.size - 1 }, remove_found h key i b e, broken)
    where
      d : ℕ → K
      d = update h.slots i (h.slots (h.size - 1))

      inside : i < h.size - 1
      inside = let f = get_index_found h key i e in ground (arith, v.ordered i pos)

      broken : ¬ InOrder h.compare (h.size - 1) (lower h.compare d (h.size - 1) i)
      broken q = ground (
        arith,
        q i pos inside,
        lower_before h.compare (h.size - 1) d i (parent_of i),
        lower_start h.compare o (h.size - 1) d i,
        o.trans (h.slots (parent_of i)) (lower h.compare d (h.size - 1) i i) (h.slots (h.size - 1)),
      )

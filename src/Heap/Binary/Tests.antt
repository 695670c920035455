-- ===== src/Heap/Binary/Tests.antt =====
-- The binary heap at concrete arrays.
use foo.Prelude.{
  ℕ, zero, suc, false, ◌<◌, ◌+◌, ◌≡◌, refl, Bool, true, some, arith, one_if, if◌then◌else◌, ◌==◌,
}
use foo.Heap.Compare.{is_same}
use foo.Heap.Samples.{nat_compare, nat_compare-IsOrder}
use foo.Heap.Binary.{BinaryHeap, get_index, get_index_loop, insert, remove}
use foo.Heap.Binary.Up.{InOrder}
use foo.Heap.Binary.Operations.{
  IsValid, IsFirst, occurs, inserted, insert_keeps_order, remove_keeps_order, remove_breaks_order,
}

-- 1 above 10 and 2; 10 above 11 and 12; 2 above 3.
abbrev slots_of : ℕ → ℕ
slots_of i =
    if i == 0
    then 1
    else if i == 1
    then 10
    else if i == 2
    then 2
    else if i == 3
    then 11
    else if i == 4
    then 12
    else 3

abbrev sample : BinaryHeap ℕ
sample = record { slots = slots_of; capacity = 8; size = 6; compare = nat_compare }

sample-edges : (c : ℕ) → InOrder nat_compare 6 slots_of
sample-edges c = ground arith

sample-IsValid : IsValid sample
sample-IsValid = record { ordered = sample-edges 0; bounded = omega arith }

get_index-sample : get_index (some sample) (some 11) ≡ some 3
unfolding get_index get_index_loop
get_index-sample = refl

sample-IsFirst : IsFirst sample 2 2
sample-IsFirst = record { inside = omega arith; equal = refl; first = before }
  where
    before : (j : ℕ) → j < 2 → is_same (nat_compare (slots_of j) 2) ≡ false
    before zero h = refl
    before (suc zero) h = refl
    before (suc (suc j)) h = absurd (omega arith)

insert_keeps_order_example :
    (insert (some sample) (some 4) ≡ (some (inserted sample 4), true))
    × IsValid (inserted sample 4)
    × ((p : ℕ → Bool) → occurs p (inserted sample 4) ≡ one_if (p 4) + occurs p sample)
insert_keeps_order_example =
    insert_keeps_order sample 4 nat_compare-IsOrder sample-IsValid (omega arith)

remove_keeps_order_example :
    (h' : BinaryHeap ℕ) × (remove (some sample) (some 2) ≡ some (some h', true))
    × IsValid h'
    × (h'.compare ≡ nat_compare)
    × ((p : ℕ → Bool) → occurs p sample ≡ one_if (p 2) + occurs p h')
remove_keeps_order_example =
    remove_keeps_order sample 2 2 nat_compare-IsOrder sample-IsValid (omega arith) sample-IsFirst
      (λ h. refl)

remove_breaks_order_example :
    (h' : BinaryHeap ℕ) × (remove (some sample) (some 11) ≡ some (some h', true))
    × ¬ InOrder nat_compare h'.size h'.slots
remove_breaks_order_example =
    remove_breaks_order sample 11 3 nat_compare-IsOrder sample-IsValid (omega arith)
      get_index-sample (omega arith) refl

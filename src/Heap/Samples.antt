-- ===== src/Heap/Samples.antt =====
-- A compare function on numbers, for the tests.
use Prim.Native.Nat.{compare, Ordering}
use foo.Prelude.{ℕ, arith}
use foo.Heap.Compare.{Sign, neg, same, pos, IsOrder}

abbrev pub nat_compare : ℕ → ℕ → Sign
nat_compare a b = elim (compare a b) [ Ordering.lt ↦ neg | Ordering.eq ↦ same | Ordering.gt ↦ pos ]

pub nat_compare-IsOrder : IsOrder nat_compare
nat_compare-IsOrder = record { total = λ a b h. ground arith; trans = λ a b c h k. ground arith }

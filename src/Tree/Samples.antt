-- ===== src/Tree/Samples.antt =====
-- The sample compare function as a strict order, for the tests.
use foo.Prelude.{arith}
pub use foo.Heap.Samples.{nat_compare}
use foo.Tree.Avl.Sorted.{IsStrict}

pub nat_compare-IsStrict : IsStrict nat_compare
nat_compare-IsStrict = record {
  swapped = λ a b. ground arith;
  trans = λ a b c h k. ground arith;
  neg_same = λ a b c h k. ground arith;
}

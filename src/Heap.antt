-- ===== src/Heap.antt =====
-- The heaps of data_structure/source/heap.cpp.
pub mod Compare
pub mod Binary
pub mod Leftist
pub mod Skew
pub mod Samples

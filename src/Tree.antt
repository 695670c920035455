-- ===== src/Tree.antt =====
-- The trees of data_structure/source/tree.cpp.
pub mod Avl
pub mod Bs
pub mod Splay
pub mod Samples

-- ===== src/Algorithm.antt =====
-- The algorithms of algorithm/include and algorithm/source.
pub mod Notation
pub mod Search
pub mod Match
pub mod Sort

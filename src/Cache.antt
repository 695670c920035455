-- ===== src/Cache.antt =====
-- The caches of data_structure/include/cache.hpp.
pub mod Interface
pub mod Simulation
pub mod Entries
pub mod Cells
pub mod Changes
pub mod Fifo
pub mod Lru
pub mod Lfu

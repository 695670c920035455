-- ===== src/Numeric.antt =====
-- The numeric module: numeric/source.
pub mod Divisor

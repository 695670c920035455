-- ===== src/Algorithm/Match/Tables.antt =====
-- The tables of shifts.
use foo.Prelude.{ℕ, zero, suc, ◌≤◌, ◌<◌, ◌≡◌, refl, arith, some, ◌==◌, update, Bool-cases, inl, inr}
use foo.Algorithm.Search.Binary.{at-inside}
use foo.Algorithm.Match.{fill_shifts}

-- A shift is positive and at most `d`, and at most `v j` for the byte at `j`.
pub record IsTable (d : ℕ) (v pattern : ℕ → ℕ) (r : ℕ) (table : ℕ → ℕ) : Type 0 where
  pub positive : (c : ℕ) → 0 < table c
  pub bounded : (c : ℕ) → table c ≤ d
  pub before : (j : ℕ) → j < r → table (pattern j) ≤ v j

module _ (d : ℕ) (v pattern : ℕ → ℕ) (m : ℕ) (down : (i j : ℕ) → i ≤ j → v j ≤ v i) where
  update-IsTable :
      (r : ℕ) (table : ℕ → ℕ)
      → 0 < v r
      → v r ≤ d
      → IsTable d v pattern r table
      → IsTable d v pattern (suc r) (update table (pattern r) (v r))
  update-IsTable r table p q h = record {
    positive = λ c. ground (arith, h.positive c);
    bounded = λ c. ground (arith, h.bounded c);
    before = λ j k. elim (Bool-cases (pattern r == pattern j)) [
      | inl e ↦ ground (arith, down j r)
      | inr e ↦ ground (arith, h.before j)
    ];
  }

  pub fill_shifts-IsTable :
      (r : ℕ)
      → r ≤ m
      → 0 < d
      → ((i : ℕ) → i < r → (0 < v i) × (v i ≤ d))
      → (table : ℕ → ℕ) × (fill_shifts d v pattern m r ≡ some table) × IsTable d v pattern r table
  unfolding fill_shifts
  fill_shifts-IsTable zero h p q = (
    λ c. d,
    refl,
    record { positive = λ c. p; bounded = λ c. ground arith; before = λ j k. absurd (omega arith) },
  )
  fill_shifts-IsTable (suc r) h p q =
      let (table, e, t) = fill_shifts-IsTable r (omega arith) p (λ i k. q i (omega arith)) in
      let (a, b) = q r (omega arith) in
      (
        update table (pattern r) (v r),
        rw (e, at-inside pattern m r (omega arith)) refl,
        update-IsTable r table a b t,
      )

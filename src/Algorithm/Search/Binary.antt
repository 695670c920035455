-- ===== src/Algorithm/Search/Binary.antt =====
-- The binary search finds a key of a sorted array, or there is none.
use foo.Prelude.{
  ℕ, zero, suc, ◌+◌, ◌-◌, ◌≤◌, ◌<◌, ◌≡◌, ◌≢◌, ◌⊎◌, refl, false, Option, none, some, arith, ltb, leb,
  ◌==◌, Bool-cases, inl, inr, ◌||◌, leb→le,
}
use foo.Algorithm.Search.{word, add32, sub32, at, midpoint, binary_loop, binary}

abbrev pub IsSorted : (ℕ → ℕ) → ℕ → Type 0
IsSorted a n = (i j : ℕ) → i ≤ j → j < n → a i ≤ a j

-- The result is an index of the key, or -1 and the key does not occur.
abbrev pub IsCorrect : (ℕ → ℕ) → ℕ → ℕ → Option (Option ℕ) → Type 0
IsCorrect a n key r =
    ((i : ℕ) × (r ≡ some (some i)) × (i < n) × (a i ≡ key))
    ⊎ ((r ≡ some none) × ((j : ℕ) → j < n → a j ≢ key))

-- The key can only be between the bounds, and the first element is not above it.
record Between (a : ℕ → ℕ) (n key lower upper : ℕ) : Type 0 where
  inside : upper < n
  room : lower ≤ upper + 1
  below : (j : ℕ) → j < lower → a j < key
  above : (j : ℕ) → upper < j → j < n → key < a j
  first : a 0 ≤ key

midpoint_between :
    (lower upper : ℕ)
    → lower ≤ upper
    → (lower ≤ midpoint lower upper) × (midpoint lower upper ≤ upper)
unfolding midpoint
midpoint_between lower upper h = ground arith

pub at-inside : (a : ℕ → ℕ) (n i : ℕ) → i < n → at a n i ≡ some (a i)
unfolding at
at-inside a n i h = ground arith

pub add32_suc : (m : ℕ) → m + 1 < word → add32 m 1 ≡ m + 1
unfolding add32
add32_suc m h = omega arith

pub sub32_pred : (m : ℕ) → 0 < m → m < word → sub32 m 1 ≡ m - 1
unfolding sub32
sub32_pred m h k = omega arith

module _ (a : ℕ → ℕ) (n key : ℕ) (sorted : IsSorted a n) (small : n < word) where
  binary_loop-IsCorrect :
      (fuel lower upper : ℕ)
      → upper + 1 - lower < fuel
      → Between a n key lower upper
      → IsCorrect a n key (binary_loop fuel a n key lower upper)
  unfolding binary_loop
  binary_loop-IsCorrect zero lower upper f v = absurd (omega arith)
  binary_loop-IsCorrect (suc fuel) lower upper f v = elim (Bool-cases (leb lower upper)) [
    | inr e ↦ inr (rw e, λ j p q. ground (arith, v.below j, v.above j))
    | inl e ↦
        let mid = midpoint lower upper in
        let (low, high) = midpoint_between lower upper (leb→le _ _ e) in
        rw (e, at-inside a n mid (omega (arith, v.inside)))
          (elim (Bool-cases (key == a mid)) [
            | inl hit ↦ inl (mid, rw hit, omega (arith, v.inside), ground arith)
            | inr miss ↦ elim (Bool-cases (ltb (a mid) key)) [
              | inl right ↦
                  rw (miss, right, add32_suc mid (omega (arith, v.inside)))
                    (binary_loop-IsCorrect fuel (mid + 1) upper (omega arith) (record {
                      inside = v.inside;
                      room = omega arith;
                      below = λ j p. ground (arith, sorted j mid, v.inside);
                      above = v.above;
                      first = v.first;
                    }))
              | inr left ↦
                  let pos : 0 < mid = ground (arith, v.first) in
                  rw (miss, left, sub32_pred mid pos (omega (arith, v.inside)))
                    (binary_loop-IsCorrect fuel lower (mid - 1) (omega arith) (record {
                      inside = omega (arith, v.inside);
                      room = omega arith;
                      below = v.below;
                      above = λ j p q. ground (arith, sorted mid j);
                      first = v.first;
                    }))
            ]
          ])
  ]

nonzero : (n : ℕ) → (suc n == 0) ≡ false
nonzero n = ground arith

-- On a sorted array of fewer than 2 ^ 32 elements binary returns, reads no element out of bounds,
-- and its result is an index of the key, or -1 if the key does not occur.
pub binary-IsCorrect :
    (a : ℕ → ℕ) (n key : ℕ) → IsSorted a n → n < word → IsCorrect a n key (binary (some a) n key)
unfolding binary
binary-IsCorrect a zero key sorted small = inr (refl, λ j p. absurd (omega arith))
binary-IsCorrect a (suc n) key sorted small =
    elim (Bool-cases (ltb key (a 0) || ltb (a (suc n - 1)) key)) [
      | inl out ↦ inr (
        rw (
          nonzero n,
          at-inside a (suc n) 0 (omega arith),
          at-inside a (suc n) (suc n - 1) (omega arith),
          out,
        ),
        λ j p. ground (arith, sorted 0 j, sorted j (suc n - 1)),
      )
      | inr e ↦
          rw
            (
              nonzero n,
              at-inside a (suc n) 0 (omega arith),
              at-inside a (suc n) (suc n - 1) (omega arith),
              e,
            )
            (binary_loop-IsCorrect a (suc n) key sorted small (suc n + 1) 0 (suc n - 1)
              (omega arith)
              (record {
                inside = omega arith;
                room = omega arith;
                below = λ j p. absurd (omega arith);
                above = λ j p q. absurd (omega arith);
                first = ground arith;
              }))
    ]

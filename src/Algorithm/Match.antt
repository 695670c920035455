-- ===== src/Algorithm/Match.antt =====
-- The matchers `horspool`, `sunday` and `kmp` of algorithm/source/match.cpp. A text or a pattern
-- is null or a function from its indices to its bytes, and `at` reads it; `none` stands for a read
-- out of bounds, or for a loop that has used up its fuel. The index -1 is the inner `none`. Lengths
-- are `std::uint32_t`; the sums that can pass the length of the text wrap. A table is indexed by a
-- byte, of which it has all 256.
mod Occurs
mod Tables
mod Horspool
mod Sunday
mod Kmp
mod Missed
mod Tests
use foo.Prelude.{
  ℕ, zero, suc, ◌+◌, ◌-◌, ◌*◌, Bool, true, false, Option, none, some, ltb, leb, ◌==◌, ◌||◌,
  if◌then◌else◌, update,
}
use foo.Algorithm.Search.{add32, sub32, at, ◌>>=◌}

-- The checks that every matcher begins with, and the rest of it.
pub guarded :
    Option (ℕ → ℕ)
    → Option (ℕ → ℕ)
    → ℕ
    → ℕ
    → ((ℕ → ℕ) → (ℕ → ℕ) → Option (Option ℕ))
    → Option (Option ℕ)
guarded none pattern n m search = some none
guarded (some text) none n m search = some none
guarded (some text) (some pattern) n m search =
    if n == 0 || (m == 0 || ltb n m) then some none else search text pattern

-- The loop that fills a table of shifts, after its first rounds: `v i` is stored for the byte at
-- `i`, in a table that is filled with `d`.
pub fill_shifts : ℕ → (ℕ → ℕ) → (ℕ → ℕ) → ℕ → ℕ → Option (ℕ → ℕ)
unfolding at
fill_shifts d v pattern m zero = some (λ c. d)
fill_shifts d v pattern m (suc i) = do
  table ← fill_shifts d v pattern m i
  c ← at pattern m i
  some (update table c (v i))

pub fill_horspool_bad_char_shift_table : (ℕ → ℕ) → ℕ → Option (ℕ → ℕ)
unfolding fill_shifts
fill_horspool_bad_char_shift_table pattern m = fill_shifts m (λ i. m - 1 - i) pattern m (m - 1)

pub fill_sunday_bad_char_shift_table : (ℕ → ℕ) → ℕ → Option (ℕ → ℕ)
unfolding fill_shifts
fill_sunday_bad_char_shift_table pattern m = fill_shifts (m + 1) (λ i. m - i) pattern m m

-- The inner loop of `horspool`, with the rounds that are left.
pub horspool_compare : (ℕ → ℕ) → (ℕ → ℕ) → ℕ → ℕ → ℕ → ℕ → ℕ → Option ℕ
unfolding at
horspool_compare text pattern n m move_len zero match_len = some match_len
horspool_compare text pattern n m move_len (suc k) match_len = do
  a ← at pattern m (m - 1 - match_len)
  b ← at text n (move_len - match_len)
  elim (a == b) [
    | true ↦ horspool_compare text pattern n m move_len k (match_len + 1)
    | false ↦ some match_len
  ]

pub horspool_loop : (ℕ → ℕ) → (ℕ → ℕ) → ℕ → ℕ → (ℕ → ℕ) → ℕ → ℕ → Option (Option ℕ)
unfolding at add32 sub32 horspool_compare
horspool_loop text pattern n m table zero move_len = none
horspool_loop text pattern n m table (suc fuel) move_len = elim (leb move_len (n - 1)) [
  | false ↦ some none
  | true ↦ (do
    match_len ← horspool_compare text pattern n m move_len m 0
    elim (match_len == m) [
      | true ↦ some (some (add32 (sub32 move_len m) 1))
      | false ↦ (do
        c ← at text n move_len
        horspool_loop text pattern n m table fuel (add32 move_len (table c)))
    ])
]

-- What it does after the checks.
pub horspool_search : ℕ → ℕ → (ℕ → ℕ) → (ℕ → ℕ) → Option (Option ℕ)
unfolding fill_horspool_bad_char_shift_table horspool_loop
horspool_search n m text pattern = do
  table ← fill_horspool_bad_char_shift_table pattern m
  horspool_loop text pattern n m table (n + 1) (m - 1)

pub horspool : Option (ℕ → ℕ) → Option (ℕ → ℕ) → ℕ → ℕ → Option (Option ℕ)
unfolding guarded horspool_search
horspool text pattern n m = guarded text pattern n m (horspool_search n m)

-- The inner loop of `sunday`: whether it gets to the end of the pattern. `size` is the number of
-- the bytes that can be read at the text.
pub sunday_compare : (ℕ → ℕ) → (ℕ → ℕ) → ℕ → ℕ → ℕ → ℕ → ℕ → Option Bool
unfolding at
sunday_compare text pattern size m text_idx zero match_len = none
sunday_compare text pattern size m text_idx (suc fuel) match_len = do
  a ← at text size (text_idx + match_len)
  b ← at pattern m match_len
  elim (a == b) [
    | false ↦ some false
    | true ↦ elim (match_len + 1 == m) [
      | true ↦ some true
      | false ↦ sunday_compare text pattern size m text_idx fuel (match_len + 1)
    ]
  ]

pub sunday_loop : (ℕ → ℕ) → (ℕ → ℕ) → ℕ → ℕ → ℕ → (ℕ → ℕ) → ℕ → ℕ → Option (Option ℕ)
unfolding at add32 sunday_compare
sunday_loop text pattern size n m table zero text_idx = none
sunday_loop text pattern size n m table (suc fuel) text_idx = elim (leb text_idx (n - m)) [
  | false ↦ some none
  | true ↦ (do
    found ← sunday_compare text pattern size m text_idx m 0
    elim found [
      | true ↦ some (some text_idx)
      | false ↦ (do
        c ← at text size (text_idx + m)
        sunday_loop text pattern size n m table fuel (add32 text_idx (table c)))
    ])
]

-- What it does after the checks.
pub sunday_search : ℕ → ℕ → ℕ → (ℕ → ℕ) → (ℕ → ℕ) → Option (Option ℕ)
unfolding fill_sunday_bad_char_shift_table sunday_loop
sunday_search size n m text pattern = do
  table ← fill_sunday_bad_char_shift_table pattern m
  sunday_loop text pattern size n m table (n + 1) 0

pub sunday : Option (ℕ → ℕ) → Option (ℕ → ℕ) → ℕ → ℕ → ℕ → Option (Option ℕ)
unfolding guarded sunday_search
sunday text pattern size n m = guarded text pattern n m (sunday_search size n m)

-- The `while` loop of `kmp`.
pub fall_back : (ℕ → ℕ) → (ℕ → ℕ) → ℕ → ℕ → ℕ → ℕ → Option ℕ
unfolding at
fall_back next pattern m i zero j = none
fall_back next pattern m i (suc fuel) j = elim (ltb 0 j) [
  | false ↦ some j
  | true ↦ (do
    a ← at pattern m j
    b ← at pattern m i
    elim (a == b) [
      | true ↦ some j
      | false ↦ (do k ← at next (m + 1) j; fall_back next pattern m i fuel k)
    ])
]

-- The test after it.
pub extends : (ℕ → ℕ) → ℕ → ℕ → ℕ → Option Bool
unfolding at
extends pattern m i j = elim (ltb 0 j) [
  | true ↦ some true
  | false ↦ (do a ← at pattern m j; b ← at pattern m i; some (a == b))
]

-- The loop that fills `next`, after its first rounds.
pub fill_next : (ℕ → ℕ) → ℕ → ℕ → Option (ℕ → ℕ)
unfolding at fall_back extends
fill_next pattern m zero = some (λ x. 0)
fill_next pattern m (suc r) = do
  next ← fill_next pattern m r
  start ← at next (m + 1) (r + 2)
  j ← fall_back next pattern m (r + 1) (m + 1) start
  more ← extends pattern m (r + 1) j
  some (if more then update next (r + 2) (j + 1) else next)

pub kmp_loop : (ℕ → ℕ) → (ℕ → ℕ) → ℕ → ℕ → (ℕ → ℕ) → ℕ → ℕ → ℕ → Option (Option ℕ)
unfolding at add32 sub32
kmp_loop text pattern n m next zero i j = none
kmp_loop text pattern n m next (suc fuel) i j = elim (ltb i n) [
  | false ↦ some none
  | true ↦ (do
    a ← at text n i
    b ← at pattern m j
    elim (a == b) [
      | true ↦ elim (j + 1 == m) [
        | true ↦ some (some (add32 (sub32 i (j + 1)) 1))
        | false ↦ kmp_loop text pattern n m next fuel (i + 1) (j + 1)
      ]
      | false ↦ elim (ltb 0 j) [
        | true ↦ (do k ← at next (m + 1) j; kmp_loop text pattern n m next fuel i k)
        | false ↦ kmp_loop text pattern n m next fuel (i + 1) j
      ]
    ])
]

-- What it does after the checks.
pub kmp_search : ℕ → ℕ → (ℕ → ℕ) → (ℕ → ℕ) → Option (Option ℕ)
unfolding fill_next kmp_loop
kmp_search n m text pattern = do
  next ← fill_next pattern m (m - 1)
  kmp_loop text pattern n m next (2 * n + 1) 0 0

pub kmp : Option (ℕ → ℕ) → Option (ℕ → ℕ) → ℕ → ℕ → Option (Option ℕ)
unfolding guarded kmp_search
kmp text pattern n m = guarded text pattern n m (kmp_search n m)

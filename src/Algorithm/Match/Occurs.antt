-- ===== src/Algorithm/Match/Occurs.antt =====
-- What a matcher is to find.
use foo.Prelude.{
  ℕ, ◌+◌, ◌≤◌, ◌<◌, ◌≡◌, ◌⊎◌, Option, none, some, refl, arith, ◌==◌, ◌||◌, ltb, Bool-cases, true,
  false, inl, inr,
}
use foo.Algorithm.Match.{guarded}

module _ (text pattern : ℕ → ℕ) (n m : ℕ) where
  -- The `m` bytes of the pattern stand at `s` in the text.
  abbrev pub Occurs : ℕ → Type 0
  Occurs s = (i : ℕ) → i < m → text (s + i) ≡ pattern i

  -- The result is the first index of the pattern in the `n` bytes of the text, or -1 and it does
  -- not occur.
  abbrev pub IsFirst : Option (Option ℕ) → Type 0
  IsFirst r =
      ((s : ℕ) × (r ≡ some (some s)) × (s + m ≤ n) × Occurs s × ((i : ℕ) → i < s → ¬ Occurs i))
      ⊎ ((r ≡ some none) × ((i : ℕ) → i + m ≤ n → ¬ Occurs i))

  -- The result is an index of the pattern in the text, or -1.
  abbrev pub IsSome : Option (Option ℕ) → Type 0
  IsSome r = ((s : ℕ) × (r ≡ some (some s)) × (s + m ≤ n) × Occurs s) ⊎ (r ≡ some none)

-- The checks of a matcher give -1 for a text that is shorter than the pattern, and else leave the
-- result to the search.
pub guarded_lem :
    (R : Option (Option ℕ) → Type 0) (text pattern : ℕ → ℕ) (n m : ℕ)
    (search : (ℕ → ℕ) → (ℕ → ℕ) → Option (Option ℕ))
    → 0 < m
    → (n < m → R (some none))
    → (m ≤ n → R (search text pattern))
    → R (guarded (some text) (some pattern) n m search)
unfolding guarded
guarded_lem R text pattern n m search p short long = elim (Bool-cases (ltb n m)) [
  | inl less ↦
      let stops : (n == 0 || (m == 0 || ltb n m)) ≡ true = ground arith in
      rw stops (short (ground arith))
  | inr more ↦
      let goes : (n == 0 || (m == 0 || ltb n m)) ≡ false = ground arith in
      rw goes (long (ground arith))
]

pub short-IsFirst : (text pattern : ℕ → ℕ) (n m : ℕ) → n < m → IsFirst text pattern n m (some none)
short-IsFirst text pattern n m h = inr (refl, λ i c. absurd (omega arith))

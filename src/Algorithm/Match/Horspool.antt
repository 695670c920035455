-- ===== src/Algorithm/Match/Horspool.antt =====
-- `horspool` finds the first occurrence.
use foo.Prelude.{
  ℕ, zero, suc, ◌+◌, ◌-◌, ◌≤◌, ◌<◌, ◌≡◌, ◌≢◌, ◌⊎◌, refl, sym, ap, subst, ◌∙◌, arith, Option, some,
  ◌==◌, leb, leb→le, Bool-cases, true, false, inl, inr,
}
use foo.Algorithm.Search.{word, add32, sub32, ◌>>=◌}
use foo.Algorithm.Search.Binary.{at-inside}
use foo.Algorithm.Match.{
  fill_horspool_bad_char_shift_table, horspool_compare, horspool_loop, horspool_search, horspool,
}
use foo.Algorithm.Match.Occurs.{Occurs, IsFirst, guarded_lem, short-IsFirst}
use foo.Algorithm.Match.Tables.{IsTable, fill_shifts-IsTable}

-- The comparison ends with the whole pattern where it occurs, and before that where it does not.
abbrev IsCompared : (ℕ → ℕ) → (ℕ → ℕ) → ℕ → ℕ → ℕ → Option ℕ → Type 0
IsCompared text pattern n m s r =
    ((r ≡ some m) × Occurs text pattern n m s)
    ⊎ ((l : ℕ) × (r ≡ some l) × (l ≢ m) × ¬ Occurs text pattern n m s)

shift_index : (e m : ℕ) → m ≤ e + 1 → e < word → 0 < m → add32 (sub32 e m) 1 ≡ e + 1 - m
unfolding add32 sub32
shift_index e m h k p = omega arith

advance : (e c n m : ℕ) → e < n → c ≤ m → m ≤ n → n + n < word → add32 e c ≡ e + c
unfolding add32
advance e c n m p q r s = omega arith

module _ (text pattern : ℕ → ℕ) (n m : ℕ) where
  horspool_compare_lem :
      (e k l : ℕ)
      → k + l ≡ m
      → e < n
      → m ≤ e + 1
      → ((i : ℕ) → k ≤ i → i < m → text (e + 1 - m + i) ≡ pattern i)
      → IsCompared text pattern n m (e + 1 - m) (horspool_compare text pattern n m e k l)
  unfolding horspool_compare
  horspool_compare_lem e zero l p q r h = inl (ap some (omega arith), λ i b. h i (omega arith) b)
  horspool_compare_lem e (suc k) l p q r h =
      let here : m - 1 - l ≡ k = omega arith in
      let there : e - l ≡ e + 1 - m + k = omega arith in
      let a = at-inside pattern m k (omega arith) in
      let b = at-inside text n (e + 1 - m + k) (omega arith) in
      elim (Bool-cases (pattern k == text (e + 1 - m + k))) [
        | inl same ↦
            rw (here, there, a, b, ◌>>=◌, same)
              (horspool_compare_lem e k (l + 1) (omega arith) q r (λ i c d.
                elim (Bool-cases (i == k)) [
                  | inl j ↦ let at_k : i ≡ k = ground arith in rw at_k (ground arith)
                  | inr j ↦ h i (ground arith) d
                ]))
        | inr other ↦
            rw (here, there, a, b, ◌>>=◌, other)
              (inr (
                l,
                refl,
                (λ z. absurd (omega arith)),
                λ o. absurd (ground (arith, o k (omega arith))),
              ))
      ]

  -- The pattern does not start in the indices that a shift skips.
  skipped :
      (table : ℕ → ℕ) (e i : ℕ)
      → IsTable m (λ i. m - 1 - i) pattern (m - 1) table
      → ¬ Occurs text pattern n m (e + 1 - m)
      → i + m ≤ e + table (text e)
      → e < i + m
      → ¬ Occurs text pattern n m i
  skipped table e i t o p q occurs = elim (Bool-cases (i == (e + 1 - m))) [
    | inl same ↦
        let at_e : i ≡ e + 1 - m = ground arith in o (subst (Occurs text pattern n m) at_e occurs)
    | inr other ↦
        let apart : i ≢ e + 1 - m = ground arith in
        let room = t.bounded (text e) in
        let index : i + (e - i) ≡ e = omega arith in
        let same = ap table (ap text (sym index) ∙ occurs (e - i) (omega arith)) in
        absurd (omega (arith, t.before (e - i) (omega arith)))
  ]

  horspool_loop-IsFirst :
      (table : ℕ → ℕ) (fuel e : ℕ)
      → IsTable m (λ i. m - 1 - i) pattern (m - 1) table
      → 0 < m
      → m ≤ n
      → n + n < word
      → n + 1 ≤ e + fuel
      → 0 < fuel
      → m ≤ e + 1
      → ((i : ℕ) → i + m ≤ e → ¬ Occurs text pattern n m i)
      → IsFirst text pattern n m (horspool_loop text pattern n m table fuel e)
  unfolding horspool_loop
  horspool_loop-IsFirst table zero e t p q w f g b h = absurd (omega arith)
  horspool_loop-IsFirst table (suc fuel) e t p q w f g b h = elim (Bool-cases (leb e (n - 1))) [
    | inr past ↦ rw (horspool_loop, past) (inr (refl, λ i c. h i (ground arith)))
    | inl there ↦
        rw (horspool_loop, there)
          (elim (horspool_compare_lem e m 0 (omega arith) (ground arith) b
            (λ i a c. absurd (omega arith))) [
              | inl (r, o) ↦
                  let same : (m == m) ≡ true = ground arith in
                  rw (r, ◌>>=◌, same)
                    (inl (
                      e + 1 - m,
                      ap (λ s. some (some s)) (shift_index e m b (ground arith) p),
                      ground arith,
                      o,
                      λ i c. h i (omega arith),
                    ))
              | inr (l, r, d, o) ↦
                  let apart : (l == m) ≡ false = ground arith in
                  let step =
                    advance e (table (text e)) n m (ground arith) (t.bounded (text e)) q w in
                  rw (r, ◌>>=◌, apart, at-inside text n e (ground arith), step)
                    (horspool_loop-IsFirst table fuel (e + table (text e)) t p q w
                      (omega (arith, t.positive (text e))) (ground arith) (omega arith)
                      (λ i c. elim (Bool-cases (leb (i + m) e)) [
                        | inl before ↦ h i (leb→le _ _ before)
                        | inr late ↦ skipped table e i t o c (ground arith)
                      ]))
            ])
  ]

-- For a pattern that is not empty and a text of fewer than 2 ^ 31 bytes horspool returns, reads no
-- byte out of bounds, and its result is the first index of the pattern in the text, or -1 if it
-- does not occur.
pub horspool-IsFirst :
    (text pattern : ℕ → ℕ) (n m : ℕ)
    → 0 < m
    → n + n < word
    → IsFirst text pattern n m (horspool (some text) (some pattern) n m)
unfolding horspool horspool_search fill_horspool_bad_char_shift_table
horspool-IsFirst text pattern n m p w =
    guarded_lem (IsFirst text pattern n m) text pattern n m (horspool_search n m) p
      (short-IsFirst text pattern n m)
      (λ q.
        let (table, e, t) =
          fill_shifts-IsTable m (λ i. m - 1 - i) pattern m (λ i j h. omega arith) (m - 1)
            (omega arith) p (λ i h. (omega arith, omega arith)) in
        rw e (
          horspool_loop-IsFirst text pattern n m table (n + 1) (m - 1) t p q w (omega arith)
            (omega arith) (omega arith) (λ i c. absurd (omega arith))))

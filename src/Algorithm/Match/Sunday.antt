-- ===== src/Algorithm/Match/Sunday.antt =====
-- `sunday` finds the first occurrence, if the byte after the text can be read.
use foo.Prelude.{
  ℕ, zero, suc, ◌+◌, ◌-◌, ◌≤◌, ◌<◌, ◌≡◌, ◌≢◌, ◌⊎◌, refl, sym, ap, subst, ◌∙◌, arith, Bool, Option,
  some, none, ◌==◌, leb, ltb, Bool-cases, true, false, inl, inr,
}
use foo.Algorithm.Search.{word, add32, at, ◌>>=◌}
use foo.Algorithm.Search.Binary.{at-inside}
use foo.Algorithm.Match.{
  fill_sunday_bad_char_shift_table, sunday_compare, sunday_loop, sunday_search, sunday,
}
use foo.Algorithm.Match.Occurs.{Occurs, IsFirst, guarded_lem, short-IsFirst}
use foo.Algorithm.Match.Tables.{IsTable, fill_shifts-IsTable}

-- The comparison says whether the pattern occurs.
abbrev IsCompared : (ℕ → ℕ) → (ℕ → ℕ) → ℕ → ℕ → ℕ → Option Bool → Type 0
IsCompared text pattern n m s r =
    ((r ≡ some true) × Occurs text pattern n m s) ⊎ ((r ≡ some false) × ¬ Occurs text pattern n m s)

advance : (s c n m : ℕ) → s + m ≤ n → c ≤ m + 1 → n + 1 < word → add32 s c ≡ s + c
unfolding add32
advance s c n m p q r = omega arith

module _ (text pattern : ℕ → ℕ) (n m : ℕ) where
  more :
      (s l : ℕ)
      → text (s + l) ≡ pattern l
      → ((i : ℕ) → i < l → text (s + i) ≡ pattern i)
      → (i : ℕ) → i < l + 1
      → text (s + i) ≡ pattern i
  more s l e h i c = elim (Bool-cases (i == l)) [
    | inl j ↦ let at_l : i ≡ l = ground arith in rw at_l e
    | inr j ↦ h i (ground arith)
  ]

  module _ (size : ℕ) (fits : n ≤ size) where
    sunday_compare_lem :
        (s k l : ℕ)
        → k + l ≡ m
        → 0 < k
        → s + m ≤ n
        → ((i : ℕ) → i < l → text (s + i) ≡ pattern i)
        → IsCompared text pattern n m s (sunday_compare text pattern size m s k l)
    unfolding sunday_compare
    sunday_compare_lem s zero l p z q h = absurd (omega arith)
    sunday_compare_lem s (suc k) l p z q h =
        let a = at-inside text size (s + l) (omega arith) in
        let b = at-inside pattern m l (omega arith) in
        elim (Bool-cases (text (s + l) == pattern l)) [
          | inr other ↦
              rw (a, b, ◌>>=◌, other) (inr (refl, λ o. absurd (ground (arith, o l (omega arith)))))
          | inl same ↦ elim (Bool-cases ((l + 1) == m)) [
            | inl last ↦
                rw (a, b, ◌>>=◌, same, last)
                  (inl (refl, λ i c. more s l (ground arith) h i (ground arith)))
            | inr on ↦
                rw (a, b, ◌>>=◌, same, on)
                  (sunday_compare_lem s k (l + 1) (omega arith) (ground arith) q
                    (more s l (ground arith) h))
          ]
        ]

    -- The pattern does not start in the indices that a shift skips.
    skipped :
        (table : ℕ → ℕ) (s i : ℕ)
        → IsTable (m + 1) (λ i. m - i) pattern m table
        → ¬ Occurs text pattern n m s
        → i < s + table (text (s + m))
        → s ≤ i
        → ¬ Occurs text pattern n m i
    skipped table s i t o p q occurs = elim (Bool-cases (i == s)) [
      | inl same ↦
          let at_s : i ≡ s = ground arith in o (subst (Occurs text pattern n m) at_s occurs)
      | inr other ↦
          let apart : i ≢ s = ground arith in
          let room = t.bounded (text (s + m)) in
          let index : i + (s + m - i) ≡ s + m = omega arith in
          let same = ap table (ap text (sym index) ∙ occurs (s + m - i) (omega arith)) in
          absurd (omega (arith, t.before (s + m - i) (omega arith)))
    ]

    sunday_loop-IsFirst :
        (table : ℕ → ℕ) (fuel s : ℕ)
        → IsTable (m + 1) (λ i. m - i) pattern m table
        → n < size
        → 0 < m
        → m ≤ n
        → n + 1 < word
        → n + 2 ≤ s + m + fuel
        → 0 < fuel
        → ((i : ℕ) → i < s → ¬ Occurs text pattern n m i)
        → IsFirst text pattern n m (sunday_loop text pattern size n m table fuel s)
    unfolding sunday_loop
    sunday_loop-IsFirst table zero s t z p q w f g h = absurd (omega arith)
    sunday_loop-IsFirst table (suc fuel) s t z p q w f g h = elim (Bool-cases (leb s (n - m))) [
      | inr past ↦ rw (sunday_loop, past) (inr (refl, λ i c. h i (ground arith)))
      | inl there ↦
          let inside : s + m ≤ n = ground arith in
          rw (sunday_loop, there)
            (elim (sunday_compare_lem s m 0 (omega arith) p inside (λ i c. absurd (omega arith))) [
              | inl (r, o) ↦ rw r (inl (s, refl, inside, o, h))
              | inr (r, o) ↦
                  let step =
                    advance s (table (text (s + m))) n m inside (t.bounded (text (s + m))) w in
                  rw (r, at-inside text size (s + m) (omega arith), step)
                    (sunday_loop-IsFirst table fuel (s + table (text (s + m))) t z p q w
                      (omega (arith, t.positive (text (s + m)))) (ground arith)
                      (λ i c. elim (Bool-cases (ltb i s)) [
                        | inl before ↦ h i (ground arith)
                        | inr late ↦ skipped table s i t o c (ground arith)
                      ]))
            ])
    ]

-- For a pattern that is not empty and a text of fewer than 2 ^ 32 - 1 bytes, after which one more
-- byte can be read, sunday returns, reads no byte out of these bounds, and its result is the first
-- index of the pattern in the text, or -1 if it does not occur.
pub sunday-IsFirst :
    (text pattern : ℕ → ℕ) (size n m : ℕ)
    → 0 < m
    → n < size
    → n + 1 < word
    → IsFirst text pattern n m (sunday (some text) (some pattern) size n m)
unfolding sunday sunday_search fill_sunday_bad_char_shift_table
sunday-IsFirst text pattern size n m p z w =
    guarded_lem (IsFirst text pattern n m) text pattern n m (sunday_search size n m) p
      (short-IsFirst text pattern n m)
      (λ q.
        let (table, e, t) =
          fill_shifts-IsTable (m + 1) (λ i. m - i) pattern m (λ i j h. omega arith) m (omega arith)
            (omega arith) (λ i h. (omega arith, omega arith)) in
        rw e (
          sunday_loop-IsFirst text pattern n m size (omega arith) table (n + 1) 0 t z p q w
            (omega arith) (omega arith) (λ i c. absurd (omega arith))))

-- sunday on a text that has the length of a pattern that is not empty, and is not the pattern,
-- reads the byte after the text, so it has no result if the text ends there.
pub sunday_overreads :
    (text pattern : ℕ → ℕ) (m : ℕ)
    → 0 < m
    → ¬ Occurs text pattern m m 0
    → sunday (some text) (some pattern) m m m ≡ none
unfolding sunday sunday_search sunday_loop fill_sunday_bad_char_shift_table at
sunday_overreads text pattern m p differ =
    guarded_lem (λ r. r ≡ none) text pattern m m (sunday_search m m m) p (λ q. absurd (omega arith))
      (λ q.
        let (table, e, t) =
          fill_shifts-IsTable (m + 1) (λ i. m - i) pattern m (λ i j h. omega arith) m (omega arith)
            (omega arith) (λ i h. (omega arith, omega arith)) in
        rw e (reads table (m + 1) (omega arith)))
  where
    reads :
        (table : ℕ → ℕ) (fuel : ℕ) → 0 < fuel → sunday_loop text pattern m m m table fuel 0 ≡ none
    reads table zero f = absurd (omega arith)
    reads table (suc fuel) f =
        let start : leb 0 (m - m) ≡ true = ground arith in
        let past : at text m (0 + m) ≡ none = ground arith in
        elim (sunday_compare_lem text pattern m m m (omega arith) 0 m 0 (omega arith) p
          (omega arith) (λ i c. absurd (omega arith))) [
            | inl (r, o) ↦ absurd (differ o)
            | inr (r, o) ↦ rw (sunday_loop, start, r, ◌>>=◌, past) refl
          ]

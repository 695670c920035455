-- ===== src/Algorithm/Match/Missed.antt =====
-- An occurrence that `kmp` misses.
use foo.Prelude.{
  ℕ, zero, suc, ◌+◌, ◌<◌, ◌≡◌, ◌≢◌, ◌⊎◌, ◌≤◌, inl, inr, ◌∙◌, refl, sym, arith, Option, some, none,
  List, [], ◌∷◌, ◌==◌, ltb, true, false,
}
use foo.Algorithm.Search.{◌>>=◌}
use foo.Algorithm.Match.{kmp_loop, kmp_search, kmp, guarded}
use foo.Algorithm.Search.Binary.{at-inside}
use foo.Algorithm.Match.Occurs.{Occurs}
use foo.Algorithm.Match.Kmp.{IsNext, fill_next-IsNext}

-- The bytes of a string, which ends with zeros.
abbrev pub bytes : List ℕ → ℕ → ℕ
bytes [] i = 0
bytes (c ∷ cs) zero = c
bytes (c ∷ cs) (suc i) = bytes cs i

module _ (text pattern : ℕ → ℕ) (n m : ℕ) (next : ℕ → ℕ) where
  step_same :
      (f i j : ℕ)
      → i < n
      → j < m
      → text i ≡ pattern j
      → j + 1 ≢ m
      → kmp_loop text pattern n m next (suc f) i j
        ≡ kmp_loop text pattern n m next f (i + 1) (j + 1)
  unfolding kmp_loop
  step_same f i j p q e h =
      let there : ltb i n ≡ true = ground arith in
      let same : (text i == pattern j) ≡ true = ground arith in
      let on : ((j + 1) == m) ≡ false = ground arith in
      rw (kmp_loop, there, at-inside text n i p, at-inside pattern m j q, ◌>>=◌, same, on) refl

  step_back :
      (f i j k : ℕ)
      → i < n
      → 0 < j
      → j < m
      → text i ≢ pattern j
      → next j ≡ k
      → kmp_loop text pattern n m next (suc f) i j ≡ kmp_loop text pattern n m next f i k
  unfolding kmp_loop
  step_back f i j k p z q e h =
      let there : ltb i n ≡ true = ground arith in
      let other : (text i == pattern j) ≡ false = ground arith in
      let back : ltb 0 j ≡ true = ground arith in
      rw
        (
          kmp_loop,
          there,
          at-inside text n i p,
          at-inside pattern m j q,
          ◌>>=◌,
          other,
          back,
          at-inside next (m + 1) j (omega arith),
          h,
        )
        refl

  step_on :
      (f i : ℕ)
      → i < n
      → 0 < m
      → text i ≢ pattern 0
      → kmp_loop text pattern n m next (suc f) i 0 ≡ kmp_loop text pattern n m next f (i + 1) 0
  unfolding kmp_loop
  step_on f i p q e =
      let there : ltb i n ≡ true = ground arith in
      let other : (text i == pattern 0) ≡ false = ground arith in
      rw (kmp_loop, there, at-inside text n i p, at-inside pattern m 0 q, ◌>>=◌, other) refl

abbrev pub missed_pattern : ℕ → ℕ → ℕ → ℕ → ℕ
missed_pattern a b c = bytes (a ∷ b ∷ a ∷ b ∷ a ∷ c ∷ [])

abbrev pub missed_text : ℕ → ℕ → ℕ → ℕ → ℕ
missed_text a b c = bytes (a ∷ b ∷ a ∷ b ∷ a ∷ b ∷ a ∷ c ∷ [])

missed-Occurs : (a b c : ℕ) → Occurs (missed_text a b c) (missed_pattern a b c) 8 6 2
missed-Occurs a b c zero h = refl
missed-Occurs a b c (suc zero) h = refl
missed-Occurs a b c (suc (suc zero)) h = refl
missed-Occurs a b c (suc (suc (suc zero))) h = refl
missed-Occurs a b c (suc (suc (suc (suc zero)))) h = refl
missed-Occurs a b c (suc (suc (suc (suc (suc zero))))) h = refl
missed-Occurs a b c (suc (suc (suc (suc (suc (suc i)))))) h = absurd (omega arith)

low : (k : ℕ) → k ≤ 1 → (k ≡ 0) ⊎ (k ≡ 1)
low k h = ground arith

module _ (a b c : ℕ) (p : a ≢ b) (q : a ≢ c) (r : b ≢ c) (next : ℕ → ℕ)
    (v : IsNext (missed_pattern a b c) 5 next) where
  abbrev text : ℕ → ℕ
  text = missed_text a b c

  abbrev pattern : ℕ → ℕ
  pattern = missed_pattern a b c

  abbrev loop : ℕ → ℕ → ℕ → Option (Option ℕ)
  loop = kmp_loop (missed_text a b c) (missed_pattern a b c) 8 6 next

  at_7_0 : (f : ℕ) → loop (suc (suc f)) 7 0 ≡ some none
  unfolding kmp_loop
  at_7_0 f = step_on text pattern 8 6 next (suc f) 7 (omega arith) (omega arith) (λ e. q (sym e))

  at_7_1 : (f : ℕ) → loop (suc (suc (suc f))) 7 1 ≡ some none
  at_7_1 f =
      step_back text pattern 8 6 next (suc (suc f)) 7 1 0 (omega arith) (omega arith) (omega arith)
        (λ e. r (sym e)) v.start
      ∙ at_7_0 f

  at_7_3 : (f : ℕ) → loop (suc (suc (suc (suc f)))) 7 3 ≡ some none
  at_7_3 f = elim (low (next 3) (v.bounded 3)) [
    | inl e ↦
        step_back text pattern 8 6 next (suc (suc (suc f))) 7 3 0 (omega arith) (omega arith)
          (omega arith) (λ d. r (sym d)) e
        ∙ at_7_0 (suc f)
    | inr e ↦
        step_back text pattern 8 6 next (suc (suc (suc f))) 7 3 1 (omega arith) (omega arith)
          (omega arith) (λ d. r (sym d)) e
        ∙ at_7_1 f
  ]

  at_5_0 : (f : ℕ) → loop (suc (suc (suc (suc (suc f))))) 5 0 ≡ some none
  at_5_0 f =
      step_on text pattern 8 6 next (suc (suc (suc (suc f)))) 5 (omega arith) (omega arith)
        (λ d. p (sym d))
      ∙ step_same text pattern 8 6 next (suc (suc (suc f))) 6 0 (omega arith) (omega arith) refl
          (omega arith)
      ∙ at_7_1 f

  at_5_1 : (f : ℕ) → loop (suc (suc (suc (suc (suc (suc f)))))) 5 1 ≡ some none
  at_5_1 f =
      step_same text pattern 8 6 next (suc (suc (suc (suc (suc f))))) 5 1 (omega arith)
        (omega arith) refl (omega arith)
      ∙ step_same text pattern 8 6 next (suc (suc (suc (suc f)))) 6 2 (omega arith) (omega arith)
          refl (omega arith)
      ∙ at_7_3 f

  at_5_5 : loop 12 5 5 ≡ some none
  at_5_5 = elim (low (next 5) (v.bounded 5)) [
    | inl e ↦
        step_back text pattern 8 6 next 11 5 5 0 (omega arith) (omega arith) (omega arith) r e
        ∙ at_5_0 6
    | inr e ↦
        step_back text pattern 8 6 next 11 5 5 1 (omega arith) (omega arith) (omega arith) r e
        ∙ at_5_1 5
  ]

  from_start : loop 17 0 0 ≡ some none
  from_start =
      step_same text pattern 8 6 next 16 0 0 (omega arith) (omega arith) refl (omega arith)
      ∙ step_same text pattern 8 6 next 15 1 1 (omega arith) (omega arith) refl (omega arith)
      ∙ step_same text pattern 8 6 next 14 2 2 (omega arith) (omega arith) refl (omega arith)
      ∙ step_same text pattern 8 6 next 13 3 3 (omega arith) (omega arith) refl (omega arith)
      ∙ step_same text pattern 8 6 next 12 4 4 (omega arith) (omega arith) refl (omega arith)
      ∙ at_5_5

-- kmp misses occurrences: for different bytes a, b and c it returns -1 for the pattern ababac in
-- the text abababac, where the pattern stands at index 2.
pub kmp_misses :
    (a b c : ℕ)
    → a ≢ b
    → a ≢ c
    → b ≢ c
    → Occurs (missed_text a b c) (missed_pattern a b c) 8 6 2
      × (kmp (some (missed_text a b c)) (some (missed_pattern a b c)) 8 6 ≡ some none)
unfolding kmp kmp_search guarded
kmp_misses a b c p q r =
    let (next, e, v) = fill_next-IsNext (missed_pattern a b c) 6 5 (omega arith) in
    (missed-Occurs a b c, rw e (from_start a b c p q r next v))

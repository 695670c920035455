-- ===== src/Algorithm/Match/Kmp.antt =====
-- `kmp` returns an occurrence or -1, and it misses some.
use foo.Prelude.{
  ℕ, zero, suc, ◌+◌, ◌-◌, ◌*◌, ◌≤◌, ◌<◌, ◌≡◌, ◌≢◌, refl, sym, ap, ◌∙◌, arith, some, ◌==◌, ltb,
  update, Bool-cases, inl, inr, if◌then◌else◌,
}
use foo.Algorithm.Search.{word, add32, sub32, ◌>>=◌}
use foo.Algorithm.Search.Binary.{at-inside}
use foo.Algorithm.Match.{fall_back, extends, fill_next, kmp_loop, kmp_search, kmp}
use foo.Algorithm.Match.Occurs.{IsSome, guarded_lem}

shift_index : (i j : ℕ) → j ≤ i → i < word → add32 (sub32 i (j + 1)) 1 ≡ i - j
unfolding add32 sub32
shift_index i j h k = omega arith

-- The entries are 0 or 1, and 1 only where the byte before is the first byte of the pattern; those
-- after the rounds are 0.
pub record IsNext (pattern : ℕ → ℕ) (r : ℕ) (next : ℕ → ℕ) : Type 0 where
  pub bounded : (k : ℕ) → next k ≤ 1
  pub start : next 1 ≡ 0
  pub begins : (k : ℕ) → next k ≡ 1 → pattern (k - 1) ≡ pattern 0
  pub blank : (k : ℕ) → r + 1 < k → next k ≡ 0

module _ (pattern : ℕ → ℕ) (m : ℕ) where
  extended :
      (r : ℕ) (next : ℕ → ℕ)
      → IsNext pattern r next
      → IsNext pattern
          (suc r)
          (if pattern 0 == pattern (r + 1) then update next (r + 2) (0 + 1) else next)
  extended r next h = elim (Bool-cases (pattern 0 == pattern (r + 1))) [
    | inr e ↦ rw e (record {
      bounded = h.bounded;
      start = h.start;
      begins = h.begins;
      blank = λ k c. h.blank k (omega arith);
    })
    | inl e ↦ rw e (record {
      bounded = λ k. ground (arith, h.bounded k);
      start = ground (arith, h.start);
      begins = λ k c. elim (Bool-cases ((r + 2) == k)) [
        | inl f ↦ let index : k - 1 ≡ r + 1 = ground arith in rw index (ground arith)
        | inr f ↦ h.begins k (ground arith)
      ];
      blank = λ k c. ground (arith, h.blank k);
    })
  ]

  pub fill_next-IsNext :
      (r : ℕ)
      → r + 1 ≤ m
      → (next : ℕ → ℕ) × (fill_next pattern m r ≡ some next) × IsNext pattern r next
  unfolding fill_next fall_back extends
  fill_next-IsNext zero h = (
    λ x. 0,
    refl,
    record {
      bounded = λ k. omega arith;
      start = refl;
      begins = λ k c. absurd (omega arith);
      blank = λ k c. refl;
    },
  )
  fill_next-IsNext (suc r) h =
      let (next, e, v) = fill_next-IsNext r (omega arith) in
      let entry = at-inside next (m + 1) (r + 2) (omega arith) in
      let none_there = v.blank (r + 2) (omega arith) in
      let first = at-inside pattern m 0 (omega arith) in
      let here = at-inside pattern m (r + 1) (omega arith) in
      let fuel : m + 1 ≡ suc m = omega arith in
      (_, rw (e, entry, none_there, fuel, first, here) refl, extended r next v)

module _ (text pattern : ℕ → ℕ) (n m : ℕ) where
  -- After a mismatch at `j`, what `next` keeps of the pattern still stands before `i`.
  fallen :
      (next : ℕ → ℕ) (i j : ℕ)
      → IsNext pattern (m - 1) next
      → 0 < j
      → j ≤ i
      → ((x : ℕ) → x < j → text (i - j + x) ≡ pattern x)
      → (next j < j) × ((x : ℕ) → x < next j → text (i - next j + x) ≡ pattern x)
  fallen next i j v p q h = (
    elim (Bool-cases (j == 1)) [
      | inl e ↦ let one : j ≡ 1 = ground arith in omega (arith, ap next one, v.start)
      | inr e ↦ let many : j ≢ 1 = ground arith in omega (arith, v.bounded j)
    ],
    λ x c.
        let one : next j ≡ 1 = omega (arith, v.bounded j) in
        let index : i - next j + x ≡ i - j + (j - 1) = omega arith in
        let zeroth : x ≡ 0 = omega arith in
        ap text index ∙ h (j - 1) (omega arith) ∙ v.begins j one ∙ ap pattern (sym zeroth),
  )

  grown :
      (i j : ℕ)
      → j ≤ i
      → text i ≡ pattern j
      → ((x : ℕ) → x < j → text (i - j + x) ≡ pattern x)
      → (x : ℕ) → x < j + 1
      → text (i - j + x) ≡ pattern x
  grown i j q e h x c = elim (Bool-cases (x == j)) [
    | inl f ↦
        let at_j : x ≡ j = ground arith in
        let index : i - j + x ≡ i = omega arith in rw index (rw at_j e)
    | inr f ↦ h x (ground arith)
  ]

  kmp_loop-IsSome :
      (next : ℕ → ℕ) (fuel i j : ℕ)
      → IsNext pattern (m - 1) next
      → n < word
      → j < m
      → j ≤ i
      → n + n + j < fuel + i + i
      → 0 < fuel
      → ((x : ℕ) → x < j → text (i - j + x) ≡ pattern x)
      → IsSome text pattern n m (kmp_loop text pattern n m next fuel i j)
  unfolding kmp_loop
  kmp_loop-IsSome next zero i j v w b q f g h = absurd (omega arith)
  kmp_loop-IsSome next (suc fuel) i j v w b q f g h = elim (Bool-cases (ltb i n)) [
    | inr past ↦ rw (kmp_loop, past) (inr refl)
    | inl there ↦
        let inside : i < n = ground arith in
        let c = at-inside text n i inside in
        let d = at-inside pattern m j b in
        elim (Bool-cases (text i == pattern j)) [
          | inl same ↦
              let longer = grown i j q (ground arith) h in
              elim (Bool-cases ((j + 1) == m)) [
                | inl last ↦
                    let whole : j + 1 ≡ m = ground arith in
                    rw (kmp_loop, there, c, d, ◌>>=◌, same, last)
                      (inl (
                        i - j,
                        ap (λ s. some (some s)) (shift_index i j q (omega arith)),
                        omega arith,
                        λ x k. longer x (omega arith),
                      ))
                | inr on ↦
                    rw (kmp_loop, there, c, d, ◌>>=◌, same, on)
                      (kmp_loop-IsSome next fuel (i + 1) (j + 1) v w (ground arith) (omega arith)
                        (omega arith) (omega arith)
                        (λ x k.
                          let index : i + 1 - (j + 1) ≡ i - j = omega arith in
                          rw index (longer x k)))
              ]
          | inr other ↦ elim (Bool-cases (ltb 0 j)) [
            | inl back ↦
                let (less, kept) = fallen next i j v (ground arith) q h in
                rw
                  (
                    kmp_loop,
                    there,
                    c,
                    d,
                    ◌>>=◌,
                    other,
                    back,
                    at-inside next (m + 1) j (omega arith),
                  )
                  (kmp_loop-IsSome next fuel i (next j) v w (omega arith) (omega arith)
                    (omega arith) (omega arith) kept)
            | inr none_left ↦
                let zeroth : j ≡ 0 = ground arith in
                rw (kmp_loop, there, c, d, ◌>>=◌, other, none_left)
                  (kmp_loop-IsSome next fuel (i + 1) j v w b (omega arith) (omega arith)
                    (omega arith) (λ x k. absurd (omega arith)))
          ]
        ]
  ]

-- For a pattern that is not empty and a text of fewer than 2 ^ 32 bytes kmp returns, reads no byte
-- and no entry of its table out of bounds, and its result is -1 or an index of the pattern in the
-- text.
pub kmp-IsSome :
    (text pattern : ℕ → ℕ) (n m : ℕ)
    → 0 < m
    → n < word
    → IsSome text pattern n m (kmp (some text) (some pattern) n m)
unfolding kmp kmp_search
kmp-IsSome text pattern n m p w =
    guarded_lem (IsSome text pattern n m) text pattern n m (kmp_search n m) p (λ q. inr refl)
      (λ q.
        let (next, e, v) = fill_next-IsNext pattern m (m - 1) (omega arith) in
        rw e (
          kmp_loop-IsSome text pattern n m next (2 * n + 1) 0 0 v w p (omega arith) (omega arith)
            (omega arith) (λ x k. absurd (omega arith))))

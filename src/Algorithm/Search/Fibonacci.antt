-- ===== src/Algorithm/Search/Fibonacci.antt =====
-- The Fibonacci search finds a key of a sorted array, or there is none.
use native.Mathlib.Nat.{add_comm}
use native.Mathlib.Numerals.{add-one}
use foo.Prelude.{
  ℕ, zero, suc, ◌+◌, ◌-◌, ◌≤◌, ◌<◌, ◌≡◌, ◌≢◌, refl, ap, ◌∙◌, true, false, Option, none, some, List,
  arith, ltb, leb, ◌==◌, ◌&&◌, ◌||◌, length, get_elem?, if◌then◌else◌, Bool-cases, inl, inr, ltb→lt,
  leb→le,
}
use foo.Algorithm.Search.{word, add32, sub32, complement, middle, fibonacci_loop, fibonacci}
use foo.Algorithm.Search.Binary.{IsSorted, IsCorrect, at-inside, add32_suc, sub32_pred}
use foo.Algorithm.Search.Numbers.{
  fib, fib_step, fib-pos, IsFibFrom, IsFibFrom-bounds, generate_fibonacci_number-IsFibFrom,
}

-- The key can only be between the bounds, and not at or after the end of the segment of
-- `fib (m + 1) - 1` slots that begins at `lower`.
record Between (c : ℕ → ℕ) (n padded key lower upper m : ℕ) : Type 0 where
  inside : n ≤ upper → key < c (n - 1)
  below : (j : ℕ) → j < lower → c j < key
  above : (j : ℕ) → upper < j → j < n → key < c j
  ends : (j : ℕ) → lower + fib (suc m) - 1 ≤ j → j < padded → key < c j
  fits : lower + fib (suc m) ≤ padded + 1

module _ (c : ℕ → ℕ) (n padded key : ℕ) (fibs : List ℕ) (sorted : IsSorted c padded)
    (constant : (j : ℕ) → n ≤ j → j < padded → c j ≡ c (n - 1)) (wider : n ≤ padded)
    (small : padded + 1 < word)
    (entries : (j : ℕ) → j < length fibs → get_elem? fibs j ≡ some (fib (suc j))) where
  absent :
      (lower upper m : ℕ)
      → m < 2
      → Between c n padded key lower upper m
      → (j : ℕ) → j < n
      → c j ≢ key
  unfolding fib
  absent lower upper zero h v j p q = ground (arith, v.below j, v.ends j)
  absent lower upper (suc zero) h v j p q = ground (arith, v.below j, v.ends j)
  absent lower upper (suc (suc m)) h v j p q = absurd (omega arith)

  stopped :
      (fuel lower upper m : ℕ)
      → (leb lower upper && leb 2 m) ≡ false
      → fibonacci_loop (suc fuel) fibs c padded key lower upper m ≡ some none
  unfolding fibonacci_loop
  stopped fuel lower upper m h = rw (h, fibonacci_loop)

  module _ (lower upper m : ℕ) (v : Between c n padded key lower upper (suc (suc m))) where
    probe : ℕ
    probe = lower + fib (suc (suc m)) - 1

    probe-inside : (probe < padded) × (lower ≤ probe) × (lower + fib (suc (suc m)) < word)
    unfolding probe
    probe-inside = omega (arith, v.fits, fib_step (suc m), fib-pos m, fib-pos (suc m))

    middle-probe : middle padded lower (fib (suc (suc m))) ≡ probe
    unfolding probe middle sub32 add32
    middle-probe = ground (arith, probe-inside, fib-pos (suc m))

    left-Between : key < c probe → 0 < probe → Between c n padded key lower (probe - 1) (suc m)
    unfolding probe
    left-Between h pos =
        let at = probe-inside in
        let e = fib_step (suc m) in
        record {
          inside = λ q. ground (arith, constant (lower + fib (suc (suc m)) - 1), at);
          below = v.below;
          above = λ j q r. ground (arith, sorted (lower + fib (suc (suc m)) - 1) j);
          ends = λ j q r. ground (arith, sorted (lower + fib (suc (suc m)) - 1) j);
          fits = omega (arith, v.fits);
        }

    right-Between : c probe < key → Between c n padded key (probe + 1) upper m
    unfolding probe
    right-Between h =
        let at = probe-inside in
        let e = fib_step (suc m) in
        let p = fib-pos (suc m) in
        record {
          inside = v.inside;
          below = λ j q. ground (arith, sorted j (lower + fib (suc (suc m)) - 1), at);
          above = v.above;
          ends = λ j q r. ground (arith, v.ends j);
          fits = omega (arith, v.fits);
        }

    -- The result where the probe holds the key.
    hit : c probe ≡ key → IsCorrect c n key (some (some (if leb probe upper then probe else upper)))
    unfolding probe
    hit e =
        let at = probe-inside in
        let p = lower + fib (suc (suc m)) - 1 in
        elim (Bool-cases (leb p upper)) [
          | inl low ↦
              rw low
                (inl (p, refl, ground (arith, constant p, v.inside, at, leb→le p upper low), e))
          | inr high ↦
              let inside : upper < n = ground (arith, constant p, v.inside, at) in
              let same : upper ≡ n - 1 =
                ground (arith, constant p, v.above p, v.above (n - 1), at) in
              rw high (inl (upper, refl, inside, ap c same ∙ ground (arith, constant p, at)))
        ]

  fibonacci_loop-IsCorrect :
      (fuel lower upper m : ℕ)
      → m < fuel
      → m ≤ length fibs
      → 0 < length fibs
      → Between c n padded key lower upper m
      → IsCorrect c n key (fibonacci_loop fuel fibs c padded key lower upper m)
  unfolding fibonacci_loop
  fibonacci_loop-IsCorrect zero lower upper m f l e v = absurd (omega arith)
  fibonacci_loop-IsCorrect (suc fuel) lower upper zero f l e v =
      inr (stopped fuel lower upper 0 (ground arith), absent lower upper 0 (omega arith) v)
  fibonacci_loop-IsCorrect (suc fuel) lower upper (suc zero) f l e v =
      inr (stopped fuel lower upper 1 (ground arith), absent lower upper 1 (omega arith) v)
  fibonacci_loop-IsCorrect (suc fuel) lower upper (suc (suc m)) f l e v =
      let mid = probe lower upper m v in
      let (inside, after, room) = probe-inside lower upper m v in
      elim (Bool-cases (leb lower upper)) [
        | inr out ↦ inr (
          stopped fuel lower upper (suc (suc m)) (rw out),
          λ j p. ground (arith, v.below j, v.above j),
        )
        | inl open_range ↦
            rw
              (
                open_range,
                two m,
                entry,
                middle-probe lower upper m v,
                at-inside c padded mid inside,
              )
              (elim (Bool-cases (ltb key (c mid))) [
                | inl lower_half ↦ elim (Bool-cases (mid == 0)) [
                  | inl start ↦
                      rw (lower_half, start) (inr (refl, λ j p. ground (arith, sorted mid j)))
                  | inr later ↦
                      rw (lower_half, later, sub32_pred mid (ground arith) (omega arith), index m)
                        (fibonacci_loop-IsCorrect fuel lower (mid - 1) (suc m) (omega arith)
                          (omega arith) e
                          (left-Between lower upper m v (ltb→lt _ _ lower_half) (ground arith)))
                ]
                | inr not_lower ↦ elim (Bool-cases (ltb (c mid) key)) [
                  | inl upper_half ↦
                      rw (not_lower, upper_half, add32_suc mid (omega arith), index_two m)
                        (fibonacci_loop-IsCorrect fuel (mid + 1) upper m (omega arith) (omega arith)
                          e (right-Between lower upper m v (ltb→lt _ _ upper_half)))
                  | inr not_upper ↦ rw (not_lower, not_upper) (hit lower upper m v (ground arith))
                ]
              ])
      ]
    where
      two : (m : ℕ) → leb 2 (suc (suc m)) ≡ true
      two m = ground arith

      index : (m : ℕ) → suc (suc m) - 1 ≡ suc m
      index m = omega arith

      index_two : (m : ℕ) → suc (suc m) - 2 ≡ m
      index_two m = omega arith

      entry : get_elem? fibs (suc (suc m) - 1) ≡ some (fib (suc (suc m)))
      entry = rw (index m) (entries (suc m) (omega arith))

complement-IsSorted :
    (a : ℕ → ℕ) (n padded : ℕ) → 0 < n → IsSorted a n → IsSorted (complement a n) padded
complement-IsSorted a n padded pos sorted i j p q = ground (arith, sorted i j, sorted i (n - 1))

complement-IsCorrect :
    (a : ℕ → ℕ) (n key : ℕ) (r : Option (Option ℕ))
    → IsCorrect (complement a n) n key r
    → IsCorrect a n key r
complement-IsCorrect a n key r (inl (i, e, p, q)) = inl (i, e, p, ground arith)
complement-IsCorrect a n key r (inr (e, h)) = inr (e, λ j p. ground (arith, h j p))

-- The whole array is the first segment.
start-Between :
    (a : ℕ → ℕ) (n key : ℕ) (xs : List ℕ)
    → 0 < n
    → a 0 ≤ key
    → key ≤ a (n - 1)
    → IsFibFrom 1 n xs
    → Between (complement a n) n (fib (length xs) - 1) key 0 (n - 1) (length xs - 1)
start-Between a n key xs pos low high v =
    let (three, above, tight) = IsFibFrom-bounds n xs pos v in
    let top : suc (length xs - 1) ≡ length xs = omega arith in
    record {
      inside = λ p. absurd (omega arith);
      below = λ j p. absurd (omega arith);
      above = λ j p q. absurd (omega arith);
      ends = λ j p q. absurd (no_room j (rw top at p) q);
      fits = rw top (omega arith);
    }
  where
    no_room : (j : ℕ) → 0 + fib (length xs) - 1 ≤ j → j < fib (length xs) - 1 → ⊥
    no_room j p q = omega arith

fibonacci-IsCorrect_pos :
    (a : ℕ → ℕ) (n key : ℕ)
    → IsSorted a n
    → 0 < n
    → n < 2147483648
    → IsCorrect a n key (fibonacci (some a) n key)
unfolding fibonacci
fibonacci-IsCorrect_pos a n key sorted pos small =
    elim (Bool-cases (ltb key (a 0) || ltb (a (n - 1)) key)) [
      | inl out ↦ inr (
        rw (nonzero, at-inside a n 0 pos, at-inside a n (n - 1) (omega arith), out),
        λ j p. ground (arith, sorted 0 j, sorted j (n - 1)),
      )
      | inr e ↦
          let (xs, run, v) = generate_fibonacci_number-IsFibFrom n pos small in
          let (three, above, tight) = IsFibFrom-bounds n xs pos v in
          let last : 1 + (length xs - 1) ≡ length xs = omega arith in
          let enough : ltb (length xs) 3 ≡ false = ground arith in
          let top : get_elem? xs (length xs - 1) ≡ some (fib (length xs)) =
            v.entries (length xs - 1) (omega arith) ∙ ap (λ k. some (fib k)) last in
          rw
            (
              nonzero,
              at-inside a n 0 pos,
              at-inside a n (n - 1) (omega arith),
              e,
              run,
              enough,
              top,
              sub32_pred (fib (length xs)) (omega arith) (omega arith),
            )
            (complement-IsCorrect a n key _ (
              fibonacci_loop-IsCorrect (complement a n) n (fib (length xs) - 1) key xs
                (complement-IsSorted a n _ pos sorted) (λ j p q. ground arith) (omega arith)
                (omega arith)
                (λ j p. v.entries j p ∙ ap (λ k. some (fib k)) (add_comm 1 j ∙ add-one j))
                (length xs) 0 (n - 1) (length xs - 1) (omega arith) (omega arith) (omega arith)
                (start-Between a n key xs pos (ground arith) (ground arith) v)))
    ]
  where
    nonzero : (n == 0) ≡ false
    nonzero = ground arith

-- On a sorted array of fewer than 2 ^ 31 elements fibonacci returns, reads no element out of
-- bounds, and its result is an index of the key, or -1 if the key does not occur.
pub fibonacci-IsCorrect :
    (a : ℕ → ℕ) (n key : ℕ)
    → IsSorted a n
    → n < 2147483648
    → IsCorrect a n key (fibonacci (some a) n key)
unfolding fibonacci
fibonacci-IsCorrect a zero key sorted small = inr (refl, λ j p. absurd (omega arith))
fibonacci-IsCorrect a (suc n) key sorted small =
    fibonacci-IsCorrect_pos a (suc n) key sorted (omega arith) small

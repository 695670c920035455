-- ===== src/Algorithm/Search/Numbers.antt =====
-- The Fibonacci numbers, and the list that `generateFibonacciNumber` makes of them.
use native.Mathlib.Nat.{add-zero}
use foo.Prelude.{
  ℕ, zero, suc, ◌+◌, ◌-◌, ◌≤◌, ◌<◌, ◌≡◌, refl, ap, ◌∙◌, false, some, List, [], ◌∷◌, arith, ltb,
  length, get_elem?, Bool-cases, inl, inr, ltb→lt, ◌==◌,
}
use foo.Algorithm.Search.{word, add32, generate_loop, generate_fibonacci_number}

unfoldable pub fib : ℕ → ℕ
fib zero = 0
fib (suc zero) = 1
fib (suc (suc n)) = fib (suc n) + fib n

pub fib_step : (n : ℕ) → fib (suc (suc n)) ≡ fib (suc n) + fib n
unfolding fib
fib_step n = refl

pub fib-pos : (n : ℕ) → 0 < fib (suc n)
unfolding fib
fib-pos zero = omega arith
fib-pos (suc n) = omega (arith, fib-pos n)

fib_pair : ℕ → ℕ × ℕ
fib_pair zero = (0, 1)
fib_pair (suc n) = let (a, b) = fib_pair n in (b, a + b)

fib_pair-fib : (n : ℕ) → (((fib_pair n).0 ≡ fib n) × ((fib_pair n).1 ≡ fib (suc n)))
unfolding fib_pair fib
fib_pair-fib zero = (refl, refl)
fib_pair-fib (suc n) = let (p, q) = fib_pair-fib n in (q, omega (arith, p, q))

fib_large : 2147483648 ≤ fib 47
unfolding fib_pair
fib_large = let (p, q) = fib_pair-fib 47 in rw (← p) (omega arith)

-- `xs` holds the Fibonacci numbers from the one at `k` on, up to the first above `limit`.
pub record IsFibFrom (k limit : ℕ) (xs : List ℕ) : Type 0 where
  pub entries : (j : ℕ) → j < length xs → get_elem? xs j ≡ some (fib (k + j))
  pub nonempty : 0 < length xs
  pub above : limit < fib (k + (length xs - 1))
  pub tight : (j : ℕ) → j < length xs - 1 → fib (k + j) ≤ limit

add32-small : (a b : ℕ) → a + b < word → add32 a b ≡ a + b
unfolding add32
add32-small a b h = omega arith

cons-IsFibFrom :
    (k limit : ℕ) (xs : List ℕ)
    → fib k ≤ limit
    → IsFibFrom (suc k) limit xs
    → IsFibFrom k limit (fib k ∷ xs)
cons-IsFibFrom k limit xs h v = record {
  entries = entry;
  nonempty = omega arith;
  above = rw last v.above;
  tight = low;
}
  where
    shift : (j : ℕ) → k + suc j ≡ suc k + j
    shift j = omega arith

    last : k + (length (fib k ∷ xs) - 1) ≡ suc k + (length xs - 1)
    last = omega (arith, v.nonempty)

    entry : (j : ℕ) → j < suc (length xs) → get_elem? (fib k ∷ xs) j ≡ some (fib (k + j))
    entry zero p = rw add-zero
    entry (suc j) p = rw (shift j) (v.entries j (omega arith))

    low : (j : ℕ) → j < suc (length xs) - 1 → fib (k + j) ≤ limit
    low zero p = rw add-zero h
    low (suc j) p = rw (shift j) (v.tight j (omega arith))

generate_loop-IsFibFrom :
    (fuel k limit : ℕ)
    → fuel + k ≡ 48
    → limit < 2147483648
    → fib k ≤ limit
    → (xs : List ℕ) × (generate_loop fuel limit (fib k) (fib (suc k)) ≡ some xs)
      × IsFibFrom (suc k) limit xs
unfolding generate_loop
generate_loop-IsFibFrom zero k limit e small h =
    absurd (omega (arith, fib_large, ap fib (the_last k e), fib_step 46, fib_step 46))
  where
    the_last : (k : ℕ) → 0 + k ≡ 48 → k ≡ 48
    the_last k e = omega arith
generate_loop-IsFibFrom (suc fuel) k limit e small h = elim (Bool-cases (ltb limit (fib (suc k)))) [
  | inl stop ↦ (
    fib (suc k) ∷ [],
    rw stop,
    record {
      entries = single;
      nonempty = omega arith;
      above = rw add-zero (ltb→lt _ _ stop);
      tight = λ j p. absurd (omega arith);
    },
  )
  | inr more ↦
      let next : fib (suc k) ≤ limit = ground arith in
      let (xs, run, v) = generate_loop-IsFibFrom fuel (suc k) limit (omega arith) small next in
      (
        fib (suc k) ∷ xs,
        rw (more, generate_loop, wrap next, run),
        cons-IsFibFrom (suc k) limit xs next v,
      )
]
  where
    wrap : fib (suc k) ≤ limit → add32 (fib k) (fib (suc k)) ≡ fib (suc (suc k))
    wrap next = add32-small (fib k) (fib (suc k)) (omega arith) ∙ omega (arith, fib_step k)

    single : (j : ℕ) → j < 1 → get_elem? (fib (suc k) ∷ []) j ≡ some (fib (suc k + j))
    single zero p = rw add-zero
    single (suc j) p = absurd (omega arith)

-- For a limit that is positive and below 2 ^ 31 generateFibonacciNumber ends within its rounds,
-- and gives the Fibonacci numbers from the first up to the first that is above the limit.
pub generate_fibonacci_number-IsFibFrom :
    (limit : ℕ)
    → 0 < limit
    → limit < 2147483648
    → (xs : List ℕ) × (generate_fibonacci_number limit ≡ some xs) × IsFibFrom 1 limit xs
unfolding generate_fibonacci_number fib
generate_fibonacci_number-IsFibFrom limit pos small =
    let (xs, run, v) = generate_loop-IsFibFrom 48 0 limit refl small (omega arith) in
    (xs, rw nonzero run, v)
  where
    nonzero : (limit == 0) ≡ false
    nonzero = ground arith

-- The list has three numbers at least, and its last one is above the limit by at most the limit.
pub IsFibFrom-bounds :
    (n : ℕ) (xs : List ℕ)
    → 0 < n
    → IsFibFrom 1 n xs
    → (3 ≤ length xs) × (n < fib (length xs)) × (fib (length xs) ≤ n + n)
unfolding fib
IsFibFrom-bounds n [] pos v = absurd (omega (arith, v.nonempty))
IsFibFrom-bounds n (x ∷ []) pos v = absurd (omega (arith, v.above))
IsFibFrom-bounds n (x ∷ y ∷ []) pos v = absurd (omega (arith, v.above))
IsFibFrom-bounds n (x ∷ y ∷ z ∷ xs) pos v =
    let k = length xs in
    let top : 1 + (suc (suc (suc k)) - 1) ≡ suc (suc (suc k)) = omega arith in
    let second : 1 + (k + 1) ≡ suc (suc k) = omega arith in
    let third : 1 + k ≡ suc k = omega arith in
    let a = rw top at (v.above) in
    let b = rw second at (v.tight (k + 1) (omega arith)) in
    let c = rw third at (v.tight k (omega arith)) in omega arith

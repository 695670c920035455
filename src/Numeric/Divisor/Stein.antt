-- ===== src/Numeric/Divisor/Stein.antt =====
-- `stein` lists the common divisors, by halving and subtraction.
use native.Mathlib.Nat.{
  dvd_refl, dvd-zero, dvd-add, dvd-sub, dvd_trans, dvd-mul_right_of_dvd, mul-dvd-mul_left,
  dvd_of_mul-dvd-mul_left, mod-eq-zero_of_dvd, dvd_of_mod-eq-zero, mul_assoc, zero-add, mul_comm,
  pow-suc, dvd-mul_left_of_dvd, dvd-mul_right,
}
use foo.Prelude.{
  ℕ, zero, suc, ◌+◌, ◌-◌, ◌*◌, ◌/◌, ◌%◌, ◌^◌, ◌≤◌, ◌<◌, ◌≡◌, ◌≢◌, refl, sym, ap, subst, false, none,
  some, arith, ltb, ◌==◌, ◌&&◌, ◌∣◌, Bool-cases, inl, inr, ℕ_discrete,
}
use foo.Numeric.Divisor.{is_even, halve_loop, stein_recursive, common_loop, stein_gcd}
use foo.Numeric.Divisor.Euclid.{IsGcd}

-- A divisor of an odd number is odd, and divides half of an even number that it divides.
half_dvd : (d b a : ℕ) → b % 2 ≡ 1 → d ∣ b → a % 2 ≡ 0 → d ∣ a → d ∣ a / 2
half_dvd d b a odd db even da = elim (ℕ_discrete (d % 2) 0) [
  | yes e ↦ absurd (omega (arith, mod-eq-zero_of_dvd 2 (dvd_trans 2 (dvd_of_mod-eq-zero 2 e) db)))
  | no ne ↦
      subst (λ k. d ∣ k) (split (d / 2) (a / 2) (omega arith) (omega arith))
        (dvd-sub d (dvd-mul_right d (a / 2)) (dvd-mul_right_of_dvd d da (d / 2)))
]
  where
    split : (k m : ℕ) → d ≡ 2 * k + 1 → a ≡ 2 * m → d * m - a * k ≡ m
    split k m p q = rw (p, q) (omega arith)

-- Halving an even number beside an odd one keeps the gcd.
half-IsGcd : (a b g : ℕ) → b % 2 ≡ 1 → a % 2 ≡ 0 → IsGcd (a / 2) b g → IsGcd a b g
half-IsGcd a b g odd even v = record {
  divides = λ d h.
      let (p, q) = v.divides d h in
      (subst (λ k. d ∣ k) (omega arith) (dvd-mul_left_of_dvd d p 2), q);
  greatest = λ d p q. v.greatest d (half_dvd d b a odd q even p) q;
}

sub-IsGcd : (a b g : ℕ) → a ≤ b → IsGcd (b - a) a g → IsGcd a b g
sub-IsGcd a b g h v = record {
  divides =
      λ d k. let (p, q) = v.divides d k in (q, subst (λ k. d ∣ k) (omega arith) (dvd-add d p q));
  greatest = λ d p q. v.greatest d (dvd-sub d q p) p;
}

swap-IsGcd : (a b g : ℕ) → IsGcd a b g → IsGcd b a g
swap-IsGcd a b g v = record {
  divides = λ d h. let (p, q) = v.divides d h in (q, p);
  greatest = λ d p q. v.greatest d q p;
}

-- The loop that makes `a` odd keeps the gcd with an odd number.
halve_loop-IsGcd :
    (fuel a b : ℕ)
    → 0 < a
    → a < fuel
    → b % 2 ≡ 1
    → (a' : ℕ) × (halve_loop fuel a ≡ some a')
      × (a' ≤ a)
      × (a' % 2 ≡ 1)
      × ((g : ℕ) → IsGcd a' b g → IsGcd a b g)
unfolding halve_loop
halve_loop-IsGcd zero a b pos f odd = absurd (omega arith)
halve_loop-IsGcd (suc fuel) a b pos f odd = elim (Bool-cases (is_even a)) [
  | inl even ↦
      let (a', run, le, odd', keep) =
        halve_loop-IsGcd fuel (a / 2) b (ground arith) (ground arith) odd in
      (
        a',
        rw (even, halve_loop, run),
        omega arith,
        odd',
        λ g v. half-IsGcd a b g odd (ground arith) (keep g v),
      )
  | inr odd_a ↦ (a, rw odd_a, omega arith, ground arith, λ g v. v)
]

stein_recursive-IsGcd :
    (fuel a b : ℕ)
    → a + b < fuel
    → b % 2 ≡ 1
    → (g : ℕ) × (stein_recursive fuel a b ≡ some g) × IsGcd a b g
unfolding stein_recursive
stein_recursive-IsGcd zero a b f odd = absurd (omega arith)
stein_recursive-IsGcd (suc fuel) a b f odd = elim (ℕ_discrete a 0) [
  | yes e ↦ rw e (b, refl, record { divides = λ d h. (dvd-zero d, h); greatest = λ d h k. k })
  | no ne ↦
      let (a', run, le, odd', keep) =
        halve_loop-IsGcd (a + 1) a b (omega arith) (omega arith) odd in
      elim (Bool-cases (ltb a' b)) [
        | inl below ↦
            let (g, rec, v) = stein_recursive-IsGcd fuel ((b - a') / 2) a' (ground arith) odd' in
            (
              g,
              rw (nonzero a ne, nonzero b (omega arith), stein_recursive, run, below, rec),
              keep g (
                  sub-IsGcd a' b g (ground arith)
                    (half-IsGcd (b - a') a' g odd' (even b a' odd odd' (ground arith)) v)),
            )
        | inr above ↦
            let (g, rec, v) = stein_recursive-IsGcd fuel ((a' - b) / 2) b (ground arith) odd in
            (
              g,
              rw (nonzero a ne, nonzero b (omega arith), stein_recursive, run, above, rec),
              keep g (
                  swap-IsGcd b a' g (
                    sub-IsGcd b a' g (ground arith)
                      (half-IsGcd (a' - b) b g odd (even a' b odd' odd (ground arith)) v))),
            )
      ]
]
  where
    nonzero : (n : ℕ) → n ≢ 0 → (n == 0) ≡ false
    nonzero n ne = ground arith

    even : (m n : ℕ) → m % 2 ≡ 1 → n % 2 ≡ 1 → n ≤ m → (m - n) % 2 ≡ 0
    even m n p q h = omega arith

double-IsGcd : (x y g : ℕ) → x % 2 ≡ 0 → y % 2 ≡ 0 → IsGcd (x / 2) (y / 2) g → IsGcd x y (2 * g)
double-IsGcd x y g ex ey v = record {
  divides = λ d h.
      let (p, q) = v.divides g (dvd_refl g) in
      (
        dvd_trans d h (subst (λ k. 2 * g ∣ k) (omega arith) (mul-dvd-mul_left g 2 p)),
        dvd_trans d h (subst (λ k. 2 * g ∣ k) (omega arith) (mul-dvd-mul_left g 2 q)),
      );
  greatest = λ d p q. great d p q;
}
  where
    great : (d : ℕ) → d ∣ x → d ∣ y → d ∣ 2 * g
    great d p q = elim (ℕ_discrete (d % 2) 0) [
      | yes e ↦
          let twice : d ≡ 2 * (d / 2) = omega arith in
          let in_x =
            dvd_of_mul-dvd-mul_left {k = 2} (d / 2) {n = x / 2} (omega arith)
              (rw (← twice) (subst (λ k. d ∣ k) (omega arith) p)) in
          let in_y =
            dvd_of_mul-dvd-mul_left {k = 2} (d / 2) {n = y / 2} (omega arith)
              (rw (← twice) (subst (λ k. d ∣ k) (omega arith) q)) in
          subst (λ k. k ∣ 2 * g) (sym twice)
            (mul-dvd-mul_left (d / 2) 2 (v.greatest (d / 2) in_x in_y))
      | no ne ↦
          dvd-mul_left_of_dvd d
            (v.greatest d (half_dvd d d x (omega arith) (dvd_refl d) ex p)
              (half_dvd d d y (omega arith) (dvd_refl d) ey q))
            2
    ]

-- The first loop halves both numbers while both are even: it ends with one of them odd, and a
-- gcd of what is left, doubled as often, is one of the two numbers.
common_loop-IsGcd :
    (fuel x y c : ℕ)
    → 0 < x + y
    → x + y < fuel
    → (x' y' k : ℕ) × (common_loop fuel x y c ≡ some (x', y', c + k))
      × ((is_even x' && is_even y') ≡ false)
      × (0 < x' + y')
      × ((g : ℕ) → IsGcd x' y' g → IsGcd x y (g * 2 ^ k))
unfolding common_loop
common_loop-IsGcd zero x y c pos f = absurd (omega arith)
common_loop-IsGcd (suc fuel) x y c pos f = elim (Bool-cases (is_even x && is_even y)) [
  | inl even ↦
      let (x', y', k, run, odd, pos', keep) =
        common_loop-IsGcd fuel (x / 2) (y / 2) (c + 1) (ground arith) (ground arith) in
      (
        x',
        y',
        suc k,
        rw (even, common_loop, run) (ap (λ n. some (x', y', n)) (omega arith)),
        odd,
        pos',
        λ g v.
            subst (λ n. IsGcd x y n) (twice g k)
              (double-IsGcd x y (g * 2 ^ k) (ground arith) (ground arith) (keep g v)),
      )
  | inr odd ↦ (
    x,
    y,
    0,
    rw odd (ap (λ n. some (x, y, n)) (omega arith)),
    odd,
    pos,
    λ g v. subst (λ n. IsGcd x y n) (once g) v,
  )
]
  where
    twice : (g k : ℕ) → 2 * (g * 2 ^ k) ≡ g * 2 ^ suc k
    twice g k = rw (pow-suc 2 k, ← mul_assoc g (2 ^ k) 2) (mul_comm 2 (g * 2 ^ k))

    once : (g : ℕ) → g ≡ g * 2 ^ 0
    once g = omega arith

pub stein_gcd-IsGcd : (x y : ℕ) → 0 < x + y → (g : ℕ) × (stein_gcd x y ≡ some g) × IsGcd x y g
unfolding stein_gcd
stein_gcd-IsGcd x y pos =
    let (x', y', k, run, odd, pos', keep) = common_loop-IsGcd (x + y + 1) x y 0 pos (omega arith) in
    elim (Bool-cases (is_even x')) [
      | inl even ↦
          let (g, rec, v) =
            stein_recursive-IsGcd (x' / 2 + y' + 1) (x' / 2) y' (omega arith) (ground arith) in
          (
            g * 2 ^ k,
            rw (run, even, rec, zero-add k),
            keep g (half-IsGcd x' y' g (ground arith) (ground arith) v),
          )
      | inr not_even ↦
          let (g, rec, v) =
            stein_recursive-IsGcd (y' + x' + 1) y' x' (omega arith) (ground arith) in
          (g * 2 ^ k, rw (run, not_even, rec, zero-add k), keep g (swap-IsGcd y' x' g v))
    ]

-- At 0 and 0 the first loop of stein never ends: no number of rounds is enough.
pub common_loop_diverges : (fuel c : ℕ) → common_loop fuel 0 0 c ≡ none
unfolding common_loop
common_loop_diverges zero c = refl
common_loop_diverges (suc fuel) c = common_loop_diverges fuel (c + 1)

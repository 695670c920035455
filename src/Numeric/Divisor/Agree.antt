-- ===== src/Numeric/Divisor/Agree.antt =====
-- The two algorithms for the common divisors agree.
use native.Mathlib.Nat.{dvd_refl, dvd_antisymm}
use foo.Prelude.{ℕ, ◌+◌, ◌<◌, ◌≡◌, refl, ◌↔◌, true, ltb, some, List, arith, ◌∣◌}
use foo.Prelude.Int.{ℤ, abs}
use foo.Numeric.Divisor.{abs32, euclidean, stein, ◌>>=◌}
use foo.Numeric.Divisor.Listing.{elem}
use foo.Numeric.Divisor.Euclid.{IsGcd, euclidean_loop-IsGcd, common_divisors}
use foo.Numeric.Divisor.Stein.{stein_gcd-IsGcd}

IsGcd-unique : (x y g h : ℕ) → IsGcd x y g → IsGcd x y h → g ≡ h
IsGcd-unique x y g h v w =
    let (a, b) = v.divides g (dvd_refl g) in
    let (c, d) = w.divides h (dvd_refl h) in dvd_antisymm (w.greatest g a b) (v.greatest h c d)

abs32-in_range : (a : ℤ) → abs a < 2147483648 → abs32 a ≡ some (abs a)
unfolding abs32
abs32-in_range a h = let fits : ltb (abs a) 2147483648 ≡ true = ground arith in rw fits refl

-- For numbers above the least 32-bit integer that are not both 0 euclidean and stein return the
-- same list, and its elements are exactly the positive numbers that divide both.
pub algorithms_agree :
    (a b : ℤ)
    → abs a < 2147483648
    → abs b < 2147483648
    → 0 < abs a + abs b
    → (ds : List ℕ) × (euclidean a b ≡ some ds)
      × (stein a b ≡ some ds)
      × ((d : ℕ) → (elem d ds ≡ true) ↔ ((0 < d) × (d ∣ abs a) × (d ∣ abs b)))
unfolding euclidean stein
algorithms_agree a b p q h =
    let (g, first, v) = euclidean_loop-IsGcd (abs b + 1) (abs a) (abs b) (omega arith) in
    let (k, second, w) = stein_gcd-IsGcd (abs a) (abs b) h in
    let (ds, listed, all) = common_divisors (abs a) (abs b) g v h in
    let same = IsGcd-unique (abs a) (abs b) k g w v in
    (
      ds,
      rw (abs32-in_range a p, abs32-in_range b q, ◌>>=◌, first) listed,
      rw (abs32-in_range a p, abs32-in_range b q, ◌>>=◌, second, same) listed,
      all,
    )

-- ===== src/Numeric/Divisor/Euclid.antt =====
-- `euclidean` lists the common divisors.
use native.Mathlib.Nat.{
  dvd_refl, dvd-zero, dvd-mod_iff, eq-zero_of_zero-dvd, mod-eq-zero_of_dvd, dvd_of_mod-eq-zero,
}
use foo.Prelude.{
  ℕ, zero, suc, ◌+◌, ◌%◌, ◌<◌, ◌≡◌, ◌≢◌, ◌↔◌, refl, Bool, true, false, some, List, arith, ltb, ◌==◌,
  ◌&&◌, ◌∣◌, ℕ_discrete,
}
use foo.Numeric.Divisor.{euclidean_loop, get_all_divisors}
use foo.Numeric.Divisor.Listing.{elem, get_all_divisors_lists}

-- The divisors of `g` are the common divisors of `x` and `y`.
pub record IsGcd (x y g : ℕ) : Type 0 where
  pub divides : (d : ℕ) → d ∣ g → (d ∣ x) × (d ∣ y)
  pub greatest : (d : ℕ) → d ∣ x → d ∣ y → d ∣ g

IsGcd-pos : (x y g : ℕ) → IsGcd x y g → 0 < x + y → 0 < g
IsGcd-pos x y zero v h =
    let (p, q) = v.divides 0 (dvd_refl 0) in
    absurd (omega (arith, eq-zero_of_zero-dvd p, eq-zero_of_zero-dvd q))
IsGcd-pos x y (suc g) v h = omega arith

pub euclidean_loop-IsGcd :
    (fuel x y : ℕ) → y < fuel → (g : ℕ) × (euclidean_loop fuel x y ≡ some g) × IsGcd x y g
unfolding euclidean_loop
euclidean_loop-IsGcd zero x y f = absurd (omega arith)
euclidean_loop-IsGcd (suc fuel) x y f = elim (ℕ_discrete y 0) [
  | yes e ↦ rw e (x, refl, record { divides = λ d h. (h, dvd-zero d); greatest = λ d h k. h })
  | no ne ↦
      let (g, run, v) = euclidean_loop-IsGcd fuel y (x % y) (smaller ne) in
      (
        g,
        rw (nonzero ne, euclidean_loop, run),
        record {
          divides = λ d h. let (p, q) = v.divides d h in ((dvd-mod_iff d p).0 q, p);
          greatest = λ d h k. v.greatest d k ((dvd-mod_iff d k).1 h);
        },
      )
]
  where
    smaller : y ≢ 0 → x % y < fuel
    smaller ne = omega arith

    nonzero : y ≢ 0 → (y == 0) ≡ false
    nonzero ne = ground arith

-- The list of the divisors of the gcd is that of the common divisors.
pub common_divisors :
    (x y g : ℕ)
    → IsGcd x y g
    → 0 < x + y
    → (ds : List ℕ) × (get_all_divisors g ≡ some ds)
      × ((d : ℕ) → (elem d ds ≡ true) ↔ ((0 < d) × (d ∣ x) × (d ∣ y)))
common_divisors x y g v h =
    let (ds, run, all) = get_all_divisors_lists g (IsGcd-pos x y g v h) in
    (ds, run, λ d. (found d (all d), listed d (all d)))
  where
    found :
        (d : ℕ) {b : Bool} → b ≡ (ltb 0 d && (g % d == 0)) → b ≡ true → (0 < d) × (d ∣ x) × (d ∣ y)
    found d e t =
        let (p, q) = v.divides d (dvd_of_mod-eq-zero d (ground arith)) in (ground arith, p, q)

    listed :
        (d : ℕ) {b : Bool} → b ≡ (ltb 0 d && (g % d == 0)) → (0 < d) × (d ∣ x) × (d ∣ y) → b ≡ true
    listed d e (pos, p, q) = let r = mod-eq-zero_of_dvd d (v.greatest d p q) in ground arith

-- ===== src/Numeric/Divisor/Tests.antt =====
-- The common divisors of concrete numbers.
use foo.Prelude.{ℕ, ◌<◌, ◌∣◌, ◌≡◌, ◌↔◌, refl, none, some, true, arith, List, [], ◌∷◌}
use foo.Prelude.Int.{pos, negsuc}
use foo.Numeric.Divisor.{
  get_all_divisors, divisors_loop, collect, emplace, abs32, euclidean, euclidean_loop, stein,
  common_loop,
}
use foo.Numeric.Divisor.Listing.{elem}
use foo.Numeric.Divisor.Agree.{algorithms_agree}
use foo.Numeric.Divisor.Stein.{common_loop_diverges}

euclidean_sample : euclidean (negsuc 11) (pos 18) ≡ some (1 ∷ 2 ∷ 3 ∷ 6 ∷ [])
unfolding euclidean abs32 euclidean_loop get_all_divisors divisors_loop collect emplace
euclidean_sample = refl

-- The least 32-bit integer has no absolute value.
euclidean_least : euclidean (negsuc 2147483647) (pos 0) ≡ none
unfolding euclidean abs32
euclidean_least = refl

algorithms_agree_example :
    (ds : List ℕ) × (euclidean (negsuc 11) (pos 18) ≡ some ds)
    × (stein (negsuc 11) (pos 18) ≡ some ds)
    × ((d : ℕ) → (elem d ds ≡ true) ↔ ((0 < d) × (d ∣ 12) × (d ∣ 18)))
algorithms_agree_example =
    algorithms_agree (negsuc 11) (pos 18) (omega arith) (omega arith) (omega arith)

common_loop_diverges_example : common_loop 9 0 0 0 ≡ none
common_loop_diverges_example = common_loop_diverges 9 0

-- ===== src/Algorithm/Search/Tests.antt =====
-- The searches in a concrete array.
use foo.Prelude.{ℕ, ◌*◌, ◌+◌, ◌≡◌, refl, some, arith}
use foo.Algorithm.Search.{binary, fibonacci, binary_loop, at, midpoint, add32, sub32}
use foo.Algorithm.Search.Binary.{IsSorted, IsCorrect, binary-IsCorrect}
use foo.Algorithm.Search.Fibonacci.{fibonacci-IsCorrect}

abbrev odd : ℕ → ℕ
odd i = 2 * i + 1

odd-IsSorted : IsSorted odd 6
odd-IsSorted i j p q = omega arith

search_odd : binary (some odd) 6 7 ≡ some (some 3)
unfolding binary binary_loop at midpoint add32 sub32
search_odd = refl

binary-IsCorrect_example : IsCorrect odd 6 7 (binary (some odd) 6 7)
binary-IsCorrect_example = binary-IsCorrect odd 6 7 odd-IsSorted (omega arith)

fibonacci-IsCorrect_example : IsCorrect odd 6 8 (fibonacci (some odd) 6 8)
fibonacci-IsCorrect_example = fibonacci-IsCorrect odd 6 8 odd-IsSorted (omega arith)

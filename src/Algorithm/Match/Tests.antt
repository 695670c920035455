-- ===== src/Algorithm/Match/Tests.antt =====
-- The matchers on concrete texts.
use foo.Prelude.{ℕ, ◌≡◌, arith, some, none, [], ◌∷◌}
use foo.Algorithm.Match.{horspool, sunday, kmp}
use foo.Algorithm.Match.Occurs.{Occurs, IsFirst, IsSome}
use foo.Algorithm.Match.Horspool.{horspool-IsFirst}
use foo.Algorithm.Match.Sunday.{sunday-IsFirst, sunday_overreads}
use foo.Algorithm.Match.Kmp.{kmp-IsSome}
use foo.Algorithm.Match.Missed.{bytes, missed_text, missed_pattern, kmp_misses}

abbrev sample_text : ℕ → ℕ
sample_text = bytes (7 ∷ 8 ∷ 7 ∷ 9 ∷ 7 ∷ 9 ∷ 8 ∷ [])

abbrev sample_pattern : ℕ → ℕ
sample_pattern = bytes (7 ∷ 9 ∷ 8 ∷ [])

horspool-IsFirst_example :
    IsFirst sample_text sample_pattern 7 3 (horspool (some sample_text) (some sample_pattern) 7 3)
horspool-IsFirst_example =
    horspool-IsFirst sample_text sample_pattern 7 3 (omega arith) (ground arith)

sunday-IsFirst_example :
    IsFirst sample_text sample_pattern 7 3 (sunday (some sample_text) (some sample_pattern) 8 7 3)
sunday-IsFirst_example =
    sunday-IsFirst sample_text sample_pattern 8 7 3 (omega arith) (omega arith) (ground arith)

sample_differs : ¬ Occurs sample_text sample_pattern 3 3 0
sample_differs occurs = absurd (ground (arith, occurs 1 (omega arith)))

sunday_overreads_example : sunday (some sample_text) (some sample_pattern) 3 3 3 ≡ none
sunday_overreads_example =
    sunday_overreads sample_text sample_pattern 3 (omega arith) sample_differs

kmp-IsSome_example :
    IsSome sample_text sample_pattern 7 3 (kmp (some sample_text) (some sample_pattern) 7 3)
kmp-IsSome_example = kmp-IsSome sample_text sample_pattern 7 3 (omega arith) (ground arith)

kmp_misses_example :
    Occurs (missed_text 97 98 99) (missed_pattern 97 98 99) 8 6 2
    × (kmp (some (missed_text 97 98 99)) (some (missed_pattern 97 98 99)) 8 6 ≡ some none)
kmp_misses_example = kmp_misses 97 98 99 (omega arith) (omega arith) (omega arith)

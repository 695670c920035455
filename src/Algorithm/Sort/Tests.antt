-- ===== src/Algorithm/Sort/Tests.antt =====
-- The sorts of a concrete array.
use foo.Prelude.{ℕ, ◌≡◌, refl, some, ◌==◌, if◌then◌else◌}
use foo.Algorithm.Sort.{insertion, bubble, selection, insertion_loop, shift}
use foo.Algorithm.Sort.Operations.{SortOf, quadratic_sorts}

-- 5, 2, 9, 2
abbrev sample : ℕ → ℕ
sample i = if i == 0 then 5 else if i == 2 then 9 else 2

insertion-last : (insertion (some sample) 4).1 3 ≡ 9
unfolding insertion insertion_loop shift
insertion-last = refl

quadratic_sorts_example :
    SortOf sample 4 (insertion (some sample) 4)
    × SortOf sample 4 (selection (some sample) 4)
    × SortOf sample 4 (bubble (some sample) 4)
quadratic_sorts_example = quadratic_sorts sample 4

-- ===== src/Algorithm/Sort/Operations.antt =====
-- The sorts give the sorted array with the same elements.
use foo.Prelude.{
  ℕ, zero, suc, ◌-◌, ◌≡◌, refl, subst, Bool, some, arith, count_slots, ◌==◌, if◌then◌else◌,
}
use foo.Algorithm.Sort.{
  Vector, empty, insertion, insertion_loop, bubble, bubble_loop, selection, selection_loop,
}
use foo.Algorithm.Sort.Insertion.{IsSorted, insertion_loop-IsSorted, count-insertion_loop}
use foo.Algorithm.Sort.Bubble.{bubble_loop-Placed, count-bubble_loop}
use foo.Algorithm.Sort.Selection.{selection_loop-Chosen, count-selection_loop}

-- `v` has the `n` elements of `a`, each as often, in ascending order.
pub record SortOf (a : ℕ → ℕ) (n : ℕ) (v : Vector) : Type 0 where
  pub length : v.0 ≡ n
  pub sorted : IsSorted v.1 n
  pub same : (p : ℕ → Bool) → count_slots p v.1 n ≡ count_slots p a n

nothing : (a : ℕ → ℕ) → SortOf a 0 empty
nothing a = record { length = refl; sorted = λ i j p q. absurd (omega arith); same = λ p. refl }

not_empty :
    (n : ℕ) (loop : ℕ → ℕ → ℕ)
    → (suc n, loop n) ≡ (if suc n == 0 then empty else (suc n, loop (suc n - 1)))
not_empty n loop = rw (less n) (ground arith)
  where
    less : (n : ℕ) → suc n - 1 ≡ n
    less n = omega arith

-- insertion returns the elements of the array in ascending order, each as often as it occurs.
insertion_sorts : (a : ℕ → ℕ) (n : ℕ) → SortOf a n (insertion (some a) n)
unfolding insertion
insertion_sorts a zero = nothing a
insertion_sorts a (suc n) =
    subst (SortOf a (suc n)) (not_empty n (λ m. insertion_loop m 1 a)) (record {
      length = refl;
      sorted =
          λ i j p q. insertion_loop-IsSorted n 1 a (λ x y f g. ground arith) i j p (omega arith);
      same = λ p. count-insertion_loop p n 1 (suc n) a (omega arith);
    })

-- bubble returns the elements of the array in ascending order, each as often as it occurs.
bubble_sorts : (a : ℕ → ℕ) (n : ℕ) → SortOf a n (bubble (some a) n)
unfolding bubble
bubble_sorts a zero = nothing a
bubble_sorts a (suc n) = subst (SortOf a (suc n)) (not_empty n (λ m. bubble_loop m a)) (record {
  length = refl;
  sorted = λ i j p q.
      (bubble_loop-Placed n (suc n) a
          (record { placed = λ x y f g h. absurd (omega arith) })).placed
        i j p (omega arith) q;
  same = λ p. count-bubble_loop p n (suc n) a (omega arith);
})

-- selection returns the elements of the array in ascending order, each as often as it occurs.
selection_sorts : (a : ℕ → ℕ) (n : ℕ) → SortOf a n (selection (some a) n)
unfolding selection
selection_sorts a zero = nothing a
selection_sorts a (suc n) =
    subst (SortOf a (suc n)) (not_empty n (λ m. selection_loop m 0 a)) (record {
      length = refl;
      sorted = λ i j p q. ground (
        arith,
        (selection_loop-Chosen n 0 a (record { chosen = λ x y f g h. absurd (omega arith) })).chosen
            i j,
      );
      same = λ p. count-selection_loop p n 0 a (suc n) (omega arith);
    })

-- insertion, selection and bubble return the elements of the array in ascending order, each as
-- often as it occurs.
pub quadratic_sorts :
    (a : ℕ → ℕ) (n : ℕ)
    → SortOf a n (insertion (some a) n)
      × SortOf a n (selection (some a) n)
      × SortOf a n (bubble (some a) n)
quadratic_sorts a n = (insertion_sorts a n, selection_sorts a n, bubble_sorts a n)

-- ===== src/Algorithm/Sort/Insertion.antt =====
-- The loops of the insertion sort.
use foo.Prelude.{
  ℕ, zero, suc, ◌+◌, ◌≤◌, ◌<◌, ◌≡◌, ◌≢◌, refl, Bool, arith, ltb, update, count_slots,
  count_slots-update, one_if, Bool-cases, inl, inr,
}
use foo.Algorithm.Sort.{shift, insertion_loop}

abbrev pub IsSorted : (ℕ → ℕ) → ℕ → Type 0
IsSorted s n = (i j : ℕ) → i ≤ j → j < n → s i ≤ s j

-- The slots but `hole` are sorted.
abbrev SortedBut : ℕ → (ℕ → ℕ) → ℕ → Type 0
SortedBut hole s n = (i j : ℕ) → i ≤ j → j < n → i ≢ hole → j ≢ hole → s i ≤ s j

shift-IsSorted :
    (hole : ℕ) (s : ℕ → ℕ) (temp n : ℕ)
    → hole < n
    → SortedBut hole s n
    → ((j : ℕ) → hole < j → j < n → temp ≤ s j)
    → IsSorted (shift hole s temp) n
unfolding shift
shift-IsSorted zero s temp n h v above = λ i j p q. ground (arith, v i j p q, above j)
shift-IsSorted (suc k) s temp n h v above = elim (Bool-cases (ltb temp (s k))) [
  | inl e ↦ rw e (
      shift-IsSorted k (update s (suc k) (s k)) temp n (omega arith)
        (λ i j p q. ground (arith, v i j p q, v k j, v i k)) (λ j p q. ground (arith, above j)))
  | inr e ↦ rw e (λ i j p q. ground (arith, v i j p q, above j, v i k))
]

count-shift :
    (p : ℕ → Bool) (hole : ℕ) (s : ℕ → ℕ) (temp n : ℕ)
    → hole < n
    → count_slots p (shift hole s temp) n + one_if (p (s hole))
      ≡ count_slots p s n + one_if (p temp)
unfolding shift
count-shift p zero s temp n h = count_slots-update p s n 0 temp h
count-shift p (suc k) s temp n h = ground (
  arith,
  count_slots-update p s n (suc k) temp h,
  count_slots-update p s n (suc k) (s k) h,
  count-shift p k (update s (suc k) (s k)) temp n (omega arith),
)

pub insertion_loop-IsSorted :
    (left i : ℕ) (s : ℕ → ℕ) → IsSorted s i → IsSorted (insertion_loop left i s) (i + left)
unfolding insertion_loop
insertion_loop-IsSorted zero i s v = λ j k p q. v j k p (omega arith)
insertion_loop-IsSorted (suc left) i s v = λ j k p q.
    insertion_loop-IsSorted left (i + 1) (shift i s (s i))
      (shift-IsSorted i s (s i) (i + 1) (omega arith) (λ a b f g x y. v a b f (omega arith))
        (λ b f g. absurd (omega arith)))
      j k p (omega arith)

pub count-insertion_loop :
    (p : ℕ → Bool) (left i n : ℕ) (s : ℕ → ℕ)
    → i + left ≤ n
    → count_slots p (insertion_loop left i s) n ≡ count_slots p s n
unfolding insertion_loop
count-insertion_loop p zero i n s h = refl
count-insertion_loop p (suc left) i n s h = omega (
  arith,
  count-insertion_loop p left (i + 1) n (shift i s (s i)) (omega arith),
  count-shift p i s (s i) n (omega arith),
)

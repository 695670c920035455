-- ===== src/Algorithm/Sort/Bubble.antt =====
-- The loops of the bubble sort.
use foo.Prelude.{
  ℕ, zero, suc, ◌+◌, ◌≤◌, ◌<◌, ◌≡◌, refl, ◌∙◌, Bool, arith, ltb, if◌then◌else◌, update, count_slots,
  count_slots-update, Bool-cases, inl, inr,
}
use foo.Algorithm.Sort.{swap, bubble_pass, bubble_loop}

pub count-swap :
    (p : ℕ → Bool) (s : ℕ → ℕ) (n i j : ℕ)
    → i < n
    → j < n
    → count_slots p (swap s i j) n ≡ count_slots p s n
count-swap p s n i j f g =
    ground (
      arith,
      count_slots-update p s n i (s j) f,
      count_slots-update p (update s i (s j)) n j (s i) g,
    )

-- One comparison of the inner loop.
abbrev step : (ℕ → ℕ) → ℕ → ℕ → ℕ
step s j = if ltb (s (j + 1)) (s j) then swap s j (j + 1) else s

count-step :
    (p : ℕ → Bool) (s : ℕ → ℕ) (n j : ℕ)
    → j + 1 < n
    → count_slots p (step s j) n ≡ count_slots p s n
count-step p s n j h = elim (Bool-cases (ltb (s (j + 1)) (s j))) [
  | inl e ↦ rw e (count-swap p s n j (j + 1) (omega arith) h)
  | inr e ↦ rw e refl
]

pub count-bubble_pass :
    (p : ℕ → Bool) (left j n : ℕ) (s : ℕ → ℕ)
    → j + left < n
    → count_slots p (bubble_pass left j s) n ≡ count_slots p s n
unfolding bubble_pass
count-bubble_pass p zero j n s h = refl
count-bubble_pass p (suc left) j n s h =
    count-bubble_pass p left (j + 1) n (step s j) (omega arith) ∙ count-step p s n j (omega arith)

pub count-bubble_loop :
    (p : ℕ → Bool) (left n : ℕ) (s : ℕ → ℕ)
    → left < n
    → count_slots p (bubble_loop left s) n ≡ count_slots p s n
unfolding bubble_loop
count-bubble_loop p zero n s h = refl
count-bubble_loop p (suc left) n s h =
    count-bubble_loop p left n (bubble_pass (suc left) 0 s) (omega arith)
    ∙ count-bubble_pass p (suc left) 0 n s (omega arith)

-- The slots from `m` on are in their places: sorted, and at or above all slots before them.
pub record Placed (s : ℕ → ℕ) (m n : ℕ) : Type 0 where
  pub placed : (i j : ℕ) → i ≤ j → m ≤ j → j < n → s i ≤ s j

-- The slot `j` is at or above all slots before it, and the slots above `m` are in their places.
record Rising (s : ℕ → ℕ) (j m n : ℕ) : Type 0 where
  top : (i : ℕ) → i ≤ j → s i ≤ s j
  rest : Placed s (m + 1) n

step-Rising : (s : ℕ → ℕ) (j m n : ℕ) → j < m → Rising s j m n → Rising (step s j) (j + 1) m n
step-Rising s j m n h v = record {
  top = λ i p. ground (arith, v.top i, v.top j);
  rest = record {
    placed = λ i k p q r. ground (
      arith,
      v.rest.placed i k p q r,
      v.rest.placed j k (omega arith) q r,
      v.rest.placed (j + 1) k (omega arith) q r,
    );
  };
}

bubble_pass-Placed :
    (left j n : ℕ) (s : ℕ → ℕ)
    → Rising s j (j + left) n
    → Placed (bubble_pass left j s) (j + left) n
unfolding bubble_pass
bubble_pass-Placed zero j n s v = record {
  placed = λ i k p q r. ground (arith, v.top i, v.rest.placed i k);
}
bubble_pass-Placed (suc left) j n s v =
    let w =
      bubble_pass-Placed left (j + 1) n (step s j)
        (rw (shifted left j) (step-Rising s j (j + suc left) n (omega arith) v)) in
    record { placed = λ i k p q r. w.placed i k p (omega arith) r }
  where
    shifted : (left j : ℕ) → j + 1 + left ≡ j + suc left
    shifted left j = omega arith

pub bubble_loop-Placed :
    (left n : ℕ) (s : ℕ → ℕ) → Placed s (left + 1) n → Placed (bubble_loop left s) 0 n
unfolding bubble_loop
bubble_loop-Placed zero n s v = record { placed = λ i j p q r. ground (arith, v.placed i j) }
bubble_loop-Placed (suc left) n s v =
    let w = bubble_pass-Placed (suc left) 0 n s (record {
      top = λ i p. ground arith;
      rest = record { placed = λ i j p q r. v.placed i j p (omega arith) r };
    }) in
    bubble_loop-Placed left n (bubble_pass (suc left) 0 s)
      (record { placed = λ i j p q r. w.placed i j p (omega arith) r })

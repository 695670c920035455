-- ===== src/Algorithm/Sort/Selection.antt =====
-- The loops of the selection sort.
use foo.Prelude.{
  ℕ, zero, suc, ◌+◌, ◌≤◌, ◌<◌, ◌≡◌, refl, ◌∙◌, Bool, arith, ltb, if◌then◌else◌, count_slots,
}
use foo.Algorithm.Sort.{swap, select_min, selection_loop}
use foo.Algorithm.Sort.Bubble.{count-swap}

-- `m` is the index of a least slot from `i` up to `j`.
record Least (s : ℕ → ℕ) (i j m : ℕ) : Type 0 where
  low : i ≤ m
  high : m < j
  least : (k : ℕ) → i ≤ k → k < j → s m ≤ s k

select_min-Least :
    (left i j m : ℕ) (s : ℕ → ℕ)
    → i ≤ j
    → Least s i j m
    → Least s i (j + left) (select_min left j m s)
unfolding select_min
select_min-Least zero i j m s h v = record {
  low = v.low;
  high = omega (arith, v.high);
  least = λ k p q. v.least k p (omega arith);
}
select_min-Least (suc left) i j m s h v =
    let w =
      select_min-Least left i (j + 1) (if ltb (s j) (s m) then j else m) s (omega arith) (record {
        low = ground (arith, v.low);
        high = ground (arith, v.high);
        least = λ k p q. ground (arith, v.least k p);
      }) in
    record { low = w.low; high = omega (arith, w.high); least = λ k p q. w.least k p (omega arith) }

-- The first `i` slots are in their places.
pub record Chosen (s : ℕ → ℕ) (i n : ℕ) : Type 0 where
  pub chosen : (a b : ℕ) → a < i → a ≤ b → b < n → s a ≤ s b

swap-Chosen : (s : ℕ → ℕ) (i m n : ℕ) → Least s i n m → Chosen s i n → Chosen (swap s i m) (i + 1) n
swap-Chosen s i m n l v = record {
  chosen = λ a b p q r.
      ground (arith, l.low, l.high, l.least b, l.least i, v.chosen a b, v.chosen a i, v.chosen a m);
}

pub selection_loop-Chosen :
    (left i : ℕ) (s : ℕ → ℕ)
    → Chosen s i (i + left + 1)
    → Chosen (selection_loop left i s) (i + left) (i + left + 1)
unfolding selection_loop
selection_loop-Chosen zero i s v = record { chosen = λ a b p q r. v.chosen a b (omega arith) q r }
selection_loop-Chosen (suc left) i s v =
    let m = select_min (suc left) (i + 1) i s in
    let l =
      select_min-Least (suc left) i (i + 1) i s (omega arith)
        (record { low = omega arith; high = omega arith; least = λ k p q. ground arith }) in
    let w =
      swap-Chosen s i m (i + 1 + suc left) l
        (record { chosen = λ a b p q r. v.chosen a b p q (omega arith) }) in
    let r =
      selection_loop-Chosen left (i + 1) (swap s i m)
        (record { chosen = λ a b p q r. w.chosen a b p q (omega arith) }) in
    record { chosen = λ a b p q t. r.chosen a b (omega arith) q (omega arith) }

pub count-selection_loop :
    (p : ℕ → Bool) (left i : ℕ) (s : ℕ → ℕ) (n : ℕ)
    → i + left < n
    → count_slots p (selection_loop left i s) n ≡ count_slots p s n
unfolding selection_loop
count-selection_loop p zero i s n h = refl
count-selection_loop p (suc left) i s n h =
    let m = select_min (suc left) (i + 1) i s in
    let l =
      select_min-Least (suc left) i (i + 1) i s (omega arith)
        (record { low = omega arith; high = omega arith; least = λ k p q. ground arith }) in
    count-selection_loop p left (i + 1) (swap s i m) n (omega arith)
    ∙ count-swap p s n i m (omega arith) (omega (arith, l.high))

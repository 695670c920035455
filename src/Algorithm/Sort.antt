-- ===== src/Algorithm/Sort.antt =====
-- The quadratic sorts of algorithm/include/sort.hpp. Elements are natural numbers: the templates
-- only compare and move them. A vector is its length and a function from its indices. The loops
-- count down the rounds that they have left.
mod Insertion
mod Bubble
mod Selection
mod Operations
mod Tests
use foo.Prelude.{ℕ, zero, suc, ◌+◌, ◌-◌, Option, none, some, ltb, ◌==◌, if◌then◌else◌, update}

abbrev pub Vector : Type 0
Vector = ℕ × (ℕ → ℕ)

-- `{}`
abbrev pub empty : Vector
empty = (0, λ i. 0)

-- `std::swap(sorting[i], sorting[j])`
abbrev pub swap : (ℕ → ℕ) → ℕ → ℕ → ℕ → ℕ
swap s i j = update (update s i (s j)) j (s i)

-- The inner loop of `insertion`, at `n + 1`: `n` is -1 at zero.
pub shift : ℕ → (ℕ → ℕ) → ℕ → ℕ → ℕ
shift zero s temp = update s 0 temp
shift (suc n) s temp =
    let rest = shift n (update s (suc n) (s n)) temp in
    if ltb temp (s n) then rest else update s (suc n) temp

pub insertion_loop : ℕ → ℕ → (ℕ → ℕ) → ℕ → ℕ
unfolding shift
insertion_loop zero i s = s
insertion_loop (suc left) i s = insertion_loop left (i + 1) (shift i s (s i))

pub insertion : Option (ℕ → ℕ) → ℕ → Vector
unfolding insertion_loop
insertion none length = empty
insertion (some array) length =
    if length == 0 then empty else (length, insertion_loop (length - 1) 1 array)

-- The inner loop of `bubble` from `j`.
pub bubble_pass : ℕ → ℕ → (ℕ → ℕ) → ℕ → ℕ
bubble_pass zero j s = s
bubble_pass (suc left) j s =
    bubble_pass left (j + 1) (if ltb (s (j + 1)) (s j) then swap s j (j + 1) else s)

-- The outer loop: with `left` rounds to go, `left` pairs are compared.
pub bubble_loop : ℕ → (ℕ → ℕ) → ℕ → ℕ
unfolding bubble_pass
bubble_loop zero s = s
bubble_loop (suc left) s = bubble_loop left (bubble_pass (suc left) 0 s)

pub bubble : Option (ℕ → ℕ) → ℕ → Vector
unfolding bubble_loop
bubble none length = empty
bubble (some array) length = if length == 0 then empty else (length, bubble_loop (length - 1) array)

-- The inner loop of `selection` from `j`.
pub select_min : ℕ → ℕ → ℕ → (ℕ → ℕ) → ℕ
select_min zero j min s = min
select_min (suc left) j min s = select_min left (j + 1) (if ltb (s j) (s min) then j else min) s

-- The outer loop from `i`: with `left` rounds to go, `left` slots come after `i`.
pub selection_loop : ℕ → ℕ → (ℕ → ℕ) → ℕ → ℕ
unfolding select_min
selection_loop zero i s = s
selection_loop (suc left) i s =
    selection_loop left (i + 1) (swap s i (select_min (suc left) (i + 1) i s))

pub selection : Option (ℕ → ℕ) → ℕ → Vector
unfolding selection_loop
selection none length = empty
selection (some array) length =
    if length == 0 then empty else (length, selection_loop (length - 1) 0 array)

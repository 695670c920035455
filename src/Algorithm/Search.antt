-- ===== src/Algorithm/Search.antt =====
-- The searches of algorithm/include/search.hpp. Elements are natural numbers: the templates only
-- compare them. An array is a function from its indices with a length; `at` reads it, and `none`
-- stands for a read out of bounds, which is undefined, or for a loop that has used up its fuel.
-- The index -1 of the code is the inner `none`. Indices are `std::uint32_t` and wrap.
pub mod Binary
mod Numbers
mod Fibonacci
mod Tests
use foo.Prelude.{
  ℕ, zero, suc, ◌+◌, ◌-◌, ◌*◌, ◌/◌, ◌%◌, ◌^◌, Bool, true, false, Option, none, some, List, [], ◌∷◌,
  ltb, leb, ◌==◌, ◌&&◌, ◌||◌, if◌then◌else◌, length, get_elem?, ◌++◌,
}

-- 2 ^ 32
abbrev pub word : ℕ
word = 4294967296

-- Addition and subtraction of `std::uint32_t`.
unfoldable pub add32 : ℕ → ℕ → ℕ
add32 a b = (a + b) % word

unfoldable pub sub32 : ℕ → ℕ → ℕ
sub32 a b = (a + word - b) % word

infixl 5 ◌>>=◌
abbrev pub ◌>>=◌ : {A B : Type 0} → Option A → (A → Option B) → Option B
none >>= f = none
some a >>= f = f a

-- `array[i]`
unfoldable pub at : (ℕ → ℕ) → ℕ → ℕ → Option ℕ
at a n i = if ltb i n then some (a i) else none

-- `std::midpoint` of two unsigned numbers.
unfoldable pub midpoint : ℕ → ℕ → ℕ
midpoint a b = if leb a b then a + (b - a) / 2 else a - (a - b) / 2

binary_loop : ℕ → (ℕ → ℕ) → ℕ → ℕ → ℕ → ℕ → Option (Option ℕ)
binary_loop zero a n key lower upper = none
binary_loop (suc fuel) a n key lower upper =
    let mid = midpoint lower upper in
    let right = binary_loop fuel a n key (add32 mid 1) upper in
    let left = binary_loop fuel a n key lower (sub32 mid 1) in
    if leb lower upper
    then (do
      x ← at a n mid
      if key == x then some (some mid) else if ltb x key then right else left)
    else some none

-- The array is null, or it is given by its elements.
pub binary : Option (ℕ → ℕ) → ℕ → ℕ → Option (Option ℕ)
binary none n key = some none
binary (some a) n key = if n == 0 then some none else do
  first ← at a n 0
  last ← at a n (n - 1)
  if ltb key first || ltb last key then some none else binary_loop (n + 1) a n key 0 (n - 1)

-- The loop of `generateFibonacciNumber`, which begins with f1 = 0 and f2 = 1.
generate_loop : ℕ → ℕ → ℕ → ℕ → Option (List ℕ)
generate_loop zero limit f1 f2 = none
generate_loop (suc fuel) limit f1 f2 =
    let rest = (do fibonacci ← generate_loop fuel limit f2 (add32 f1 f2); some (f2 ∷ fibonacci)) in
    if ltb limit f2 then some (f2 ∷ []) else rest

-- The estimate of the code is only a capacity to reserve. 48 rounds reach 2 ^ 32.
pub generate_fibonacci_number : ℕ → Option (List ℕ)
generate_fibonacci_number limit = if limit == 0 then some [] else generate_loop 48 limit 0 1

-- The array, padded with its last element.
abbrev pub complement : (ℕ → ℕ) → ℕ → ℕ → ℕ
complement a n i = if ltb i n then a i else a (n - 1)

-- The index that the loop compares at, in the array of `padded` slots.
middle : ℕ → ℕ → ℕ → ℕ
middle padded lower f =
    let mid = sub32 (add32 lower f) 1 in if leb padded mid then sub32 padded 1 else mid

fibonacci_loop : ℕ → List ℕ → (ℕ → ℕ) → ℕ → ℕ → ℕ → ℕ → ℕ → Option (Option ℕ)
fibonacci_loop zero fib c padded key lower upper n = none
fibonacci_loop (suc fuel) fib c padded key lower upper n =
    let compare_at = λ (mid : ℕ) (x : ℕ).
      let left = fibonacci_loop fuel fib c padded key lower (sub32 mid 1) (n - 1) in
      let right = fibonacci_loop fuel fib c padded key (add32 mid 1) upper (n - 2) in
      let hit : Option (Option ℕ) = some (some (if leb mid upper then mid else upper)) in
      if ltb key x
      then (if mid == 0 then some none else left)
      else if ltb x key
      then right
      else hit in
    if leb lower upper && leb 2 n
    then (do
      f ← get_elem? fib (n - 1)
      x ← at c padded (middle padded lower f)
      compare_at (middle padded lower f) x)
    else some none

pub fibonacci : Option (ℕ → ℕ) → ℕ → ℕ → Option (Option ℕ)
fibonacci none n key = some none
fibonacci (some a) n key = if n == 0 then some none else do
  first ← at a n 0
  last ← at a n (n - 1)
  if ltb key first || ltb last key then some none else do
    fib ← generate_fibonacci_number n
    if ltb (length fib) 3 then some none else do
      top ← get_elem? fib (length fib - 1)
      let padded = sub32 top 1
      let rounds = length fib
      fibonacci_loop rounds fib (complement a n) padded key 0 (n - 1) (length fib - 1)

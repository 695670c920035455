-- ===== src/Numeric/Divisor.antt =====
-- The common divisors of numeric/source/divisor.cpp. After `std::abs` all numbers are natural
-- numbers below 2 ^ 31. `none` stands for a loop or a recursion that has used up its fuel, and for
-- `std::abs` at a number that is no `std::int32_t` or is the least of them. A `std::set` is a list that `emplace` keeps
-- ascending; `i <= std::sqrt(gcd)` is `i * i <= gcd`.
mod Listing
mod Euclid
mod Stein
mod Agree
mod Tests
use foo.Prelude.{
  ℕ, zero, suc, ◌+◌, ◌-◌, ◌*◌, ◌/◌, ◌%◌, ◌^◌, Bool, true, false, not, Option, none, some, List, [],
  ◌∷◌, ltb, leb, ◌==◌, ◌&&◌, if◌then◌else◌,
}
use foo.Prelude.Int.{ℤ, abs}

infixl 5 ◌>>=◌
abbrev pub ◌>>=◌ : {A B : Type 0} → Option A → (A → Option B) → Option B
none >>= f = none
some a >>= f = f a

pub emplace : ℕ → List ℕ → List ℕ
emplace x [] = x ∷ []
emplace x (y ∷ ys) = if ltb x y then x ∷ (y ∷ ys) else if x == y then y ∷ ys else y ∷ emplace x ys

-- The body of the loop of `getAllDivisors`.
collect : ℕ → ℕ → List ℕ → List ℕ
collect gcd i divisors =
    if gcd % i == 0
    then (if not (gcd / i == i) then emplace (gcd / i) (emplace i divisors) else emplace i divisors)
    else divisors

divisors_loop : ℕ → ℕ → ℕ → List ℕ → Option (List ℕ)
divisors_loop zero gcd i divisors = none
divisors_loop (suc fuel) gcd i divisors =
    let rest = divisors_loop fuel gcd (i + 1) (collect gcd i divisors) in
    if leb (i * i) gcd then rest else some divisors

pub get_all_divisors : ℕ → Option (List ℕ)
get_all_divisors gcd = divisors_loop (gcd + 1) gcd 1 []

pub euclidean_loop : ℕ → ℕ → ℕ → Option ℕ
euclidean_loop zero x y = none
euclidean_loop (suc fuel) x y =
    let rest = euclidean_loop fuel y (x % y) in if not (y == 0) then rest else some x

-- `std::abs` of a `std::int32_t`.
pub abs32 : ℤ → Option ℕ
abs32 a = if ltb (abs a) 2147483648 then some (abs a) else none

pub euclidean : ℤ → ℤ → Option (List ℕ)
euclidean a b = do x ← abs32 a; y ← abs32 b; gcd ← euclidean_loop (y + 1) x y; get_all_divisors gcd

-- `(n & 0b1) == 0`
abbrev pub is_even : ℕ → Bool
is_even n = n % 2 == 0

-- `while (isEven(a)) a >>= 1`
halve_loop : ℕ → ℕ → Option ℕ
halve_loop zero a = none
halve_loop (suc fuel) a = let rest = halve_loop fuel (a / 2) in if is_even a then rest else some a

stein_recursive : ℕ → ℕ → ℕ → Option ℕ
stein_recursive zero a b = none
stein_recursive (suc fuel) a b =
    let continue = λ (a : ℕ).
      let lower = stein_recursive fuel ((b - a) / 2) a in
      let upper = stein_recursive fuel ((a - b) / 2) b in if ltb a b then lower else upper in
    if a == 0 then some b else if b == 0 then some a else (halve_loop (a + 1) a >>= continue)

-- The first loop of `stein`: the halved numbers and the count of rounds.
pub common_loop : ℕ → ℕ → ℕ → ℕ → Option (ℕ × ℕ × ℕ)
common_loop zero x y c = none
common_loop (suc fuel) x y c =
    let rest = common_loop fuel (x / 2) (y / 2) (c + 1) in
    if is_even x && is_even y then rest else some (x, y, c)

pub stein_gcd : ℕ → ℕ → Option ℕ
stein_gcd x y = do
  (x', y', c) ← common_loop (x + y + 1) x y 0
  gcd ←
      if is_even x'
      then stein_recursive (x' / 2 + y' + 1) (x' / 2) y'
      else stein_recursive (y' + x' + 1) y' x'
  some (gcd * 2 ^ c)

pub stein : ℤ → ℤ → Option (List ℕ)
stein a b = do x ← abs32 a; y ← abs32 b; gcd ← stein_gcd x y; get_all_divisors gcd

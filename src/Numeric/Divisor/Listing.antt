-- ===== src/Numeric/Divisor/Listing.antt =====
-- `getAllDivisors` lists the divisors.
use native.Mathlib.Nat.{
  mul-div_cancel', dvd_of_mod-eq-zero, mod-eq-zero_of_dvd, dvd-mul_left, le_trans, mul-le-mul_left,
  mul-le-mul_right, mul-div_cancel,
}
use foo.Prelude.{
  ℕ, zero, suc, ◌+◌, ◌*◌, ◌/◌, ◌%◌, ◌≤◌, ◌<◌, ◌≡◌, refl, sym, ap, ◌∙◌, subst, leb→le, ℕ_discrete,
  dec_lt, ◌∣◌, Bool, false, some, List, [], ◌∷◌, arith, ltb, leb, ◌==◌, ◌&&◌, ◌||◌, Bool-cases, inl,
  inr,
}
use foo.Numeric.Divisor.{emplace, collect, divisors_loop, get_all_divisors}

abbrev pub elem : ℕ → List ℕ → Bool
elem d [] = false
elem d (x ∷ xs) = d == x || elem d xs

elem-emplace : (d x : ℕ) (xs : List ℕ) → elem d (emplace x xs) ≡ (d == x || elem d xs)
unfolding emplace
elem-emplace d x [] = refl
elem-emplace d x (y ∷ ys) = ground (arith, elem-emplace d x ys)

-- The cofactor of a divisor.
cofactor :
    (g i : ℕ)
    → 0 < g
    → 0 < i
    → g % i ≡ 0
    → (i * (g / i) ≡ g) × (0 < g / i) × (g % (g / i) ≡ 0) × (g / (g / i) ≡ i)
cofactor g i pos ipos h = (e, qpos, rem, quot)
  where
    e : i * (g / i) ≡ g
    e = mul-div_cancel' i (dvd_of_mod-eq-zero i h)

    qpos : 0 < g / i
    qpos = elim (ℕ_discrete (g / i) 0) [ yes z ↦ absurd (grind arith) | no nz ↦ omega arith ]

    rem : g % (g / i) ≡ 0
    rem = mod-eq-zero_of_dvd (g / i) (subst (λ k. g / i ∣ k) e (dvd-mul_left (g / i) i))

    quot : g / (g / i) ≡ i
    quot = ap (λ k. k / (g / i)) (sym e) ∙ mul-div_cancel i qpos

-- The divisors that are found before round `k`: those below `k` and their cofactors.
listed : ℕ → ℕ → ℕ → Bool
listed g k d = ltb 0 d && ((g % d == 0) && (ltb d k || ltb (g / d) k))

collect-listed :
    (g i d : ℕ) (acc : List ℕ)
    → 0 < g
    → 0 < i
    → elem d acc ≡ listed g i d
    → elem d (collect g i acc) ≡ listed g (i + 1) d
unfolding collect listed
collect-listed g i d acc pos ipos h = ground (
  arith,
  cofactor g i pos ipos,
  cofactor g d pos,
  elem-emplace d i acc,
  elem-emplace d (g / i) (emplace i acc),
)

mul_mono : (a b c d : ℕ) → a ≤ b → c ≤ d → a * c ≤ b * d
mul_mono a b c d h k = le_trans (mul-le-mul_left a k) (mul-le-mul_right d h)

listed-last : (g i d : ℕ) → 0 < g → g < i * i → listed g i d ≡ (ltb 0 d && (g % d == 0))
unfolding listed
listed-last g i d pos h = elim (Bool-cases (ltb 0 d && (g % d == 0))) [
  | inl e ↦ elim (dec_lt d i) [
    | yes small ↦ ground arith
    | no large ↦ elim (dec_lt (g / d) i) [
      | yes small ↦ ground arith
      | no also_large ↦
          let q = (cofactor g d pos (ground arith) (ground arith)).0 in
          absurd (too_large (omega arith) (omega arith) q)
    ]
  ]
  | inr e ↦ ground arith
]
  where
    too_large : i ≤ d → i ≤ g / d → d * (g / d) ≡ g → ⊥
    too_large a b q = grind (arith, mul_mono i d i (g / d) a b)

divisors_loop-listed :
    (fuel g i : ℕ) (acc : List ℕ)
    → 0 < g
    → 0 < i
    → g + 2 ≤ fuel + i
    → i ≤ g + 1
    → ((d : ℕ) → elem d acc ≡ listed g i d)
    → (ds : List ℕ) × (divisors_loop fuel g i acc ≡ some ds)
      × ((d : ℕ) → elem d ds ≡ (ltb 0 d && (g % d == 0)))
unfolding divisors_loop
divisors_loop-listed zero g i acc pos ipos f l h = absurd (omega arith)
divisors_loop-listed (suc fuel) g i acc pos ipos f l h = elim (Bool-cases (leb (i * i) g)) [
  | inl more ↦
      rw (more, divisors_loop)
        (divisors_loop-listed fuel g (i + 1) (collect g i acc) pos (omega arith) (omega arith)
          (square_le i (leb→le _ _ more)) (λ d. collect-listed g i d acc pos ipos (h d)))
  | inr done ↦ (acc, rw done, λ d. h d ∙ listed-last g i d pos (ground arith))
]
  where
    square_le : (i : ℕ) → i * i ≤ g → i + 1 ≤ g + 1
    square_le i e = grind arith

-- getAllDivisors of a positive number returns, and lists exactly its positive divisors.
pub get_all_divisors_lists :
    (g : ℕ)
    → 0 < g
    → (ds : List ℕ) × (get_all_divisors g ≡ some ds)
      × ((d : ℕ) → elem d ds ≡ (ltb 0 d && (g % d == 0)))
unfolding get_all_divisors
get_all_divisors_lists g pos =
    divisors_loop-listed (g + 1) g 1 [] pos (omega arith) (omega arith) (omega arith)
      (λ d. none_listed d)
  where
    none_listed : (d : ℕ) → elem d [] ≡ listed g 1 d
    none_listed d = unfold listed in ground (arith, cofactor g d pos)

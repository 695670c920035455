-- ===== src/Heap/Compare.antt =====
-- The compare function of the heaps (`Compare`, `CompareFunc` in
-- data_structure/include/heap.hpp): a parameter of every operation. The code reads the sign of
-- its `int` result only.
use foo.Prelude.{Bool, true, false, ◌≡◌, refl, sym, Bool-cases, inl, inr}

-- The sign of a comparison: `neg` for < 0, `zero` for 0, `pos` for > 0.
pub data Sign : Type 0 where
  neg same pos : Sign

-- `cmp(a, b) > 0`
abbrev pub is_pos : Sign → Bool
is_pos neg = false
is_pos same = false
is_pos pos = true

-- `cmp(a, b) < 0`
abbrev pub is_neg : Sign → Bool
is_neg neg = true
is_neg same = false
is_neg pos = false

-- `cmp(a, b) == 0`
abbrev pub is_same : Sign → Bool
is_same neg = false
is_same same = true
is_same pos = false

-- `a` is ordered before `b`, or they are equivalent.
abbrev pub Le : {K : Type 0} → (K → K → Sign) → K → K → Type 0
Le cmp a b = is_pos (cmp a b) ≡ false

-- What is asked of a compare function: it is total and transitive.
pub record IsOrder {K : Type 0} (cmp : K → K → Sign) : Type 0 where
  pub total : (a b : K) → is_neg (cmp a b) ≡ false → Le cmp b a
  pub trans : (a b c : K) → Le cmp a b → Le cmp b c → Le cmp a c

is_neg_of_pos : (s : Sign) → is_pos s ≡ true → is_neg s ≡ false
is_neg_of_pos neg e = sym e
is_neg_of_pos same e = refl
is_neg_of_pos pos e = refl

pub is_pos_of_neg : (s : Sign) → is_neg s ≡ true → is_pos s ≡ false
is_pos_of_neg neg e = refl
is_pos_of_neg same e = refl
is_pos_of_neg pos e = sym e

pub le_of_pos :
    {K : Type 0} (cmp : K → K → Sign)
    → IsOrder cmp
    → (a b : K) → is_pos (cmp a b) ≡ true
    → Le cmp b a
le_of_pos cmp o a b e = o.total a b (is_neg_of_pos (cmp a b) e)

pub le_self : {K : Type 0} (cmp : K → K → Sign) → IsOrder cmp → (a : K) → Le cmp a a
le_self cmp o a = elim (Bool-cases (is_neg (cmp a a))) [
  | inl e ↦ is_pos_of_neg (cmp a a) e
  | inr e ↦ o.total a a e
]

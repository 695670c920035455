-- ===== src/Prelude/Slots.antt =====
-- An array as a function from its indices to its slots.
use Prim.Native.Nat.{ℕ, zero, suc, ◌+◌, ◌<◌, ◌≤◌}
use mathlib.Core.Path.{◌≡◌, refl}
use mathlib.Core.Bool.{Bool}
use mathlib.Core.Logic.{◌≢◌}
use native.Mathlib.Omega.{arith}
use native.Mathlib.Numerals.{add-one}
use foo.Prelude.Tests.{◌==◌, if◌then◌else◌}
use foo.Prelude.Counts.{one_if}

module _ {ℓ} {A : Type ℓ} where
  -- `a[i] = v`
  abbrev pub update : (ℕ → A) → ℕ → A → ℕ → A
  update a i v j = if i == j then v else a j

  -- How many of the first `n` slots pass a test.
  abbrev pub count_slots : (A → Bool) → (ℕ → A) → ℕ → ℕ
  count_slots p a zero = 0
  count_slots p a (suc n) = one_if (p (a n)) + count_slots p a n

  pub count_slots-update_above :
      (p : A → Bool) (a : ℕ → A) (n i : ℕ) (v : A)
      → n ≤ i
      → count_slots p (update a i v) n ≡ count_slots p a n
  count_slots-update_above p a zero i v h = refl
  count_slots-update_above p a (suc n) i v h = ground (arith, count_slots-update_above p a n i v)

  pub count_slots-update :
      (p : A → Bool) (a : ℕ → A) (n i : ℕ) (v : A)
      → i < n
      → count_slots p (update a i v) n + one_if (p (a i)) ≡ count_slots p a n + one_if (p v)
  count_slots-update p a zero i v h = absurd (omega arith)
  count_slots-update p a (suc n) i v h =
      ground (arith, count_slots-update p a n i v, count_slots-update_above p a n i v)

  pub count_slots_ext :
      (p : A → Bool) (a b : ℕ → A) (n : ℕ)
      → ((j : ℕ) → j < n → a j ≡ b j)
      → count_slots p a n ≡ count_slots p b n
  count_slots_ext p a b zero h = refl
  count_slots_ext p a b (suc n) h =
      ground (arith, h n (omega arith), count_slots_ext p a b n (λ j k. h j (omega arith)))

  -- The last of `n + 1` slots counted first.
  pub count_slots-add_one :
      (p : A → Bool) (a : ℕ → A) (n : ℕ)
      → count_slots p a (n + 1) ≡ one_if (p (a n)) + count_slots p a n
  count_slots-add_one p a n = rw (add-one n)

  pub update_ne : (a : ℕ → A) (i : ℕ) (v : A) (j : ℕ) → j ≢ i → update a i v j ≡ a j
  update_ne a i v j h = ground arith

  pub update_eq : (a : ℕ → A) (i : ℕ) (v : A) → update a i v i ≡ v
  update_eq a i v = ground arith

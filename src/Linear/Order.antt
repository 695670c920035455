-- ===== src/Linear/Order.antt =====
-- The traversal of a list.
use foo.Prelude.{
  ℕ, zero, suc, ◌+◌, ◌≤◌, ◌<◌, ◌≡◌, refl, arith, true, false, Option, some, List, [], ◌∷◌, ltb,
}
use foo.Cache.Interface.{◌>>=◌}
use foo.Linear.{Store, int_max, order_loop, order}
use foo.Linear.Ring.{IsList}
use foo.Linear.Walk.{size_lem, get-inside}

-- The `k` elements from the index `i` on.
abbrev pub elements_from : {A : Type 0} → (ℕ → A) → ℕ → ℕ → List A
elements_from f i zero = []
elements_from f i (suc k) = f i ∷ elements_from f (i + 1) k

module _ {V : Type 0} (s : Store V) (head n : ℕ) (element : ℕ → Option V)
    (h : IsList s head n element) (fuel : ℕ) (b : n ≤ int_max) (f : n < fuel) where
  order_loop_lem :
      (rounds k i : ℕ)
      → i + k ≡ n
      → k < rounds
      → order_loop rounds fuel s (some head) i ≡ some (elements_from element i k)
  unfolding order_loop
  order_loop_lem zero k i e c = absurd (omega arith)
  order_loop_lem (suc rounds) zero i e c =
      let (node, r) = h in
      let done : ltb i n ≡ false = ground arith in
      rw (size_lem s head n node element r fuel b f, ◌>>=◌, done) refl
  order_loop_lem (suc rounds) (suc k) i e c =
      let (node, r) = h in
      let more : ltb i n ≡ true = ground arith in
      rw
        (
          size_lem s head n node element r fuel b f,
          ◌>>=◌,
          more,
          get-inside s head n node element r fuel i b f (omega arith),
          order_loop_lem rounds k (i + 1) (omega arith) (omega arith),
        )
        refl

  pub order_visits : order fuel s (some head) ≡ some (elements_from element 0 n)
  unfolding order
  order_visits = order_loop_lem fuel n 0 (omega arith) f

-- ===== src/Linear/Walk.antt =====
-- The loops over the nodes of a list.
use foo.Prelude.{
  ℕ, zero, suc, ◌+◌, ◌-◌, ◌/◌, ◌≤◌, ◌<◌, ◌≡◌, refl, sym, ap, ◌∙◌, arith, true, false, Option, none,
  some, leb, ltb, ◌==◌, Bool-cases, inl, inr,
}
use foo.Prelude.Int.{pos}
use foo.Cache.Interface.{◌>>=◌}
use foo.Linear.{Store, int_max, count_loop, walk, get_node, size, get}
use foo.Linear.Ring.{Ring}

module _ {V : Type 0} (s : Store V) (head n : ℕ) (node : ℕ → ℕ) (element : ℕ → Option V)
    (r : Ring s head n node element) where
  walk_forth : (k i : ℕ) → i + k ≤ n + 1 → walk s.next k (node i) ≡ some (node (i + k))
  unfolding walk
  walk_forth zero i h = let index : i + 0 ≡ i = omega arith in ap (λ j. some (node j)) (sym index)
  walk_forth (suc k) i h =
      let index : i + 1 + k ≡ i + suc k = omega arith in
      rw (r.forth i (omega arith))
        (walk_forth k (i + 1) (omega arith) ∙ ap (λ j. some (node j)) index)

  walk_back : (k i : ℕ) → i + k ≤ n + 1 → walk s.prev k (node (i + k)) ≡ some (node i)
  unfolding walk
  walk_back zero i h = let index : i + 0 ≡ i = omega arith in ap (λ j. some (node j)) index
  walk_back (suc k) i h =
      let index : i + suc k ≡ i + k + 1 = omega arith in
      rw (ap (λ j. s.prev (node j)) index ∙ r.back (i + k) (omega arith))
        (walk_back k i (omega arith))

  -- The loop has counted the elements before the node `i`.
  count_loop_lem :
      (fuel i : ℕ)
      → i ≤ n
      → n ≤ int_max
      → n < fuel + i
      → count_loop fuel s head (node (i + 1)) i ≡ some n
  unfolding count_loop
  count_loop_lem zero i h b f = absurd (omega arith)
  count_loop_lem (suc fuel) i h b f = elim (Bool-cases (i == n)) [
    | inl e ↦
        let all : i ≡ n = ground arith in
        let closed : (node (i + 1) == head) ≡ true =
          ground (arith, r.close, ap (λ j. node (j + 1)) all) in
        rw (count_loop, closed) (ap some all)
    | inr e ↦
        let less : i < n = ground arith in
        let open_ : (node (i + 1) == head) ≡ false =
          ground (arith, r.start, r.apart (i + 1) 0 (omega arith) (omega arith)) in
        let fits : ltb i int_max ≡ true = ground arith in
        rw (count_loop, open_, fits, r.forth (i + 1) (omega arith))
          (count_loop_lem fuel (i + 1) (omega arith) b (omega arith))
  ]

  pub first_node : s.next head ≡ some (node 1)
  first_node = ap s.next (sym r.start) ∙ r.forth 0 (omega arith)

  pub last_node : s.prev head ≡ some (node n)
  last_node = ap s.prev (sym r.close) ∙ r.back n (omega arith)

  pub size_lem : (fuel : ℕ) → n ≤ int_max → n < fuel → size fuel s (some head) ≡ some n
  unfolding size
  size_lem fuel b f = rw first_node (count_loop_lem fuel 0 (omega arith) b (omega arith))

  pub get_node-inside :
      (fuel i : ℕ)
      → n ≤ int_max
      → n < fuel
      → i < n
      → get_node fuel s (some head) (pos i) ≡ some (some (node (i + 1)))
  unfolding get_node
  get_node-inside fuel i b f h =
      let inside : leb n i ≡ false = ground arith in
      let counted = count_loop_lem fuel 0 (omega arith) b (omega arith) in
      elim (Bool-cases (leb i (n / 2))) [
        | inl near ↦
            let index : 1 + i ≡ i + 1 = omega arith in
            rw (get_node, first_node, ◌>>=◌, counted, inside, near, walk_forth i 1 (omega arith))
              (ap (λ j. some (some (node j))) index)
        | inr far ↦
            let index : n ≡ i + 1 + (n - i - 1) = omega arith in
            let walked =
              ap (λ j. walk s.prev (n - i - 1) (node j)) index
              ∙ walk_back (n - i - 1) (i + 1) (omega arith) in
            rw (get_node, first_node, ◌>>=◌, counted, inside, far, last_node, walked) refl
      ]

  pub get_node-outside :
      (fuel i : ℕ)
      → n ≤ int_max
      → n < fuel
      → n ≤ i
      → get_node fuel s (some head) (pos i) ≡ some none
  unfolding get_node
  get_node-outside fuel i b f h =
      let outside : leb n i ≡ true = ground arith in
      let counted = count_loop_lem fuel 0 (omega arith) b (omega arith) in
      rw (get_node, first_node, ◌>>=◌, counted, outside) refl

  pub get-inside :
      (fuel i : ℕ)
      → n ≤ int_max
      → n < fuel
      → i < n
      → get fuel s (some head) (pos i) ≡ some (element i)
  unfolding get
  get-inside fuel i b f h = rw (get_node-inside fuel i b f h) (r.held i h)

  pub get-outside :
      (fuel i : ℕ) → n ≤ int_max → n < fuel → n ≤ i → get fuel s (some head) (pos i) ≡ some none
  unfolding get
  get-outside fuel i b f h = rw (get_node-outside fuel i b f h) refl

-- ===== src/Linear/Ring.antt =====
-- The nodes of a list form a ring through its head.
use foo.Prelude.{
  ℕ, ◌+◌, ◌≤◌, ◌<◌, ◌≡◌, ◌≢◌, Option, some, arith, sym, ap, ◌∙◌, Bool-cases, inl, inr, ◌==◌,
}
use foo.Linear.{Store}

-- `node 0` is the head, `node (i + 1)` the node of the element `i`, and the ring closes after the
-- `n` elements.
pub record Ring {V : Type 0} (s : Store V) (head n : ℕ) (node : ℕ → ℕ) (element : ℕ → Option V)
    : Type 0 where
  pub start : node 0 ≡ head
  pub close : node (n + 1) ≡ head
  pub forth : (i : ℕ) → i ≤ n → s.next (node i) ≡ some (node (i + 1))
  pub back : (i : ℕ) → i ≤ n → s.prev (node (i + 1)) ≡ some (node i)
  pub apart : (i j : ℕ) → i ≤ n → j ≤ n → node i ≡ node j → i ≡ j
  pub held : (i : ℕ) → i < n → s.value (node (i + 1)) ≡ some (element i)

-- The list `head` in the store has these elements.
abbrev pub IsList : {V : Type 0} → Store V → ℕ → ℕ → (ℕ → Option V) → Type 0
IsList s head n element = (node : ℕ → ℕ) × Ring s head n node element

module _ {V : Type 0} (s : Store V) (head n : ℕ) (node : ℕ → ℕ) (element : ℕ → Option V)
    (r : Ring s head n node element) where
  -- The nodes are apart with the head at the end, too.
  pub apart_after : (i j : ℕ) → i ≤ n → j ≤ n → i ≢ j → node (i + 1) ≢ node (j + 1)
  apart_after i j h k d e = elim (Bool-cases (i == n)) [
    | inl c ↦
        let last : i ≡ n = ground arith in
        let at_start = r.start ∙ sym r.close ∙ ap (λ j. node (j + 1)) (sym last) ∙ e in
        absurd (ground (arith, r.apart 0 (j + 1) (omega arith) (omega arith) at_start))
    | inr c ↦ elim (Bool-cases (j == n)) [
      | inl b ↦
          let last : j ≡ n = ground arith in
          let at_start = e ∙ ap (λ j. node (j + 1)) last ∙ r.close ∙ sym r.start in
          absurd (ground (arith, r.apart (i + 1) 0 (ground arith) (omega arith) at_start))
      | inr b ↦ absurd (ground (arith, r.apart (i + 1) (j + 1) (ground arith) (ground arith) e))
    ]
  ]

-- ===== src/Linear/Destroy.antt =====
-- The deletion of a list.
use foo.Prelude.{
  ℕ, zero, suc, ◌+◌, ◌≤◌, ◌<◌, ◌≡◌, ◌≢◌, refl, sym, ap, ◌∙◌, arith, true, false, Option, none, some,
  ◌==◌, Bool-cases, inl, inr, update, update_eq, update_ne,
}
use foo.Cache.Interface.{◌>>=◌}
use foo.Linear.{Store, delete_node, destroy_loop, destroy}
use foo.Linear.Ring.{Ring}
use foo.Linear.Walk.{first_node}

module _ {V : Type 0} (head n : ℕ) (node : ℕ → ℕ) where
  -- The store without the node `a`.
  deleted : ℕ → Store V → Store V
  deleted a s = record {
    prev = update s.prev a none;
    next = update s.next a none;
    value = update s.value a none;
  }

  delete_node_lem :
      (a b : ℕ) (s : Store V) → s.next a ≡ some b → delete_node a s ≡ some (deleted a s)
  unfolding delete_node deleted
  delete_node_lem a b s e = rw (delete_node, e) refl

  -- The nodes from `i` on and the head are deleted, and no other.
  pub record Deleted (i : ℕ) (s t : Store V) : Type 0 where
    pub gone : (j : ℕ) → i ≤ j → j ≤ n → t.next (node j) ≡ none
    pub headless : t.next head ≡ none
    pub others : (a : ℕ) → a ≢ head → ((j : ℕ) → i ≤ j → j ≤ n → a ≢ node j) → t.next a ≡ s.next a

  module _ {s₀ : Store V} {element : ℕ → Option V} (r : Ring s₀ head n node element) where
    off_head : (i : ℕ) → 0 < i → i ≤ n → node i ≢ head
    off_head i p h e = absurd (omega (arith, r.apart i 0 h (omega arith) (e ∙ sym r.start)))

    destroy_loop-Deleted :
        (fuel i : ℕ) (s : Store V)
        → 0 < i
        → i ≤ n + 1
        → n + 1 < fuel + i
        → s.next head ≡ some (node 1)
        → ((j : ℕ) → i ≤ j → j ≤ n → s.next (node j) ≡ some (node (j + 1)))
        → (t : Store V) × (destroy_loop fuel head (node i) s ≡ some t) × Deleted i s t
    unfolding destroy_loop deleted
    destroy_loop-Deleted zero i s p b f first forth = absurd (omega arith)
    destroy_loop-Deleted (suc fuel) i s p b f first forth = elim (Bool-cases (i == (n + 1))) [
      | inl e ↦
          let last : i ≡ n + 1 = ground arith in
          let closed : (node i == head) ≡ true = ground (arith, r.close, ap node last) in
          (
            deleted head s,
            rw (destroy_loop, closed) (delete_node_lem head (node 1) s first),
            record {
              gone = λ j c d. absurd (omega arith);
              headless = update_eq s.next head none;
              others = λ a c d. update_ne s.next head none a c;
            },
          )
      | inr e ↦
          let inside : i ≤ n = ground arith in
          let off = off_head i p inside in
          let open_ : (node i == head) ≡ false = ground arith in
          let (t, run, v) =
            destroy_loop-Deleted fuel (i + 1) (deleted (node i) s) (omega arith) (omega arith)
              (omega arith) (update_ne s.next (node i) none head (λ g. off (sym g)) ∙ first)
              (λ j c d.
                update_ne s.next (node i) none (node j)
                  (λ g. absurd (omega (arith, r.apart j i d inside g)))
                ∙ forth j (omega arith) d) in
          (
            t,
            rw (destroy_loop, open_, forth i (omega arith) inside, ◌>>=◌) run,
            record {
              gone = λ j c d. elim (Bool-cases (j == i)) [
                | inl g ↦
                    let same : j ≡ i = ground arith in
                    ap (λ x. t.next (node x)) same
                    ∙ v.others (node i) off
                        (λ x y z w. absurd (omega (arith, r.apart i x inside z w)))
                    ∙ update_eq s.next (node i) none
                | inr g ↦ v.gone j (ground arith) d
              ];
              headless = v.headless;
              others = λ a c d.
                  v.others a c (λ x y z. d x (omega arith) z)
                  ∙ update_ne s.next (node i) none a (d i (omega arith) inside);
            },
          )
    ]

  -- destroy of a doubly linked list, with enough fuel, follows no pointer of a deleted node,
  -- deletes the head and every node of the list once and no other node, and sets the handle to
  -- null.
  pub destroy_deletes :
      (s : Store V) (element : ℕ → Option V) (fuel : ℕ)
      → Ring s head n node element
      → n < fuel
      → (t : Store V) × (destroy fuel s (some head) ≡ some (t, none, true))
        × ((j : ℕ) → j ≤ n → t.next (node j) ≡ none)
        × ((a : ℕ) → ((j : ℕ) → j ≤ n → a ≢ node j) → t.next a ≡ s.next a)
  unfolding destroy
  destroy_deletes s element fuel r f =
      let (t, run, v) =
        destroy_loop-Deleted r fuel 1 s (omega arith) (omega arith) (omega arith)
          (first_node s head n node element r) (λ j c d. r.forth j d) in
      (
        t,
        rw (first_node s head n node element r, ◌>>=◌, run) refl,
        λ j d. elim (Bool-cases (j == 0)) [
          | inl e ↦
              let zeroth : j ≡ 0 = ground arith in
              ap (λ x. t.next (node x)) zeroth ∙ ap t.next r.start ∙ v.headless
          | inr e ↦ v.gone j (ground arith) d
        ],
        λ a c. v.others a (λ e. c 0 (omega arith) (e ∙ sym r.start)) (λ j x y. c j y),
      )

-- ===== src/Cache/Lru/Holds/Insert.antt =====
-- `doPrune` and the insertion of a new key in `LRU`.
use foo.Prelude.{
  ℕ, ◌+◌, ◌≡◌, refl, sym, ap, ◌∙◌, subst, true, none, some, List, [], ◌∷◌, ◌++◌, ◌==◌, ltb, arith,
  length, update, update_ne, update_eq, inl, inr, Bool-cases,
}
use mathlib.Core.List.{append-nil}
use foo.Cache.Entries.{discard, init, Model}
use foo.Cache.Cells.{
  Cell, remove, Distinct, nodes, node_of, discard_cell, Sound-frame, Absent-of_node_of,
}
use foo.Cache.Changes.{node_of-discard_cell_ne}
use foo.Cache.Fifo.{emplace}
use foo.Cache.Lru.{Lru, do_access, do_prune, place}
use foo.Cache.Lru.Lists.{remove_last, AllAbsent, AllAbsent-cons, last_cell}
use foo.Cache.Lru.Holds.{Holds, erased, do_erase-erased, erased-Holds}

module _ {V : Type 0} where
  -- A full cache that is pruned loses its last entry, and its node is free.
  pub do_prune-Holds :
      (s : Lru V) (m : Model (ℕ × V)) (cells : List (Cell V)) (key : ℕ)
      → Holds s m cells
      → s.lru_open ≡ []
      → node_of key cells ≡ none
      → (s' : Lru V) × (do_prune s ≡ some s')
        × (cs : List (Cell V)) × (x : ℕ) × Holds s' (record m { entries = init m.entries }) cs
        × (s'.lru_open ≡ x ∷ [])
        × (node_of key cs ≡ none)
  unfolding do_prune erased
  do_prune-Holds s m [] key h full fresh =
      absurd (omega (arith, h.room, h.capacity, h.positive, ap length full))
  do_prune-Holds s m ((x, k, v) ∷ cells) key h full fresh =
      let (y, j, p, q, r) = last_cell x k v cells h.unique in
      let used : ltb 0 s.used_size ≡ true = ground (arith, h.count) in
      let all = ap (λ xs. s.lru_used ++ xs) full ∙ append-nil s.lru_used ∙ h.order in
      let same = ap (discard j) h.same ∙ r ∙ sym (ap init h.same) in
      let erases = do_erase-erased s m ((x, k, v) ∷ cells) j y h q in
      (
        erased s y j,
        rw (do_prune, used, all, p, erases) refl,
        discard_cell j ((x, k, v) ∷ cells),
        y,
        subst
            (λ es.
              Holds (erased s y j) (record m { entries = es }) (discard_cell j ((x, k, v) ∷ cells)))
            same (erased-Holds s m ((x, k, v) ∷ cells) j y h q),
        ap (λ xs. y ∷ xs) full,
        node_of-discard_cell_ne j key ((x, k, v) ∷ cells)
              (λ e. absurd (cc (q, fresh, ap (λ i. node_of i ((x, k, v) ∷ cells)) e)))
            ∙ fresh,
      )

  -- The state after a new element is placed at the node `x`.
  unfoldable pub placed : Lru V → ℕ → List ℕ → ℕ → V → Lru V
  placed s x rest key v = do_access x (record s {
    lru_used = s.lru_used ++ x ∷ [];
    lru_open = rest;
    keyed_position = update s.keyed_position x (some key);
    value = update s.value x v;
    keyed_elements = emplace s.keyed_elements key x;
    used_size = s.used_size + 1;
  })

  place-placed :
      (s : Lru V) (x : ℕ) (rest : List ℕ) (key : ℕ) (v : V)
      → s.lru_open ≡ x ∷ rest
      → place key v s ≡ some (placed s x rest key v)
  unfolding place placed
  place-placed s x rest key v e =
      ap (λ l. elim l [ [] ↦ none | y ∷ ys ↦ some (placed s y ys key v) ]) e

  -- The node at `lruListEnd` takes a new key.
  placed-Holds :
      (s : Lru V) (m : Model (ℕ × V)) (cells : List (Cell V)) (x : ℕ) (rest : List ℕ) (key : ℕ)
      (v : V)
      → Holds s m cells
      → s.lru_open ≡ x ∷ rest
      → node_of key cells ≡ none
      → Holds
          (placed s x rest key v)
          (record m { entries = (key, v) ∷ m.entries })
          ((x, key, v) ∷ cells)
  unfolding placed do_access node_of
  placed-Holds s m cells x rest key v h e fresh =
      let outside = subst (λ xs. AllAbsent xs (nodes cells)) e h.outside in
      let apart = subst Distinct e h.apart in
      record {
        order =
            ap (λ xs. x ∷ xs)
              (ap (λ xs. remove x (xs ++ x ∷ [])) h.order ∙ remove_last x (nodes cells) outside.0);
        same = ap (λ es. (key, v) ∷ es) h.same;
        sound = (
          update_eq s.keyed_position x (some key),
          update_eq s.value x v,
          Sound-frame s.keyed_position s.value (update s.keyed_position x (some key))
              (update s.value x v) x cells
              (λ y n. (update_ne s.keyed_position x (some key) y n, update_ne s.value x v y n))
              outside.0 h.sound,
        );
        apart = apart.1;
        outside = AllAbsent-cons x rest (nodes cells) apart.0 outside.1;
        unique = (Absent-of_node_of key cells fresh, h.unique);
        indexed = λ k.
            rw (h.indexed key ∙ fresh, emplace)
              (elim (Bool-cases (k == key)) [
                | inl p ↦ ground arith
                | inr n ↦ ground (arith, h.indexed k)
              ]);
        count = omega (arith, h.count);
        room = omega (arith, h.room, ap length e);
        capacity = h.capacity;
        positive = h.positive;
      }

  pub place-Holds :
      (s : Lru V) (m : Model (ℕ × V)) (cells : List (Cell V)) (x : ℕ) (rest : List ℕ) (key : ℕ)
      (v : V)
      → Holds s m cells
      → s.lru_open ≡ x ∷ rest
      → node_of key cells ≡ none
      → (s' : Lru V) × (place key v s ≡ some s')
        × Holds s' (record m { entries = (key, v) ∷ m.entries }) ((x, key, v) ∷ cells)
  place-Holds s m cells x rest key v h e fresh = (
    placed s x rest key v,
    place-placed s x rest key v e,
    placed-Holds s m cells x rest key v h e fresh,
  )

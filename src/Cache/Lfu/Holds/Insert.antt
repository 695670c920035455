-- ===== src/Cache/Lfu/Holds/Insert.antt =====
-- `doPrune` and the insertion of a new key in `LFU`.
use foo.Prelude.{
  ℕ, ◌+◌, ◌≡◌, refl, sym, ap, ◌∙◌, subst, true, none, some, List, [], ◌∷◌, ◌++◌, ◌==◌, ltb, arith,
  length, length-append, update, update_ne, update_eq, inl, inr, Bool-cases,
}
use foo.Cache.Entries.{discard, tail, Model}
use foo.Cache.Cells.{
  Cell, Distinct, nodes, entries, node_of, discard_cell, Sound-frame, Absent-of_node_of,
}
use foo.Cache.Changes.{node_of-discard_cell_ne}
use foo.Cache.Fifo.{emplace}
use foo.Cache.Lru.Lists.{AllAbsent}
use foo.Cache.Lfu.{Lfu, emplace_count, do_erase, do_prune, place}
use foo.Cache.Lfu.Policy.{place_entry}
use foo.Cache.Lfu.Placed.{
  counts, place_cell, counts-place_cell, entries-place_cell, length-place_cell, node_of-place_cell,
  Distinct-place_cell, Sound-place_cell, has-place_cell,
}
use foo.Cache.Lfu.Slots.{
  has-append, has_of_Absent, Absent-of_has, Distinct-last, AllAbsent-place_cell,
}
use foo.Cache.Lfu.Holds.{Holds, erased, do_erase-erased, erased-Holds}

module _ {V : Type 0} where
  prune-erases :
      (s : Lfu V) (c x : ℕ) (r : List (ℕ × ℕ))
      → ltb 0 s.used_size ≡ true
      → s.lfu_list ≡ (c, x) ∷ r
      → do_prune s ≡ do_erase x s
  unfolding do_prune
  prune-erases s c x r p e =
      rw (do_prune, p) (ap (λ l. elim l [ [] ↦ none | (d, y) ∷ q ↦ do_erase y s ]) e)

  -- A full cache that is pruned loses its first entry, and its slot is free.
  pub do_prune-Holds :
      (s : Lfu V) (m : Model (ℕ × (ℕ × V))) (held : ℕ → ℕ × V) (cells : List (Cell (ℕ × V)))
      (key : ℕ)
      → Holds s m held cells
      → s.open_free ≡ []
      → node_of key cells ≡ none
      → (s' : Lfu V) × (do_prune s ≡ some s')
        × (cs : List (Cell (ℕ × V))) × (x : ℕ) × Holds s'
            (record m { entries = tail m.entries })
            held
            cs
        × (s'.open_free ≡ x ∷ [])
        × (node_of key cs ≡ none)
  unfolding erased node_of discard
  do_prune-Holds s m held [] key h full fresh =
      absurd (omega (arith, h.slots, h.room, h.positive, ap length full))
  do_prune-Holds s m held ((x, k, (c, v)) ∷ cells) key h full fresh =
      let used : ltb 0 s.used_size ≡ true = ground (arith, h.count) in
      let first : node_of k ((x, k, (c, v)) ∷ cells) ≡ some x = ground arith in
      let same : discard k m.entries ≡ tail m.entries =
        ap (discard k) h.same ∙ head_gone k (c, v) (entries cells) ∙ sym (ap tail h.same) in
      (
        erased s x k,
        prune-erases s c x (counts cells) used h.order
            ∙ do_erase-erased s m held ((x, k, (c, v)) ∷ cells) k x h first,
        discard_cell k ((x, k, (c, v)) ∷ cells),
        x,
        subst
            (λ es.
              Holds (erased s x k) (record m { entries = es }) held
                (discard_cell k ((x, k, (c, v)) ∷ cells)))
            same (erased-Holds s m held ((x, k, (c, v)) ∷ cells) k x h first),
        ap (λ xs. x ∷ xs) full,
        node_of-discard_cell_ne k key ((x, k, (c, v)) ∷ cells)
              (λ e. absurd (cc (first, fresh, ap (λ i. node_of i ((x, k, (c, v)) ∷ cells)) e)))
            ∙ fresh,
      )
    where
      head_gone : (k : ℕ) (e : ℕ × V) (es : List (ℕ × (ℕ × V))) → discard k ((k, e) ∷ es) ≡ es
      head_gone k e es = ground arith

  -- The state after a new element is placed in the slot `x`.
  unfoldable pub placed : Lfu V → ℕ → List ℕ → ℕ → V → Lfu V
  placed s x rest key v = record s {
    open_used = s.open_used ++ x ∷ [];
    open_free = rest;
    keyed_position = update s.keyed_position x (some key);
    value = update s.value x v;
    lfu_list = emplace_count 1 x s.lfu_list;
    keyed_elements = emplace s.keyed_elements key x;
    used_size = s.used_size + 1;
  }

  pub place-placed :
      (s : Lfu V) (x : ℕ) (rest : List ℕ) (key : ℕ) (v : V)
      → s.open_free ≡ x ∷ rest
      → place key v s ≡ some (placed s x rest key v)
  unfolding place placed
  place-placed s x rest key v e =
      ap (λ l. elim l [ [] ↦ none | y ∷ ys ↦ some (placed s y ys key v) ]) e

  pub placed-Holds :
      (s : Lfu V) (m : Model (ℕ × (ℕ × V))) (held : ℕ → ℕ × V) (cells : List (Cell (ℕ × V))) (x : ℕ)
      (rest : List ℕ) (key : ℕ) (v : V)
      → Holds s m held cells
      → s.open_free ≡ x ∷ rest
      → node_of key cells ≡ none
      → Holds
          (placed s x rest key v)
          (record m { entries = place_entry key 1 v m.entries })
          (update held x (1, v))
          (place_cell x key 1 v cells)
  unfolding placed
  placed-Holds s m held cells x rest key v h e fresh =
      let outside = subst (λ xs. AllAbsent xs (nodes cells)) e h.outside in
      let apart = subst Distinct e h.apart in
      let away = h.members x ∙ has_of_Absent x (nodes cells) outside.0 in
      record {
        order = ap (emplace_count 1 x) h.order ∙ sym (counts-place_cell x key 1 v cells);
        same = ap (place_entry key 1 v) h.same ∙ sym (entries-place_cell x key 1 v cells);
        held_value =
            λ y. elim (Bool-cases (x == y)) [ inl r ↦ rw r refl | inr n ↦ rw n (h.held_value y) ];
        sound =
            Sound-place_cell x key 1 v (update s.keyed_position x (some key)) (update held x (1, v))
              cells (update_eq s.keyed_position x (some key)) (update_eq held x (1, v))
              (Sound-frame s.keyed_position held (update s.keyed_position x (some key))
                (update held x (1, v)) x cells
                (λ y n. (update_ne s.keyed_position x (some key) y n, update_ne held x (1, v) y n))
                outside.0 h.sound);
        apart = apart.1;
        outside = AllAbsent-place_cell x key 1 v rest cells apart.0 outside.1;
        unlike = Distinct-last s.open_used x (Absent-of_has x s.open_used away) h.unlike;
        members = λ y.
            ground
              (arith, h.members y, has-append y s.open_used x, has-place_cell x key 1 v y cells);
        unique = Distinct-place_cell x key 1 v cells (Absent-of_node_of key cells fresh) h.unique;
        indexed = λ k.
            rw (h.indexed key ∙ fresh, emplace)
              (elim (Bool-cases (k == key)) [
                | inl p ↦ ground (arith, node_of-place_cell x key 1 v k cells fresh)
                | inr n ↦ ground (arith, h.indexed k, node_of-place_cell x key 1 v k cells fresh)
              ]);
        count = omega (arith, h.count, length-place_cell x key 1 v cells);
        slots =
            omega (
              arith,
              h.slots,
              length-place_cell x key 1 v cells,
              length-append s.open_used (x ∷ []),
            );
        room = omega (arith, h.room, ap length e, length-append s.open_used (x ∷ []));
        positive = h.positive;
      }

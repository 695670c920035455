-- ===== src/Cache/Fifo/Holds.antt =====
-- How the nodes of `FIFO` hold the entries, and that its operations keep it so.
use mathlib.Core.List.{append_assoc}
use foo.Prelude.{
  ℕ, ◌<◌, ◌≡◌, refl, sym, ap, ◌∙◌, subst, false, Option, none, some, List, [], ◌∷◌, ◌++◌, ◌==◌,
  arith, length, length-append, update, update_ne, update_eq, inl, inr, Bool-cases,
}
use foo.Cache.Entries.{assign, discard, tail, Model}
use foo.Cache.Cells.{
  Cell, remove, remove-append, Absent, Distinct, Clear, nodes, entries, keys, node_of, assign_cell,
  discard_cell, Sound, Absent-of_none, Absent-of_key, Sound-frame, keyed-node_of, Sound-assign_cell,
  Absent-of_node_of, node_of-none, node_of-append, entries-append, Clear-frame, Absent-of_Clear,
}
use foo.Cache.Changes.{
  nodes-assign_cell, keys-assign_cell, entries-assign_cell, node_of-assign_cell, length-assign_cell,
  entries-discard_cell, Distinct-discard_cell, Absent-discarded, node_of-discard_cell_ne,
  length-discard_cell, nodes-discard_cell, Sound-discard_cell, nodes-append, length-nodes,
  Sound-append, Distinct-last,
}
use foo.Cache.Fifo.{Fifo, emplace, evict, do_update, splice_front, release, do_erase}

-- The node that is erased becomes the first free node.
splice_front-remove : (x : ℕ) (xs : List ℕ) → 0 < length xs → splice_front x xs ≡ x ∷ remove x xs
unfolding splice_front remove
splice_front-remove x [] h = absurd (omega arith)
splice_front-remove x (y ∷ ys) h = ground arith

module _ {V : Type 0} where
  -- The list holds the free nodes and then the occupied ones, the oldest first.
  pub record Holds (s : Fifo V) (m : Model (ℕ × V)) (cells : List (Cell V)) (free : List ℕ)
      : Type 0 where
    pub order : s.fifo_list ≡ free ++ nodes cells
    pub same : m.entries ≡ entries cells
    pub sound : Sound s.keyed_position s.value cells
    pub clear : Clear s.keyed_position free
    pub apart : Distinct free
    pub unique : Distinct (keys cells)
    pub indexed : (k : ℕ) → s.keyed_elements k ≡ node_of k cells
    pub count : s.used_size ≡ length cells
    pub room : m.capacity ≡ length s.fifo_list
    pub positive : 0 < m.capacity

  abbrev pub Refines : Fifo V → Model (ℕ × V) → Type 0
  Refines s m = (cells : List (Cell V)) × (free : List ℕ) × Holds s m cells free

  -- The index after a key that is not there has been emplaced.
  emplace-node_of :
      (f : ℕ → Option ℕ) (cs : List (Cell V)) (key x : ℕ) (v : V)
      → ((k : ℕ) → f k ≡ node_of k cs)
      → node_of key cs ≡ none
      → (k : ℕ) → emplace f key x k ≡ node_of k (cs ++ (x, key, v) ∷ [])
  unfolding node_of
  emplace-node_of f cs key x v h e k =
      rw (h key ∙ e, emplace)
        (elim (Bool-cases (key == k)) [
          | inl p ↦ ground (arith, node_of-append k cs ((x, key, v) ∷ []))
          | inr n ↦ ground (arith, h k, go cs)
        ])
    where
      go :
          (cs : List (Cell V))
          → (key == k) ≡ false
          → node_of k cs ≡ node_of k (cs ++ (x, key, v) ∷ [])
      go [] n = ground arith
      go ((y, j, w) ∷ cs) n = ground (arith, go cs n)

  pub update-Holds :
      (s : Fifo V) (m : Model (ℕ × V)) (cells : List (Cell V)) (free : List ℕ) (key x : ℕ) (v : V)
      → Holds s m cells free
      → node_of key cells ≡ some x
      → Holds
          (do_update x v s)
          (record m { entries = assign key v m.entries })
          (assign_cell key v cells)
          free
  unfolding do_update
  update-Holds s m cells free key x v h e = record {
    order = h.order ∙ ap (λ xs. free ++ xs) (sym (nodes-assign_cell key v cells));
    same = ap (assign key v) h.same ∙ sym (entries-assign_cell key v cells);
    sound =
        Sound-assign_cell s.keyed_position s.value (update s.value x v) key x v cells
          (update_ne s.value x v) (update_eq s.value x v) h.unique h.sound e;
    clear = h.clear;
    apart = h.apart;
    unique = subst Distinct (sym (keys-assign_cell key v cells)) h.unique;
    indexed = λ k. h.indexed k ∙ sym (node_of-assign_cell key k v cells);
    count = h.count ∙ sym (length-assign_cell key v cells);
    room = h.room;
    positive = h.positive;
  }

  -- The new element of the node `x`.
  unfoldable pub placed : Fifo V → ℕ → List ℕ → ℕ → V → Fifo V
  placed s x rest key v =
      let s' = evict (s.keyed_position x) s in
      record s' {
        fifo_list = rest ++ x ∷ [];
        value = update s.value x v;
        keyed_position = update s.keyed_position x (some key);
        keyed_elements = emplace s'.keyed_elements key x;
      }

  pub insert_free-Holds :
      (s : Fifo V) (m : Model (ℕ × V)) (cells : List (Cell V)) (x : ℕ) (free : List ℕ) (key : ℕ)
      (v : V)
      → Holds s m cells (x ∷ free)
      → node_of key cells ≡ none
      → Holds
          (placed s x (free ++ nodes cells) key v)
          (record m { entries = m.entries ++ (key, v) ∷ [] })
          (cells ++ (x, key, v) ∷ [])
          free
  unfolding placed evict
  insert_free-Holds s m cells x free key v h e = rw (h.clear.0) (record {
    order =
        append_assoc free (nodes cells) (x ∷ [])
        ∙ ap (λ xs. free ++ xs) (sym (nodes-append cells ((x, key, v) ∷ [])));
    same = ap (λ es. es ++ (key, v) ∷ []) h.same ∙ sym (entries-append cells ((x, key, v) ∷ []));
    sound =
        Sound-append (update s.keyed_position x (some key)) (update s.value x v) cells
          ((x, key, v) ∷ [])
          (Sound-frame s.keyed_position s.value (update s.keyed_position x (some key))
            (update s.value x v) x cells
            (λ y n. (update_ne s.keyed_position x (some key) y n, update_ne s.value x v y n))
            (Absent-of_none s.keyed_position s.value x cells h.clear.0 h.sound) h.sound)
          (update_eq s.keyed_position x (some key), update_eq s.value x v, tt);
    clear =
        Clear-frame s.keyed_position (update s.keyed_position x (some key)) x free
          (update_ne s.keyed_position x (some key)) h.apart.0 h.clear.1;
    apart = h.apart.1;
    unique = Distinct-last cells x key v h.unique (Absent-of_node_of key cells e);
    indexed = emplace-node_of s.keyed_elements cells key x v h.indexed e;
    count = omega (arith, h.count, length-append cells ((x, key, v) ∷ []));
    room = omega (arith, h.room, ap length h.order, length-append (free ++ nodes cells) (x ∷ []));
    positive = h.positive;
  })

  pub insert_full-Holds :
      (s : Fifo V) (m : Model (ℕ × V)) (x j : ℕ) (w : V) (cells : List (Cell V)) (key : ℕ) (v : V)
      → Holds s m ((x, j, w) ∷ cells) []
      → node_of key ((x, j, w) ∷ cells) ≡ none
      → Holds
          (placed s x (nodes cells) key v)
          (record m { entries = tail m.entries ++ (key, v) ∷ [] })
          (cells ++ (x, key, v) ∷ [])
          []
  unfolding placed evict node_of
  insert_full-Holds s m x j w cells key v h e = rw (h.sound.0) (record {
    order = sym (nodes-append cells ((x, key, v) ∷ []));
    same =
        ap (λ es. tail es ++ (key, v) ∷ []) h.same ∙ sym (entries-append cells ((x, key, v) ∷ []));
    sound =
        Sound-append (update s.keyed_position x (some key)) (update s.value x v) cells
          ((x, key, v) ∷ [])
          (Sound-frame s.keyed_position s.value (update s.keyed_position x (some key))
            (update s.value x v) x cells
            (λ y n. (update_ne s.keyed_position x (some key) y n, update_ne s.value x v y n))
            (Absent-of_key s.keyed_position s.value x j cells h.sound.0 h.unique.0 h.sound.2)
            h.sound.2)
          (update_eq s.keyed_position x (some key), update_eq s.value x v, tt);
    clear = tt;
    apart = tt;
    unique = Distinct-last cells x key v h.unique.1 (Absent-of_node_of key cells fresh);
    indexed =
        emplace-node_of (update s.keyed_elements j none) cells key x v
          (λ k. ground (arith, h.indexed k, node_of-none j cells h.unique.0)) fresh;
    count = omega (arith, h.count, length-append cells ((x, key, v) ∷ []));
    room = omega (arith, h.room, ap length h.order, length-append (nodes cells) (x ∷ []));
    positive = h.positive;
  })
    where
      fresh : node_of key cells ≡ none
      fresh = ground arith

  pub erase-Holds :
      (s : Fifo V) (m : Model (ℕ × V)) (cells : List (Cell V)) (free : List ℕ) (key x : ℕ)
      → Holds s m cells free
      → node_of key cells ≡ some x
      → Holds
          (do_erase x s)
          (record m { entries = discard key m.entries })
          (discard_cell key cells)
          (x ∷ free)
  unfolding do_erase release
  erase-Holds s m cells free key x h e = rw held (record {
    order = spliced;
    same = ap (discard key) h.same ∙ sym (entries-discard_cell key cells);
    sound =
        Sound-discard_cell key s.keyed_position s.value (update s.keyed_position x none) s.value x
          cells (λ y n. (update_ne s.keyed_position x none y n, refl)) h.unique h.sound e;
    clear = (
      update_eq s.keyed_position x none,
      Clear-frame s.keyed_position (update s.keyed_position x none) x free
          (update_ne s.keyed_position x none) outside h.clear,
    );
    apart = (outside, h.apart);
    unique = Distinct-discard_cell key cells h.unique;
    indexed = λ k. elim (Bool-cases (key == k)) [
      | inl p ↦
          ground
            (arith, node_of-none key (discard_cell key cells) (Absent-discarded key cells h.unique))
      | inr n ↦ ground (arith, h.indexed k, node_of-discard_cell_ne key k cells)
    ];
    count = omega (arith, h.count, length-discard_cell key x cells e);
    room = omega (
      arith,
      h.room,
      ap length h.order,
      length-append free (nodes cells),
      length-nodes cells,
      length-discard_cell key x cells e,
      length-nodes (discard_cell key cells),
      length-append free (nodes (discard_cell key cells)),
      ap length spliced,
    );
    positive = h.positive;
  })
    where
      held : s.keyed_position x ≡ some key
      held = keyed-node_of s.keyed_position s.value key x cells h.sound e

      outside : Absent x free
      outside = Absent-of_Clear s.keyed_position x key free held h.clear

      spliced : splice_front x s.fifo_list ≡ x ∷ (free ++ nodes (discard_cell key cells))
      spliced =
          splice_front-remove x s.fifo_list (omega (arith, h.room, h.positive))
          ∙ ap (λ xs. x ∷ xs)
              (ap (remove x) h.order
                ∙ remove-append x free (nodes cells) outside
                ∙ ap (λ xs. free ++ xs)
                    (sym (nodes-discard_cell key s.keyed_position s.value x cells h.sound e)))

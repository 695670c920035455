-- ===== src/Cache/Lru/Holds.antt =====
-- How the nodes of `LRU` hold the entries, and that its operations keep it so.
pub mod Insert
use foo.Prelude.{
  ℕ, ◌+◌, ◌-◌, ◌<◌, ◌≡◌, ◌≢◌, refl, sym, ap, ◌∙◌, subst, true, none, some, List, [], ◌∷◌, ◌++◌,
  ◌==◌, ltb, arith, length, update, update_ne, update_eq, inl, inr, Bool-cases,
}
use mathlib.Core.List.{append-nil}
use foo.Cache.Entries.{discard, init, Model}
use foo.Cache.Cells.{
  Cell, remove, Distinct, nodes, entries, keys, node_of, discard_cell, Sound, Absent-of_key,
  Sound-frame, keyed-node_of, Absent-of_node_of, node_of-none,
}
use foo.Cache.Changes.{
  entries-discard_cell, Distinct-discard_cell, Absent-discarded, node_of-discard_cell_ne,
  length-discard_cell, nodes-discard_cell, Sound-discard_cell,
}
use foo.Cache.Fifo.{emplace}
use foo.Cache.Lru.{Lru, back, do_access, step_back, do_erase, do_prune, place}
use foo.Cache.Lru.Lists.{
  splice_end_lem, remove_last, AllAbsent, AllAbsent-cons, AllAbsent-discard, Distinct-nodes,
  last_cell,
}

module _ {V : Type 0} where
  -- The nodes in use hold the entries, the latest first.
  pub record Holds (s : Lru V) (m : Model (ℕ × V)) (cells : List (Cell V)) : Type 0 where
    pub order : s.lru_used ≡ nodes cells
    pub same : m.entries ≡ entries cells
    pub sound : Sound s.keyed_position s.value cells
    pub apart : Distinct s.lru_open
    pub outside : AllAbsent s.lru_open (nodes cells)
    pub unique : Distinct (keys cells)
    pub indexed : (k : ℕ) → s.keyed_elements k ≡ node_of k cells
    pub count : s.used_size ≡ length cells
    pub room : s.element_count ≡ length s.lru_open + length cells
    pub capacity : m.capacity ≡ s.element_count
    pub positive : 0 < m.capacity

  abbrev pub Refines : Lru V → Model (ℕ × V) → Type 0
  Refines s m = (cells : List (Cell V)) × Holds s m cells

  -- The element of `key`, now with the value `v`, is used.
  pub access-Holds :
      (s : Lru V) (m : Model (ℕ × V)) (cells : List (Cell V)) (key x : ℕ) (held : ℕ → V)
      → Holds s m cells
      → node_of key cells ≡ some x
      → ((y : ℕ) → y ≢ x → held y ≡ s.value y)
      → Holds
          (do_access x (record s { value = held }))
          (record m { entries = (key, held x) ∷ discard key m.entries })
          ((x, key, held x) ∷ discard_cell key cells)
  unfolding do_access node_of
  access-Holds s m cells key x held h e same =
      let (p, q) = AllAbsent-discard s.lru_open key x cells e h.outside in
      record {
        order =
            ap (λ xs. x ∷ xs)
              (ap (remove x) h.order
                ∙ sym (nodes-discard_cell key s.keyed_position s.value x cells h.sound e));
        same =
            ap (λ es. (key, held x) ∷ es)
              (ap (discard key) h.same ∙ sym (entries-discard_cell key cells));
        sound = (
          keyed-node_of s.keyed_position s.value key x cells h.sound e,
          refl,
          Sound-discard_cell key s.keyed_position s.value s.keyed_position held x cells
              (λ y n. (refl, same y n)) h.unique h.sound e,
        );
        apart = h.apart;
        outside = AllAbsent-cons x s.lru_open (nodes (discard_cell key cells)) p q;
        unique = (Absent-discarded key cells h.unique, Distinct-discard_cell key cells h.unique);
        indexed = λ k. elim (Bool-cases (k == key)) [
          | inl p ↦ ground (arith, h.indexed key)
          | inr n ↦ ground (arith, h.indexed k, node_of-discard_cell_ne key k cells)
        ];
        count = omega (arith, h.count, length-discard_cell key x cells e);
        room = omega (arith, h.room, length-discard_cell key x cells e);
        capacity = h.capacity;
        positive = h.positive;
      }

  -- The state after the element of `x`, with this key, is erased.
  unfoldable pub erased : Lru V → ℕ → ℕ → Lru V
  erased s x key = record s {
    lru_used = remove x s.lru_used;
    lru_open = x ∷ s.lru_open;
    keyed_elements = update s.keyed_elements key none;
    used_size = s.used_size - 1;
  }

  pub erased-Holds :
      (s : Lru V) (m : Model (ℕ × V)) (cells : List (Cell V)) (key x : ℕ)
      → Holds s m cells
      → node_of key cells ≡ some x
      → Holds
          (erased s x key)
          (record m { entries = discard key m.entries })
          (discard_cell key cells)
  unfolding erased
  erased-Holds s m cells key x h e =
      let (p, q) = AllAbsent-discard s.lru_open key x cells e h.outside in
      let held = keyed-node_of s.keyed_position s.value key x cells h.sound e in
      let sound =
        Sound-discard_cell key s.keyed_position s.value s.keyed_position s.value x cells
          (λ y n. (refl, refl)) h.unique h.sound e in
      record {
        order =
            ap (remove x) h.order
            ∙ sym (nodes-discard_cell key s.keyed_position s.value x cells h.sound e);
        same = ap (discard key) h.same ∙ sym (entries-discard_cell key cells);
        sound = sound;
        apart = (p, h.apart);
        outside = (
          Absent-of_key s.keyed_position s.value x key (discard_cell key cells) held
              (Absent-discarded key cells h.unique) sound,
          q,
        );
        unique = Distinct-discard_cell key cells h.unique;
        indexed = λ k. elim (Bool-cases (key == k)) [
          | inl p ↦ ground (
            arith,
            node_of-none key (discard_cell key cells) (Absent-discarded key cells h.unique),
          )
          | inr n ↦ ground (arith, h.indexed k, node_of-discard_cell_ne key k cells)
        ];
        count = omega (arith, h.count, length-discard_cell key x cells e);
        room = omega (arith, h.room, length-discard_cell key x cells e);
        capacity = h.capacity;
        positive = h.positive;
      }

  back-nodes :
      (cells : List (Cell V)) (key x : ℕ)
      → node_of key cells ≡ some x
      → (last : ℕ) × (back (nodes cells) ≡ some last)
  unfolding node_of back
  back-nodes [] key x e = absurd cc
  back-nodes ((y, j, v) ∷ []) key x e = (y, refl)
  back-nodes ((y, j, v) ∷ (z, i, w) ∷ cells) key x e = back-some z (nodes cells)
    where
      back-some : (z : ℕ) (zs : List ℕ) → (last : ℕ) × (back (z ∷ zs) ≡ some last)
      back-some z [] = (z, refl)
      back-some z (w ∷ zs) = back-some w zs

  pub do_erase-erased :
      (s : Lru V) (m : Model (ℕ × V)) (cells : List (Cell V)) (key x : ℕ)
      → Holds s m cells
      → node_of key cells ≡ some x
      → do_erase x s ≡ some (erased s x key)
  unfolding do_erase step_back erased
  do_erase-erased s m cells key x h e =
      let (last, p) = back-nodes cells key x e in
      let f = ap back h.order ∙ p in
      let distinct = Distinct-nodes s.keyed_position s.value cells h.unique h.sound in
      let (q, r) = splice_end_lem x last s.lru_used f (subst Distinct (sym h.order) distinct) in
      let held = keyed-node_of s.keyed_position s.value key x cells h.sound e in
      rw (f, step_back, q, r, held) refl

  -- `doErase` of the element of a key in the cache.
  pub do_erase-Holds :
      (s : Lru V) (m : Model (ℕ × V)) (cells : List (Cell V)) (key x : ℕ)
      → Holds s m cells
      → node_of key cells ≡ some x
      → (s' : Lru V) × (do_erase x s ≡ some s')
        × Holds s' (record m { entries = discard key m.entries }) (discard_cell key cells)
  do_erase-Holds s m cells key x h e =
      (erased s x key, do_erase-erased s m cells key x h e, erased-Holds s m cells key x h e)

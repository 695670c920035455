-- ===== src/Cache/Lfu/Holds.antt =====
-- How the slots of `LFU` hold the entries, and that its operations keep it so.
pub mod Insert
use foo.Prelude.{
  ℕ, zero, suc, ◌+◌, ◌-◌, ◌≤◌, ◌<◌, ◌≡◌, ◌≢◌, refl, sym, ap, ◌∙◌, subst, Bool, true, false, Option,
  none, some, List, [], ◌∷◌, ◌++◌, ◌==◌, arith, if◌then◌else◌, length, update, update_ne, update_eq,
  inl, inr, Bool-cases,
}
use foo.Cache.Interface.{◌>>=◌}
use foo.Cache.Entries.{discard, Model}
use foo.Cache.Cells.{
  Cell, remove, Absent, Distinct, nodes, entries, keys, node_of, discard_cell, Sound, Absent-of_key,
  keyed-node_of, node_of-none,
}
use foo.Cache.Changes.{
  entries-discard_cell, Distinct-discard_cell, Absent-discarded, node_of-discard_cell_ne,
  length-discard_cell, nodes-discard_cell, Sound-discard_cell,
}
use foo.Cache.Lru.{back, without_back, splice_end}
use foo.Cache.Lru.Lists.{splice_end_lem, AllAbsent, AllAbsent-discard, Distinct-nodes}
use foo.Cache.Lfu.{Lfu, emplace_count, erase_count, refcount, step_back, do_access, do_erase}
use foo.Cache.Lfu.Policy.{place_entry}
use foo.Cache.Lfu.Placed.{
  has, counts, place_cell, counts-place_cell, entries-place_cell, length-place_cell,
  node_of-place_cell, Distinct-place_cell, Sound-place_cell, has-place_cell, counts-discard_cell,
  refcount-counts,
}
use foo.Cache.Lfu.Slots.{
  Distinct-remove, has-remove, length-remove, back-some, has-node_of, AllAbsent-place_cell,
}

module _ {V : Type 0} where
  -- The slots in use hold the entries, in the order of `lfuList`. `held` is the count and the value
  -- of a slot.
  pub record Holds (s : Lfu V) (m : Model (ℕ × (ℕ × V))) (held : ℕ → ℕ × V)
      (cells : List (Cell (ℕ × V))) : Type 0 where
    pub order : s.lfu_list ≡ counts cells
    pub same : m.entries ≡ entries cells
    pub held_value : (x : ℕ) → (held x).1 ≡ s.value x
    pub sound : Sound s.keyed_position held cells
    pub apart : Distinct s.open_free
    pub outside : AllAbsent s.open_free (nodes cells)
    pub unlike : Distinct s.open_used
    pub members : (x : ℕ) → has x s.open_used ≡ has x (nodes cells)
    pub unique : Distinct (keys cells)
    pub indexed : (k : ℕ) → s.keyed_elements k ≡ node_of k cells
    pub count : s.used_size ≡ length cells
    pub slots : length s.open_used ≡ length cells
    pub room : m.capacity ≡ length s.open_used + length s.open_free
    pub positive : 0 < m.capacity

  abbrev pub Refines : Lfu V → Model (ℕ × (ℕ × V)) → Type 0
  Refines s m = (held : ℕ → ℕ × V) × (cells : List (Cell (ℕ × V))) × Holds s m held cells

  -- The state after the element `x` with the count `c` is used.
  unfoldable pub accessed : Lfu V → (ℕ → V) → ℕ → ℕ → Lfu V
  accessed s w x c = record s {
    value = w;
    lfu_list = emplace_count (c + 1) x (erase_count x s.lfu_list);
  }

  pub do_access-accessed :
      (s : Lfu V) (m : Model (ℕ × (ℕ × V))) (held : ℕ → ℕ × V) (cells : List (Cell (ℕ × V)))
      (key x : ℕ) (w : ℕ → V)
      → Holds s m held cells
      → node_of key cells ≡ some x
      → do_access x (record s { value = w }) ≡ some (accessed s w x (held x).0)
  unfolding do_access accessed
  do_access-accessed s m held cells key x w h e =
      let p =
        ap (refcount x) h.order ∙ refcount-counts s.keyed_position held key x cells h.sound e in
      let q = keyed-node_of s.keyed_position held key x cells h.sound e in
      rw (p, q, h.indexed key ∙ e) refl

  pub access-Holds :
      (s : Lfu V) (m : Model (ℕ × (ℕ × V))) (held : ℕ → ℕ × V) (cells : List (Cell (ℕ × V)))
      (key x : ℕ) (w : ℕ → V)
      → Holds s m held cells
      → node_of key cells ≡ some x
      → ((y : ℕ) → y ≢ x → w y ≡ s.value y)
      → Holds
          (accessed s w x (held x).0)
          (record m { entries = place_entry key ((held x).0 + 1) (w x) (discard key m.entries) })
          (update held x ((held x).0 + 1, w x))
          (place_cell x key ((held x).0 + 1) (w x) (discard_cell key cells))
  unfolding accessed
  access-Holds s m held cells key x w h e unchanged =
      let c = (held x).0 + 1 in
      let ds = discard_cell key cells in
      let (p, q) = AllAbsent-discard s.open_free key x cells e h.outside in
      let gone = Absent-discarded key cells h.unique in
      let fresh = node_of-none key ds gone in
      let distinct = Distinct-nodes s.keyed_position held cells h.unique h.sound in
      let others = nodes-discard_cell key s.keyed_position held x cells h.sound e in
      record {
        order =
            ap (emplace_count c x) (
              ap (erase_count x) h.order
              ∙ sym (counts-discard_cell s.keyed_position held key x cells h.sound e))
            ∙ sym (counts-place_cell x key c (w x) ds);
        same =
            ap (place_entry key c (w x))
              (ap (discard key) h.same ∙ sym (entries-discard_cell key cells))
            ∙ sym (entries-place_cell x key c (w x) ds);
        held_value = λ y. elim (Bool-cases (x == y)) [
          | inl r ↦ let same : x ≡ y = ground arith in rw r (ap w same)
          | inr n ↦
              let other : y ≢ x = ground arith in rw n (h.held_value y ∙ sym (unchanged y other))
        ];
        sound =
            Sound-place_cell x key c (w x) s.keyed_position (update held x (c, w x)) ds
              (keyed-node_of s.keyed_position held key x cells h.sound e)
              (update_eq held x (c, w x))
              (Sound-discard_cell key s.keyed_position held s.keyed_position
                (update held x (c, w x)) x cells (λ y n. (refl, update_ne held x (c, w x) y n))
                h.unique h.sound e);
        apart = h.apart;
        outside = AllAbsent-place_cell x key c (w x) s.open_free ds p q;
        unlike = h.unlike;
        members = λ y. ground (
          arith,
          h.members y,
          has-place_cell x key c (w x) y ds,
          ap (has y) others,
          has-remove y x (nodes cells) distinct,
          has-node_of key x cells e,
        );
        unique =
            Distinct-place_cell x key c (w x) ds gone (Distinct-discard_cell key cells h.unique);
        indexed = λ k. elim (Bool-cases (k == key)) [
          | inl r ↦ ground (arith, h.indexed key, node_of-place_cell x key c (w x) k ds fresh)
          | inr n ↦ ground (
            arith,
            h.indexed k,
            node_of-discard_cell_ne key k cells,
            node_of-place_cell x key c (w x) k ds fresh,
          )
        ];
        count =
            omega (
              arith,
              h.count,
              length-discard_cell key x cells e,
              length-place_cell x key c (w x) ds,
            );
        slots =
            omega (
              arith,
              h.slots,
              length-discard_cell key x cells e,
              length-place_cell x key c (w x) ds,
            );
        room = h.room;
        positive = h.positive;
      }

  -- The state after the element of `x`, with this key, is erased.
  unfoldable pub erased : Lfu V → ℕ → ℕ → Lfu V
  erased s x key = record s {
    open_used = remove x s.open_used;
    open_free = x ∷ s.open_free;
    keyed_elements = update s.keyed_elements key none;
    lfu_list = erase_count x s.lfu_list;
    used_size = s.used_size - 1;
  }

  pub do_erase-erased :
      (s : Lfu V) (m : Model (ℕ × (ℕ × V))) (held : ℕ → ℕ × V) (cells : List (Cell (ℕ × V)))
      (key x : ℕ)
      → Holds s m held cells
      → node_of key cells ≡ some x
      → do_erase x s ≡ some (erased s x key)
  unfolding do_erase step_back erased
  do_erase-erased s m held cells key x h e =
      let (last, f) = back-some x s.open_used (h.members x ∙ has-node_of key x cells e) in
      let (q, r) = splice_end_lem x last s.open_used f h.unlike in
      let p = keyed-node_of s.keyed_position held key x cells h.sound e in
      rw (f, step_back, q, r, p) refl

  pub erased-Holds :
      (s : Lfu V) (m : Model (ℕ × (ℕ × V))) (held : ℕ → ℕ × V) (cells : List (Cell (ℕ × V)))
      (key x : ℕ)
      → Holds s m held cells
      → node_of key cells ≡ some x
      → Holds
          (erased s x key)
          (record m { entries = discard key m.entries })
          held
          (discard_cell key cells)
  unfolding erased
  erased-Holds s m held cells key x h e =
      let (p, q) = AllAbsent-discard s.open_free key x cells e h.outside in
      let gone = Absent-discarded key cells h.unique in
      let distinct = Distinct-nodes s.keyed_position held cells h.unique h.sound in
      let others = nodes-discard_cell key s.keyed_position held x cells h.sound e in
      let here = h.members x ∙ has-node_of key x cells e in
      let sound =
        Sound-discard_cell key s.keyed_position held s.keyed_position held x cells
          (λ y n. (refl, refl)) h.unique h.sound e in
      record {
        order =
            ap (erase_count x) h.order
            ∙ sym (counts-discard_cell s.keyed_position held key x cells h.sound e);
        same = ap (discard key) h.same ∙ sym (entries-discard_cell key cells);
        held_value = h.held_value;
        sound = sound;
        apart = (p, h.apart);
        outside = (
          Absent-of_key s.keyed_position held x key (discard_cell key cells)
              (keyed-node_of s.keyed_position held key x cells h.sound e) gone sound,
          q,
        );
        unlike = Distinct-remove x s.open_used h.unlike;
        members = λ y. ground (
          arith,
          h.members y,
          has-remove y x s.open_used h.unlike,
          ap (has y) others,
          has-remove y x (nodes cells) distinct,
        );
        unique = Distinct-discard_cell key cells h.unique;
        indexed = λ k. elim (Bool-cases (key == k)) [
          | inl r ↦ ground (arith, node_of-none key (discard_cell key cells) gone)
          | inr n ↦ ground (arith, h.indexed k, node_of-discard_cell_ne key k cells)
        ];
        count = omega (arith, h.count, length-discard_cell key x cells e);
        slots =
            omega
              (arith, h.slots, length-discard_cell key x cells e, length-remove x s.open_used here);
        room = omega (arith, h.room, length-remove x s.open_used here);
        positive = h.positive;
      }

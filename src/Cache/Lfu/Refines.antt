-- ===== src/Cache/Lfu/Refines.antt =====
-- The class `LFU` refines its policy.
use foo.Prelude.{
  ℕ, ◌+◌, ◌<◌, ◌≡◌, refl, sym, ap, ◌∙◌, subst, Bool, true, false, Option, none, some, List, [], ◌∷◌,
  ◌==◌, leb, arith, length, length-append, update, update_ne, update_eq, Option-cases, inl, inr,
}
use foo.Cache.Interface.{Call, run}
use foo.Cache.Simulation.{Related, Related-some, Simulates, run-Related}
use foo.Cache.Entries.{lookup, discard, Model, discard-absent}
use foo.Cache.Cells.{
  Cell, node_of, discard_cell, lookup-entries, lookup-none, iota_from, Distinct-iota_from,
  length-iota_from,
}
use foo.Cache.Changes.{length-entries}
use foo.Cache.Lru.Lists.{AllAbsent-nil}
use foo.Cache.Lfu.{
  Lfu, create, access_unless, do_insert, do_update, do_insert_or_update, erase, do_find, is_empty,
  size, capacity, operations,
}
use foo.Cache.Lfu.Policy.{used, counted, place_entry, lfu}
use foo.Cache.Lfu.Placed.{place_cell}
use foo.Cache.Lfu.Holds.{
  Holds, Refines, accessed, do_access-accessed, access-Holds, do_erase-erased, erased-Holds,
}
use foo.Cache.Lfu.Holds.Insert.{do_prune-Holds, place-placed, placed-Holds}

module _ {V : Type 0} where
  length-Holds :
      (s : Lfu V) (m : Model (ℕ × (ℕ × V))) (held : ℕ → ℕ × V) (cells : List (Cell (ℕ × V)))
      → Holds s m held cells
      → (length m.entries ≡ length cells) × (capacity s ≡ m.capacity)
  unfolding capacity
  length-Holds s m held cells h =
      (ap length h.same ∙ length-entries cells, length-append s.open_used s.open_free ∙ sym h.room)

  pub some-lookup :
      (k x : ℕ) (s : Lfu V) (m : Model (ℕ × (ℕ × V))) (held : ℕ → ℕ × V)
      (cells : List (Cell (ℕ × V)))
      → Holds s m held cells
      → node_of k cells ≡ some x
      → lookup k m.entries ≡ some (held x)
  some-lookup k x s m held cells h e =
      ap (lookup k) h.same ∙ lookup-entries s.keyed_position held k x cells h.sound e

  pub lookup-fresh :
      (k : ℕ) (s : Lfu V) (m : Model (ℕ × (ℕ × V))) (held : ℕ → ℕ × V) (cells : List (Cell (ℕ × V)))
      → Holds s m held cells
      → node_of k cells ≡ none
      → lookup k m.entries ≡ none
  lookup-fresh k s m held cells h e = ap (lookup k) h.same ∙ lookup-none k cells e

  new-Related :
      (k : ℕ) (v : V) (s : Lfu V) (m : Model (ℕ × (ℕ × V))) (held : ℕ → ℕ × V)
      (cells : List (Cell (ℕ × V)))
      → Holds s m held cells
      → node_of k cells ≡ none
      → (rest : List ℕ) → s.open_free ≡ rest
      → Related Refines (do_insert_or_update k v s) (lfu.insert k v m)
  unfolding do_insert_or_update do_insert
  new-Related k v s m held cells h e (x ∷ rest) f =
      let (p, q) = length-Holds s m held cells h in
      let free : leb (capacity s) s.used_size ≡ false =
        ground (arith, h.room, h.slots, h.count, ap length f) in
      let room : leb m.capacity (length m.entries) ≡ false = ground (arith, h.count) in
      Related-some Refines _ _ tt _ _
        (rw (h.indexed k ∙ e, do_insert, free, place-placed s x rest k v f) refl)
        (rw (lookup-fresh k s m held cells h e, room) refl)
        (_, _, placed-Holds s m held cells x rest k v h f e)
  new-Related k v s m held cells h e [] f =
      let (p, q) = length-Holds s m held cells h in
      let full : leb (capacity s) s.used_size ≡ true =
        ground (arith, h.room, h.slots, h.count, ap length f) in
      let none_left : leb m.capacity (length m.entries) ≡ true = ground (arith, h.count) in
      let (t, r, cs, x, g, free, fresh) = do_prune-Holds s m held cells k h f e in
      Related-some Refines _ _ tt _ _
        (rw (h.indexed k ∙ e, do_insert, full, r, place-placed t x [] k v free) refl)
        (rw (lookup-fresh k s m held cells h e, none_left) refl)
        (_, _, placed-Holds t _ held cs x [] k v g free fresh)

  insert-Related :
      (k : ℕ) (v : V) (s : Lfu V) (m : Model (ℕ × (ℕ × V)))
      → Refines s m
      → Related Refines (do_insert_or_update k v s) (lfu.insert k v m)
  unfolding do_insert_or_update do_update
  insert-Related k v s m (held, cells, h) = elim (Option-cases (node_of k cells)) [
    | inl e ↦ new-Related k v s m held cells h e s.open_free refl
    | inr (x, e) ↦
        let w = update s.value x v in
        Related-some Refines _ _ tt _ _
          (rw (h.indexed k ∙ e, do_update, do_access-accessed s m held cells k x w h e) refl)
          (rw (some-lookup k x s m held cells h e) refl)
          (
            _,
            _,
            subst
                (λ u.
                  Holds (accessed s w x (held x).0)
                    (record m { entries = place_entry k ((held x).0 + 1) u (discard k m.entries) })
                    (update held x ((held x).0 + 1, u))
                    (place_cell x k ((held x).0 + 1) u (discard_cell k cells)))
                (update_eq s.value x v)
                (access-Holds s m held cells k x w h e (update_ne s.value x v)),
          )
  ]

  erase-Related :
      (k : ℕ) (s : Lfu V) (m : Model (ℕ × (ℕ × V)))
      → Refines s m
      → Related Refines (erase k s) (lfu.erase k m)
  unfolding erase
  erase-Related k s m (held, cells, h) = elim (Option-cases (node_of k cells)) [
    | inl e ↦
        Related-some Refines _ _ false _ _ (rw (h.indexed k ∙ e, erase) refl)
          (rw
            (
              lookup-fresh k s m held cells h e,
              discard-absent k m.entries (lookup-fresh k s m held cells h e),
            )
            refl)
          (held, cells, h)
    | inr (x, e) ↦
        Related-some Refines _ _ true _ _
          (rw (h.indexed k ∙ e, erase, do_erase-erased s m held cells k x h e) refl)
          (rw (some-lookup k x s m held cells h e) refl)
          (held, _, erased-Holds s m held cells k x h e)
  ]

  find-by :
      (peek : Bool) (k : ℕ) (m : Model (ℕ × (ℕ × V))) (o : Option (ℕ × V))
      → lookup k m.entries ≡ o
      → lfu.find peek k m ≡ some (used peek k m o, counted o)
  find-by peek k m o e = ap (λ o. some (used peek k m o, counted o)) e

  find-found :
      (peek : Bool) (k x : ℕ) (s : Lfu V) (m : Model (ℕ × (ℕ × V))) (held : ℕ → ℕ × V)
      (cells : List (Cell (ℕ × V)))
      → Holds s m held cells
      → node_of k cells ≡ some x
      → Related Refines (do_find peek k s) (lfu.find peek k m)
  unfolding do_find access_unless accessed
  find-found true k x s m held cells h e =
      Related-some Refines s m (some (s.value x)) (do_find true k s) (lfu.find true k m)
        (rw (h.indexed k ∙ e, do_find) refl)
        (find-by true k m (some (held x)) (some-lookup k x s m held cells h e)
          ∙ ap (λ w. some (m, some w)) (h.held_value x))
        (held, cells, h)
  find-found false k x s m held cells h e =
      Related-some Refines (accessed s s.value x (held x).0)
        (record m { entries = place_entry k ((held x).0 + 1) (s.value x) (discard k m.entries) })
        (some (s.value x)) (do_find false k s) (lfu.find false k m)
        (rw (h.indexed k ∙ e, do_find, do_access-accessed s m held cells k x s.value h e) refl)
        (find-by false k m (some (held x)) (some-lookup k x s m held cells h e)
          ∙ ap
              (λ w. some (
                record m { entries = place_entry k ((held x).0 + 1) w (discard k m.entries) },
                some w,
              ))
              (h.held_value x))
        (_, _, access-Holds s m held cells k x s.value h e (λ y n. refl))

  find-Related :
      (peek : Bool) (k : ℕ) (s : Lfu V) (m : Model (ℕ × (ℕ × V)))
      → Refines s m
      → Related Refines (do_find peek k s) (lfu.find peek k m)
  unfolding do_find
  find-Related peek k s m (held, cells, h) = elim (Option-cases (node_of k cells)) [
    | inl e ↦
        Related-some Refines s m none (do_find peek k s) (lfu.find peek k m)
          (rw (h.indexed k ∙ e, do_find) refl)
          (find-by peek k m none (lookup-fresh k s m held cells h e)) (held, cells, h)
    | inr (x, e) ↦ find-found peek k x s m held cells h e
  ]

  lfu-Simulates : Simulates {V = V} operations lfu Refines
  unfolding operations is_empty size
  lfu-Simulates = record {
    insert = insert-Related;
    erase = erase-Related;
    find = find-Related;
    is_empty =
        λ s m (held, cells, h). ap (λ n. n == 0) (h.count ∙ sym (length-Holds s m held cells h).0);
    size = λ s m (held, cells, h). h.count ∙ sym (length-Holds s m held cells h).0;
    capacity = λ s m (held, cells, h). (length-Holds s m held cells h).1;
  }

  create-Refines :
      (null : V) (n : ℕ) → 0 < n → Refines (create null n) (record { entries = []; capacity = n })
  unfolding create
  create-Refines null n h = (
    λ x. (0, null),
    [],
    record {
      order = refl;
      same = refl;
      held_value = λ x. refl;
      sound = tt;
      apart = Distinct-iota_from 0 n;
      outside = AllAbsent-nil (iota_from 0 n);
      unlike = tt;
      members = λ x. refl;
      unique = tt;
      indexed = λ k. unfold node_of in refl;
      count = refl;
      slots = refl;
      room = omega (arith, length-iota_from 0 n);
      positive = h;
    },
  )

  -- An LFU cache of positive capacity, from its construction on, is defined in every run of calls,
  -- answers each as the list of entries sorted by their counts of uses does, where an entry stands
  -- after those that are used as often and the first one leaves a full list for a new key, and
  -- ends in a state that holds that list.
  pub run-lfu :
      (null : V) (n : ℕ) (calls : List (Call V))
      → 0 < n
      → Related Refines
          (run operations calls (create null n))
          (run lfu calls (record { entries = []; capacity = n }))
  run-lfu null n calls h =
      run-Related lfu-Simulates calls (create null n) _ (create-Refines null n h)

-- ===== src/Cache/Fifo/Refines.antt =====
-- The class `FIFO` refines its policy.
use mathlib.Core.List.{append-nil}
use foo.Prelude.{
  ℕ, ◌+◌, ◌<◌, ◌≡◌, refl, sym, ap, ◌∙◌, Bool, true, false, none, some, List, [], ◌∷◌, ◌==◌, leb,
  arith, length, length-append, Option-cases, inl, inr,
}
use foo.Cache.Interface.{Call, run}
use foo.Cache.Simulation.{Related, Related-some, Simulates, run-Related}
use foo.Cache.Entries.{lookup, Model, discard-absent}
use foo.Cache.Cells.{
  Cell, nodes, node_of, lookup-entries, lookup-none, iota_from, Distinct-iota_from,
  length-iota_from, Clear-const,
}
use foo.Cache.Changes.{length-nodes, length-entries}
use foo.Cache.Fifo.{
  Fifo, create, do_insert, do_insert_or_update, erase, do_find, is_empty, size, capacity,
  operations,
}
use foo.Cache.Fifo.Policy.{fifo_insert, fifo}
use foo.Cache.Fifo.Holds.{
  Holds, Refines, placed, update-Holds, insert_free-Holds, insert_full-Holds, erase-Holds,
}

module _ {V : Type 0} where
  -- The elements that are held, by the length of the abstract entries.
  length-Holds :
      (s : Fifo V) (m : Model (ℕ × V)) (cells : List (Cell V)) (free : List ℕ)
      → Holds s m cells free
      → (length m.entries ≡ length cells) × (m.capacity ≡ length free + length cells)
  length-Holds s m cells free h = (
    ap length h.same ∙ length-entries cells,
    omega (arith, h.room, ap length h.order, length-append free (nodes cells), length-nodes cells),
  )

  is_some-lookup :
      (k : ℕ) (x : ℕ) (s : Fifo V) (m : Model (ℕ × V)) (cells : List (Cell V)) (free : List ℕ)
      → Holds s m cells free
      → node_of k cells ≡ some x
      → lookup k m.entries ≡ some (s.value x)
  is_some-lookup k x s m cells free h e =
      ap (lookup k) h.same ∙ lookup-entries s.keyed_position s.value k x cells h.sound e

  lookup-fresh :
      (k : ℕ) (s : Fifo V) (m : Model (ℕ × V)) (cells : List (Cell V)) (free : List ℕ)
      → Holds s m cells free
      → node_of k cells ≡ none
      → lookup k m.entries ≡ none
  lookup-fresh k s m cells free h e = ap (lookup k) h.same ∙ lookup-none k cells e

  do_insert-placed :
      (k : ℕ) (v : V) (s : Fifo V) (x : ℕ) (rest : List ℕ)
      → s.fifo_list ≡ x ∷ rest
      → do_insert k v s ≡ some (placed s x rest k v)
  unfolding do_insert placed
  do_insert-placed k v s x rest e =
      ap (λ l. elim l [ [] ↦ none | y ∷ ys ↦ some (placed s y ys k v) ]) e

  insert-new :
      (k : ℕ) (v : V) (s : Fifo V) (m : Model (ℕ × V)) (cells : List (Cell V)) (free : List ℕ)
      → Holds s m cells free
      → node_of k cells ≡ none
      → Related Refines (do_insert_or_update k v s) (some (fifo_insert k v m, tt))
  unfolding do_insert_or_update
  insert-new k v s m cells (x ∷ free) h e =
      let (p, q) = length-Holds s m cells (x ∷ free) h in
      let room : leb m.capacity (length m.entries) ≡ false = ground arith in
      Related-some Refines _ _ tt _ _
        (rw (h.indexed k ∙ e, do_insert_or_update, do_insert-placed k v s x _ h.order) refl)
        (rw (lookup-fresh k s m cells (x ∷ free) h e, room) refl)
        (_, free, insert_free-Holds s m cells x free k v h e)
  insert-new k v s m [] [] h e = absurd (omega (arith, h.positive, (length-Holds s m [] [] h).1))
  insert-new k v s m ((x, j, w) ∷ cells) [] h e =
      let (p, q) = length-Holds s m ((x, j, w) ∷ cells) [] h in
      let full : leb m.capacity (length m.entries) ≡ true = ground arith in
      Related-some Refines _ _ tt _ _
        (rw (h.indexed k ∙ e, do_insert_or_update, do_insert-placed k v s x _ h.order) refl)
        (rw (lookup-fresh k s m ((x, j, w) ∷ cells) [] h e, full) refl)
        (_, [], insert_full-Holds s m x j w cells k v h e)

  insert-Related :
      (k : ℕ) (v : V) (s : Fifo V) (m : Model (ℕ × V))
      → Refines s m
      → Related Refines (do_insert_or_update k v s) (some (fifo_insert k v m, tt))
  unfolding do_insert_or_update
  insert-Related k v s m (cells, free, h) = elim (Option-cases (node_of k cells)) [
    | inl e ↦ insert-new k v s m cells free h e
    | inr (x, e) ↦
        Related-some Refines _ _ tt _ _ (rw (h.indexed k ∙ e, do_insert_or_update) refl)
          (rw (is_some-lookup k x s m cells free h e) refl)
          (_, free, update-Holds s m cells free k x v h e)
  ]

  erase-Related :
      (k : ℕ) (s : Fifo V) (m : Model (ℕ × V))
      → Refines s m
      → Related Refines (erase k s) (fifo.erase k m)
  unfolding erase
  erase-Related k s m (cells, free, h) = elim (Option-cases (node_of k cells)) [
    | inl e ↦
        Related-some Refines _ _ false _ _ (rw (h.indexed k ∙ e, erase) refl)
          (rw
            (
              lookup-fresh k s m cells free h e,
              discard-absent k m.entries (lookup-fresh k s m cells free h e),
            )
            refl)
          (cells, free, h)
    | inr (x, e) ↦
        Related-some Refines _ _ true _ _ (rw (h.indexed k ∙ e, erase) refl)
          (rw (is_some-lookup k x s m cells free h e) refl)
          (_, _, erase-Holds s m cells free k x h e)
  ]

  find-Related :
      (peek : Bool) (k : ℕ) (s : Fifo V) (m : Model (ℕ × V))
      → Refines s m
      → Related Refines (some (s, do_find k s)) (fifo.find peek k m)
  unfolding do_find
  find-Related peek k s m (cells, free, h) = (
    (cells, free, h),
    elim (Option-cases (node_of k cells)) [
      | inl e ↦ rw (h.indexed k ∙ e, do_find) (sym (lookup-fresh k s m cells free h e))
      | inr (x, e) ↦ rw (h.indexed k ∙ e, do_find) (sym (is_some-lookup k x s m cells free h e))
    ],
  )

  fifo-Simulates : Simulates {V = V} operations fifo Refines
  unfolding operations is_empty size capacity
  fifo-Simulates = record {
    insert = insert-Related;
    erase = erase-Related;
    find = find-Related;
    is_empty =
        λ s m (cells, free, h). ap (λ n. n == 0) (h.count ∙ sym (length-Holds s m cells free h).0);
    size = λ s m (cells, free, h). h.count ∙ sym (length-Holds s m cells free h).0;
    capacity = λ s m (cells, free, h). sym h.room;
  }

  create-Refines :
      (null : V) (n : ℕ) → 0 < n → Refines (create null n) (record { entries = []; capacity = n })
  unfolding create
  create-Refines null n h = (
    [],
    iota_from 0 n,
    record {
      order = sym (append-nil (iota_from 0 n));
      same = refl;
      sound = tt;
      clear = Clear-const (iota_from 0 n);
      apart = Distinct-iota_from 0 n;
      unique = tt;
      indexed = λ k. unfold node_of in refl;
      count = refl;
      room = sym (length-iota_from 0 n);
      positive = h;
    },
  )

  -- A FIFO cache of positive capacity, from its construction on, is defined in every run of calls,
  -- answers each as the list of entries in the order of their insertion does, which drops its
  -- first entry for a new key when it is full, and ends in a state that holds that list.
  pub run-fifo :
      (null : V) (n : ℕ) (calls : List (Call V))
      → 0 < n
      → Related Refines
          (run operations calls (create null n))
          (run fifo calls (record { entries = []; capacity = n }))
  run-fifo null n calls h =
      run-Related fifo-Simulates calls (create null n) _ (create-Refines null n h)

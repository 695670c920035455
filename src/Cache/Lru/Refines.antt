-- ===== src/Cache/Lru/Refines.antt =====
-- The class `LRU` refines its policy.
use foo.Prelude.{
  ℕ, ◌<◌, ◌≡◌, refl, sym, ap, ◌∙◌, subst, Bool, true, false, not, Option, none, some, List, [], ◌∷◌,
  ◌==◌, leb, arith, if◌then◌else◌, length, update, update_ne, update_eq, Option-cases, inl, inr,
}
use foo.Cache.Interface.{Call, run}
use foo.Cache.Simulation.{Related, Related-some, Simulates, run-Related}
use foo.Cache.Entries.{lookup, discard, Model, discard-absent}
use foo.Cache.Cells.{
  Cell, node_of, discard_cell, lookup-entries, lookup-none, iota_from, Distinct-iota_from,
  length-iota_from,
}
use foo.Cache.Changes.{length-entries}
use foo.Cache.Lru.{
  Lru, create, do_access, do_insert, do_update, do_insert_or_update, erase, do_find, is_empty, size,
  capacity, operations,
}
use foo.Cache.Lru.Policy.{lru_insert, lru}
use foo.Cache.Lru.Lists.{AllAbsent-nil}
use foo.Cache.Lru.Holds.{Holds, Refines, access-Holds, do_erase-Holds}
use foo.Cache.Lru.Holds.Insert.{do_prune-Holds, place-Holds}

module _ {V : Type 0} where
  length-Holds :
      (s : Lru V) (m : Model (ℕ × V)) (cells : List (Cell V))
      → Holds s m cells
      → length m.entries ≡ length cells
  length-Holds s m cells h = ap length h.same ∙ length-entries cells

  some-lookup :
      (k : ℕ) (x : ℕ) (s : Lru V) (m : Model (ℕ × V)) (cells : List (Cell V))
      → Holds s m cells
      → node_of k cells ≡ some x
      → lookup k m.entries ≡ some (s.value x)
  some-lookup k x s m cells h e =
      ap (lookup k) h.same ∙ lookup-entries s.keyed_position s.value k x cells h.sound e

  lookup-fresh :
      (k : ℕ) (s : Lru V) (m : Model (ℕ × V)) (cells : List (Cell V))
      → Holds s m cells
      → node_of k cells ≡ none
      → lookup k m.entries ≡ none
  lookup-fresh k s m cells h e = ap (lookup k) h.same ∙ lookup-none k cells e

  new-Related :
      (k : ℕ) (v : V) (s : Lru V) (m : Model (ℕ × V)) (cells : List (Cell V))
      → Holds s m cells
      → node_of k cells ≡ none
      → (rest : List ℕ) → s.lru_open ≡ rest
      → Related Refines (do_insert_or_update k v s) (some (lru_insert k v m, tt))
  unfolding do_insert_or_update do_insert
  new-Related k v s m cells h e (x ∷ rest) f =
      let free : leb s.element_count s.used_size ≡ false =
        ground (arith, h.room, h.count, ap length f) in
      let room : leb m.capacity (length m.entries) ≡ false =
        ground (arith, h.room, h.capacity, length-Holds s m cells h, ap length f) in
      let (s', p, h') = place-Holds s m cells x rest k v h f e in
      Related-some Refines _ _ tt _ _
        (rw (h.indexed k ∙ e, do_insert_or_update, do_insert, free, p) refl)
        (rw (lookup-fresh k s m cells h e, room) refl) (_, h')
  new-Related k v s m cells h e [] f =
      let full : leb s.element_count s.used_size ≡ true =
        ground (arith, h.room, h.count, ap length f) in
      let none_left : leb m.capacity (length m.entries) ≡ true =
        ground (arith, h.room, h.capacity, length-Holds s m cells h, ap length f) in
      let (t, p, cs, x, g, q, fresh) = do_prune-Holds s m cells k h f e in
      let (s', r, h') = place-Holds t _ cs x [] k v g q fresh in
      Related-some Refines _ _ tt _ _
        (rw (h.indexed k ∙ e, do_insert_or_update, do_insert, full, p, r) refl)
        (rw (lookup-fresh k s m cells h e, none_left) refl) (_, h')

  insert-Related :
      (k : ℕ) (v : V) (s : Lru V) (m : Model (ℕ × V))
      → Refines s m
      → Related Refines (do_insert_or_update k v s) (some (lru_insert k v m, tt))
  unfolding do_insert_or_update do_update
  insert-Related k v s m (cells, h) = elim (Option-cases (node_of k cells)) [
    | inl e ↦ new-Related k v s m cells h e s.lru_open refl
    | inr (x, e) ↦
        Related-some Refines _ _ tt _ _ (rw (h.indexed k ∙ e, do_insert_or_update) refl)
          (rw (some-lookup k x s m cells h e) refl)
          (
            _,
            subst
                (λ w.
                  Holds (do_update x v s) (record m { entries = (k, w) ∷ discard k m.entries })
                    ((x, k, w) ∷ discard_cell k cells))
                (update_eq s.value x v)
                (access-Holds s m cells k x (update s.value x v) h e (update_ne s.value x v)),
          )
  ]

  erase-Related :
      (k : ℕ) (s : Lru V) (m : Model (ℕ × V))
      → Refines s m
      → Related Refines (erase k s) (lru.erase k m)
  unfolding erase
  erase-Related k s m (cells, h) = elim (Option-cases (node_of k cells)) [
    | inl e ↦
        Related-some Refines _ _ false _ _ (rw (h.indexed k ∙ e, erase) refl)
          (rw
            (
              lookup-fresh k s m cells h e,
              discard-absent k m.entries (lookup-fresh k s m cells h e),
            )
            refl)
          (cells, h)
    | inr (x, e) ↦
        let (s', p, h') = do_erase-Holds s m cells k x h e in
        Related-some Refines _ _ true _ _ (rw (h.indexed k ∙ e, erase, p) refl)
          (rw (some-lookup k x s m cells h e) refl) (_, h')
  ]

  find-by :
      (peek : Bool) (k : ℕ) (m : Model (ℕ × V)) (o : Option V)
      → lookup k m.entries ≡ o
      → lru.find peek k m
        ≡ some (
          elim o [
            | none ↦ m
            | some v ↦ if not peek then record m { entries = (k, v) ∷ discard k m.entries } else m
          ],
          o,
        )
  find-by peek k m o e =
      ap
        (λ o. some (
          elim o [
            | none ↦ m
            | some v ↦ if not peek then record m { entries = (k, v) ∷ discard k m.entries } else m
          ],
          o,
        ))
        e

  find-Related :
      (peek : Bool) (k : ℕ) (s : Lru V) (m : Model (ℕ × V))
      → Refines s m
      → Related Refines (some (do_find peek k s)) (lru.find peek k m)
  unfolding do_find
  find-Related peek k s m (cells, h) = elim (Option-cases (node_of k cells)) [
    | inl e ↦
        Related-some Refines s m none (some (do_find peek k s)) (lru.find peek k m)
          (rw (h.indexed k ∙ e, do_find) refl)
          (find-by peek k m none (lookup-fresh k s m cells h e)) (cells, h)
    | inr (x, e) ↦ found peek x e
  ]
    where
      found :
          (peek : Bool) (x : ℕ)
          → node_of k cells ≡ some x
          → Related Refines (some (do_find peek k s)) (lru.find peek k m)
      found true x e =
          Related-some Refines s m (some (s.value x)) (some (do_find true k s)) (lru.find true k m)
            (rw (h.indexed k ∙ e, do_find) refl)
            (find-by true k m (some (s.value x)) (some-lookup k x s m cells h e)) (cells, h)
      found false x e =
          Related-some Refines (do_access x s)
            (record m { entries = (k, s.value x) ∷ discard k m.entries }) (some (s.value x))
            (some (do_find false k s)) (lru.find false k m) (rw (h.indexed k ∙ e, do_find) refl)
            (find-by false k m (some (s.value x)) (some-lookup k x s m cells h e))
            (_, access-Holds s m cells k x s.value h e (λ y n. refl))

  lru-Simulates : Simulates {V = V} operations lru Refines
  unfolding operations is_empty size capacity
  lru-Simulates = record {
    insert = insert-Related;
    erase = erase-Related;
    find = find-Related;
    is_empty = λ s m (cells, h). ap (λ n. n == 0) (h.count ∙ sym (length-Holds s m cells h));
    size = λ s m (cells, h). h.count ∙ sym (length-Holds s m cells h);
    capacity = λ s m (cells, h). sym h.capacity;
  }

  create-Refines :
      (null : V) (n : ℕ) → 0 < n → Refines (create null n) (record { entries = []; capacity = n })
  unfolding create
  create-Refines null n h = (
    [],
    record {
      order = refl;
      same = refl;
      sound = tt;
      apart = Distinct-iota_from 0 n;
      outside = AllAbsent-nil (iota_from 0 n);
      unique = tt;
      indexed = λ k. unfold node_of in refl;
      count = refl;
      room = omega (arith, length-iota_from 0 n);
      capacity = refl;
      positive = h;
    },
  )

  -- An LRU cache of positive capacity, from its construction on, is defined in every run of calls,
  -- answers each as the list of entries in the order of their last use does, which drops its last
  -- entry for a new key when it is full, and ends in a state that holds that list.
  pub run-lru :
      (null : V) (n : ℕ) (calls : List (Call V))
      → 0 < n
      → Related Refines
          (run operations calls (create null n))
          (run lru calls (record { entries = []; capacity = n }))
  run-lru null n calls h =
      run-Related lru-Simulates calls (create null n) _ (create-Refines null n h)

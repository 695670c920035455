-- ===== src/Cache/Lfu/Counts.antt =====
-- `findWithRefcount` of `LFU` after a run of calls.
use foo.Prelude.{
  ℕ, ◌+◌, ◌<◌, ◌≡◌, refl, sym, ap, ◌∙◌, Bool, true, false, Option, none, some, update_eq, List, [],
  Option-cases, inl, inr,
}
use foo.Cache.Interface.{Call, run, ◌>>=◌}
use foo.Cache.Simulation.{Related, Related-some, Related-bind}
use foo.Cache.Entries.{lookup, discard, Model}
use foo.Cache.Cells.{Cell, node_of}
use foo.Cache.Lfu.{Lfu, create, access_unless, refcount, do_find_with_refcount, operations}
use foo.Cache.Lfu.Policy.{found_with_refcount, find_with_refcount, place_entry, lfu}
use foo.Cache.Lfu.Placed.{refcount-counts}
use foo.Cache.Lfu.Holds.{Holds, Refines, accessed, do_access-accessed, access-Holds}
use foo.Cache.Lfu.Refines.{some-lookup, lookup-fresh, run-lfu}

module _ {V : Type 0} where
  refcount-held :
      (k x : ℕ) (s : Lfu V) (m : Model (ℕ × (ℕ × V))) (held : ℕ → ℕ × V)
      (cells : List (Cell (ℕ × V)))
      → Holds s m held cells
      → s.keyed_elements k ≡ some x
      → refcount x s.lfu_list ≡ some (held x).0
  refcount-held k x s m held cells h e =
      ap (refcount x) h.order
      ∙ refcount-counts s.keyed_position held k x cells h.sound (sym (h.indexed k) ∙ e)

  refcounted-by :
      (peek : Bool) (k : ℕ) (m : Model (ℕ × (ℕ × V))) (o : Option (ℕ × V))
      → lookup k m.entries ≡ o
      → find_with_refcount peek k m ≡ found_with_refcount peek k m o
  refcounted-by peek k m o e = ap (found_with_refcount peek k m) e

  found-Related :
      (peek : Bool) (k x : ℕ) (s : Lfu V) (m : Model (ℕ × (ℕ × V))) (held : ℕ → ℕ × V)
      (cells : List (Cell (ℕ × V)))
      → Holds s m held cells
      → node_of k cells ≡ some x
      → Related Refines (do_find_with_refcount peek k s) (find_with_refcount peek k m)
  unfolding do_find_with_refcount access_unless accessed
  found-Related true k x s m held cells h e =
      Related-some Refines s m (some (s.value x, (held x).0)) (do_find_with_refcount true k s) _
        (rw
          (
            h.indexed k ∙ e,
            do_find_with_refcount,
            refcount-held k x s m held cells h (h.indexed k ∙ e),
          )
          refl)
        (refcounted-by true k m (some (held x)) (some-lookup k x s m held cells h e)
          ∙ ap (λ w. some (m, some (w, (held x).0))) (h.held_value x))
        (held, cells, h)
  found-Related false k x s m held cells h e =
      let t = access-Holds s m held cells k x s.value h e (λ y n. refl) in
      let c = (held x).0 + 1 in
      Related-some Refines (accessed s s.value x (held x).0)
        (record m { entries = place_entry k c (s.value x) (discard k m.entries) })
        (some (s.value x, c)) (do_find_with_refcount false k s) (find_with_refcount false k m)
        (rw
          (
            h.indexed k ∙ e,
            do_find_with_refcount,
            do_access-accessed s m held cells k x s.value h e,
            refcount-held k x _ _ _ _ t (h.indexed k ∙ e),
          )
          (ap (λ o. some (accessed s s.value x (held x).0, some (s.value x, o.0)))
            (update_eq held x (c, s.value x))))
        (refcounted-by false k m (some (held x)) (some-lookup k x s m held cells h e)
          ∙ ap
              (λ w.
                some (record m { entries = place_entry k c w (discard k m.entries) }, some (w, c)))
              (h.held_value x))
        (_, _, t)

  find_with_refcount-Related :
      (peek : Bool) (k : ℕ) (s : Lfu V) (m : Model (ℕ × (ℕ × V)))
      → Refines s m
      → Related Refines (do_find_with_refcount peek k s) (find_with_refcount peek k m)
  unfolding do_find_with_refcount
  find_with_refcount-Related peek k s m (held, cells, h) = elim (Option-cases (node_of k cells)) [
    | inl e ↦
        Related-some Refines s m none (do_find_with_refcount peek k s) _
          (rw (h.indexed k ∙ e, do_find_with_refcount) refl)
          (refcounted-by peek k m none (lookup-fresh k s m held cells h e)) (held, cells, h)
    | inr (x, e) ↦ found-Related peek k x s m held cells h e
  ]

  -- After every run of calls of an LFU cache of positive capacity findWithRefcount is defined, and
  -- gives the value of the key with its count of uses, in which this search is counted unless it
  -- is a peek.
  pub find_with_refcount-refcounted :
      (null : V) (n : ℕ) (calls : List (Call V)) (peek : Bool) (k : ℕ)
      → 0 < n
      → Related Refines
          (run operations calls (create null n) >>= λ r. do_find_with_refcount peek k r.0)
          (run lfu calls (record { entries = []; capacity = n }) >>= λ r.
            find_with_refcount peek k r.0)
  find_with_refcount-refcounted null n calls peek k h =
      Related-bind Refines (run operations calls (create null n))
        (run lfu calls (record { entries = []; capacity = n })) _ _ (run-lfu null n calls h)
        (λ s m answers r. find_with_refcount-Related peek k s m r)

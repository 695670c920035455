-- ===== src/Cache/Lfu/Policy.antt =====
-- Least frequently used, over the entries with their counts in the order in which they leave: an
-- entry stands after those that are used as often.
use foo.Prelude.{
  ℕ, ◌+◌, Bool, true, false, Option, none, some, List, [], ◌∷◌, ◌==◌, leb, ltb, if◌then◌else◌,
  length,
}
use foo.Cache.Interface.{Operations}
use foo.Cache.Entries.{lookup, discard, tail, Model}

module _ {V : Type 0} where
  abbrev pub counted : Option (ℕ × V) → Option V
  counted none = none
  counted (some (c, v)) = some v

  abbrev pub is_counted : Option (ℕ × V) → Bool
  is_counted none = false
  is_counted (some e) = true

  unfoldable pub place_entry : ℕ → ℕ → V → List (ℕ × (ℕ × V)) → List (ℕ × (ℕ × V))
  place_entry k c v [] = (k, (c, v)) ∷ []
  place_entry k c v ((j, (d, w)) ∷ es) =
      if ltb c d then (k, (c, v)) ∷ (j, (d, w)) ∷ es else (j, (d, w)) ∷ place_entry k c v es

  -- What is there is used once more; what is new is used once, and the first entry leaves a full
  -- cache.
  abbrev pub inserted : ℕ → V → Model (ℕ × (ℕ × V)) → Option (ℕ × V) → List (ℕ × (ℕ × V))
  inserted k v m (some (c, w)) = place_entry k (c + 1) v (discard k m.entries)
  inserted k v m none =
      place_entry k 1 v (if leb m.capacity (length m.entries) then tail m.entries else m.entries)

  -- A search that is no peek is a use.
  abbrev pub used : Bool → ℕ → Model (ℕ × (ℕ × V)) → Option (ℕ × V) → Model (ℕ × (ℕ × V))
  used peek k m none = m
  used true k m (some (c, v)) = m
  used false k m (some (c, v)) = record m {
    entries = place_entry k (c + 1) v (discard k m.entries);
  }

  -- The value with the count that it has after the search.
  abbrev pub refcounted : Bool → Option (ℕ × V) → Option (V × ℕ)
  refcounted peek none = none
  refcounted true (some (c, v)) = some (v, c)
  refcounted false (some (c, v)) = some (v, c + 1)

  -- The search with this entry of `k`, and with the one that is there.
  abbrev pub found_with_refcount :
      Bool
      → ℕ
      → Model (ℕ × (ℕ × V))
      → Option (ℕ × V)
      → Option (Model (ℕ × (ℕ × V)) × Option (V × ℕ))
  found_with_refcount peek k m e = some (used peek k m e, refcounted peek e)

  abbrev pub find_with_refcount :
      Bool → ℕ → Model (ℕ × (ℕ × V)) → Option (Model (ℕ × (ℕ × V)) × Option (V × ℕ))
  find_with_refcount peek k m = found_with_refcount peek k m (lookup k m.entries)

  abbrev pub lfu : Operations (Model (ℕ × (ℕ × V))) V
  lfu = record {
    insert = λ k v m. some (record m { entries = inserted k v m (lookup k m.entries) }, tt);
    erase =
        λ k m. some (record m { entries = discard k m.entries }, is_counted (lookup k m.entries));
    find = λ peek k m. some (used peek k m (lookup k m.entries), counted (lookup k m.entries));
    is_empty = λ m. length m.entries == 0;
    size = λ m. length m.entries;
    capacity = λ m. m.capacity;
  }

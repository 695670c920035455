-- ===== src/Cache/Lru/Policy.antt =====
-- Least recently used, over the entries in the order of their last use: the latest comes first.
use foo.Prelude.{ℕ, Bool, not, none, some, ◌∷◌, ◌==◌, leb, if◌then◌else◌, length}
use foo.Cache.Interface.{Operations}
use foo.Cache.Entries.{lookup, discard, init, is_some, Model}

module _ {V : Type 0} where
  -- The entry comes first; if it is new and the cache is full, the last entry leaves.
  abbrev pub lru_insert : ℕ → V → Model (ℕ × V) → Model (ℕ × V)
  lru_insert k v m = record m {
    entries =
        (k, v)
        ∷ (if is_some (lookup k m.entries)
            then discard k m.entries
            else if leb m.capacity (length m.entries)
            then init m.entries
            else m.entries);
  }

  -- A search that is no peek is a use.
  abbrev pub lru_find : Bool → ℕ → Model (ℕ × V) → Model (ℕ × V)
  lru_find peek k m = elim (lookup k m.entries) [
    | none ↦ m
    | some v ↦ if not peek then record m { entries = (k, v) ∷ discard k m.entries } else m
  ]

  abbrev pub lru : Operations (Model (ℕ × V)) V
  lru = record {
    insert = λ k v m. some (lru_insert k v m, tt);
    erase = λ k m. some (record m { entries = discard k m.entries }, is_some (lookup k m.entries));
    find = λ peek k m. some (lru_find peek k m, lookup k m.entries);
    is_empty = λ m. length m.entries == 0;
    size = λ m. length m.entries;
    capacity = λ m. m.capacity;
  }

-- ===== src/Cache/Fifo/Policy.antt =====
-- First in, first out, over the entries in the order of their insertion: the oldest comes first.
use foo.Prelude.{ℕ, some, [], ◌∷◌, ◌++◌, ◌==◌, leb, if◌then◌else◌, length}
use foo.Cache.Interface.{Operations}
use foo.Cache.Entries.{lookup, assign, discard, tail, is_some, Model}

module _ {V : Type 0} where
  -- A new entry comes last; if the cache is full, the oldest entry leaves.
  abbrev pub fifo_insert : ℕ → V → Model (ℕ × V) → Model (ℕ × V)
  fifo_insert k v m =
      if is_some (lookup k m.entries)
      then record m { entries = assign k v m.entries }
      else record m {
        entries =
            (if leb m.capacity (length m.entries) then tail m.entries else m.entries)
            ++ (k, v) ∷ [];
      }

  abbrev pub fifo : Operations (Model (ℕ × V)) V
  fifo = record {
    insert = λ k v m. some (fifo_insert k v m, tt);
    erase = λ k m. some (record m { entries = discard k m.entries }, is_some (lookup k m.entries));
    find = λ peek k m. some (m, lookup k m.entries);
    is_empty = λ m. length m.entries == 0;
    size = λ m. length m.entries;
    capacity = λ m. m.capacity;
  }

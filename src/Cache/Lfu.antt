-- ===== src/Cache/Lfu.antt =====
-- The class `LFU` of data_structure/include/cache.hpp. The slots of `openSlotList` are numbers,
-- kept as those before `openSlotListEnd` and those from it on; an iterator into the list is a
-- slot. `lfuList` is kept as the sorted list of its counts and slots; each slot is there at most
-- once, so an iterator into it, as `lfuPosition`, is the slot. An iterator into the hash map is its
-- key, `none` before it is assigned. `usedSize` is the number of the slots before
-- `openSlotListEnd`.
mod Policy
mod Placed
mod Slots
mod Holds
mod Refines
mod Counts
mod Tests
use foo.Prelude.{
  ℕ, zero, suc, ◌+◌, ◌-◌, Bool, true, false, not, Option, none, some, List, [], ◌∷◌, ◌++◌, ◌==◌,
  leb, ltb, if◌then◌else◌, length, update,
}
use foo.Cache.Interface
use foo.Cache.Interface.{Operations, ◌>>=◌}
use foo.Cache.Cells.{remove, iota_from}
use foo.Cache.Fifo.{emplace}
use foo.Cache.Lru.{back, without_back, splice_end}

pub record Lfu (V : Type 0) : Type 0 where
  pub open_used : List ℕ
  pub open_free : List ℕ
  -- the fields of `Element`
  pub keyed_position : ℕ → Option ℕ
  pub value : ℕ → V
  pub lfu_list : List (ℕ × ℕ)
  pub keyed_elements : ℕ → Option ℕ
  pub used_size : ℕ

-- `emplace` of the multimap, after the nodes of the same count.
unfoldable pub emplace_count : ℕ → ℕ → List (ℕ × ℕ) → List (ℕ × ℕ)
emplace_count c x [] = (c, x) ∷ []
emplace_count c x ((d, y) ∷ r) =
    if ltb c d then (c, x) ∷ (d, y) ∷ r else (d, y) ∷ emplace_count c x r

-- `erase` of the node at an element's `lfuPosition`.
unfoldable pub erase_count : ℕ → List (ℕ × ℕ) → List (ℕ × ℕ)
erase_count x [] = []
erase_count x ((d, y) ∷ r) = if x == y then r else (d, y) ∷ erase_count x r

-- `lfuPosition->first`
unfoldable pub refcount : ℕ → List (ℕ × ℕ) → Option ℕ
refcount x [] = none
refcount x ((d, y) ∷ r) = if x == y then some d else refcount x r

module _ {V : Type 0} where
  -- `null` is the value of a new element.
  pub create : V → ℕ → Lfu V
  unfolding iota_from
  create null capacity = record {
    open_used = [];
    open_free = iota_from 0 capacity;
    keyed_position = λ x. none;
    value = λ x. null;
    lfu_list = [];
    keyed_elements = λ k. none;
    used_size = 0;
  }

  pub do_access : ℕ → Lfu V → Option (Lfu V)
  unfolding emplace_count erase_count refcount
  do_access x s = do
    c ← refcount x s.lfu_list
    key ← s.keyed_position x
    slot ← s.keyed_elements key
    some (record s { lfu_list = emplace_count (c + 1) slot (erase_count x s.lfu_list) })

  -- `--openSlotListEnd`
  pub step_back : List ℕ → Lfu V → Option (Lfu V)
  unfolding back without_back
  step_back xs s = elim (back xs) [
    | none ↦ none
    | some x ↦ some (record s { open_used = without_back xs; open_free = x ∷ s.open_free })
  ]

  pub do_erase : ℕ → Lfu V → Option (Lfu V)
  unfolding step_back splice_end back erase_count
  do_erase x s = do
    last ← back s.open_used
    s ← step_back (splice_end x last s.open_used) s
    key ← s.keyed_position x
    some (record s {
      keyed_elements = update s.keyed_elements key none;
      lfu_list = erase_count x s.lfu_list;
      used_size = s.used_size - 1;
    })

  pub do_prune : Lfu V → Option (Lfu V)
  unfolding do_erase
  do_prune s = elim (ltb 0 s.used_size) [
    | true ↦ elim s.lfu_list [ [] ↦ none | (c, x) ∷ r ↦ do_erase x s ]
    | false ↦ some s
  ]

  pub capacity : Lfu V → ℕ
  capacity s = length (s.open_used ++ s.open_free)

  -- The slot at `openSlotListEnd`, and the step past it.
  pub place : ℕ → V → Lfu V → Option (Lfu V)
  unfolding emplace_count
  place key v s = elim s.open_free [
    | [] ↦ none
    | x ∷ rest ↦ some (record s {
      open_used = s.open_used ++ x ∷ [];
      open_free = rest;
      keyed_position = update s.keyed_position x (some key);
      value = update s.value x v;
      lfu_list = emplace_count 1 x s.lfu_list;
      keyed_elements = emplace s.keyed_elements key x;
      used_size = s.used_size + 1;
    })
  ]

  pub do_insert : ℕ → V → Lfu V → Option (Lfu V)
  unfolding do_prune place capacity
  do_insert key v s = do
    s ← elim (leb (capacity s) s.used_size) [ true ↦ do_prune s | false ↦ some s ]
    place key v s

  pub do_update : ℕ → V → Lfu V → Option (Lfu V)
  unfolding do_access
  do_update x v s = do_access x (record s { value = update s.value x v })

  pub do_insert_or_update : ℕ → V → Lfu V → Option (Lfu V × Unit {0})
  unfolding do_insert do_update
  do_insert_or_update key v s = do
    s ← elim (s.keyed_elements key) [ none ↦ do_insert key v s | some x ↦ do_update x v s ]
    some (s, tt)

  pub erase : ℕ → Lfu V → Option (Lfu V × Bool)
  unfolding do_erase
  erase key s = elim (s.keyed_elements key) [
    | none ↦ some (s, false)
    | some x ↦ (do s ← do_erase x s; some (s, true))
  ]

  -- The element is accessed unless this is a peek.
  pub access_unless : Bool → ℕ → Lfu V → Option (Lfu V)
  unfolding do_access
  access_unless true x s = some s
  access_unless false x s = do_access x s

  pub do_find : Bool → ℕ → Lfu V → Option (Lfu V × Option V)
  unfolding access_unless
  do_find peek key s = elim (s.keyed_elements key) [
    | none ↦ some (s, none)
    | some x ↦ (do s ← access_unless peek x s; some (s, some (s.value x)))
  ]

  pub do_find_with_refcount : Bool → ℕ → Lfu V → Option (Lfu V × Option (V × ℕ))
  unfolding access_unless refcount
  do_find_with_refcount peek key s = elim (s.keyed_elements key) [
    | none ↦ some (s, none)
    | some x ↦ (do
      s ← access_unless peek x s
      c ← refcount x s.lfu_list
      some (s, some (s.value x, c)))
  ]

  pub is_empty : Lfu V → Bool
  is_empty s = s.used_size == 0

  pub size : Lfu V → ℕ
  size s = s.used_size

  -- The class as a cache.
  unfoldable pub operations : Operations (Lfu V) V
  unfolding do_insert_or_update erase do_find is_empty size capacity
  operations = record {
    insert = do_insert_or_update;
    erase = erase;
    find = do_find;
    is_empty = is_empty;
    size = size;
    capacity = capacity;
  }

  pub insert_range : List (ℕ × V) → Lfu V → Option (Lfu V × ℕ)
  unfolding operations Interface.insert_range
  insert_range = Interface.insert_range operations

  pub erase_range : List ℕ → Lfu V → Option (Lfu V × ℕ)
  unfolding operations Interface.erase_range
  erase_range = Interface.erase_range operations

  pub find_range : Bool → List ℕ → Lfu V → Option (Lfu V × List (ℕ × Option V))
  unfolding operations Interface.find_range
  find_range = Interface.find_range operations

  pub resolve_range : Bool → List (ℕ × Option V) → Lfu V → Option (Lfu V × List (ℕ × Option V))
  unfolding operations Interface.resolve_range
  resolve_range = Interface.resolve_range operations

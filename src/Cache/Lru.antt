-- ===== src/Cache/Lru.antt =====
-- The class `LRU` of data_structure/include/cache.hpp. The list `lruList` is kept as the nodes
-- before `lruListEnd` and those from it on. Its nodes store the indices of the elements, each
-- once, so a node is its index, and `lruPosition` of an element is the element's index. An
-- iterator into the hash map is its key, `none` before it is assigned. `usedSize` is the number of
-- the nodes before `lruListEnd`.
mod Policy
pub mod Lists
mod Holds
mod Refines
mod Tests
use foo.Prelude.{
  ℕ, zero, suc, ◌+◌, ◌-◌, Bool, true, false, not, Option, none, some, List, [], ◌∷◌, ◌++◌, ◌==◌,
  leb, ltb, if◌then◌else◌, update,
}
use foo.Cache.Interface
use foo.Cache.Interface.{Operations, ◌>>=◌}
use foo.Cache.Cells.{remove, iota_from}
use foo.Cache.Fifo.{emplace}

pub record Lru (V : Type 0) : Type 0 where
  pub lru_used : List ℕ
  pub lru_open : List ℕ
  pub element_count : ℕ
  -- the fields of `Element`
  pub keyed_position : ℕ → Option ℕ
  pub value : ℕ → V
  pub keyed_elements : ℕ → Option ℕ
  pub used_size : ℕ

-- The last node of a list.
unfoldable pub back : List ℕ → Option ℕ
back [] = none
back (x ∷ []) = some x
back (x ∷ y ∷ xs) = back (y ∷ xs)

-- The list without its last node.
unfoldable pub without_back : List ℕ → List ℕ
without_back [] = []
without_back (x ∷ []) = []
without_back (x ∷ y ∷ xs) = x ∷ without_back (y ∷ xs)

-- `splice` of `pos` in front of `lruListEnd`, unless it is there.
unfoldable pub splice_end : ℕ → ℕ → List ℕ → List ℕ
unfolding remove
splice_end pos last xs = if not (pos == last) then remove pos xs ++ pos ∷ [] else xs

module _ {V : Type 0} where
  -- `null` is the value of a new element.
  pub create : V → ℕ → Lru V
  unfolding iota_from
  create null capacity = record {
    lru_used = [];
    lru_open = iota_from 0 capacity;
    element_count = capacity;
    keyed_position = λ x. none;
    value = λ x. null;
    keyed_elements = λ k. none;
    used_size = 0;
  }

  pub do_access : ℕ → Lru V → Lru V
  unfolding remove
  do_access x s = record s { lru_used = x ∷ remove x s.lru_used }

  -- `--lruListEnd`
  pub step_back : List ℕ → Lru V → Option (Lru V)
  unfolding back without_back
  step_back xs s = elim (back xs) [
    | none ↦ none
    | some x ↦ some (record s { lru_used = without_back xs; lru_open = x ∷ s.lru_open })
  ]

  pub do_erase : ℕ → Lru V → Option (Lru V)
  unfolding step_back splice_end back
  do_erase x s = do
    last ← back s.lru_used
    s ← step_back (splice_end x last s.lru_used) s
    key ← s.keyed_position x
    some (record s {
      keyed_elements = update s.keyed_elements key none;
      used_size = s.used_size - 1;
    })

  pub do_prune : Lru V → Option (Lru V)
  unfolding do_erase back
  do_prune s = elim (ltb 0 s.used_size) [
    | true ↦ (do x ← back (s.lru_used ++ s.lru_open); do_erase x s)
    | false ↦ some s
  ]

  -- The element of the node at `lruListEnd`, and the step past it.
  pub place : ℕ → V → Lru V → Option (Lru V)
  unfolding do_access
  place key v s = elim s.lru_open [
    | [] ↦ none
    | x ∷ rest ↦ some (
        do_access x (record s {
          lru_used = s.lru_used ++ x ∷ [];
          lru_open = rest;
          keyed_position = update s.keyed_position x (some key);
          value = update s.value x v;
          keyed_elements = emplace s.keyed_elements key x;
          used_size = s.used_size + 1;
        }))
  ]

  pub do_insert : ℕ → V → Lru V → Option (Lru V)
  unfolding do_prune place
  do_insert key v s = do
    s ← elim (leb s.element_count s.used_size) [ true ↦ do_prune s | false ↦ some s ]
    place key v s

  pub do_update : ℕ → V → Lru V → Lru V
  unfolding do_access
  do_update x v s = do_access x (record s { value = update s.value x v })

  pub do_insert_or_update : ℕ → V → Lru V → Option (Lru V × Unit {0})
  unfolding do_insert do_update
  do_insert_or_update key v s = elim (s.keyed_elements key) [
    | none ↦ (do s ← do_insert key v s; some (s, tt))
    | some x ↦ some (do_update x v s, tt)
  ]

  pub erase : ℕ → Lru V → Option (Lru V × Bool)
  unfolding do_erase
  erase key s = elim (s.keyed_elements key) [
    | none ↦ some (s, false)
    | some x ↦ (do s ← do_erase x s; some (s, true))
  ]

  pub do_find : Bool → ℕ → Lru V → Lru V × Option V
  unfolding do_access
  do_find peek key s = elim (s.keyed_elements key) [
    | none ↦ (s, none)
    | some x ↦ (if not peek then do_access x s else s, some (s.value x))
  ]

  pub is_empty : Lru V → Bool
  is_empty s = s.used_size == 0

  pub size : Lru V → ℕ
  size s = s.used_size

  pub capacity : Lru V → ℕ
  capacity s = s.element_count

  -- The class as a cache.
  unfoldable pub operations : Operations (Lru V) V
  unfolding do_insert_or_update erase do_find is_empty size capacity
  operations = record {
    insert = do_insert_or_update;
    erase = erase;
    find = λ peek key s. some (do_find peek key s);
    is_empty = is_empty;
    size = size;
    capacity = capacity;
  }

  pub insert_range : List (ℕ × V) → Lru V → Option (Lru V × ℕ)
  unfolding operations Interface.insert_range
  insert_range = Interface.insert_range operations

  pub erase_range : List ℕ → Lru V → Option (Lru V × ℕ)
  unfolding operations Interface.erase_range
  erase_range = Interface.erase_range operations

  pub find_range : Bool → List ℕ → Lru V → Option (Lru V × List (ℕ × Option V))
  unfolding operations Interface.find_range
  find_range = Interface.find_range operations

  pub resolve_range : Bool → List (ℕ × Option V) → Lru V → Option (Lru V × List (ℕ × Option V))
  unfolding operations Interface.resolve_range
  resolve_range = Interface.resolve_range operations

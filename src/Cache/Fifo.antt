-- ===== src/Cache/Fifo.antt =====
-- The class `FIFO` of data_structure/include/cache.hpp. The nodes of `fifoList` are numbers, which
-- name the elements too; an iterator is a node, and an iterator into the hash map is its key. The
-- hash map is a function from keys. `usedSize` counts elements with a key: it is positive when one
-- is erased and at most the capacity.
mod Policy
mod Holds
mod Refines
mod Tests
use foo.Prelude.{
  ℕ, zero, suc, ◌+◌, ◌-◌, Bool, true, false, Option, none, some, List, [], ◌∷◌, ◌++◌, ◌==◌,
  if◌then◌else◌, length, update,
}
use foo.Cache.Interface
use foo.Cache.Interface.{Operations}
use foo.Cache.Cells.{remove, iota_from}

pub record Fifo (V : Type 0) : Type 0 where
  pub fifo_list : List ℕ
  -- the fields of `Element`
  pub keyed_position : ℕ → Option ℕ
  pub value : ℕ → V
  pub keyed_elements : ℕ → Option ℕ
  pub used_size : ℕ

-- `emplace` of the hash map: a key that is there stays.
abbrev pub emplace : (ℕ → Option ℕ) → ℕ → ℕ → ℕ → Option ℕ
emplace m key pos = elim (m key) [ none ↦ update m key (some pos) | some _ ↦ m ]

-- The node moves to the front, unless it is there.
pub splice_front : ℕ → List ℕ → List ℕ
unfolding remove
splice_front pos [] = []
splice_front pos (y ∷ ys) = if pos == y then y ∷ ys else pos ∷ remove pos (y ∷ ys)

module _ {V : Type 0} where
  -- `null` is the value of a new element.
  pub create : V → ℕ → Fifo V
  unfolding iota_from
  create null capacity = record {
    fifo_list = iota_from 0 capacity;
    keyed_position = λ x. none;
    value = λ x. null;
    keyed_elements = λ k. none;
    used_size = 0;
  }

  -- The two branches on the element of the first node, which is spliced to the end.
  pub evict : Option ℕ → Fifo V → Fifo V
  evict (some key) s = record s { keyed_elements = update s.keyed_elements key none }
  evict none s = record s { used_size = s.used_size + 1 }

  pub do_insert : ℕ → V → Fifo V → Option (Fifo V)
  unfolding evict
  do_insert key v s = elim s.fifo_list [
    | [] ↦ none
    | x ∷ rest ↦
        let s' = evict (s.keyed_position x) s in
        some (record s' {
          fifo_list = rest ++ x ∷ [];
          value = update s.value x v;
          keyed_position = update s.keyed_position x (some key);
          keyed_elements = emplace s'.keyed_elements key x;
        })
  ]

  pub do_update : ℕ → V → Fifo V → Fifo V
  do_update pos v s = record s { value = update s.value pos v }

  -- The element loses its key, if it has one.
  pub release : Option ℕ → ℕ → Fifo V → Fifo V
  release none pos s = s
  release (some key) pos s = record s {
    keyed_elements = update s.keyed_elements key none;
    keyed_position = update s.keyed_position pos none;
  }

  pub do_erase : ℕ → Fifo V → Fifo V
  unfolding splice_front release
  do_erase pos s =
      let s' = release (s.keyed_position pos) pos s in
      record s' { fifo_list = splice_front pos s.fifo_list; used_size = s.used_size - 1 }

  pub do_insert_or_update : ℕ → V → Fifo V → Option (Fifo V × Unit {0})
  unfolding do_insert do_update
  do_insert_or_update key v s = elim (s.keyed_elements key) [
    | none ↦ elim (do_insert key v s) [ none ↦ none | some s' ↦ some (s', tt) ]
    | some pos ↦ some (do_update pos v s, tt)
  ]

  pub erase : ℕ → Fifo V → Option (Fifo V × Bool)
  unfolding do_erase
  erase key s = elim (s.keyed_elements key) [
    | none ↦ some (s, false)
    | some pos ↦ some (do_erase pos s, true)
  ]

  pub do_find : ℕ → Fifo V → Option V
  do_find key s = elim (s.keyed_elements key) [ none ↦ none | some pos ↦ some (s.value pos) ]

  pub is_empty : Fifo V → Bool
  is_empty s = s.used_size == 0

  pub size : Fifo V → ℕ
  size s = s.used_size

  pub capacity : Fifo V → ℕ
  capacity s = length s.fifo_list

  -- The class as a cache. It has no `peek`: a search changes nothing.
  unfoldable pub operations : Operations (Fifo V) V
  unfolding do_insert_or_update erase do_find is_empty size capacity
  operations = record {
    insert = do_insert_or_update;
    erase = erase;
    find = λ peek key s. some (s, do_find key s);
    is_empty = is_empty;
    size = size;
    capacity = capacity;
  }

  pub insert_range : List (ℕ × V) → Fifo V → Option (Fifo V × ℕ)
  unfolding operations Interface.insert_range
  insert_range = Interface.insert_range operations

  pub erase_range : List ℕ → Fifo V → Option (Fifo V × ℕ)
  unfolding operations Interface.erase_range
  erase_range = Interface.erase_range operations

  pub find_range : List ℕ → Fifo V → Option (Fifo V × List (ℕ × Option V))
  unfolding operations Interface.find_range
  find_range = Interface.find_range operations false

  pub resolve_range : List (ℕ × Option V) → Fifo V → Option (Fifo V × List (ℕ × Option V))
  unfolding operations Interface.resolve_range
  resolve_range = Interface.resolve_range operations false

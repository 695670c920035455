-- ===== src/Heap/Binary.antt =====
-- The binary heap: namespace `binary` of data_structure/source/heap.cpp. Keys are pointers of a
-- type `K`; the array is a function from indices to slots, of which the first `size` hold keys.
-- `none` as the result of `filterDown` and of `remove` stands for an `int` that overflows, which
-- the index of a left child does from 2 ^ 30 on.
mod Up
mod Down
mod Operations
mod Tests
use foo.Prelude.{
  ℕ, zero, suc, ◌+◌, ◌-◌, ◌*◌, ◌/◌, Bool, true, false, not, Option, none, some, List, [], ◌∷◌, ltb,
  leb, ◌==◌, ◌&&◌, if◌then◌else◌, update,
}
use foo.Cache.Interface.{◌>>=◌}
use foo.Heap.Compare.{Sign, is_pos, is_neg, is_same}

pub record BinaryHeap (K : Type 0) : Type 0 where
  pub slots : ℕ → K
  pub capacity : ℕ
  pub size : ℕ
  pub compare : K → K → Sign

-- `2 * index + 1`, an `int`.
pub left_child : ℕ → Option ℕ
left_child index = if leb (2 * index + 1) 2147483647 then some (2 * index + 1) else none

module _ {K : Type 0} where
  -- The search of `getIndex` from index `i`, with `left` rounds to go; `none` stands for -1.
  get_index_loop : (K → K → Sign) → (ℕ → K) → K → ℕ → ℕ → Option ℕ
  get_index_loop cmp d key i zero = none
  get_index_loop cmp d key i (suc left) =
      if is_same (cmp (d i) key) then some i else get_index_loop cmp d key (i + 1) left

  pub get_index : Option (BinaryHeap K) → Option K → Option ℕ
  get_index none key = none
  get_index (some h) none = none
  get_index (some h) (some key) = get_index_loop h.compare h.slots key 0 h.size

  -- The loop of `filterUp`; `parent` is `(child - 1) / 2` in every round.
  filter_up_loop : (K → K → Sign) → ℕ → (ℕ → K) → ℕ → ℕ → K → ℕ → K
  filter_up_loop cmp zero d child parent temp = update d child temp
  filter_up_loop cmp (suc fuel) d child parent temp =
      let rest =
        filter_up_loop cmp fuel (update d child (d parent)) parent ((parent - 1) / 2) temp in
      if ltb 0 child
      then (if not (is_neg (cmp temp (d parent))) then update d child temp else rest)
      else update d child temp

  pub filter_up : (K → K → Sign) → (ℕ → K) → ℕ → ℕ → K
  unfolding filter_up_loop
  filter_up cmp d start = filter_up_loop cmp (start + 1) d start ((start - 1) / 2) (d start)

  -- The child of `filterDown` that the hole moves to: the smaller one, the left one on a tie.
  pub select_child : (K → K → Sign) → (ℕ → K) → ℕ → ℕ → ℕ
  select_child cmp d end selected =
      if ltb selected end && is_pos (cmp (d selected) (d (selected + 1)))
      then selected + 1
      else selected

  filter_down_loop : (K → K → Sign) → ℕ → (ℕ → K) → ℕ → ℕ → ℕ → K → Option (ℕ → K)
  filter_down_loop cmp zero d end child selected temp = none
  filter_down_loop cmp (suc fuel) d end child selected temp =
      let s = select_child cmp d end selected in
      let rest =
        left_child s
        >>= (λ next. filter_down_loop cmp fuel (update d child (d s)) end s next temp) in
      if leb selected end
      then (if not (is_pos (cmp temp (d s))) then some (update d child temp) else rest)
      else some (update d child temp)

  -- `end` is `size - 1`, which is -1 for an empty heap in the code and 0 here: no index
  -- `selected`, which is at least 1, is at most either.
  pub filter_down : (K → K → Sign) → (ℕ → K) → ℕ → ℕ → Option (ℕ → K)
  unfolding filter_down_loop select_child
  filter_down cmp d size start = do
    selected ← left_child start
    filter_down_loop cmp (size + 1) d (size - 1) start selected (d start)

  -- `cap` is positive or the result is null; `null` fills the slots, and the two Booleans say
  -- whether the heap and its array could be allocated.
  pub create : K → Bool → Bool → ℕ → Option (K → K → Sign) → Option (BinaryHeap K)
  create null fresh fresh_array cap none = none
  create null fresh fresh_array cap (some cmp) =
      if leb cap 0
      then none
      else if fresh && fresh_array
      then some (record { slots = λ _. null; capacity = cap; size = 0; compare = cmp })
      else none

  pub insert : Option (BinaryHeap K) → Option K → Option (BinaryHeap K) × Bool
  insert none key = (none, false)
  insert (some h) none = (some h, false)
  insert (some h) (some key) = if leb h.capacity h.size then (some h, false) else (
    some (record h {
      slots = filter_up h.compare (update h.slots h.size key) h.size;
      size = h.size + 1;
    }),
    true,
  )

  -- The heap after a key is removed at `index`.
  pub remove_at : BinaryHeap K → ℕ → Option (BinaryHeap K)
  unfolding filter_down
  remove_at h index = do
    d ← filter_down h.compare (update h.slots index (h.slots (h.size - 1))) (h.size - 1) index
    some (record h { slots = d; size = h.size - 1 })

  pub remove : Option (BinaryHeap K) → Option K → Option (Option (BinaryHeap K) × Bool)
  unfolding get_index remove_at
  remove none key = some (none, false)
  remove (some h) none = some (some h, false)
  remove (some h) (some key) =
      if h.size == 0 then some (some h, false) else elim (get_index (some h) (some key)) [
        | none ↦ some (some h, false)
        | some index ↦ (do h ← remove_at h index; some (some h, true))
      ]

  order_loop : (ℕ → K) → ℕ → ℕ → List K
  order_loop d i zero = []
  order_loop d i (suc left) = d i ∷ order_loop d (i + 1) left

  -- `Traverse::order`: the keys in the order in which the operation is called with them.
  pub order : Option (BinaryHeap K) → Bool → List K
  order none op = []
  order (some h) false = []
  order (some h) true = order_loop h.slots 0 h.size

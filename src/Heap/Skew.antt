-- ===== src/Heap/Skew.antt =====
-- The skew heap: namespace `skew` of data_structure/source/heap.cpp. A pointer is an
-- `Option`, `none` for the null pointer; a tree of nodes is the value `Node`, `nil` for null. The
-- result of `::new (std::nothrow)` enters as a Boolean, false when it returns null.
mod Order
mod Operations
mod Traverse
mod Tests
use foo.Prelude.{
  ℕ, zero, suc, ◌+◌, Bool, true, false, Option, none, some, List, [], ◌∷◌, ◌++◌, if◌then◌else◌,
}
use foo.Heap.Compare.{Sign, is_pos}

pub data Node (K : Type 0) : Type 0 where
  nil : Node K
  node : Node K → K → Node K → Node K

pub record SkewHeap (K : Type 0) : Type 0 where
  pub root : Node K
  pub compare : K → K → Sign

abbrev pub size : {K : Type 0} → Node K → ℕ
size nil = 0
size (node l k r) = suc (size l + size r)

-- `!node`
abbrev pub is_null : {K : Type 0} → Node K → Bool
is_null nil = true
is_null (node l k r) = false

pub create_node : {K : Type 0} → Bool → Option K → Node K
create_node fresh none = nil
create_node false (some k) = nil
create_node true (some k) = node nil k nil

module _ {K : Type 0} (cmp : K → K → Sign) where
  -- The recursion runs down the right spines: the two sizes together are enough fuel.
  merge_node : ℕ → Node K → Node K → Node K
  merge_node fuel nil s = s
  merge_node fuel (node dl dk dr) nil = node dl dk dr
  merge_node zero (node dl dk dr) (node sl sk sr) = nil
  merge_node (suc fuel) (node dl dk dr) (node sl sk sr) =
      let swapped = node (merge_node fuel sr (node dl dk dr)) sk sl in
      let kept = node (merge_node fuel dr (node sl sk sr)) dk dl in
      if is_pos (cmp dk sk) then swapped else kept

  unfoldable pub merge_nodes : Node K → Node K → Node K
  unfolding merge_node
  merge_nodes d s = merge_node (size d + size s) d s

pub get_minimum : {K : Type 0} → Option (SkewHeap K) → Option K
get_minimum none = none
get_minimum (some h) = elim h.root [ nil ↦ none | node l k r ↦ some k ]

pub create : {K : Type 0} → Bool → Option (K → K → Sign) → Option (SkewHeap K)
create fresh none = none
create false (some cmp) = none
create true (some cmp) = some (record { root = nil; compare = cmp })

-- The heap after `insert`; `fresh` says whether the new node could be allocated.
pub insert : {K : Type 0} → Bool → Option (SkewHeap K) → Option K → Option (SkewHeap K)
unfolding create_node
insert fresh none key = none
insert fresh (some h) key =
    let new = create_node fresh key in
    if is_null new
    then some h
    else (let merged = merge_nodes h.compare h.root new in
        if is_null merged then some h else some (record h { root = merged }))

pub remove : {K : Type 0} → Option (SkewHeap K) → Option (SkewHeap K)
remove none = none
remove (some h) = elim h.root [
  | nil ↦ some h
  | node l k r ↦ some (record h { root = merge_nodes h.compare l r })
]

-- Both heaps after `merge`; they are different objects.
pub merge :
    {K : Type 0}
    → Option (SkewHeap K)
    → Option (SkewHeap K)
    → Option (SkewHeap K) × Option (SkewHeap K)
merge none src = (none, src)
merge (some dst) none = (some dst, none)
merge (some dst) (some src) = (
  some (record dst { root = merge_nodes dst.compare dst.root src.root }),
  some (record src { root = nil }),
)

-- The nodes in the order in which `removeNode` deletes them, by their keys.
pub remove_node : {K : Type 0} → Node K → List K
remove_node nil = []
remove_node (node l k r) = remove_node l ++ (remove_node r ++ k ∷ [])

pub destroy : {K : Type 0} → Option (SkewHeap K) → List K
unfolding remove_node
destroy none = []
destroy (some h) = remove_node h.root

-- ===== src/Tree/Bs.antt =====
-- The binary search tree: namespace `bs` of data_structure/source/tree.cpp. A tree of nodes is the
-- value `Node`, `nil` for the null pointer, and a walk down from the root is a recursion. The
-- value has no parent pointers, so that `remove`, `getPredecessor` and `getSuccessor`, which read
-- them, are left out; `insertNode` writes the one of the new node, and nothing here reads it. The
-- compare function is the parameter that the heaps have; equal keys are allowed.
mod Sorted
mod Contents
mod Operations
mod Tests
use foo.Prelude.{Bool, true, false, Option, none, some, List, [], ◌∷◌, ◌++◌, if◌then◌else◌}
use foo.Heap.Compare.{Sign, is_neg, is_same}

pub data Node (K : Type 0) : Type 0 where
  nil : Node K
  node : Node K → K → Node K → Node K

pub record BsTree (K : Type 0) : Type 0 where
  pub root : Node K
  pub compare : K → K → Sign

module _ {K : Type 0} where
  -- The key of the node that `getMinimum` returns.
  unfoldable pub get_minimum : Node K → Option K
  get_minimum nil = none
  get_minimum (node nil k r) = some k
  get_minimum (node (node a j b) k r) = get_minimum (node a j b)

  unfoldable pub get_maximum : Node K → Option K
  get_maximum nil = none
  get_maximum (node l k nil) = some k
  get_maximum (node l k (node a j b)) = get_maximum (node a j b)

  -- `fresh` says whether the node could be allocated.
  pub create_node : Bool → K → Node K
  create_node fresh k = if fresh then node nil k nil else nil

module _ {K : Type 0} (cmp : K → K → Sign) where
  -- The loop of `insertNode` walks down, and the new node takes the place of the null pointer.
  pub insert_node : Node K → K → Node K
  insert_node nil key = node nil key nil
  insert_node (node l k r) key =
      let left = insert_node l key in
      let right = insert_node r key in if is_neg (cmp key k) then node left k r else node l k right

  -- The node that is found, or null.
  pub search_node : Node K → K → Node K
  search_node nil key = nil
  search_node (node l k r) key =
      let left = search_node l key in
      let right = search_node r key in
      if is_same (cmp k key) then node l k r else if is_neg (cmp key k) then left else right

module _ {K : Type 0} where
  pub minimum : Option (BsTree K) → Option K
  minimum none = none
  minimum (some t) = get_minimum t.root

  pub maximum : Option (BsTree K) → Option K
  maximum none = none
  maximum (some t) = get_maximum t.root

  pub create : Bool → Option (K → K → Sign) → Option (BsTree K)
  create fresh none = none
  create false (some cmp) = none
  create true (some cmp) = some (record { root = nil; compare = cmp })

  pub search : Option (BsTree K) → Option K → Node K
  unfolding search_node
  search none key = nil
  search (some t) none = nil
  search (some t) (some key) = search_node t.compare t.root key

  -- Both `insert` and `compare` are asked for a key that is not null.
  pub insert : Bool → Option (BsTree K) → K → Option (BsTree K)
  unfolding insert_node create_node
  insert fresh none key = none
  insert fresh (some t) key = elim (create_node fresh key) [
    | nil ↦ some t
    | node a j b ↦ some (record t { root = insert_node t.compare t.root j })
  ]

  -- The nodes in the order in which `destroy` deletes them, by their keys.
  pub destroy_node : Node K → List K
  destroy_node nil = []
  destroy_node (node l k r) = destroy_node l ++ (destroy_node r ++ k ∷ [])

  pub destroy : Option (BsTree K) → List K
  unfolding destroy_node
  destroy none = []
  destroy (some t) = destroy_node t.root

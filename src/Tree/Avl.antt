-- ===== src/Tree/Avl.antt =====
-- The AVL tree: namespace `avl` of data_structure/source/tree.cpp. A tree of nodes is the value
-- `Node`, `nil` for the null pointer; of a node that is removed the code reads the
-- key only. Heights are natural numbers, so `getHeight(l) - getHeight(r) > 1` is a comparison of
-- sums. The compare function is the parameter that the heaps have.
mod Rotations
mod Insertion
mod Removal
pub mod Sorted
mod Contents
mod Operations
mod Traverse
mod Tests
use foo.Prelude.{
  ℕ, zero, suc, ◌+◌, max, Bool, true, false, Option, none, some, List, [], ◌∷◌, ◌++◌, ltb, ◌&&◌,
  ◌||◌, not, if◌then◌else◌,
}
use foo.Heap.Compare.{Sign, is_pos, is_neg, is_same}

pub data Node (K : Type 0) : Type 0 where
  nil : Node K
  node : Node K → K → ℕ → Node K → Node K

pub record AvlTree (K : Type 0) : Type 0 where
  pub root : Node K
  pub compare : K → K → Sign

module _ {K : Type 0} where
  abbrev pub get_height : Node K → ℕ
  get_height nil = 0
  get_height (node l k h r) = h

  abbrev pub is_null : Node K → Bool
  is_null nil = true
  is_null (node l k h r) = false

  -- A node with its height computed from its children.
  pub join : Node K → K → Node K → Node K
  join l k r = node l k (max (get_height l) (get_height r) + 1) r

  unfoldable pub left_left_rotation : Node K → Node K
  unfolding join
  left_left_rotation nil = nil
  left_left_rotation (node nil k h r) = nil
  left_left_rotation (node (node a j i b) k h r) = join a j (join b k r)

  unfoldable pub right_right_rotation : Node K → Node K
  unfolding join
  right_right_rotation nil = nil
  right_right_rotation (node l k h nil) = nil
  right_right_rotation (node l k h (node a j i b)) = join (join l k a) j b

  pub left_right_rotation : Node K → Node K
  unfolding left_left_rotation right_right_rotation
  left_right_rotation nil = nil
  left_right_rotation (node l k h r) = left_left_rotation (node (right_right_rotation l) k h r)

  pub right_left_rotation : Node K → Node K
  unfolding left_left_rotation right_right_rotation
  right_left_rotation nil = nil
  right_left_rotation (node l k h r) = right_right_rotation (node l k h (left_left_rotation r))

  pub create_node : Bool → K → Node K
  create_node fresh k = if fresh then node nil k 0 nil else nil

  -- `root->height = ...` at the end of `insert`.
  pub refresh : Node K → Node K
  unfolding join
  refresh nil = nil
  refresh (node l k h r) = join l k r

  -- The key of a node; the code reads it of nodes that are not null.
  abbrev pub key_or : Node K → K → K
  key_or nil d = d
  key_or (node l k h r) d = k

  -- `getHeight(l->right) > getHeight(l->left)`
  abbrev pub leans_right : Node K → Bool
  leans_right nil = false
  leans_right (node a j i b) = ltb (get_height a) (get_height b)

  abbrev pub leans_left : Node K → Bool
  leans_left nil = false
  leans_left (node a j i b) = ltb (get_height b) (get_height a)

  -- The key of the last or first node, where there is one.
  abbrev pub key_or_max : Node K → K → K
  key_or_max nil d = d
  key_or_max (node l k h r) d = key_or_max r k

  abbrev pub key_or_min : Node K → K → K
  key_or_min nil d = d
  key_or_min (node l k h r) d = key_or_min l k

module _ {K : Type 0} (cmp : K → K → Sign) where
  -- After the insertion of `key` into the left child.
  pub insert_left : K → Node K → K → ℕ → Node K → Node K
  insert_left key l k h r =
      if not (is_null l) && ltb (get_height r + 1) (get_height l)
      then (if is_neg (cmp key (key_or l k))
          then left_left_rotation (node l k h r)
          else left_right_rotation (node l k h r))
      else node l k h r

  pub insert_right : K → Node K → K → ℕ → Node K → Node K
  insert_right key l k h r =
      if not (is_null r) && ltb (get_height l + 1) (get_height r)
      then (if is_pos (cmp key (key_or r k))
          then right_right_rotation (node l k h r)
          else right_left_rotation (node l k h r))
      else node l k h r

  -- `fresh` says whether the new node could be allocated.
  pub insert_node : Bool → Node K → K → Node K
  unfolding create_node join
  insert_node fresh nil key = refresh (create_node fresh key)
  insert_node fresh (node l k h r) key =
      let left = insert_left key (insert_node fresh l key) k h r in
      let right = insert_right key l k h (insert_node fresh r key) in
      refresh
        (if is_neg (cmp key k) then left else if is_pos (cmp key k) then right else node l k h r)

  -- The end of `removeNode`, at the root `k` with children `l` and `r`.
  pub rebalance : Node K → K → Node K → Node K
  unfolding join left_right_rotation right_left_rotation
  rebalance l k r =
      if ltb (get_height r + 1) (get_height l)
      then (if leans_right l
          then left_right_rotation (join l k r)
          else left_left_rotation (join l k r))
      else if ltb (get_height l + 1) (get_height r)
      then (if leans_left r
          then right_left_rotation (join l k r)
          else right_right_rotation (join l k r))
      else join l k r

  -- What takes the place of a node that has one child at most, brought to balance.
  pub only_child : Node K → Node K → Node K
  unfolding rebalance
  only_child nil nil = nil
  only_child nil (node a j i b) = rebalance a j b
  only_child (node a j i b) r = rebalance a j b

  -- The removal of the node whose key compares as equal to `key`.
  pub remove_node : Node K → K → Node K
  unfolding rebalance only_child
  remove_node nil key = nil
  remove_node (node l k h r) key =
      let in_left = rebalance (remove_node l key) k r in
      let in_right = rebalance l k (remove_node r key) in
      let with_max = rebalance (remove_node l (key_or_max l k)) (key_or_max l k) r in
      let with_min = rebalance l (key_or_min r k) (remove_node r (key_or_min r k)) in
      if is_neg (cmp key k)
      then in_left
      else if is_pos (cmp key k)
      then in_right
      else if not (is_null l) && not (is_null r)
      then (if ltb (get_height r) (get_height l) then with_max else with_min)
      else only_child l r

  pub search_node : Node K → K → Node K
  search_node nil key = nil
  search_node (node l k h r) key =
      if is_same (cmp k key)
      then node l k h r
      else if is_neg (cmp key k)
      then search_node l key
      else search_node r key

  -- The node is found.
  abbrev pub found : Node K → K → Bool
  found t key = not (is_null (search_node t key))

module _ {K : Type 0} where
  -- The node that is found, or null.
  pub search : Option (AvlTree K) → Option K → Node K
  unfolding search_node
  search none key = nil
  search (some t) none = nil
  search (some t) (some key) = search_node t.compare t.root key

  pub insert : Bool → Option (AvlTree K) → Option K → Option (AvlTree K)
  unfolding insert_node
  insert fresh none key = none
  insert fresh (some t) none = some t
  insert fresh (some t) (some key) =
      some (record t { root = insert_node t.compare fresh t.root key })

  pub remove : Option (AvlTree K) → Option K → Option (AvlTree K)
  unfolding search_node remove_node
  remove none key = none
  remove (some t) none = some t
  remove (some t) (some key) =
      if found t.compare t.root key
      then some (record t { root = remove_node t.compare t.root key })
      else some t

  pub create : Bool → Option (K → K → Sign) → Option (AvlTree K)
  create fresh none = none
  create false (some cmp) = none
  create true (some cmp) = some (record { root = nil; compare = cmp })

  pub tree_height : Option (AvlTree K) → ℕ
  tree_height none = 0
  tree_height (some t) = get_height t.root

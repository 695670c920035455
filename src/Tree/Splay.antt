-- ===== src/Tree/Splay.antt =====
-- The splay tree: namespace `splay` of data_structure/source/tree.cpp. A tree of nodes is the value
-- `Node`, `nil` for the null pointer. The two trees that `splay` builds below its local node `n`
-- are lists of the nodes that have been hung there, the last one first, each without the child
-- that the next one becomes. Keys are not null.
mod Keys
mod Root
mod Operations
mod Tests
use foo.Prelude.{
  ℕ, zero, suc, ◌+◌, Bool, true, false, not, ◌&&◌, Option, none, some, List, [], ◌∷◌, ◌++◌,
  if◌then◌else◌,
}
use foo.Heap.Compare.{Sign, is_neg, is_pos, is_same}

pub data Node (K : Type 0) : Type 0 where
  nil : Node K
  node : Node K → K → Node K → Node K

pub record SplayTree (K : Type 0) : Type 0 where
  pub root : Node K
  pub compare : K → K → Sign

abbrev pub size : {K : Type 0} → Node K → ℕ
size nil = 0
size (node l k r) = suc (size l + size r)

-- `!node`
abbrev pub is_null : {K : Type 0} → Node K → Bool
is_null nil = true
is_null (node l k r) = false

module _ {K : Type 0} where
  pub create_node : Bool → K → Node K
  create_node fresh k = if fresh then node nil k nil else nil

  -- `l->right = x`, seen from `n.right`.
  unfoldable pub fill_left : List (Node K × K) → Node K → Node K
  fill_left [] x = x
  fill_left ((a, k) ∷ ls) x = fill_left ls (node a k x)

  -- `r->left = x`, seen from `n.left`.
  unfoldable pub fill_right : List (K × Node K) → Node K → Node K
  fill_right [] x = x
  fill_right ((k, b) ∷ rs) x = fill_right rs (node x k b)

  -- The end of `splay`, at the root `k` with children `a` and `b`.
  pub assemble : List (Node K × K) → Node K → K → Node K → List (K × Node K) → Node K
  unfolding fill_left fill_right
  assemble ls a k b rs = node (fill_left ls a) k (fill_right rs b)

  unfoldable pub get_minimum : Node K → Option K
  get_minimum nil = none
  get_minimum (node nil k r) = some k
  get_minimum (node (node a j b) k r) = get_minimum (node a j b)

  unfoldable pub get_maximum : Node K → Option K
  get_maximum nil = none
  get_maximum (node l k nil) = some k
  get_maximum (node l k (node a j b)) = get_maximum (node a j b)

  -- The nodes in the order in which `destroy` deletes them, by their keys.
  pub destroy_node : Node K → List K
  destroy_node nil = []
  destroy_node (node l k r) = destroy_node l ++ (destroy_node r ++ k ∷ [])

module _ {K : Type 0} (cmp : K → K → Sign) where
  -- The walk of `insertNode` down to the null pointer; a node with an equal key is given up.
  pub insert_node : Node K → K → Node K
  insert_node nil key = node nil key nil
  insert_node (node l k r) key =
      let left = insert_node l key in
      let right = insert_node r key in
      if is_neg (cmp key k)
      then node left k r
      else if is_pos (cmp key k)
      then node l k right
      else node l k r

  pub search_node : Node K → K → Node K
  search_node nil key = nil
  search_node (node l k r) key =
      let left = search_node l key in
      let right = search_node r key in
      if is_same (cmp k key) then node l k r else if is_neg (cmp key k) then left else right

  -- The node is found.
  abbrev pub found : Node K → K → Bool
  found t key = not (is_null (search_node t key))

  -- The rotation at the root before the step to the left: the children and the key of the root.
  pub rotate_right : K → Node K → K → Node K → Node K × K × Node K
  rotate_right key nil k r = (nil, k, r)
  rotate_right key (node a j b) k r =
      if is_neg (cmp key j) then (a, j, node b k r) else (node a j b, k, r)

  pub rotate_left : K → Node K → K → Node K → Node K × K × Node K
  rotate_left key l k nil = (l, k, nil)
  rotate_left key l k (node a j b) =
      if is_pos (cmp key j) then (node l k a, j, b) else (l, k, node a j b)

  -- The loop of `splay`: the root loses a node in every round.
  pub splay_loop : ℕ → K → List (Node K × K) → List (K × Node K) → Node K → Node K
  unfolding assemble rotate_right rotate_left
  splay_loop zero key ls rs root = nil
  splay_loop (suc fuel) key ls rs nil = nil
  splay_loop (suc fuel) key ls rs (node l k r) =
      let (a, j, b) = rotate_right key l k r in
      let left = splay_loop fuel key ls ((j, b) ∷ rs) a in
      let (c, m, d) = rotate_left key l k r in
      let right = splay_loop fuel key ((c, m) ∷ ls) rs d in
      if is_same (cmp key k)
      then assemble ls l k r rs
      else if is_neg (cmp key k)
      then (if is_null a then assemble ls a j b rs else left)
      else (if is_null d then assemble ls c m d rs else right)

  unfoldable pub splay_node : Node K → K → Node K
  unfolding splay_loop
  splay_node root key = splay_loop (size root) key [] [] root

  pub insert_splay : Bool → Node K → K → Node K
  unfolding create_node insert_node
  insert_splay fresh root key = elim (create_node fresh key) [
    | nil ↦ root
    | node a j b ↦ splay_node (insert_node root j) key
  ]

  -- The tree when the root has been splayed: `x` has a right child that is overwritten.
  pub without_root : Node K → K → Node K
  without_root nil key = nil
  without_root (node nil k r) key = r
  without_root (node (node a j b) k r) key = elim (splay_node (node a j b) key) [
    | nil ↦ r
    | node xl xk xr ↦ node xl xk r
  ]

  pub remove_node : Node K → K → Node K
  unfolding search_node without_root
  remove_node root key =
      if not (is_null root) && found root key then without_root (splay_node root key) key else root

module _ {K : Type 0} where
  pub minimum : Option (SplayTree K) → Option K
  minimum none = none
  minimum (some t) = get_minimum t.root

  pub maximum : Option (SplayTree K) → Option K
  maximum none = none
  maximum (some t) = get_maximum t.root

  pub create : Bool → Option (K → K → Sign) → Option (SplayTree K)
  create fresh none = none
  create false (some cmp) = none
  create true (some cmp) = some (record { root = nil; compare = cmp })

  pub destroy : Option (SplayTree K) → List K
  unfolding destroy_node
  destroy none = []
  destroy (some t) = destroy_node t.root

  -- The node that is found, or null.
  pub search : Option (SplayTree K) → K → Node K
  unfolding search_node
  search none key = nil
  search (some t) key = search_node t.compare t.root key

  pub insert : Bool → Option (SplayTree K) → K → Option (SplayTree K)
  unfolding insert_splay
  insert fresh none key = none
  insert fresh (some t) key = some (record t { root = insert_splay t.compare fresh t.root key })

  pub remove : Option (SplayTree K) → K → Option (SplayTree K)
  unfolding remove_node
  remove none key = none
  remove (some t) key = some (record t { root = remove_node t.compare t.root key })

  pub splay : Option (SplayTree K) → K → Option (SplayTree K)
  splay none key = none
  splay (some t) key = some (record t { root = splay_node t.compare t.root key })

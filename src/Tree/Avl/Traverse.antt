-- ===== src/Tree/Avl/Traverse.antt =====
-- The walks over the whole AVL tree: the class template `Traverse` of
-- data_structure/include/tree.hpp at this tree, and `getMinimum`, `getMaximum` and `destroy` of
-- namespace `avl` of data_structure/source/tree.cpp. The operation that is applied to each key is
-- replaced by the list of the keys in the order of the calls.
pub mod Stacks
use mathlib.Core.List.{append_assoc}
use foo.Prelude.{
  ℕ, ◌≡◌, refl, sym, ap, ◌∙◌, Bool, true, Option, none, some, List, [], ◌∷◌, ◌++◌, arith, count,
  count-append, if◌then◌else◌,
}
use foo.Tree.Avl.{Node, nil, node, AvlTree, key_or_min, key_or_max}
use foo.Tree.Avl.Rotations.{keys}

module _ {K : Type 0} where
  pub pre_order_traversal : Node K → List K
  pre_order_traversal nil = []
  pre_order_traversal (node l k h r) = k ∷ (pre_order_traversal l ++ pre_order_traversal r)

  pub in_order_traversal : Node K → List K
  in_order_traversal nil = []
  in_order_traversal (node l k h r) = in_order_traversal l ++ k ∷ in_order_traversal r

  pub post_order_traversal : Node K → List K
  post_order_traversal nil = []
  post_order_traversal (node l k h r) = post_order_traversal l ++ (post_order_traversal r ++ k ∷ [])

  -- `op` says whether the operation is callable.
  pub pre_order : Option (AvlTree K) → Bool → List K
  unfolding pre_order_traversal
  pre_order none op = []
  pre_order (some t) op = if op then pre_order_traversal t.root else []

  pub in_order : Option (AvlTree K) → Bool → List K
  unfolding in_order_traversal
  in_order none op = []
  in_order (some t) op = if op then in_order_traversal t.root else []

  pub post_order : Option (AvlTree K) → Bool → List K
  unfolding post_order_traversal
  post_order none op = []
  post_order (some t) op = if op then post_order_traversal t.root else []

  -- The nodes in the order in which `destroy` deletes them, by their keys.
  pub destroy_node : Node K → List K
  destroy_node nil = []
  destroy_node (node l k h r) = destroy_node l ++ (destroy_node r ++ k ∷ [])

  pub destroy : Option (AvlTree K) → List K
  unfolding destroy_node
  destroy none = []
  destroy (some t) = destroy_node t.root

  -- The key of the node that `getMinimum` returns.
  minimum_of : Node K → Option K
  minimum_of nil = none
  minimum_of (node l k h r) = some (key_or_min l k)

  maximum_of : Node K → Option K
  maximum_of nil = none
  maximum_of (node l k h r) = some (key_or_max r k)

  pub minimum : Option (AvlTree K) → Option K
  unfolding minimum_of
  minimum none = none
  minimum (some t) = minimum_of t.root

  pub maximum : Option (AvlTree K) → Option K
  unfolding maximum_of
  maximum none = none
  maximum (some t) = maximum_of t.root

  pub count-pre_order :
      (p : K → Bool) (t : Node K) → count p (pre_order_traversal t) ≡ count p (keys t)
  unfolding pre_order_traversal
  count-pre_order p nil = refl
  count-pre_order p (node l k h r) = omega (
    arith,
    count-append p (pre_order_traversal l) (pre_order_traversal r),
    count-append p (keys l) (k ∷ keys r),
    count-pre_order p l,
    count-pre_order p r,
  )

  pub in_order-keys : (t : Node K) → in_order_traversal t ≡ keys t
  unfolding in_order_traversal
  in_order-keys nil = refl
  in_order-keys (node l k h r) = rw (in_order-keys l, in_order-keys r)

  pub destroy_node-post_order : (t : Node K) → destroy_node t ≡ post_order_traversal t
  unfolding destroy_node post_order_traversal
  destroy_node-post_order nil = refl
  destroy_node-post_order (node l k h r) = rw (destroy_node-post_order l, destroy_node-post_order r)

  key_or_min-first :
      (l : Node K) (k : K) (h : ℕ) (r : Node K)
      → (ks : List K) × (keys (node l k h r) ≡ key_or_min l k ∷ ks)
  key_or_min-first nil k h r = (keys r, refl)
  key_or_min-first (node a j i b) k h r =
      let (ks, e) = key_or_min-first a j i b in (ks ++ k ∷ keys r, ap (λ xs. xs ++ k ∷ keys r) e)

  key_or_max-last :
      (l : Node K) (k : K) (h : ℕ) (r : Node K)
      → (ks : List K) × (keys (node l k h r) ≡ ks ++ key_or_max r k ∷ [])
  key_or_max-last l k h nil = (keys l, refl)
  key_or_max-last l k h (node a j i b) =
      let (ks, e) = key_or_max-last a j i b in
      (
        keys l ++ k ∷ ks,
        ap (λ xs. keys l ++ k ∷ xs) e ∙ sym (append_assoc (keys l) (k ∷ ks) (key_or_max b j ∷ [])),
      )

  -- getMinimum of an AVL tree that is not empty returns the first key in order, and getMaximum
  -- the last.
  minimum_first :
      (t : AvlTree K) (l : Node K) (k : K) (h : ℕ) (r : Node K)
      → t.root ≡ node l k h r
      → ((y : K) × (ks : List K) × (minimum (some t) ≡ some y) × (keys t.root ≡ y ∷ ks))
        × ((z : K) × (ks : List K) × (maximum (some t) ≡ some z) × (keys t.root ≡ ks ++ z ∷ []))
  unfolding minimum maximum minimum_of maximum_of
  minimum_first t l k h r e =
      let (ks, f) = key_or_min-first l k h r in
      let (js, g) = key_or_max-last l k h r in
      rw e ((key_or_min l k, ks, refl, f), (key_or_max r k, js, refl, g))

-- ===== src/Heap/Skew/Traverse.antt =====
-- The traversals of a heap: the class template `Traverse` of data_structure/include/heap.hpp, at
-- the skew heap. The operation that is applied to each key is replaced by the list of the
-- keys in the order of the calls.
use foo.Prelude.{
  ◌≡◌, refl, Bool, true, Option, none, some, List, [], ◌∷◌, ◌++◌, arith, count, count-append,
  if◌then◌else◌,
}
use foo.Heap.Skew.{Node, nil, node, SkewHeap}
use foo.Heap.Skew.Order.{occurs}

module _ {K : Type 0} where
  pre_order_traversal : Node K → List K
  pre_order_traversal nil = []
  pre_order_traversal (node l k r) = k ∷ (pre_order_traversal l ++ pre_order_traversal r)

  in_order_traversal : Node K → List K
  in_order_traversal nil = []
  in_order_traversal (node l k r) = in_order_traversal l ++ k ∷ in_order_traversal r

  post_order_traversal : Node K → List K
  post_order_traversal nil = []
  post_order_traversal (node l k r) = post_order_traversal l ++ (post_order_traversal r ++ k ∷ [])

  -- `op` says whether the operation is callable.
  pub pre_order : Option (SkewHeap K) → Bool → List K
  pre_order none op = []
  pre_order (some h) op = if op then pre_order_traversal h.root else []

  pub in_order : Option (SkewHeap K) → Bool → List K
  in_order none op = []
  in_order (some h) op = if op then in_order_traversal h.root else []

  pub post_order : Option (SkewHeap K) → Bool → List K
  post_order none op = []
  post_order (some h) op = if op then post_order_traversal h.root else []

  count-pre_order_traversal :
      (p : K → Bool) (t : Node K) → count p (pre_order_traversal t) ≡ occurs p t
  unfolding pre_order_traversal
  count-pre_order_traversal p nil = refl
  count-pre_order_traversal p (node l k r) = omega (
    arith,
    count-append p (pre_order_traversal l) (pre_order_traversal r),
    count-pre_order_traversal p l,
    count-pre_order_traversal p r,
  )

  count-in_order_traversal :
      (p : K → Bool) (t : Node K) → count p (in_order_traversal t) ≡ occurs p t
  unfolding in_order_traversal
  count-in_order_traversal p nil = refl
  count-in_order_traversal p (node l k r) = omega (
    arith,
    count-append p (in_order_traversal l) (k ∷ in_order_traversal r),
    count-in_order_traversal p l,
    count-in_order_traversal p r,
  )

  count-post_order_traversal :
      (p : K → Bool) (t : Node K) → count p (post_order_traversal t) ≡ occurs p t
  unfolding post_order_traversal
  count-post_order_traversal p nil = refl
  count-post_order_traversal p (node l k r) = omega (
    arith,
    count-append p (post_order_traversal l) (post_order_traversal r ++ k ∷ []),
    count-append p (post_order_traversal r) (k ∷ []),
    count-post_order_traversal p l,
    count-post_order_traversal p r,
  )

  -- Each of the three traversals of a skew heap visits every key of the tree as often as it occurs
  -- there.
  traversals_visit_all :
      (h : SkewHeap K) (p : K → Bool)
      → (count p (pre_order (some h) true) ≡ occurs p h.root)
        × (count p (in_order (some h) true) ≡ occurs p h.root)
        × (count p (post_order (some h) true) ≡ occurs p h.root)
  unfolding pre_order in_order post_order
  traversals_visit_all h p = (
    count-pre_order_traversal p h.root,
    count-in_order_traversal p h.root,
    count-post_order_traversal p h.root,
  )

-- ===== src/Tree/Avl/Traverse/Stacks.antt =====
-- The recursive walks of `Traverse` over the AVL tree and the loops that keep a stack of subtrees.
use mathlib.Core.List.{append_assoc, append-nil}
use foo.Prelude.{
  ℕ, zero, suc, ◌+◌, ◌≡◌, refl, sym, ap, ◌∙◌, subst, Bool, true, some, List, [], ◌∷◌, ◌++◌, arith,
  count,
}
use foo.Tree.Avl.{Node, nil, node, AvlTree}
use foo.Tree.Avl.Rotations.{keys}
use foo.Tree.Avl.Sorted.{IsAscending}
use foo.Tree.Avl.Traverse.{
  pre_order_traversal, post_order_traversal, pre_order, in_order, post_order, destroy,
  count-pre_order, in_order-keys, destroy_node-post_order,
}

module _ {K : Type 0} where
  -- The subtrees of a tree, the null pointers with them.
  abbrev pub subtrees : Node K → ℕ
  subtrees nil = 1
  subtrees (node l k h r) = suc (subtrees l + subtrees r)

  -- A loop that takes a subtree from the stack, visits its root, and puts the right and then the
  -- left child on the stack.
  abbrev pub forward_loop : ℕ → List (Node K) → List K
  forward_loop zero stack = []
  forward_loop (suc fuel) [] = []
  forward_loop (suc fuel) (nil ∷ stack) = forward_loop fuel stack
  forward_loop (suc fuel) (node l k h r ∷ stack) = k ∷ forward_loop fuel (l ∷ r ∷ stack)

  -- A loop that takes a subtree from the stack, puts its root in front of the keys so far, and puts
  -- the left and then the right child on the stack.
  abbrev pub backward_loop : ℕ → List (Node K) → List K → List K
  backward_loop zero stack visited = visited
  backward_loop (suc fuel) [] visited = visited
  backward_loop (suc fuel) (nil ∷ stack) visited = backward_loop fuel stack visited
  backward_loop (suc fuel) (node l k h r ∷ stack) visited =
      backward_loop fuel (r ∷ l ∷ stack) (k ∷ visited)

  forward_loop-pre_order :
      (t : Node K) (fuel m : ℕ) (stack : List (Node K))
      → m ≡ fuel + subtrees t
      → forward_loop m (t ∷ stack) ≡ pre_order_traversal t ++ forward_loop fuel stack
  unfolding pre_order_traversal
  forward_loop-pre_order nil fuel zero stack e = absurd (omega arith)
  forward_loop-pre_order nil fuel (suc m) stack e = ap (λ i. forward_loop i stack) (omega arith)
  forward_loop-pre_order (node l k h r) fuel zero stack e = absurd (omega arith)
  forward_loop-pre_order (node l k h r) fuel (suc m) stack e =
      ap (λ xs. k ∷ xs)
        (forward_loop-pre_order l (fuel + subtrees r) m (r ∷ stack) (omega arith)
          ∙ ap (λ xs. pre_order_traversal l ++ xs)
              (forward_loop-pre_order r fuel (fuel + subtrees r) stack refl)
          ∙ sym (
              append_assoc (pre_order_traversal l) (pre_order_traversal r)
                (forward_loop fuel stack)))

  backward_loop-post_order :
      (t : Node K) (fuel m : ℕ) (stack : List (Node K)) (visited : List K)
      → m ≡ fuel + subtrees t
      → backward_loop m (t ∷ stack) visited
        ≡ backward_loop fuel stack (post_order_traversal t ++ visited)
  unfolding post_order_traversal
  backward_loop-post_order nil fuel zero stack visited e = absurd (omega arith)
  backward_loop-post_order nil fuel (suc m) stack visited e =
      ap (λ i. backward_loop i stack visited) (omega arith)
  backward_loop-post_order (node l k h r) fuel zero stack visited e = absurd (omega arith)
  backward_loop-post_order (node l k h r) fuel (suc m) stack visited e =
      backward_loop-post_order r (fuel + subtrees l) m (l ∷ stack) (k ∷ visited) (omega arith)
      ∙ backward_loop-post_order l fuel (fuel + subtrees l) stack
          (post_order_traversal r ++ (k ∷ visited)) refl
      ∙ ap (backward_loop fuel stack) (
          ap (λ xs. post_order_traversal l ++ xs)
            (sym (append_assoc (post_order_traversal r) (k ∷ []) visited))
          ∙ sym
              (append_assoc (post_order_traversal l) (post_order_traversal r ++ (k ∷ [])) visited))

  -- On an AVL tree with strictly ascending keys inOrder visits the keys in ascending order, and
  -- every key as often as preOrder does; preOrder visits them in the order of a loop with a stack
  -- that visits a root before its left and then its right child, postOrder in the order of one
  -- that visits, from the end, a root before its right and then its left child; and destroy
  -- deletes the nodes in the order of postOrder.
  pub traversals_follow_stacks :
      (t : AvlTree K)
      → IsAscending t.compare (keys t.root)
      → IsAscending t.compare (in_order (some t) true)
        × ((p : K → Bool) → count p (in_order (some t) true) ≡ count p (pre_order (some t) true))
        × (pre_order (some t) true ≡ forward_loop (subtrees t.root) (t.root ∷ []))
        × (post_order (some t) true ≡ backward_loop (subtrees t.root) (t.root ∷ []) [])
        × (destroy (some t) ≡ post_order (some t) true)
  unfolding in_order pre_order post_order destroy
  traversals_follow_stacks t v =
      let e = in_order-keys t.root in
      (
        subst (IsAscending t.compare) (sym e) v,
        λ p. ap (count p) e ∙ sym (count-pre_order p t.root),
        sym (
            forward_loop-pre_order t.root 0 (subtrees t.root) [] (omega arith)
            ∙ append-nil (pre_order_traversal t.root)),
        sym (
            backward_loop-post_order t.root 0 (subtrees t.root) [] [] (omega arith)
            ∙ append-nil (post_order_traversal t.root)),
        destroy_node-post_order t.root,
      )

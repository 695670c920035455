-- ===== src/Heap/Leftist/Depth.antt =====
-- How deep `mergeNode` of the leftist heap recurs.
use native.Mathlib.Nat.{pow-suc}
use foo.Prelude.{
  ℕ, true, zero, suc, ◌+◌, ◌*◌, ◌^◌, ◌≤◌, ◌≡◌, refl, ap, ◌∙◌, arith, Bool-cases, inl, inr,
}
use foo.Heap.Compare.{Sign, is_pos}
use foo.Heap.Leftist.{Node, nil, node, LeftistHeap, size, relink, merge_node, merge_nodes}
use foo.Heap.Leftist.Order.{occurs, occurs-merge_nodes}
use foo.Heap.Leftist.Balance.{rank, shortest, right_spine, right_spine_bound, merge_nodes-IsLeftist}
use foo.Heap.Leftist.Operations.{IsValid}

pow-add : (a b : ℕ) → 2 ^ (a + b) ≡ 2 ^ a * 2 ^ b
pow-add zero b = let sum : 0 + b ≡ b = omega arith in ap (λ n. 2 ^ n) sum ∙ omega arith
pow-add (suc a) b =
    let sum : suc a + b ≡ suc (a + b) = omega arith in
    ap (λ n. 2 ^ n) sum ∙ grind (arith, pow-add a b, pow-suc 2 (a + b), pow-suc 2 a)

product_le : (a b c d : ℕ) → a ≤ c → b ≤ d → a * b ≤ c * d
product_le a b c d h k = grind arith

module _ {K : Type 0} (cmp : K → K → Sign) where
  -- Fuel for the right spines is enough.
  merge_node-fuel :
      (f g : ℕ) (d s : Node K)
      → right_spine d + right_spine s ≤ f
      → right_spine d + right_spine s ≤ g
      → merge_node cmp f d s ≡ merge_node cmp g d s
  unfolding merge_node
  merge_node-fuel f g nil s h k = refl
  merge_node-fuel f g (node dl dk dn dr) nil h k = refl
  merge_node-fuel zero g (node dl dk dn dr) (node sl sk sn sr) h k = absurd (omega arith)
  merge_node-fuel (suc f) zero (node dl dk dn dr) (node sl sk sn sr) h k = absurd (omega arith)
  merge_node-fuel (suc f) (suc g) (node dl dk dn dr) (node sl sk sn sr) h k =
      elim (Bool-cases (is_pos (cmp dk sk))) [
        | inl e ↦
            rw (merge_node, e)
              (ap (relink sl sk)
                (merge_node-fuel f g sr (node dl dk dn dr) (omega arith) (omega arith)))
        | inr e ↦
            rw (merge_node, e)
              (ap (relink dl dk)
                (merge_node-fuel f g dr (node sl sk sn sr) (omega arith) (omega arith)))
      ]

  right_spine-size : (t : Node K) → right_spine t ≤ size t
  right_spine-size nil = omega arith
  right_spine-size (node l k n r) = omega (arith, right_spine-size r)

  occurs-size : (t : Node K) → occurs (λ _. true) t ≡ size t
  occurs-size nil = refl
  occurs-size (node l k n r) = omega (arith, occurs-size l, occurs-size r)

  size-merge_nodes : (d s : Node K) → size (merge_nodes cmp d s) ≡ size d + size s
  size-merge_nodes d s = omega (
    arith,
    occurs-merge_nodes cmp (λ _. true) d s,
    occurs-size d,
    occurs-size s,
    occurs-size (merge_nodes cmp d s),
  )

module _ {K : Type 0} where
  -- Merging the nodes of two valid leftist heaps, mergeNode gives its result with calls nested no
  -- deeper than their right spines are long together, and two to that depth is at most the product
  -- of the sizes, each increased by one; in the result the stored npl is one less than the length
  -- of the shortest way to a null pointer, that way is the right spine, and 2 to its length is at
  -- most one more than the number of all nodes.
  pub merge_depth :
      (d s : LeftistHeap K)
      → IsValid d
      → IsValid s
      → let t = merge_nodes d.compare d.root s.root in
        let depth = right_spine d.root + right_spine s.root in
        (merge_node d.compare depth d.root s.root ≡ t)
        × (2 ^ depth ≤ (size d.root + 1) * (size s.root + 1))
        × (rank t ≡ shortest t)
        × (right_spine t ≡ shortest t)
        × (2 ^ right_spine t ≤ size d.root + size s.root + 1)
  unfolding merge_nodes
  merge_depth d s v w =
      let (a, b, c) = right_spine_bound d.root v.leftist in
      let (e, f, g) = right_spine_bound s.root w.leftist in
      let t = merge_nodes d.compare d.root s.root in
      let (p, q, r) =
        right_spine_bound t (merge_nodes-IsLeftist d.compare d.root s.root v.leftist w.leftist) in
      (
        merge_node-fuel d.compare (right_spine d.root + right_spine s.root)
            (size d.root + size s.root) d.root s.root (omega arith)
            (omega (arith, right_spine-size d.compare d.root, right_spine-size s.compare s.root)),
        rw (pow-add (right_spine d.root) (right_spine s.root)) (product_le _ _ _ _ c g),
        p,
        q,
        omega (arith, r, size-merge_nodes d.compare d.root s.root),
      )

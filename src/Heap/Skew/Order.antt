-- ===== src/Heap/Skew/Order.antt =====
-- Heap order and contents of the skew heap.
use foo.Prelude.{ℕ, zero, suc, ◌+◌, ◌≤◌, ◌≡◌, Bool, arith, one_if, Bool-cases, inl, inr}
use foo.Heap.Compare.{Sign, is_pos, Le, IsOrder, le_of_pos}
use foo.Heap.Skew.{Node, nil, node, size, merge_node, merge_nodes}

-- How many keys of the tree pass a test.
abbrev pub occurs : {K : Type 0} → (K → Bool) → Node K → ℕ
occurs p nil = 0
occurs p (node l k r) = one_if (p k) + occurs p l + occurs p r

module _ {K : Type 0} (cmp : K → K → Sign) where
  -- Every key of the tree is at or above `b`.
  abbrev pub AllAbove : K → Node K → Type 0
  AllAbove b nil = Unit {0}
  AllAbove b (node l k r) = Le cmp b k × AllAbove b l × AllAbove b r

  -- No key is below the key of its parent.
  abbrev pub IsHeap : Node K → Type 0
  IsHeap nil = Unit {0}
  IsHeap (node l k r) = AllAbove k l × AllAbove k r × IsHeap l × IsHeap r

  AllAbove-mono : IsOrder cmp → (a b : K) (t : Node K) → Le cmp a b → AllAbove b t → AllAbove a t
  AllAbove-mono o a b nil h f = tt
  AllAbove-mono o a b (node l k r) h f =
      (o.trans a b k h f.0, AllAbove-mono o a b l h f.1, AllAbove-mono o a b r h f.2)

module _ {K : Type 0} (cmp : K → K → Sign) where
  occurs-merge_node :
      (p : K → Bool) (fuel : ℕ) (d s : Node K)
      → size d + size s ≤ fuel
      → occurs p (merge_node cmp fuel d s) ≡ occurs p d + occurs p s
  unfolding merge_node
  occurs-merge_node p fuel nil s h = omega arith
  occurs-merge_node p fuel (node dl dk dr) nil h = omega arith
  occurs-merge_node p zero (node dl dk dr) (node sl sk sr) h = absurd (omega arith)
  occurs-merge_node p (suc fuel) (node dl dk dr) (node sl sk sr) h =
      elim (Bool-cases (is_pos (cmp dk sk))) [
        | inl e ↦
            rw (e, merge_node)
              (omega (arith, occurs-merge_node p fuel sr (node dl dk dr) (omega arith)))
        | inr e ↦
            rw (e, merge_node)
              (omega (arith, occurs-merge_node p fuel dr (node sl sk sr) (omega arith)))
      ]

  AllAbove-merge_node :
      (b : K) (fuel : ℕ) (d s : Node K)
      → AllAbove cmp b d
      → AllAbove cmp b s
      → AllAbove cmp b (merge_node cmp fuel d s)
  unfolding merge_node
  AllAbove-merge_node b fuel nil s p q = q
  AllAbove-merge_node b fuel (node dl dk dr) nil p q = p
  AllAbove-merge_node b zero (node dl dk dr) (node sl sk sr) p q = tt
  AllAbove-merge_node b (suc fuel) (node dl dk dr) (node sl sk sr) p q =
      elim (Bool-cases (is_pos (cmp dk sk))) [
        | inl e ↦ rw (e, merge_node) (q.0, AllAbove-merge_node b fuel sr (node dl dk dr) q.2 p, q.1)
        | inr e ↦ rw (e, merge_node) (p.0, AllAbove-merge_node b fuel dr (node sl sk sr) p.2 q, p.1)
      ]

  merge_node-IsHeap :
      IsOrder cmp
      → (fuel : ℕ) (d s : Node K) → IsHeap cmp d
      → IsHeap cmp s
      → IsHeap cmp (merge_node cmp fuel d s)
  unfolding merge_node
  merge_node-IsHeap o fuel nil s p q = q
  merge_node-IsHeap o fuel (node dl dk dr) nil p q = p
  merge_node-IsHeap o zero (node dl dk dr) (node sl sk sr) p q = tt
  merge_node-IsHeap o (suc fuel) (node dl dk dr) (node sl sk sr) p q =
      elim (Bool-cases (is_pos (cmp dk sk))) [
        | inl e ↦
            let le = le_of_pos cmp o dk sk e in
            rw (e, merge_node)
              (
                AllAbove-merge_node sk fuel sr (node dl dk dr) q.1
                    (le, AllAbove-mono cmp o sk dk dl le p.0, AllAbove-mono cmp o sk dk dr le p.1),
                q.0,
                merge_node-IsHeap o fuel sr (node dl dk dr) q.3 p,
                q.2,
              )
        | inr e ↦
            rw (e, merge_node)
              (
                AllAbove-merge_node dk fuel dr (node sl sk sr) p.1
                    (e, AllAbove-mono cmp o dk sk sl e q.0, AllAbove-mono cmp o dk sk sr e q.1),
                p.0,
                merge_node-IsHeap o fuel dr (node sl sk sr) p.3 q,
                p.2,
              )
      ]

  -- The fuel that `merge_nodes` gives is enough: no key is lost, and none is made up.
  pub occurs-merge_nodes :
      (p : K → Bool) (d s : Node K) → occurs p (merge_nodes cmp d s) ≡ occurs p d + occurs p s
  unfolding merge_nodes
  occurs-merge_nodes p d s = occurs-merge_node p (size d + size s) d s (omega arith)

  pub merge_nodes-IsHeap :
      IsOrder cmp → (d s : Node K) → IsHeap cmp d → IsHeap cmp s → IsHeap cmp (merge_nodes cmp d s)
  unfolding merge_nodes
  merge_nodes-IsHeap o d s = merge_node-IsHeap o (size d + size s) d s

  pub AllAbove-merge_nodes :
      (b : K) (d s : Node K)
      → AllAbove cmp b d
      → AllAbove cmp b s
      → AllAbove cmp b (merge_nodes cmp d s)
  unfolding merge_nodes
  AllAbove-merge_nodes b d s = AllAbove-merge_node b (size d + size s) d s

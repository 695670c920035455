-- ===== src/Heap/Skew/Operations.antt =====
-- What `insert`, `remove`, `merge` and `destroy` of the skew heap do to a valid heap.
use foo.Prelude.{
  ◌+◌, ◌≡◌, refl, Bool, true, false, Option, none, some, arith, one_if, count, count-append, [],
  ◌∷◌, ◌++◌,
}
use mathlib.Core.Path.{subst}
use foo.Heap.Compare.{Sign, IsOrder}
use foo.Heap.Skew.{
  Node, nil, node, SkewHeap, is_null, merge_nodes, get_minimum, insert, remove, merge, remove_node,
}
use foo.Heap.Skew.Order.{
  occurs, AllAbove, IsHeap, occurs-merge_nodes, merge_nodes-IsHeap, AllAbove-merge_nodes,
}

module _ {K : Type 0} where
  pub record IsValid (h : SkewHeap K) : Type 0 where
    pub ordered : IsHeap h.compare h.root

  merge_nodes-not_null :
      (cmp : K → K → Sign) (t : Node K) (k : K)
      → is_null (merge_nodes cmp t (node nil k nil)) ≡ false
  merge_nodes-not_null cmp t k = go _ (occurs-merge_nodes cmp (λ _. true) t (node nil k nil))
    where
      go :
          (m : Node K)
          → occurs (λ _. true) m ≡ occurs (λ _. true) t + (1 + 0 + 0)
          → is_null m ≡ false
      go nil e = absurd (omega arith)
      go (node l j r) e = refl

  -- The new heap of a successful insertion.
  abbrev pub inserted : SkewHeap K → K → SkewHeap K
  inserted h k = record h { root = merge_nodes h.compare h.root (node nil k nil) }

  -- insert into a skew heap in heap order under a total and transitive compare function, with
  -- memory and a key, adds that key and no other, and the heap stays in heap order.
  insert_adds :
      (h : SkewHeap K) (k : K)
      → IsOrder h.compare
      → IsValid h
      → (insert true (some h) (some k) ≡ some (inserted h k))
        × IsValid (inserted h k)
        × ((p : K → Bool) → occurs p (inserted h k).root ≡ one_if (p k) + occurs p h.root)
  unfolding insert
  insert_adds h k o v = (
    rw (merge_nodes-not_null h.compare h.root k),
    record { ordered = merge_nodes-IsHeap h.compare o h.root _ v.ordered (tt, tt, tt, tt) },
    λ p. omega (arith, occurs-merge_nodes h.compare p h.root (node nil k nil)),
  )

  -- `insert` changes nothing when the key is null or no node can be allocated, and does nothing
  -- on a null heap.
  pub insert_ignored :
      (fresh : Bool) (h : SkewHeap K) (key : Option K)
      → (insert fresh (some h) none ≡ some h)
        × (insert false (some h) key ≡ some h)
        × (insert {K = K} fresh none key ≡ none)
  unfolding insert
  insert_ignored fresh h none = (refl, refl, refl)
  insert_ignored fresh h (some k) = (refl, refl, refl)

  -- What `remove` leaves of a heap with the root's children `l` and `r`.
  abbrev pub removed : (K → K → Sign) → Node K → Node K → SkewHeap K
  removed cmp l r = record { root = merge_nodes cmp l r; compare = cmp }

  -- On a skew heap in heap order that is not empty, under a total and transitive compare function,
  -- getMinimum reports the key of the root, and remove takes out one occurrence of it and no other
  -- key; that key is at or below every key that is left, and the heap stays in heap order.
  pub remove_takes_least :
      (cmp : K → K → Sign) (l : Node K) (k : K) (r : Node K)
      → IsOrder cmp
      → IsValid (record { root = node l k r; compare = cmp })
      → let h : SkewHeap K = record { root = node l k r; compare = cmp } in
        (get_minimum (some h) ≡ some k)
        × (remove (some h) ≡ some (removed cmp l r))
        × IsValid (removed cmp l r)
        × AllAbove cmp k (removed cmp l r).root
        × ((p : K → Bool) → occurs p h.root ≡ one_if (p k) + occurs p (removed cmp l r).root)
  unfolding get_minimum remove
  remove_takes_least cmp l k r o v = (
    refl,
    refl,
    record { ordered = merge_nodes-IsHeap cmp o l r v.ordered.2 v.ordered.3 },
    AllAbove-merge_nodes cmp k l r v.ordered.0 v.ordered.1,
    λ p. omega (arith, occurs-merge_nodes cmp p l r),
  )

  -- merge of two skew heaps in heap order with one total and transitive compare function leaves
  -- the source empty, and the destination in heap order with the keys of both.
  pub merge_joins :
      (dst src : SkewHeap K)
      → IsOrder dst.compare
      → IsValid dst
      → IsValid src
      → src.compare ≡ dst.compare
      → let joined = record dst { root = merge_nodes dst.compare dst.root src.root } in
        (merge (some dst) (some src) ≡ (some joined, some (record src { root = nil })))
        × IsValid joined
        × ((p : K → Bool) → occurs p joined.root ≡ occurs p dst.root + occurs p src.root)
  unfolding merge
  merge_joins dst src o v w e = (
    refl,
    record {
      ordered =
          merge_nodes-IsHeap dst.compare o dst.root src.root v.ordered
            (subst (λ c. IsHeap c src.root) e w.ordered);
    },
    λ p. occurs-merge_nodes dst.compare p dst.root src.root,
  )

  -- `destroy` deletes every node once: the deleted keys are the keys of the tree.
  pub count-remove_node : (p : K → Bool) (t : Node K) → count p (remove_node t) ≡ occurs p t
  unfolding remove_node
  count-remove_node p nil = refl
  count-remove_node p (node l k r) = omega (
    arith,
    count-append p (remove_node l) (remove_node r ++ k ∷ []),
    count-append p (remove_node r) (k ∷ []),
    count-remove_node p l,
    count-remove_node p r,
  )

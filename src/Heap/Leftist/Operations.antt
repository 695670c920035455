-- ===== src/Heap/Leftist/Operations.antt =====
-- What `insert`, `remove`, `merge` and `destroy` of the leftist heap do to a valid heap.
use foo.Prelude.{
  ℕ, ◌+◌, ◌≡◌, refl, Bool, true, false, Option, none, some, arith, one_if, count, count-append, [],
  ◌∷◌, ◌++◌,
}
use mathlib.Core.Path.{subst}
use foo.Heap.Compare.{Sign, IsOrder}
use foo.Heap.Leftist.{
  Node, nil, node, LeftistHeap, is_null, merge_nodes, get_minimum, insert, remove, merge,
  remove_node,
}
use foo.Heap.Leftist.Order.{
  occurs, AllAbove, IsHeap, occurs-merge_nodes, merge_nodes-IsHeap, AllAbove-merge_nodes,
}
use foo.Heap.Leftist.Balance.{IsLeftist, merge_nodes-IsLeftist}

module _ {K : Type 0} where
  pub record IsValid (h : LeftistHeap K) : Type 0 where
    pub ordered : IsHeap h.compare h.root
    pub leftist : IsLeftist h.root

  merge_nodes-not_null :
      (cmp : K → K → Sign) (t : Node K) (k : K)
      → is_null (merge_nodes cmp t (node nil k 0 nil)) ≡ false
  merge_nodes-not_null cmp t k = go _ (occurs-merge_nodes cmp (λ _. true) t (node nil k 0 nil))
    where
      go :
          (m : Node K)
          → occurs (λ _. true) m ≡ occurs (λ _. true) t + (1 + 0 + 0)
          → is_null m ≡ false
      go nil e = absurd (omega arith)
      go (node l j n r) e = refl

  -- The new heap of a successful insertion.
  abbrev pub inserted : LeftistHeap K → K → LeftistHeap K
  inserted h k = record h { root = merge_nodes h.compare h.root (node nil k 0 nil) }

  -- insert into a valid leftist heap under a total and transitive compare function, with memory
  -- and a key, adds that key and no other, and the heap stays valid.
  insert_correct :
      (h : LeftistHeap K) (k : K)
      → IsOrder h.compare
      → IsValid h
      → (insert true (some h) (some k) ≡ some (inserted h k))
        × IsValid (inserted h k)
        × ((p : K → Bool) → occurs p (inserted h k).root ≡ one_if (p k) + occurs p h.root)
  unfolding insert
  insert_correct h k o v = (
    rw (merge_nodes-not_null h.compare h.root k),
    record {
      ordered = merge_nodes-IsHeap h.compare o h.root _ v.ordered (tt, tt, tt, tt);
      leftist = merge_nodes-IsLeftist h.compare h.root _ v.leftist (refl, omega arith, tt, tt);
    },
    λ p. omega (arith, occurs-merge_nodes h.compare p h.root (node nil k 0 nil)),
  )

  -- `insert` changes nothing when the key is null or no node can be allocated, and does nothing
  -- on a null heap.
  pub insert_refused :
      (fresh : Bool) (h : LeftistHeap K) (key : Option K)
      → (insert fresh (some h) none ≡ some h)
        × (insert false (some h) key ≡ some h)
        × (insert {K = K} fresh none key ≡ none)
  unfolding insert
  insert_refused fresh h none = (refl, refl, refl)
  insert_refused fresh h (some k) = (refl, refl, refl)

  -- What `remove` leaves of a heap with the root's children `l` and `r`.
  abbrev pub removed : (K → K → Sign) → Node K → Node K → LeftistHeap K
  removed cmp l r = record { root = merge_nodes cmp l r; compare = cmp }

  -- On a valid leftist heap that is not empty, under a total and transitive compare function,
  -- getMinimum reports the key of the root, and remove takes out one occurrence of it and no other
  -- key; that key is at or below every key that is left, and the heap stays valid.
  pub remove_correct :
      (cmp : K → K → Sign) (l : Node K) (k : K) (n : ℕ) (r : Node K)
      → IsOrder cmp
      → IsValid (record { root = node l k n r; compare = cmp })
      → let h : LeftistHeap K = record { root = node l k n r; compare = cmp } in
        (get_minimum (some h) ≡ some k)
        × (remove (some h) ≡ some (removed cmp l r))
        × IsValid (removed cmp l r)
        × AllAbove cmp k (removed cmp l r).root
        × ((p : K → Bool) → occurs p h.root ≡ one_if (p k) + occurs p (removed cmp l r).root)
  unfolding get_minimum remove
  remove_correct cmp l k n r o v = (
    refl,
    refl,
    record {
      ordered = merge_nodes-IsHeap cmp o l r v.ordered.2 v.ordered.3;
      leftist = merge_nodes-IsLeftist cmp l r v.leftist.2 v.leftist.3;
    },
    AllAbove-merge_nodes cmp k l r v.ordered.0 v.ordered.1,
    λ p. omega (arith, occurs-merge_nodes cmp p l r),
  )

  -- merge of two valid leftist heaps with one total and transitive compare function leaves the
  -- source empty, and the destination valid with the keys of both.
  pub merge_correct :
      (dst src : LeftistHeap K)
      → IsOrder dst.compare
      → IsValid dst
      → IsValid src
      → src.compare ≡ dst.compare
      → let joined = record dst { root = merge_nodes dst.compare dst.root src.root } in
        (merge (some dst) (some src) ≡ (some joined, some (record src { root = nil })))
        × IsValid joined
        × ((p : K → Bool) → occurs p joined.root ≡ occurs p dst.root + occurs p src.root)
  unfolding merge
  merge_correct dst src o v w e = (
    refl,
    record {
      ordered =
          merge_nodes-IsHeap dst.compare o dst.root src.root v.ordered
            (subst (λ c. IsHeap c src.root) e w.ordered);
      leftist = merge_nodes-IsLeftist dst.compare dst.root src.root v.leftist w.leftist;
    },
    λ p. occurs-merge_nodes dst.compare p dst.root src.root,
  )

  -- `destroy` deletes every node once: the deleted keys are the keys of the tree.
  pub count-remove_node : (p : K → Bool) (t : Node K) → count p (remove_node t) ≡ occurs p t
  unfolding remove_node
  count-remove_node p nil = refl
  count-remove_node p (node l k n r) = omega (
    arith,
    count-append p (remove_node l) (remove_node r ++ k ∷ []),
    count-append p (remove_node r) (k ∷ []),
    count-remove_node p l,
    count-remove_node p r,
  )

-- ===== src/Heap/Leftist/Balance.antt =====
-- The `npl` fields of the leftist heap, and what they promise: a short right spine.
use foo.Prelude.{
  ℕ, zero, suc, ◌+◌, ◌^◌, ◌≤◌, ◌<◌, ◌≡◌, ◌∙◌, refl, arith, min, false, ltb, ltb→lt, Bool-cases, inl,
  inr, if◌then◌else◌,
}
use native.Mathlib.Nat.{pow-suc, pow-le-pow_right}
use foo.Heap.Compare.{Sign, is_pos}
use foo.Heap.Leftist.{Node, nil, node, size, npl, set_npl, relink, merge_node, merge_nodes}

module _ {K : Type 0} where
  -- 0 for the null pointer, and one more than the stored `npl` for a node.
  abbrev pub rank : Node K → ℕ
  rank nil = 0
  rank (node l k n r) = suc n

  -- The nodes on the way from the root to the nearest null pointer.
  abbrev pub shortest : Node K → ℕ
  shortest nil = 0
  shortest (node l k n r) = suc (min (shortest l) (shortest r))

  -- The nodes on the way from the root to the right, down which `mergeNode` recurs.
  abbrev pub right_spine : Node K → ℕ
  right_spine nil = 0
  right_spine (node l k n r) = suc (right_spine r)

  abbrev pub IsLeftist : Node K → Type 0
  IsLeftist nil = Unit {0}
  IsLeftist (node l k n r) = (n ≡ rank r) × (rank r ≤ rank l) × IsLeftist l × IsLeftist r

  set_npl-IsLeftist :
      (k : K) (l r : Node K)
      → rank r ≤ rank l
      → IsLeftist l
      → IsLeftist r
      → IsLeftist (set_npl l k r)
  unfolding set_npl
  set_npl-IsLeftist k nil nil h p q = (refl, h, p, q)
  set_npl-IsLeftist k nil (node rl rk rn rr) h p q = absurd (omega arith)
  set_npl-IsLeftist k (node ll lk ln lr) nil h p q = (refl, h, p, q)
  set_npl-IsLeftist k (node ll lk ln lr) (node rl rk rn rr) h p q = (npl_lem, h, p, q)
    where
      npl_lem : (if ltb rn ln then rn + 1 else ln + 1) ≡ suc rn
      npl_lem = ground arith

  relink-IsLeftist : (k : K) (l r : Node K) → IsLeftist l → IsLeftist r → IsLeftist (relink l k r)
  unfolding relink
  relink-IsLeftist k nil r p q = set_npl-IsLeftist k r nil (omega arith) q p
  relink-IsLeftist k (node ll lk ln lr) r p q = elim (Bool-cases (ltb ln (npl r))) [
    | inl e ↦ rw e (set_npl-IsLeftist k r (node ll lk ln lr) (above r (ltb→lt _ _ e)) q p)
    | inr e ↦ rw e (set_npl-IsLeftist k (node ll lk ln lr) r (below r e) p q)
  ]
    where
      above : (t : Node K) → ln < npl t → suc ln ≤ rank t
      above nil h = absurd (omega arith)
      above (node _ _ n _) h = omega arith

      below : (t : Node K) → ltb ln (npl t) ≡ false → rank t ≤ suc ln
      below nil h = omega arith
      below (node _ _ n _) h = ground arith

  merge_node-IsLeftist :
      (cmp : K → K → Sign) (fuel : ℕ) (d s : Node K)
      → IsLeftist d
      → IsLeftist s
      → IsLeftist (merge_node cmp fuel d s)
  unfolding merge_node
  merge_node-IsLeftist cmp fuel nil s p q = q
  merge_node-IsLeftist cmp fuel (node dl dk dn dr) nil p q = p
  merge_node-IsLeftist cmp zero (node dl dk dn dr) (node sl sk sn sr) p q = tt
  merge_node-IsLeftist cmp (suc fuel) (node dl dk dn dr) (node sl sk sn sr) p q =
      elim (Bool-cases (is_pos (cmp dk sk))) [
        | inl e ↦
            rw (e, merge_node)
              (relink-IsLeftist sk sl _ q.2
                (merge_node-IsLeftist cmp fuel sr (node dl dk dn dr) q.3 p))
        | inr e ↦
            rw (e, merge_node)
              (relink-IsLeftist dk dl _ p.2
                (merge_node-IsLeftist cmp fuel dr (node sl sk sn sr) p.3 q))
      ]

  pub merge_nodes-IsLeftist :
      (cmp : K → K → Sign) (d s : Node K)
      → IsLeftist d
      → IsLeftist s
      → IsLeftist (merge_nodes cmp d s)
  unfolding merge_nodes
  merge_nodes-IsLeftist cmp d s = merge_node-IsLeftist cmp (size d + size s) d s

  rank-shortest : (t : Node K) → IsLeftist t → rank t ≡ shortest t
  rank-shortest nil v = refl
  rank-shortest (node l k n r) v = omega (arith, rank-shortest l v.2, rank-shortest r v.3)

  right_spine-rank : (t : Node K) → IsLeftist t → right_spine t ≡ rank t
  right_spine-rank nil v = refl
  right_spine-rank (node l k n r) v = omega (arith, right_spine-rank r v.3)

  pow-rank-le : (t : Node K) → IsLeftist t → 2 ^ rank t ≤ size t + 1
  pow-rank-le nil v = omega arith
  pow-rank-le (node l k n r) v = rw v.0 (
      omega (
        arith,
        pow-suc 2 (rank r),
        pow-le-pow_right {n = 2} (omega arith) {i = rank r} {j = rank l} v.1,
        pow-rank-le l v.2,
        pow-rank-le r v.3,
      ))

  pub right_spine_bound :
      (t : Node K)
      → IsLeftist t
      → (rank t ≡ shortest t) × (right_spine t ≡ shortest t) × (2 ^ right_spine t ≤ size t + 1)
  right_spine_bound t v =
      let e = right_spine-rank t v in
      let f = rank-shortest t v in (f, e ∙ f, rw e (pow-rank-le t v))

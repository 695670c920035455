-- ===== src/Cache/Lfu/Placed.antt =====
-- The cells of `LFU`, whose entries have counts: what placing and discarding a cell do.
use foo.Prelude.{
  ℕ, ◌+◌, ◌≡◌, ◌≢◌, refl, sym, Bool, true, false, Option, none, some, List, [], ◌∷◌, arith, ◌==◌,
  ltb, if◌then◌else◌, length, Bool-cases, inl, inr,
}
use foo.Cache.Cells.{
  Cell, Absent, Distinct, nodes, entries, keys, node_of, discard_cell, Sound, keyed-node_of,
}
use foo.Cache.Lfu.{emplace_count, erase_count, refcount}
use foo.Cache.Lfu.Policy.{place_entry}

-- A list of nodes has this node.
unfoldable pub has : ℕ → List ℕ → Bool
has x [] = false
has x (y ∷ ys) = if x == y then true else has x ys

module _ {V : Type 0} where
  -- The counts and the nodes, as in `lfuList`.
  abbrev pub counts : List (Cell (ℕ × V)) → List (ℕ × ℕ)
  counts [] = []
  counts ((x, k, (c, v)) ∷ cs) = (c, x) ∷ counts cs

  unfoldable pub place_cell : ℕ → ℕ → ℕ → V → List (Cell (ℕ × V)) → List (Cell (ℕ × V))
  place_cell x k c v [] = (x, k, (c, v)) ∷ []
  place_cell x k c v ((y, j, (d, w)) ∷ cs) =
      if ltb c d
      then (x, k, (c, v)) ∷ (y, j, (d, w)) ∷ cs
      else (y, j, (d, w)) ∷ place_cell x k c v cs

  module _ (x k c : ℕ) (v : V) where
    pub counts-place_cell :
        (cs : List (Cell (ℕ × V))) → counts (place_cell x k c v cs) ≡ emplace_count c x (counts cs)
    unfolding place_cell emplace_count
    counts-place_cell [] = refl
    counts-place_cell ((y, j, (d, w)) ∷ cs) = ground (arith, counts-place_cell cs)

    pub entries-place_cell :
        (cs : List (Cell (ℕ × V)))
        → entries (place_cell x k c v cs) ≡ place_entry k c v (entries cs)
    unfolding place_cell place_entry
    entries-place_cell [] = refl
    entries-place_cell ((y, j, (d, w)) ∷ cs) = ground (arith, entries-place_cell cs)

    pub length-place_cell :
        (cs : List (Cell (ℕ × V))) → length (place_cell x k c v cs) ≡ length cs + 1
    unfolding place_cell
    length-place_cell [] = refl
    length-place_cell ((y, j, (d, w)) ∷ cs) = ground (arith, length-place_cell cs)

    pub node_of-place_cell :
        (i : ℕ) (cs : List (Cell (ℕ × V)))
        → node_of k cs ≡ none
        → node_of i (place_cell x k c v cs) ≡ (if i == k then some x else node_of i cs)
    unfolding place_cell node_of
    node_of-place_cell i [] e = ground arith
    node_of-place_cell i ((y, j, (d, w)) ∷ cs) e = ground (arith, node_of-place_cell i cs)

    pub Absent-nodes_place :
        (i : ℕ) (cs : List (Cell (ℕ × V)))
        → i ≢ x
        → Absent i (nodes cs)
        → Absent i (nodes (place_cell x k c v cs))
    unfolding place_cell
    Absent-nodes_place i [] n a = (n, tt)
    Absent-nodes_place i ((y, j, (d, w)) ∷ cs) n a = elim (Bool-cases (ltb c d)) [
      | inl e ↦ rw e (n, a)
      | inr e ↦ rw e (a.0, Absent-nodes_place i cs n a.1)
    ]

    pub Absent-keys_place :
        (i : ℕ) (cs : List (Cell (ℕ × V)))
        → i ≢ k
        → Absent i (keys cs)
        → Absent i (keys (place_cell x k c v cs))
    unfolding place_cell
    Absent-keys_place i [] n a = (n, tt)
    Absent-keys_place i ((y, j, (d, w)) ∷ cs) n a = elim (Bool-cases (ltb c d)) [
      | inl e ↦ rw e (n, a)
      | inr e ↦ rw e (a.0, Absent-keys_place i cs n a.1)
    ]

    pub Distinct-place_cell :
        (cs : List (Cell (ℕ × V)))
        → Absent k (keys cs)
        → Distinct (keys cs)
        → Distinct (keys (place_cell x k c v cs))
    unfolding place_cell
    Distinct-place_cell [] a d = (tt, tt)
    Distinct-place_cell ((y, j, (d, w)) ∷ cs) a p = elim (Bool-cases (ltb c d)) [
      | inl e ↦ rw e (a, p)
      | inr e ↦ rw e (Absent-keys_place j cs (λ q. a.0 (sym q)) p.0, Distinct-place_cell cs a.1 p.1)
    ]

    pub Sound-place_cell :
        (keyed : ℕ → Option ℕ) (held : ℕ → ℕ × V) (cs : List (Cell (ℕ × V)))
        → keyed x ≡ some k
        → held x ≡ (c, v)
        → Sound keyed held cs
        → Sound keyed held (place_cell x k c v cs)
    unfolding place_cell
    Sound-place_cell keyed held [] p q s = (p, q, tt)
    Sound-place_cell keyed held ((y, j, (d, w)) ∷ cs) p q s = elim (Bool-cases (ltb c d)) [
      | inl e ↦ rw e (p, q, s)
      | inr e ↦ rw e (s.0, s.1, Sound-place_cell keyed held cs p q s.2)
    ]

    pub has-place_cell :
        (i : ℕ) (cs : List (Cell (ℕ × V)))
        → has i (nodes (place_cell x k c v cs)) ≡ (if i == x then true else has i (nodes cs))
    unfolding place_cell has
    has-place_cell i [] = ground arith
    has-place_cell i ((y, j, (d, w)) ∷ cs) = ground (arith, has-place_cell i cs)

  module _ (keyed : ℕ → Option ℕ) (held : ℕ → ℕ × V) (k x : ℕ) where
    pub counts-discard_cell :
        (cs : List (Cell (ℕ × V)))
        → Sound keyed held cs
        → node_of k cs ≡ some x
        → counts (discard_cell k cs) ≡ erase_count x (counts cs)
    unfolding discard_cell node_of erase_count
    counts-discard_cell [] s e = refl
    counts-discard_cell ((y, j, (d, w)) ∷ cs) s e = elim (Bool-cases (k == j)) [
      | inl p ↦ ground arith
      | inr n ↦
          let f : node_of k cs ≡ some x = ground arith in
          let g = keyed-node_of keyed held k x cs s.2 f in
          ground (arith, counts-discard_cell cs s.2 f)
    ]

    pub refcount-counts :
        (cs : List (Cell (ℕ × V)))
        → Sound keyed held cs
        → node_of k cs ≡ some x
        → refcount x (counts cs) ≡ some (held x).0
    unfolding node_of refcount
    refcount-counts [] s e = absurd cc
    refcount-counts ((y, j, (d, w)) ∷ cs) s e = elim (Bool-cases (k == j)) [
      | inl p ↦ ground (arith, s.1)
      | inr n ↦
          let f : node_of k cs ≡ some x = ground arith in
          let g = keyed-node_of keyed held k x cs s.2 f in ground (arith, refcount-counts cs s.2 f)
    ]

-- ===== src/Cache/Changes.antt =====
-- What assigning, discarding and appending a cell do to the parts of the cells.
use foo.Prelude.{
  ℕ, suc, ◌+◌, ◌≡◌, ◌≢◌, refl, sym, ap, ◌∙◌, Option, none, some, List, [], ◌∷◌, ◌++◌, arith, ◌==◌,
  length, Bool-cases, inl, inr,
}
use foo.Cache.Entries.{assign, discard}
use foo.Cache.Cells.{
  Cell, remove, Absent, Distinct, nodes, entries, keys, node_of, assign_cell, discard_cell, Sound,
  Sound-frame, Absent-of_key, keyed-node_of,
}

module _ {V : Type 0} (k : ℕ) where
  pub nodes-assign_cell : (w : V) (cs : List (Cell V)) → nodes (assign_cell k w cs) ≡ nodes cs
  unfolding assign_cell
  nodes-assign_cell w [] = refl
  nodes-assign_cell w ((x, j, v) ∷ cs) = ground (arith, nodes-assign_cell w cs)

  pub keys-assign_cell : (w : V) (cs : List (Cell V)) → keys (assign_cell k w cs) ≡ keys cs
  unfolding assign_cell
  keys-assign_cell w [] = refl
  keys-assign_cell w ((x, j, v) ∷ cs) = ground (arith, keys-assign_cell w cs)

  pub entries-assign_cell :
      (w : V) (cs : List (Cell V)) → entries (assign_cell k w cs) ≡ assign k w (entries cs)
  unfolding assign_cell assign
  entries-assign_cell w [] = refl
  entries-assign_cell w ((x, j, v) ∷ cs) = ground (arith, entries-assign_cell w cs)

  pub node_of-assign_cell :
      (j : ℕ) (w : V) (cs : List (Cell V)) → node_of j (assign_cell k w cs) ≡ node_of j cs
  unfolding assign_cell node_of
  node_of-assign_cell j w [] = refl
  node_of-assign_cell j w ((x, i, v) ∷ cs) = ground (arith, node_of-assign_cell j w cs)

  pub length-assign_cell : (w : V) (cs : List (Cell V)) → length (assign_cell k w cs) ≡ length cs
  unfolding assign_cell
  length-assign_cell w [] = refl
  length-assign_cell w ((x, i, v) ∷ cs) = ground (arith, length-assign_cell w cs)

  pub entries-discard_cell :
      (cs : List (Cell V)) → entries (discard_cell k cs) ≡ discard k (entries cs)
  unfolding discard_cell discard
  entries-discard_cell [] = refl
  entries-discard_cell ((x, j, v) ∷ cs) = ground (arith, entries-discard_cell cs)

  Absent-discard_cell :
      (i : ℕ) (cs : List (Cell V)) → Absent i (keys cs) → Absent i (keys (discard_cell k cs))
  unfolding discard_cell
  Absent-discard_cell i [] a = tt
  Absent-discard_cell i ((x, j, v) ∷ cs) a = elim (Bool-cases (k == j)) [
    | inl e ↦ rw e a.1
    | inr e ↦ rw e (a.0, Absent-discard_cell i cs a.1)
  ]

  pub Distinct-discard_cell :
      (cs : List (Cell V)) → Distinct (keys cs) → Distinct (keys (discard_cell k cs))
  unfolding discard_cell
  Distinct-discard_cell [] d = tt
  Distinct-discard_cell ((x, j, v) ∷ cs) d = elim (Bool-cases (k == j)) [
    | inl e ↦ rw e d.1
    | inr e ↦ rw e (Absent-discard_cell j cs d.0, Distinct-discard_cell cs d.1)
  ]

  pub Absent-discarded :
      (cs : List (Cell V)) → Distinct (keys cs) → Absent k (keys (discard_cell k cs))
  unfolding discard_cell
  Absent-discarded [] d = tt
  Absent-discarded ((x, j, v) ∷ cs) d = elim (Bool-cases (k == j)) [
    | inl e ↦ let p : k ≡ j = ground arith in rw (e, p) d.0
    | inr e ↦ rw e (ground arith, Absent-discarded cs d.1)
  ]

  pub node_of-discard_cell_ne :
      (j : ℕ) (cs : List (Cell V)) → j ≢ k → node_of j (discard_cell k cs) ≡ node_of j cs
  unfolding discard_cell node_of
  node_of-discard_cell_ne j [] h = refl
  node_of-discard_cell_ne j ((x, i, v) ∷ cs) h = ground (arith, node_of-discard_cell_ne j cs h)

  pub length-discard_cell :
      (x : ℕ) (cs : List (Cell V))
      → node_of k cs ≡ some x
      → length (discard_cell k cs) + 1 ≡ length cs
  unfolding discard_cell node_of
  length-discard_cell x [] e = absurd cc
  length-discard_cell x ((y, j, v) ∷ cs) e = ground (arith, length-discard_cell x cs)

  pub discard_cell_absent : (cs : List (Cell V)) → node_of k cs ≡ none → discard_cell k cs ≡ cs
  unfolding discard_cell node_of
  discard_cell_absent [] e = refl
  discard_cell_absent ((y, j, v) ∷ cs) e = ground (arith, discard_cell_absent cs)

  module _ (keyed : ℕ → Option ℕ) (held : ℕ → V) where
    pub nodes-discard_cell :
        (x : ℕ) (cs : List (Cell V))
        → Sound keyed held cs
        → node_of k cs ≡ some x
        → nodes (discard_cell k cs) ≡ remove x (nodes cs)
    unfolding discard_cell node_of remove
    nodes-discard_cell x [] s e = refl
    nodes-discard_cell x ((y, j, v) ∷ cs) s e = elim (Bool-cases (k == j)) [
      | inl p ↦ ground arith
      | inr n ↦
          let f : node_of k cs ≡ some x = ground arith in
          let g = keyed-node_of keyed held k x cs s.2 f in
          ground (arith, nodes-discard_cell x cs s.2 f)
    ]

    -- The discarded cell's element may change.
    pub Sound-discard_cell :
        (keyed' : ℕ → Option ℕ) (held' : ℕ → V) (x : ℕ) (cs : List (Cell V))
        → ((y : ℕ) → y ≢ x → (keyed' y ≡ keyed y) × (held' y ≡ held y))
        → Distinct (keys cs)
        → Sound keyed held cs
        → node_of k cs ≡ some x
        → Sound keyed' held' (discard_cell k cs)
    unfolding discard_cell node_of
    Sound-discard_cell keyed' held' x [] same d s e = tt
    Sound-discard_cell keyed' held' x ((y, j, v) ∷ cs) same d s e = elim (Bool-cases (k == j)) [
      | inl p ↦
          let q : y ≡ x = ground arith in
          rw p (
            Sound-frame keyed held keyed' held' x cs same
              (Absent-of_key keyed held x j cs (ap keyed (sym q) ∙ s.0) d.0 s.2) s.2)
      | inr n ↦
          let f : node_of k cs ≡ some x = ground arith in
          let g = keyed-node_of keyed held k x cs s.2 f in
          let apart : y ≢ x = λ p. ground (arith, ap keyed p) in
          let (a, b) = same y apart in
          rw n (a ∙ s.0, b ∙ s.1, Sound-discard_cell keyed' held' x cs same d.1 s.2 f)
    ]

module _ {V : Type 0} where
  pub nodes-append : (cs ds : List (Cell V)) → nodes (cs ++ ds) ≡ nodes cs ++ nodes ds
  nodes-append [] ds = refl
  nodes-append ((x, j, v) ∷ cs) ds = ap (λ xs. x ∷ xs) (nodes-append cs ds)

  pub length-nodes : (cs : List (Cell V)) → length (nodes cs) ≡ length cs
  length-nodes [] = refl
  length-nodes ((x, j, v) ∷ cs) = ap suc (length-nodes cs)

  pub length-entries : (cs : List (Cell V)) → length (entries cs) ≡ length cs
  length-entries [] = refl
  length-entries ((x, j, v) ∷ cs) = ap suc (length-entries cs)

  pub Sound-append :
      (keyed : ℕ → Option ℕ) (held : ℕ → V) (cs ds : List (Cell V))
      → Sound keyed held cs
      → Sound keyed held ds
      → Sound keyed held (cs ++ ds)
  Sound-append keyed held [] ds s t = t
  Sound-append keyed held ((x, j, v) ∷ cs) ds s t = (s.0, s.1, Sound-append keyed held cs ds s.2 t)

  Absent-last :
      (i : ℕ) (cs : List (Cell V)) (x k : ℕ) (v : V)
      → Absent i (keys cs)
      → i ≢ k
      → Absent i (keys (cs ++ (x, k, v) ∷ []))
  Absent-last i [] x k v a h = (h, tt)
  Absent-last i ((y, j, w) ∷ cs) x k v a h = (a.0, Absent-last i cs x k v a.1 h)

  pub Distinct-last :
      (cs : List (Cell V)) (x k : ℕ) (v : V)
      → Distinct (keys cs)
      → Absent k (keys cs)
      → Distinct (keys (cs ++ (x, k, v) ∷ []))
  Distinct-last [] x k v d a = (tt, tt)
  Distinct-last ((y, j, w) ∷ cs) x k v d a =
      (Absent-last j cs x k v d.0 (λ e. a.0 (sym e)), Distinct-last cs x k v d.1 a.1)

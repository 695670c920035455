-- ===== src/Cache/Lru/Lists.antt =====
-- The ends of a list of nodes, and the last cell.
use foo.Prelude.{
  ℕ, ◌≡◌, ◌≢◌, refl, sym, ap, ◌∙◌, false, Option, some, List, [], ◌∷◌, ◌++◌, ◌==◌, arith,
  Bool-cases, inl, inr,
}
use foo.Cache.Entries.{discard, init}
use foo.Cache.Cells.{
  Cell, remove, Absent, Distinct, nodes, entries, keys, node_of, discard_cell, Sound, Absent-of_key,
}
use foo.Cache.Lru.{back, without_back, splice_end}

pub back_last : (xs : List ℕ) (x : ℕ) → back (xs ++ x ∷ []) ≡ some x
unfolding back
back_last [] x = refl
back_last (y ∷ []) x = refl
back_last (y ∷ z ∷ xs) x = back_last (z ∷ xs) x

without_back_last : (xs : List ℕ) (x : ℕ) → without_back (xs ++ x ∷ []) ≡ xs
unfolding without_back
without_back_last [] x = refl
without_back_last (y ∷ []) x = refl
without_back_last (y ∷ z ∷ xs) x = ap (λ ys. y ∷ ys) (without_back_last (z ∷ xs) x)

back-Absent : (x y : ℕ) (xs : List ℕ) → back xs ≡ some x → Absent y xs → y ≢ x
unfolding back
back-Absent x y [] e a = absurd cc
back-Absent x y (z ∷ []) e a = ground (arith, a.0)
back-Absent x y (z ∷ w ∷ xs) e a = back-Absent x y (w ∷ xs) e a.1

without_back-remove :
    (x : ℕ) (xs : List ℕ) → back xs ≡ some x → Distinct xs → without_back xs ≡ remove x xs
unfolding back without_back remove
without_back-remove x [] e d = refl
without_back-remove x (y ∷ []) e d = ground arith
without_back-remove x (y ∷ z ∷ xs) e d =
    let apart = back-Absent x y (z ∷ xs) e d.0 in
    let rest = without_back-remove x (z ∷ xs) e d.1 in
    rw (differ x y apart) (ap (λ ys. y ∷ ys) rest)
  where
    differ : (x y : ℕ) → y ≢ x → (x == y) ≡ false
    differ x y h = ground arith

-- The node at `lruListEnd` after `splice_end`, and the nodes before it when it has stepped back.
pub splice_end_lem :
    (x last : ℕ) (xs : List ℕ)
    → back xs ≡ some last
    → Distinct xs
    → (back (splice_end x last xs) ≡ some x) × (without_back (splice_end x last xs) ≡ remove x xs)
unfolding splice_end
splice_end_lem x last xs e d = elim (Bool-cases (x == last)) [
  | inl p ↦
      let q : x ≡ last = ground arith in
      rw p (e ∙ ap some (sym q), without_back-remove x xs (e ∙ ap some (sym q)) d)
  | inr n ↦ rw n (back_last (remove x xs) x, without_back_last (remove x xs) x)
]

pub remove_last : (x : ℕ) (xs : List ℕ) → Absent x xs → remove x (xs ++ x ∷ []) ≡ xs
unfolding remove
remove_last x [] a = ground arith
remove_last x (y ∷ xs) a = ground (arith, remove_last x xs a.1)

-- No node of the first list is in the second.
abbrev pub AllAbsent : List ℕ → List ℕ → Type 0
AllAbsent [] ys = Unit {0}
AllAbsent (x ∷ xs) ys = Absent x ys × AllAbsent xs ys

pub AllAbsent-cons :
    (x : ℕ) (xs ys : List ℕ) → Absent x xs → AllAbsent xs ys → AllAbsent xs (x ∷ ys)
AllAbsent-cons x [] ys a h = tt
AllAbsent-cons x (z ∷ xs) ys a h = ((λ e. a.0 (sym e), h.0), AllAbsent-cons x xs ys a.1 h.1)

pub AllAbsent-nil : (xs : List ℕ) → AllAbsent xs []
AllAbsent-nil [] = tt
AllAbsent-nil (x ∷ xs) = (tt, AllAbsent-nil xs)

module _ {V : Type 0} where
  Absent-node_of :
      (y k x : ℕ) (cs : List (Cell V)) → node_of k cs ≡ some x → Absent y (nodes cs) → y ≢ x
  unfolding node_of
  Absent-node_of y k x [] e a = absurd cc
  Absent-node_of y k x ((z, j, v) ∷ cs) e a = ground (arith, Absent-node_of y k x cs)

  Absent-discard :
      (y k : ℕ) (cs : List (Cell V)) → Absent y (nodes cs) → Absent y (nodes (discard_cell k cs))
  unfolding discard_cell
  Absent-discard y k [] a = tt
  Absent-discard y k ((z, j, v) ∷ cs) a = elim (Bool-cases (k == j)) [
    | inl e ↦ rw e a.1
    | inr e ↦ rw e (a.0, Absent-discard y k cs a.1)
  ]

  -- A list that avoids the nodes avoids each of them, and the others.
  pub AllAbsent-discard :
      (xs : List ℕ) (k x : ℕ) (cs : List (Cell V))
      → node_of k cs ≡ some x
      → AllAbsent xs (nodes cs)
      → Absent x xs × AllAbsent xs (nodes (discard_cell k cs))
  AllAbsent-discard [] k x cs e h = (tt, tt)
  AllAbsent-discard (y ∷ xs) k x cs e h =
      let (p, q) = AllAbsent-discard xs k x cs e h.1 in
      ((λ r. Absent-node_of y k x cs e h.0 (sym r), p), (Absent-discard y k cs h.0, q))

  module _ (keyed : ℕ → Option ℕ) (held : ℕ → V) where
    pub Distinct-nodes :
        (cs : List (Cell V)) → Distinct (keys cs) → Sound keyed held cs → Distinct (nodes cs)
    Distinct-nodes [] d s = tt
    Distinct-nodes ((x, k, v) ∷ cs) d s =
        (Absent-of_key keyed held x k cs s.0 d.0 s.2, Distinct-nodes cs d.1 s.2)

  Absent-keys :
      (i j x : ℕ) (cs : List (Cell V)) → node_of j cs ≡ some x → Absent i (keys cs) → j ≢ i
  unfolding node_of
  Absent-keys i j x [] e a = absurd cc
  Absent-keys i j x ((z, k, v) ∷ cs) e a = ground (arith, Absent-keys i j x cs)

  -- There is a last cell, and to discard its key is to drop it.
  pub last_cell :
      (x k : ℕ) (v : V) (cs : List (Cell V))
      → Distinct (keys ((x, k, v) ∷ cs))
      → (y : ℕ) × (j : ℕ) × (back (nodes ((x, k, v) ∷ cs)) ≡ some y)
        × (node_of j ((x, k, v) ∷ cs) ≡ some y)
        × (discard j (entries ((x, k, v) ∷ cs)) ≡ init (entries ((x, k, v) ∷ cs)))
  unfolding back node_of discard init
  last_cell x k v [] d = (x, k, refl, ground arith, ground arith)
  last_cell x k v ((z, i, w) ∷ cs) d =
      let (y, j, p, q, r) = last_cell z i w cs d.1 in
      let apart = Absent-keys k j y ((z, i, w) ∷ cs) q d.0 in
      (y, j, p, rw (differ j k apart) q, rw (differ j k apart) (ap (λ es. (k, v) ∷ es) r))
    where
      differ : (j k : ℕ) → j ≢ k → (j == k) ≡ false
      differ j k h = ground arith

-- ===== src/Cache/Cells.antt =====
-- The occupied nodes of a cache as cells: the node, its key and its value, in the order of the
-- abstract entries. `keyed` and `held` are the fields of the elements that stand in the nodes.
use foo.Prelude.{
  ℕ, zero, suc, ◌<◌, ◌≡◌, ◌≢◌, refl, sym, ap, ◌∙◌, Option, none, some, List, [], ◌∷◌, ◌++◌, arith,
  ◌==◌, if◌then◌else◌, length, Bool-cases, inl, inr,
}
use foo.Cache.Entries.{lookup}

-- A list of nodes without one of them, as `splice` takes it out.
unfoldable pub remove : ℕ → List ℕ → List ℕ
remove x [] = []
remove x (y ∷ ys) = if x == y then ys else y ∷ remove x ys

-- `x` is not in the list.
abbrev pub Absent : ℕ → List ℕ → Type 0
Absent x [] = Unit {0}
Absent x (y ∷ ys) = (x ≢ y) × Absent x ys

abbrev pub Distinct : List ℕ → Type 0
Distinct [] = Unit {0}
Distinct (x ∷ xs) = Absent x xs × Distinct xs

pub remove-append : (x : ℕ) (xs ys : List ℕ) → Absent x xs → remove x (xs ++ ys) ≡ xs ++ remove x ys
unfolding remove
remove-append x [] ys h = refl
remove-append x (y ∷ xs) ys h = ground (arith, remove-append x xs ys h.1)

abbrev pub Cell : Type 0 → Type 0
Cell V = ℕ × ℕ × V

-- No element of these nodes has a key.
abbrev pub Clear : (ℕ → Option ℕ) → List ℕ → Type 0
Clear keyed [] = Unit {0}
Clear keyed (x ∷ xs) = (keyed x ≡ none) × Clear keyed xs

module _ {V : Type 0} where
  abbrev pub nodes : List (Cell V) → List ℕ
  nodes [] = []
  nodes ((x, k, v) ∷ cs) = x ∷ nodes cs

  abbrev pub entries : List (Cell V) → List (ℕ × V)
  entries [] = []
  entries ((x, k, v) ∷ cs) = (k, v) ∷ entries cs

  abbrev pub keys : List (Cell V) → List ℕ
  keys [] = []
  keys ((x, k, v) ∷ cs) = k ∷ keys cs

  unfoldable pub node_of : ℕ → List (Cell V) → Option ℕ
  node_of k [] = none
  node_of k ((x, j, v) ∷ cs) = if k == j then some x else node_of k cs

  unfoldable pub assign_cell : ℕ → V → List (Cell V) → List (Cell V)
  assign_cell k w [] = []
  assign_cell k w ((x, j, v) ∷ cs) =
      if k == j then (x, j, w) ∷ cs else (x, j, v) ∷ assign_cell k w cs

  unfoldable pub discard_cell : ℕ → List (Cell V) → List (Cell V)
  discard_cell k [] = []
  discard_cell k ((x, j, v) ∷ cs) = if k == j then cs else (x, j, v) ∷ discard_cell k cs

  -- The elements hold what the cells say.
  abbrev pub Sound : (ℕ → Option ℕ) → (ℕ → V) → List (Cell V) → Type 0
  Sound keyed held [] = Unit {0}
  Sound keyed held ((x, k, v) ∷ cs) = (keyed x ≡ some k) × (held x ≡ v) × Sound keyed held cs

  module _ (keyed : ℕ → Option ℕ) (held : ℕ → V) where
    -- A node without a key is in no cell.
    pub Absent-of_none :
        (x : ℕ) (cs : List (Cell V)) → keyed x ≡ none → Sound keyed held cs → Absent x (nodes cs)
    Absent-of_none x [] e s = tt
    Absent-of_none x ((y, k, v) ∷ cs) e s =
        (λ p. cc (e, s.0, ap keyed p), Absent-of_none x cs e s.2)

    -- A node with another key is in no cell.
    pub Absent-of_key :
        (x k : ℕ) (cs : List (Cell V))
        → keyed x ≡ some k
        → Absent k (keys cs)
        → Sound keyed held cs
        → Absent x (nodes cs)
    Absent-of_key x k [] e a s = tt
    Absent-of_key x k ((y, j, v) ∷ cs) e a s =
        (λ p. a.0 (cc (e, s.0, ap keyed p)), Absent-of_key x k cs e a.1 s.2)

    -- Only the node `x` changes.
    pub Sound-frame :
        (keyed' : ℕ → Option ℕ) (held' : ℕ → V) (x : ℕ) (cs : List (Cell V))
        → ((y : ℕ) → y ≢ x → (keyed' y ≡ keyed y) × (held' y ≡ held y))
        → Absent x (nodes cs)
        → Sound keyed held cs
        → Sound keyed' held' cs
    Sound-frame keyed' held' x [] same a s = tt
    Sound-frame keyed' held' x ((y, k, v) ∷ cs) same a s =
        let (p, q) = same y (λ e. a.0 (sym e)) in
        (p ∙ s.0, q ∙ s.1, Sound-frame keyed' held' x cs same a.1 s.2)

    pub keyed-node_of :
        (k x : ℕ) (cs : List (Cell V))
        → Sound keyed held cs
        → node_of k cs ≡ some x
        → keyed x ≡ some k
    unfolding node_of
    keyed-node_of k x [] s e = absurd cc
    keyed-node_of k x ((y, j, v) ∷ cs) s e = ground (arith, keyed-node_of k x cs s.2)

    pub lookup-entries :
        (k x : ℕ) (cs : List (Cell V))
        → Sound keyed held cs
        → node_of k cs ≡ some x
        → lookup k (entries cs) ≡ some (held x)
    unfolding node_of lookup
    lookup-entries k x [] s e = absurd cc
    lookup-entries k x ((y, j, v) ∷ cs) s e = ground (arith, lookup-entries k x cs s.2)

    pub Sound-assign_cell :
        (held' : ℕ → V) (k x : ℕ) (w : V) (cs : List (Cell V))
        → ((y : ℕ) → y ≢ x → held' y ≡ held y)
        → held' x ≡ w
        → Distinct (keys cs)
        → Sound keyed held cs
        → node_of k cs ≡ some x
        → Sound keyed held' (assign_cell k w cs)
    unfolding node_of assign_cell
    Sound-assign_cell held' k x w [] same e d s f = tt
    Sound-assign_cell held' k x w ((y, j, v) ∷ cs) same e d s f = elim (Bool-cases (k == j)) [
      | inl p ↦
          let r : k ≡ j = ground arith in
          let q : y ≡ x = ground arith in
          rw p (
            s.0,
            ap held' q ∙ e,
            Sound-frame keyed held' x cs (λ z h. (refl, same z h))
                (Absent-of_key x j cs (ap keyed (sym q) ∙ s.0) d.0 s.2) s.2,
          )
      | inr n ↦
          let f' : node_of k cs ≡ some x = ground arith in
          let g = keyed-node_of k x cs s.2 f' in
          let apart : y ≢ x = λ p. ground (arith, ap keyed p) in
          rw n (s.0, same y apart ∙ s.1, Sound-assign_cell held' k x w cs same e d.1 s.2 f')
    ]

  module _ (k : ℕ) where
    pub Absent-of_node_of : (cs : List (Cell V)) → node_of k cs ≡ none → Absent k (keys cs)
    unfolding node_of
    Absent-of_node_of [] e = tt
    Absent-of_node_of ((x, j, v) ∷ cs) e = (ground arith, Absent-of_node_of cs (ground arith))

    pub node_of-none : (cs : List (Cell V)) → Absent k (keys cs) → node_of k cs ≡ none
    unfolding node_of
    node_of-none [] a = refl
    node_of-none ((x, j, v) ∷ cs) a = ground (arith, node_of-none cs a.1)

    pub lookup-none : (cs : List (Cell V)) → node_of k cs ≡ none → lookup k (entries cs) ≡ none
    unfolding node_of lookup
    lookup-none [] e = refl
    lookup-none ((x, j, v) ∷ cs) e = ground (arith, lookup-none cs)

module _ {V : Type 0} where
  pub node_of-append :
      (k : ℕ) (cs ds : List (Cell V)) → node_of k cs ≡ none → node_of k (cs ++ ds) ≡ node_of k ds
  unfolding node_of
  node_of-append k [] ds e = refl
  node_of-append k ((x, j, v) ∷ cs) ds e = ground (arith, node_of-append k cs ds)

  pub entries-append : (cs ds : List (Cell V)) → entries (cs ++ ds) ≡ entries cs ++ entries ds
  entries-append [] ds = refl
  entries-append ((x, j, v) ∷ cs) ds = ap (λ es. (j, v) ∷ es) (entries-append cs ds)

-- `iota`: the nodes that a list is constructed with, from `i` on.
unfoldable pub iota_from : ℕ → ℕ → List ℕ
iota_from i zero = []
iota_from i (suc n) = i ∷ iota_from (suc i) n

Absent-iota_from : (x i n : ℕ) → x < i → Absent x (iota_from i n)
unfolding iota_from
Absent-iota_from x i zero h = tt
Absent-iota_from x i (suc n) h =
    (λ e. absurd (omega arith), Absent-iota_from x (suc i) n (omega arith))

pub Distinct-iota_from : (i n : ℕ) → Distinct (iota_from i n)
unfolding iota_from
Distinct-iota_from i zero = tt
Distinct-iota_from i (suc n) =
    (Absent-iota_from i (suc i) n (omega arith), Distinct-iota_from (suc i) n)

pub length-iota_from : (i n : ℕ) → length (iota_from i n) ≡ n
unfolding iota_from
length-iota_from i zero = refl
length-iota_from i (suc n) = ap suc (length-iota_from (suc i) n)

pub Clear-const : (xs : List ℕ) → Clear (λ x. none) xs
Clear-const [] = tt
Clear-const (x ∷ xs) = (refl, Clear-const xs)

-- Only the node `x` changes.
pub Clear-frame :
    (keyed keyed' : ℕ → Option ℕ) (x : ℕ) (xs : List ℕ)
    → ((y : ℕ) → y ≢ x → keyed' y ≡ keyed y)
    → Absent x xs
    → Clear keyed xs
    → Clear keyed' xs
Clear-frame keyed keyed' x [] same a c = tt
Clear-frame keyed keyed' x (y ∷ xs) same a c =
    (same y (λ e. a.0 (sym e)) ∙ c.0, Clear-frame keyed keyed' x xs same a.1 c.1)

pub Absent-of_Clear :
    (keyed : ℕ → Option ℕ) (x k : ℕ) (xs : List ℕ) → keyed x ≡ some k → Clear keyed xs → Absent x xs
Absent-of_Clear keyed x k [] e c = tt
Absent-of_Clear keyed x k (y ∷ xs) e c =
    (λ p. ground (arith, ap keyed p), Absent-of_Clear keyed x k xs e c.1)

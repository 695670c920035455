-- ===== src/Cache/Lfu/Slots.antt =====
-- The slots in use as a set: what `splice` and the steps of `openSlotListEnd` do to it.
use foo.Prelude.{
  ℕ, ◌+◌, ◌≡◌, ◌≢◌, refl, sym, true, false, some, List, [], ◌∷◌, ◌++◌, arith, ◌==◌, if◌then◌else◌,
  length, Bool-cases, inl, inr,
}
use foo.Cache.Cells.{Cell, remove, Absent, Distinct, nodes, node_of}
use foo.Cache.Lru.{back}
use foo.Cache.Lru.Lists.{AllAbsent}
use foo.Cache.Lfu.Placed.{has, place_cell, Absent-nodes_place}

pub has_of_Absent : (x : ℕ) (xs : List ℕ) → Absent x xs → has x xs ≡ false
unfolding has
has_of_Absent x [] a = refl
has_of_Absent x (y ∷ xs) a = ground (arith, a.0, has_of_Absent x xs a.1)

pub Absent-of_has : (x : ℕ) (xs : List ℕ) → has x xs ≡ false → Absent x xs
unfolding has
Absent-of_has x [] e = tt
Absent-of_has x (y ∷ xs) e = (ground arith, Absent-of_has x xs (ground arith))

Absent-remove : (y x : ℕ) (xs : List ℕ) → Absent y xs → Absent y (remove x xs)
unfolding remove
Absent-remove y x [] a = tt
Absent-remove y x (z ∷ xs) a = elim (Bool-cases (x == z)) [
  | inl e ↦ rw e a.1
  | inr e ↦ rw e (a.0, Absent-remove y x xs a.1)
]

pub Distinct-remove : (x : ℕ) (xs : List ℕ) → Distinct xs → Distinct (remove x xs)
unfolding remove
Distinct-remove x [] d = tt
Distinct-remove x (z ∷ xs) d = elim (Bool-cases (x == z)) [
  | inl e ↦ rw e d.1
  | inr e ↦ rw e (Absent-remove z x xs d.0, Distinct-remove x xs d.1)
]

pub has-remove :
    (y x : ℕ) (xs : List ℕ)
    → Distinct xs
    → has y (remove x xs) ≡ (if y == x then false else has y xs)
unfolding has remove
has-remove y x [] d = ground arith
has-remove y x (z ∷ xs) d = ground (arith, has-remove y x xs d.1, has_of_Absent z xs d.0)

pub has-append :
    (y : ℕ) (xs : List ℕ) (x : ℕ) → has y (xs ++ x ∷ []) ≡ (if y == x then true else has y xs)
unfolding has
has-append y [] x = ground arith
has-append y (z ∷ xs) x = ground (arith, has-append y xs x)

pub length-remove : (x : ℕ) (xs : List ℕ) → has x xs ≡ true → length (remove x xs) + 1 ≡ length xs
unfolding has remove
length-remove x [] e = absurd cc
length-remove x (y ∷ xs) e = ground (arith, length-remove x xs)

Absent-last : (y : ℕ) (xs : List ℕ) (x : ℕ) → y ≢ x → Absent y xs → Absent y (xs ++ x ∷ [])
Absent-last y [] x n a = (n, tt)
Absent-last y (z ∷ xs) x n a = (a.0, Absent-last y xs x n a.1)

pub Distinct-last : (xs : List ℕ) (x : ℕ) → Absent x xs → Distinct xs → Distinct (xs ++ x ∷ [])
Distinct-last [] x a d = (tt, tt)
Distinct-last (y ∷ xs) x a d =
    (Absent-last y xs x (λ e. a.0 (sym e)) d.0, Distinct-last xs x a.1 d.1)

pub back-some : (x : ℕ) (xs : List ℕ) → has x xs ≡ true → (last : ℕ) × (back xs ≡ some last)
unfolding has back
back-some x [] e = absurd cc
back-some x (y ∷ []) e = (y, refl)
back-some x (y ∷ z ∷ xs) e = some_last z xs
  where
    some_last : (z : ℕ) (xs : List ℕ) → (last : ℕ) × (back (z ∷ xs) ≡ some last)
    some_last z [] = (z, refl)
    some_last z (w ∷ xs) = some_last w xs

module _ {V : Type 0} where
  pub has-node_of : (k x : ℕ) (cs : List (Cell V)) → node_of k cs ≡ some x → has x (nodes cs) ≡ true
  unfolding has node_of
  has-node_of k x [] e = absurd cc
  has-node_of k x ((y, j, v) ∷ cs) e = ground (arith, has-node_of k x cs)

  pub AllAbsent-place_cell :
      (x k c : ℕ) (v : V) (xs : List ℕ) (cs : List (Cell (ℕ × V)))
      → Absent x xs
      → AllAbsent xs (nodes cs)
      → AllAbsent xs (nodes (place_cell x k c v cs))
  AllAbsent-place_cell x k c v [] cs a h = tt
  AllAbsent-place_cell x k c v (y ∷ xs) cs a h = (
    Absent-nodes_place x k c v y cs (λ e. a.0 (sym e)) h.0,
    AllAbsent-place_cell x k c v xs cs a.1 h.1,
  )

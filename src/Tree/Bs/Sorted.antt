-- ===== src/Tree/Bs/Sorted.antt =====
-- What the binary search tree promises: a multiset of keys as a sorted list.
use foo.Prelude.{◌≡◌, true, false, List, [], ◌∷◌, ◌++◌, arith, if◌then◌else◌, Bool-cases, inl, inr}
use foo.Heap.Compare.{Sign, is_neg, is_same, Le}
use foo.Tree.Avl.Sorted.{IsStrict}

module _ {K : Type 0} (cmp : K → K → Sign) where
  -- A new key comes after the keys that compare as equal.
  unfoldable pub insert_key : K → List K → List K
  insert_key k [] = k ∷ []
  insert_key k (x ∷ xs) =
      let rest = insert_key k xs in if is_neg (cmp k x) then k ∷ (x ∷ xs) else x ∷ rest

  -- `x` is at or before every key of the list.
  abbrev pub AllFrom : K → List K → Type 0
  AllFrom x [] = Unit {0}
  AllFrom x (y ∷ ys) = Le cmp x y × AllFrom x ys

  -- Every key of the list is at or before `x`.
  abbrev pub AllTo : List K → K → Type 0
  AllTo [] x = Unit {0}
  AllTo (y ∷ ys) x = Le cmp y x × AllTo ys x

  -- No key of the list compares as equal to `k`.
  abbrev pub AllDiffer : List K → K → Type 0
  AllDiffer [] k = Unit {0}
  AllDiffer (y ∷ ys) k = (is_same (cmp y k) ≡ false) × AllDiffer ys k

  abbrev pub IsSorted : List K → Type 0
  IsSorted [] = Unit {0}
  IsSorted (x ∷ xs) = AllFrom x xs × IsSorted xs

  AllFrom-left : (x : K) (xs : List K) (ys : List K) → AllFrom x (xs ++ ys) → AllFrom x xs
  AllFrom-left x [] ys h = tt
  AllFrom-left x (y ∷ xs) ys h = (h.0, AllFrom-left x xs ys h.1)

  AllFrom-middle :
      (x : K) (xs : List K) (y : K) (ys : List K) → AllFrom x (xs ++ y ∷ ys) → Le cmp x y
  AllFrom-middle x [] y ys h = h.0
  AllFrom-middle x (z ∷ xs) y ys h = AllFrom-middle x xs y ys h.1

  pub IsSorted-split :
      (xs : List K) (y : K) (ys : List K)
      → IsSorted (xs ++ y ∷ ys)
      → AllTo xs y × IsSorted xs × AllFrom y ys × IsSorted ys
  IsSorted-split [] y ys h = (tt, tt, h.0, h.1)
  IsSorted-split (x ∷ xs) y ys h =
      let s = IsSorted-split xs y ys h.1 in
      ((AllFrom-middle x xs y ys h.0, s.0), (AllFrom-left x xs (y ∷ ys) h.0, s.1), s.2, s.3)

  pub insert_key-left :
      (k : K) (xs : List K) (y : K) (ys : List K)
      → is_neg (cmp k y) ≡ true
      → insert_key k (xs ++ y ∷ ys) ≡ insert_key k xs ++ y ∷ ys
  unfolding insert_key
  insert_key-left k [] y ys h = ground arith
  insert_key-left k (x ∷ xs) y ys h = ground (arith, insert_key-left k xs y ys h)

  module _ (o : IsStrict cmp) where
    -- Keys before `y` stay before a key that is not before `y`.
    not_neg : (k x y : K) → Le cmp x y → is_neg (cmp k y) ≡ false → is_neg (cmp k x) ≡ false
    not_neg k x y p q = ground (arith, o.trans k x y, o.neg_same k x y)

    pub insert_key-right :
        (k : K) (xs : List K) (y : K) (ys : List K)
        → AllTo xs y
        → is_neg (cmp k y) ≡ false
        → insert_key k (xs ++ y ∷ ys) ≡ xs ++ y ∷ insert_key k ys
    unfolding insert_key
    insert_key-right k [] y ys b h = ground arith
    insert_key-right k (x ∷ xs) y ys b h =
        ground (arith, not_neg k x y b.0 h, insert_key-right k xs y ys b.1 h)

    AllFrom-insert_key :
        (x k : K) (xs : List K) → Le cmp x k → AllFrom x xs → AllFrom x (insert_key k xs)
    unfolding insert_key
    AllFrom-insert_key x k [] p h = (p, tt)
    AllFrom-insert_key x k (y ∷ xs) p h = ground (arith, AllFrom-insert_key x k xs p h.1)

    neg-Le : (k x y : K) → is_neg (cmp k x) ≡ true → Le cmp x y → Le cmp k y
    neg-Le k x y p q = ground (arith, o.trans k x y, o.neg_same k x y)

    AllFrom-neg : (k x : K) (xs : List K) → is_neg (cmp k x) ≡ true → AllFrom x xs → AllFrom k xs
    AllFrom-neg k x [] p h = tt
    AllFrom-neg k x (y ∷ xs) p h = (neg-Le k x y p h.0, AllFrom-neg k x xs p h.1)

    pub insert_key-IsSorted : (k : K) (xs : List K) → IsSorted xs → IsSorted (insert_key k xs)
    unfolding insert_key
    insert_key-IsSorted k [] h = (tt, tt)
    insert_key-IsSorted k (x ∷ xs) h = elim (Bool-cases (is_neg (cmp k x))) [
      | inl e ↦ rw e ((ground arith, AllFrom-neg k x xs e h.0), h)
      | inr e ↦ rw e (
        AllFrom-insert_key x k xs (ground (arith, o.swapped k x)) h.0,
        insert_key-IsSorted k xs h.1,
      )
    ]

    -- A key that is before `y` differs from every key that `y` is at or before.
    pub AllDiffer-from :
        (k y : K) (ys : List K) → is_neg (cmp k y) ≡ true → AllFrom y ys → AllDiffer ys k
    AllDiffer-from k y [] p h = tt
    AllDiffer-from k y (z ∷ ys) p h = (
      ground (arith, o.trans k y z, o.neg_same k y z, o.swapped k z),
      AllDiffer-from k y ys p h.1,
    )

    pub AllDiffer-to :
        (k y : K) (ys : List K)
        → is_neg (cmp k y) ≡ false
        → is_same (cmp y k) ≡ false
        → AllTo ys y
        → AllDiffer ys k
    AllDiffer-to k y [] p q h = tt
    AllDiffer-to k y (z ∷ ys) p q h = (
      ground (arith, o.trans z y k, o.neg_same y k z, o.swapped y k, o.swapped z k, o.swapped z y),
      AllDiffer-to k y ys p q h.1,
    )

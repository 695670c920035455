-- ===== src/Tree/Avl/Sorted.antt =====
-- What the AVL tree promises: a set of keys as an ascending list.
use foo.Prelude.{◌≡◌, refl, ap, ◌∙◌, Bool, true, false, List, [], ◌∷◌, ◌++◌, arith, if◌then◌else◌}
use foo.Heap.Compare.{Sign, neg, same, pos, is_pos, is_neg}

-- The sign of the swapped comparison.
abbrev pub opposite : Sign → Sign
opposite neg = pos
opposite same = same
opposite pos = neg

-- What is asked of a compare function: it is a strict order up to equivalence.
pub record IsStrict {K : Type 0} (cmp : K → K → Sign) : Type 0 where
  pub swapped : (a b : K) → cmp b a ≡ opposite (cmp a b)
  pub trans : (a b c : K) → cmp a b ≡ neg → cmp b c ≡ neg → cmp a c ≡ neg
  pub neg_same : (a b c : K) → cmp a b ≡ neg → cmp b c ≡ same → cmp a c ≡ neg

pub compare_self : {K : Type 0} (cmp : K → K → Sign) → IsStrict cmp → (a : K) → cmp a a ≡ same
compare_self cmp o a = go (cmp a a) (o.swapped a a)
  where
    go : (s : Sign) → s ≡ opposite s → s ≡ same
    go neg e = cc
    go same e = refl
    go pos e = cc

module _ {K : Type 0} (cmp : K → K → Sign) where
  unfoldable pub insert_key : K → List K → List K
  insert_key k [] = k ∷ []
  insert_key k (x ∷ xs) =
      if is_neg (cmp k x)
      then k ∷ (x ∷ xs)
      else if is_pos (cmp k x)
      then x ∷ insert_key k xs
      else x ∷ xs

  unfoldable pub remove_key : K → List K → List K
  remove_key k [] = []
  remove_key k (x ∷ xs) =
      if is_neg (cmp k x) then x ∷ xs else if is_pos (cmp k x) then x ∷ remove_key k xs else xs

  unfoldable pub find_key : K → List K → Bool
  find_key k [] = false
  find_key k (x ∷ xs) =
      if is_neg (cmp k x) then false else if is_pos (cmp k x) then find_key k xs else true

  -- `k` comes before every key of the list.
  abbrev pub AllAfter : K → List K → Type 0
  AllAfter k [] = Unit {0}
  AllAfter k (x ∷ xs) = (cmp k x ≡ neg) × AllAfter k xs

  -- `k` comes after every key of the list.
  abbrev pub AllBefore : K → List K → Type 0
  AllBefore k [] = Unit {0}
  AllBefore k (x ∷ xs) = (cmp k x ≡ pos) × AllBefore k xs

  abbrev pub IsAscending : List K → Type 0
  IsAscending [] = Unit {0}
  IsAscending (x ∷ xs) = AllAfter x xs × IsAscending xs

  pub insert_key-before :
      (k y : K) (xs ys : List K)
      → cmp k y ≡ neg
      → insert_key k (xs ++ (y ∷ ys)) ≡ insert_key k xs ++ (y ∷ ys)
  unfolding insert_key
  insert_key-before k y [] ys h = rw h
  insert_key-before k y (x ∷ xs) ys h = ground (arith, insert_key-before k y xs ys h)

  pub insert_key-after :
      (k : K) (xs zs : List K) → AllBefore k xs → insert_key k (xs ++ zs) ≡ xs ++ insert_key k zs
  unfolding insert_key
  insert_key-after k [] zs h = refl
  insert_key-after k (x ∷ xs) zs h = rw h.0 (ap (λ l. x ∷ l) (insert_key-after k xs zs h.1))

  pub remove_key-before :
      (k y : K) (xs ys : List K)
      → cmp k y ≡ neg
      → remove_key k (xs ++ (y ∷ ys)) ≡ remove_key k xs ++ (y ∷ ys)
  unfolding remove_key
  remove_key-before k y [] ys h = rw h
  remove_key-before k y (x ∷ xs) ys h = ground (arith, remove_key-before k y xs ys h)

  pub remove_key-after :
      (k : K) (xs zs : List K) → AllBefore k xs → remove_key k (xs ++ zs) ≡ xs ++ remove_key k zs
  unfolding remove_key
  remove_key-after k [] zs h = refl
  remove_key-after k (x ∷ xs) zs h = rw h.0 (ap (λ l. x ∷ l) (remove_key-after k xs zs h.1))

  pub find_key-before :
      (k y : K) (xs ys : List K) → cmp k y ≡ neg → find_key k (xs ++ (y ∷ ys)) ≡ find_key k xs
  unfolding find_key
  find_key-before k y [] ys h = rw h
  find_key-before k y (x ∷ xs) ys h = ground (arith, find_key-before k y xs ys h)

  pub find_key-after :
      (k : K) (xs zs : List K) → AllBefore k xs → find_key k (xs ++ zs) ≡ find_key k zs
  unfolding find_key
  find_key-after k [] zs h = refl
  find_key-after k (x ∷ xs) zs h = rw h.0 (find_key-after k xs zs h.1)

  AllAfter-insert_key :
      (x k : K) (xs : List K) → cmp x k ≡ neg → AllAfter x xs → AllAfter x (insert_key k xs)
  unfolding insert_key
  AllAfter-insert_key x k [] h a = (h, tt)
  AllAfter-insert_key x k (y ∷ ys) h a = ground (arith, AllAfter-insert_key x k ys h a.1)

  AllAfter-remove_key : (x k : K) (xs : List K) → AllAfter x xs → AllAfter x (remove_key k xs)
  unfolding remove_key
  AllAfter-remove_key x k [] a = tt
  AllAfter-remove_key x k (y ∷ ys) a = ground (arith, AllAfter-remove_key x k ys a.1)

  AllAfter-trans :
      IsStrict cmp → (x y : K) (ys : List K) → cmp x y ≡ neg → AllAfter y ys → AllAfter x ys
  AllAfter-trans o x y [] h a = tt
  AllAfter-trans o x y (z ∷ zs) h a = (o.trans x y z h a.0, AllAfter-trans o x y zs h a.1)

  pub insert_key-IsAscending :
      IsStrict cmp → (k : K) (xs : List K) → IsAscending xs → IsAscending (insert_key k xs)
  unfolding insert_key
  insert_key-IsAscending o k [] v = (tt, tt)
  insert_key-IsAscending o k (x ∷ xs) v = go (cmp k x) refl (insert_key-IsAscending o k xs v.1)
    where
      go :
          (s : Sign)
          → cmp k x ≡ s
          → IsAscending (insert_key k xs)
          → IsAscending
              (if is_neg s then k ∷ (x ∷ xs) else if is_pos s then x ∷ insert_key k xs else x ∷ xs)
      go neg e ih = ((e, AllAfter-trans o k x xs e v.0), v)
      go same e ih = v
      go pos e ih = (AllAfter-insert_key x k xs (o.swapped k x ∙ ap opposite e) v.0, ih)

  pub remove_key-IsAscending :
      (k : K) (xs : List K) → IsAscending xs → IsAscending (remove_key k xs)
  unfolding remove_key
  remove_key-IsAscending k [] v = tt
  remove_key-IsAscending k (x ∷ xs) v =
      ground (arith, AllAfter-remove_key x k xs v.0, remove_key-IsAscending k xs v.1)

  -- The parts of an ascending list, and what comes before the key in the middle.
  AllAfter-append_left : (x : K) (xs zs : List K) → AllAfter x (xs ++ zs) → AllAfter x xs
  AllAfter-append_left x [] zs a = tt
  AllAfter-append_left x (y ∷ ys) zs a = (a.0, AllAfter-append_left x ys zs a.1)

  AllAfter-append_middle : (x y : K) (xs ys : List K) → AllAfter x (xs ++ (y ∷ ys)) → cmp x y ≡ neg
  AllAfter-append_middle x y [] ys a = a.0
  AllAfter-append_middle x y (z ∷ zs) ys a = AllAfter-append_middle x y zs ys a.1

  pub IsAscending-left : (xs zs : List K) → IsAscending (xs ++ zs) → IsAscending xs
  IsAscending-left [] zs v = tt
  IsAscending-left (x ∷ xs) zs v = (AllAfter-append_left x xs zs v.0, IsAscending-left xs zs v.1)

  pub IsAscending-right :
      (xs : List K) (y : K) (ys : List K) → IsAscending (xs ++ (y ∷ ys)) → IsAscending ys
  IsAscending-right [] y ys v = v.1
  IsAscending-right (x ∷ xs) y ys v = IsAscending-right xs y ys v.1

  pub AllBefore-of_not_neg :
      IsStrict cmp
      → (k y : K) (xs ys : List K) → IsAscending (xs ++ (y ∷ ys))
      → is_neg (cmp k y) ≡ false
      → AllBefore k xs
  AllBefore-of_not_neg o k y [] ys v h = tt
  AllBefore-of_not_neg o k y (x ∷ xs) ys v h = (
    o.swapped x k ∙ ap opposite (under (cmp k y) refl h (AllAfter-append_middle x y xs ys v.0)),
    AllBefore-of_not_neg o k y xs ys v.1 h,
  )
    where
      under : (s : Sign) → cmp k y ≡ s → is_neg s ≡ false → cmp x y ≡ neg → cmp x k ≡ neg
      under neg e n q = cc
      under same e n q = o.neg_same x y k q (o.swapped k y ∙ ap opposite e)
      under pos e n q = o.trans x y k q (o.swapped k y ∙ ap opposite e)

  pub remove_key-absent : (key : K) (xs : List K) → find_key key xs ≡ false → remove_key key xs ≡ xs
  unfolding find_key remove_key
  remove_key-absent key [] e = refl
  remove_key-absent key (x ∷ xs) e = ground (arith, remove_key-absent key xs)

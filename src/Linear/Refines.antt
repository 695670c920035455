-- ===== src/Linear/Refines.antt =====
-- The operations on lists of nodes do what they say on the elements.
use foo.Prelude.{
  ℕ, zero, suc, ◌+◌, ◌-◌, ◌≤◌, ◌<◌, ◌≡◌, ◌≢◌, ◌⊎◌, refl, sym, ap, ◌∙◌, subst, arith, Bool, true,
  false, Option, none, some, ltb, Bool-cases, inl, inr, update_eq,
}
use foo.Prelude.Int.{ℤ, pos, negsuc}
use foo.Cache.Interface.{◌>>=◌}
use foo.Linear.{
  Store, int_max, get_node, create_node, create, insert_first, insert_last, insert_before, insert,
  remove, remove_first, get_first, pop,
}
use foo.Linear.Stack
use foo.Linear.Ring.{IsList, apart_after}
use foo.Linear.Walk.{get_node-inside, get_node-outside, get-inside, get-outside}
use foo.Linear.Insert.{
  insert_at, linked, linked-Ring, away, away_after, link_first-linked, link_last-linked,
  link_before-linked,
}
use foo.Linear.Remove.{remove_at, unlinked, unlinked-Ring, unlink-unlinked}

pos-injective : {i j : ℕ} → pos i ≡ pos j → i ≡ j
pos-injective e = cc

module _ {V : Type 0} where
  -- The operation succeeds, and the list has these elements then.
  abbrev pub Succeeds : Option (Store V × Bool) → ℕ → ℕ → (ℕ → Option V) → Type 0
  Succeeds result head n element =
      (s : Store V) × (result ≡ some (s, true)) × IsList s head n element

  module _ (s : Store V) (head n : ℕ) (element : ℕ → Option V) (h : IsList s head n element)
      (v : Option V) (a : ℕ) (fresh : s.next a ≡ none) where
    pub insert_first-IsList :
        Succeeds (insert_first s (some head) v (some a)) head (n + 1) (insert_at 0 v element)
    unfolding insert_first
    insert_first-IsList =
        let (node, r) = h in
        let next = r.forth 0 (omega arith) in
        let prev = r.back 0 (omega arith) in
        let m = away s head n node element r a v fresh 0 (omega arith) in
        let k = away_after s head n node element r a v fresh 0 (omega arith) in
        (
          linked a v (node 0) (node 1) s,
          rw (sym r.start, link_first-linked s a (node 0) (node 1) v next prev m k) refl,
          (insert_at 1 a node, linked-Ring s head n node element r a v fresh 0 (omega arith)),
        )

    pub insert_last-IsList :
        Succeeds (insert_last s (some head) v (some a)) head (n + 1) (insert_at n v element)
    unfolding insert_last
    insert_last-IsList =
        let (node, r) = h in
        let next = r.forth n (omega arith) in
        let prev = r.back n (omega arith) in
        let m = away s head n node element r a v fresh n (omega arith) in
        let k = away_after s head n node element r a v fresh n (omega arith) in
        (
          linked a v (node n) (node (n + 1)) s,
          rw (sym r.close, link_last-linked s a (node n) (node (n + 1)) v next prev m k) refl,
          (insert_at (n + 1) a node, linked-Ring s head n node element r a v fresh n (omega arith)),
        )

    insert-pos :
        (fuel i : ℕ)
        → n ≤ int_max
        → n < fuel
        → (((i < n) ⊎ (i ≡ 0))
            × Succeeds
                (insert fuel s (some head) (pos i) v (some a))
                head
                (n + 1)
                (insert_at i v element))
          ⊎ ((0 < i) × (n ≤ i) × (insert fuel s (some head) (pos i) v (some a) ≡ some (s, false)))
    unfolding insert insert_before
    insert-pos fuel zero b f = inl (inr refl, insert_first-IsList)
    insert-pos fuel (suc i) b f = elim (Bool-cases (ltb (suc i) n)) [
      | inr e ↦
          let (node, r) = h in
          let outside : n ≤ suc i = ground arith in
          inr (
            omega arith,
            outside,
            rw (get_node-outside s head n node element r fuel (suc i) b f outside) refl,
          )
      | inl e ↦
          let (node, r) = h in
          let inside : suc i < n = ground arith in
          let next = r.forth (suc i) (omega arith) in
          let prev = r.back (suc i) (omega arith) in
          let m = away s head n node element r a v fresh (suc i) (omega arith) in
          let k = away_after s head n node element r a v fresh (suc i) (omega arith) in
          inl (
            inl inside,
            (
              linked a v (node (suc i)) (node (suc i + 1)) s,
              rw
                  (
                    get_node-inside s head n node element r fuel (suc i) b f inside,
                    ◌>>=◌,
                    link_before-linked s a (node (suc i)) (node (suc i + 1)) v next prev m k,
                  )
                  refl,
              (
                insert_at (suc i + 1) a node,
                linked-Ring s head n node element r a v fresh (suc i) (omega arith),
              ),
            ),
          )
    ]

    -- insert into a doubly linked list of less than 2 ^ 31 elements, with memory for a node and
    -- enough fuel, uses only allocated nodes; at an index from 0 to below the size, or 0, it
    -- succeeds, and the list has the elements with the new one at that index; at any other index,
    -- also a negative one, it fails and changes nothing.
    pub insert-IsList :
        (fuel : ℕ) (index : ℤ)
        → n ≤ int_max
        → n < fuel
        → ((i : ℕ) × (index ≡ pos i)
            × ((i < n) ⊎ (i ≡ 0))
            × Succeeds
                (insert fuel s (some head) index v (some a))
                head
                (n + 1)
                (insert_at i v element))
          ⊎ (((i : ℕ) → index ≡ pos i → (0 < i) × (n ≤ i))
              × (insert fuel s (some head) index v (some a) ≡ some (s, false)))
    unfolding insert insert_before get_node
    insert-IsList fuel (pos i) b f = elim (insert-pos fuel i b f) [
      | inl (c, d) ↦ inl (i, refl, c, d)
      | inr (c, d, e) ↦ inr (
        λ j g. (subst (λ k. 0 < k) (pos-injective g) c, subst (λ k. n ≤ k) (pos-injective g) d),
        e,
      )
    ]
    insert-IsList fuel (negsuc i) b f = inr (λ j g. absurd cc, refl)

  module _ (s : Store V) (head n : ℕ) (element : ℕ → Option V) (h : IsList s head n element)
      (fuel : ℕ) (b : n ≤ int_max) (f : n < fuel) where
    remove-pos :
        (i : ℕ)
        → ((i < n)
            × Succeeds (remove fuel s (some head) (pos i)) head (n - 1) (remove_at i element))
          ⊎ ((n ≤ i) × (remove fuel s (some head) (pos i) ≡ some (s, false)))
    unfolding remove
    remove-pos i = elim (Bool-cases (ltb i n)) [
      | inr e ↦
          let (node, r) = h in
          let outside : n ≤ i = ground arith in
          inr (outside, rw (get_node-outside s head n node element r fuel i b f outside) refl)
      | inl e ↦
          let (node, r) = h in
          let inside : i < n = ground arith in
          let index : i + 1 + 1 ≡ i + 2 = omega arith in
          let next = r.forth (i + 1) (omega arith) ∙ ap (λ j. some (node j)) index in
          let prev = ap (λ j. s.prev (node j)) (sym index) ∙ r.back (i + 1) (omega arith) in
          let m : node i ≢ node (i + 1) =
            λ c. absurd (omega (arith, r.apart i (i + 1) (omega arith) (omega arith) c)) in
          let k : node (i + 2) ≢ node (i + 1) = λ c.
            apart_after s head n node element r (i + 1) i (omega arith) (omega arith) (omega arith)
              (ap node index ∙ c) in
          inl (
            inside,
            (
              unlinked (node (i + 1)) (node i) (node (i + 2)) s,
              rw
                  (
                    get_node-inside s head n node element r fuel i b f inside,
                    ◌>>=◌,
                    unlink-unlinked s (node (i + 1)) (node i) (node (i + 2)) next
                        (r.back i (omega arith)) (r.forth i (omega arith)) prev m k,
                  )
                  refl,
              (remove_at (i + 1) node, unlinked-Ring s head n node element r i inside),
            ),
          )
    ]

    -- remove from a doubly linked list of less than 2 ^ 31 elements, with enough fuel, uses and
    -- deletes only allocated nodes; at an index from 0 to below the size it succeeds, and the list
    -- has the elements without the one at that index; at any other index, also a negative one, it
    -- fails and changes nothing.
    pub remove-IsList :
        (index : ℤ)
        → ((i : ℕ) × (index ≡ pos i)
            × (i < n)
            × Succeeds (remove fuel s (some head) index) head (n - 1) (remove_at i element))
          ⊎ (((i : ℕ) → index ≡ pos i → n ≤ i)
              × (remove fuel s (some head) index ≡ some (s, false)))
    unfolding remove get_node
    remove-IsList (pos i) = elim (remove-pos i) [
      | inl (c, d) ↦ inl (i, refl, c, d)
      | inr (c, e) ↦ inr (λ j g. subst (λ k. n ≤ k) (pos-injective g) c, e)
    ]
    remove-IsList (negsuc i) = inr (λ j g. absurd cc, refl)

    -- pop of a queue or a stack of less than 2 ^ 31 elements, with enough fuel, returns null and
    -- changes nothing if it is empty, and else returns the first element and leaves the others in
    -- their order.
    pub pop_takes_first :
        ((n ≡ 0) × (pop fuel s (some head) ≡ some (s, none)))
        ⊎ ((0 < n)
            × (s' : Store V) × (pop fuel s (some head) ≡ some (s', element 0))
            × IsList s' head (n - 1) (remove_at 0 element))
    unfolding pop get_first remove_first
    pop_takes_first = elim (remove-pos 0) [
      | inr (c, e) ↦
          let (node, r) = h in
          inl (omega arith, rw (get-outside s head n node element r fuel 0 b f c, ◌>>=◌, e) refl)
      | inl (c, (s', e, l)) ↦
          let (node, r) = h in
          inr (c, s', rw (get-inside s head n node element r fuel 0 b f c, ◌>>=◌, e) refl, l)
    ]

  IsList-ext :
      (s : Store V) (head n : ℕ) (f g : ℕ → Option V)
      → ((i : ℕ) → i < n → f i ≡ g i)
      → IsList s head n f
      → IsList s head n g
  IsList-ext s head n f g e (node, r) = (
    node,
    record {
      start = r.start;
      close = r.close;
      forth = r.forth;
      back = r.back;
      apart = r.apart;
      held = λ i h. r.held i h ∙ ap some (e i h);
    },
  )

  pub create-IsList :
      (s : Store V) (a : ℕ) (element : ℕ → Option V)
      → ((create (some a) s).1 ≡ some a) × IsList (create (some a) s).0 a 0 element
  unfolding create create_node
  create-IsList s a element = (
    refl,
    (
      λ i. a,
      record {
        start = refl;
        close = refl;
        forth = λ i h. update_eq s.next a (some a);
        back = λ i h. update_eq s.prev a (some a);
        apart = λ i j h k e. omega arith;
        held = λ i h. absurd (omega arith);
      },
    ),
  )

  -- After push on a stack of less than 2 ^ 31 elements with the new one, with memory for a node
  -- and enough fuel, pop returns the value that was pushed, and the stack has the elements that it
  -- had before.
  pub push-pop :
      (s : Store V) (head n : ℕ) (element : ℕ → Option V) (fuel : ℕ) (v : Option V) (a : ℕ)
      → IsList s head n element
      → s.next a ≡ none
      → n + 1 ≤ int_max
      → n + 1 < fuel
      → (s1 : Store V) × (Stack.push s (some head) v (some a) ≡ some (s1, true))
        × (s2 : Store V) × (Stack.pop fuel s1 (some head) ≡ some (s2, v))
        × IsList s2 head n element
  push-pop s head n element fuel v a h fresh b f =
      let (s1, e, l) = insert_first-IsList s head n element h v a fresh in
      elim (pop_takes_first s1 head (n + 1) (insert_at 0 v element) l fuel b f) [
        | inl (c, d) ↦ absurd (omega arith)
        | inr (c, s2, d, k) ↦
            let size : n + 1 - 1 ≡ n = omega arith in
            (
              s1,
              e,
              s2,
              d,
              IsList-ext s2 head n (remove_at 0 (insert_at 0 v element)) element
                  (λ i b. shifted element v i)
                  (subst (λ m. IsList s2 head m (remove_at 0 (insert_at 0 v element))) size k),
            )
      ]
    where
      shifted :
          (element : ℕ → Option V) (v : Option V) (i : ℕ)
          → remove_at 0 (insert_at 0 v element) i ≡ element i
      shifted element v i = ground (arith, ap element (back i))
        where
          back : (i : ℕ) → i + 1 - 1 ≡ i
          back i = omega arith

-- ===== src/Linear/Insert.antt =====
-- A new node in a ring.
use foo.Prelude.{
  ℕ, ◌+◌, ◌-◌, ◌≤◌, ◌≡◌, ◌≢◌, refl, sym, ap, ◌∙◌, arith, Option, none, some, ltb, ◌==◌,
  if◌then◌else◌, Bool-cases, inl, inr, update, update_eq,
}
use foo.Cache.Interface.{◌>>=◌}
use foo.Linear.{Store, write_prev, write_next, create_node, link_first, link_last, link_before}
use foo.Linear.Ring.{Ring, apart_after}

-- The elements with a new one at the index `i`.
abbrev pub insert_at : {A : Type 0} → ℕ → A → (ℕ → A) → ℕ → A
insert_at i v f j = if ltb j i then f j else if j == i then v else f (j - 1)

module _ {V : Type 0} where
  -- The store after the new node `a` is linked between `p` and `q`.
  unfoldable pub linked : ℕ → Option V → ℕ → ℕ → Store V → Store V
  linked a v p q s = record {
    prev = update (update (update s.prev a (some a)) a (some p)) q (some a);
    next = update (update (update s.next a (some a)) a (some q)) p (some a);
    value = update s.value a (some v);
  }

  module _ (s : Store V) (head n : ℕ) (node : ℕ → ℕ) (element : ℕ → Option V)
      (r : Ring s head n node element) (a : ℕ) (v : Option V) (fresh : s.next a ≡ none) where
    pub away : (i : ℕ) → i ≤ n → node i ≢ a
    away i h e = absurd (cc (r.forth i h, fresh, ap s.next e))

    pub away_after : (i : ℕ) → i ≤ n → node (i + 1) ≢ a
    away_after i h e = elim (Bool-cases (i == n)) [
      | inl c ↦
          let last : i ≡ n = ground arith in
          away 0 (omega arith) (r.start ∙ sym r.close ∙ ap (λ j. node (j + 1)) (sym last) ∙ e)
      | inr c ↦ away (i + 1) (ground arith) e
    ]

    -- The new node comes after the node `i`.
    pub linked-Ring :
        (i : ℕ)
        → i ≤ n
        → Ring
            (linked a v (node i) (node (i + 1)) s)
            head
            (n + 1)
            (insert_at (i + 1) a node)
            (insert_at i v element)
    unfolding linked
    linked-Ring i h = record {
      start = ground (arith, r.start);
      close = ground (arith, r.close);
      forth = λ j k.
          ground (
            arith,
            r.forth j,
            r.forth (j - 1),
            away j,
            away (j - 1),
            r.apart j i,
            r.apart (j - 1) i,
          );
      back = λ j k. ground (
        arith,
        r.back j,
        r.back (j - 1),
        away_after i h,
        away_after j,
        away_after (j - 1),
        apart_after s head n node element r j i,
        apart_after s head n node element r (j - 1) i,
      );
      apart = λ j k c d e. ground (
        arith,
        away j,
        away (j - 1),
        away k,
        away (k - 1),
        r.apart j k,
        r.apart (j - 1) (k - 1),
        r.apart (j - 1) k,
        r.apart j (k - 1),
      );
      held = λ j k. ground (arith, r.held j, r.held (j - 1), away_after j, away_after (j - 1));
    }

  pub write_prev_lem :
      (a b c : ℕ) (s : Store V)
      → s.prev a ≡ some c
      → write_prev a b s ≡ some (record s { prev = update s.prev a (some b) })
  unfolding write_prev
  write_prev_lem a b c s e =
      ap
        (λ o. elim o [ none ↦ none | some _ ↦ some (record s { prev = update s.prev a (some b) }) ])
        e

  pub write_next_lem :
      (a b c : ℕ) (s : Store V)
      → s.next a ≡ some c
      → write_next a b s ≡ some (record s { next = update s.next a (some b) })
  unfolding write_next
  write_next_lem a b c s e =
      ap
        (λ o. elim o [ none ↦ none | some _ ↦ some (record s { next = update s.next a (some b) }) ])
        e

  module _ (s : Store V) (a p q : ℕ) (v : Option V) (e : s.next p ≡ some q) (f : s.prev q ≡ some p)
      (m : p ≢ a) (n : q ≢ a) where
    abbrev made : Store V
    made = record {
      prev = update s.prev a (some a);
      next = update s.next a (some a);
      value = update s.value a (some v);
    }

    -- The new node points to its neighbours.
    abbrev joined : Store V
    joined = record made { prev = update made.prev a (some p); next = update made.next a (some q) }

    joined_next : joined.next p ≡ some q
    joined_next = ground (arith, e)

    joined_prev : joined.prev q ≡ some p
    joined_prev = ground (arith, f)

    pub link_first-linked : link_first a p (create_node a v s) ≡ some (linked a v p q s)
    unfolding link_first create_node linked
    link_first-linked =
        let backed = record made { prev = update made.prev a (some p) } in
        let w1 = write_prev_lem a p a made (update_eq s.prev a (some a)) in
        let r1 : backed.next p ≡ some q = ground (arith, e) in
        let w2 = write_next_lem a q a backed (update_eq s.next a (some a)) in
        let w3 = write_prev_lem q a p joined joined_prev in
        let w4 =
          write_next_lem p a q (record joined { prev = update joined.prev q (some a) })
            joined_next in
        rw (w1, ◌>>=◌, r1, w2, joined_next, w3, w4) refl

    pub link_last-linked : link_last a q (create_node a v s) ≡ some (linked a v p q s)
    unfolding link_last create_node linked
    link_last-linked =
        let ahead = record made { next = update made.next a (some q) } in
        let w1 = write_next_lem a q a made (update_eq s.next a (some a)) in
        let r1 : ahead.prev q ≡ some p = ground (arith, f) in
        let w2 = write_prev_lem a p a ahead (update_eq s.prev a (some a)) in
        let w3 = write_next_lem p a q joined joined_next in
        let w4 =
          write_prev_lem q a p (record joined { next = update joined.next p (some a) })
            joined_prev in
        rw (w1, ◌>>=◌, r1, w2, joined_prev, w3, w4) refl

    pub link_before-linked : link_before a q (create_node a v s) ≡ some (linked a v p q s)
    unfolding link_before create_node linked
    link_before-linked =
        let backed = record made { prev = update made.prev a (some p) } in
        let r0 : made.prev q ≡ some p = ground (arith, f) in
        let w1 = write_prev_lem a p a made (update_eq s.prev a (some a)) in
        let w2 = write_next_lem a q a backed (update_eq s.next a (some a)) in
        let w3 = write_next_lem p a q joined joined_next in
        let w4 =
          write_prev_lem q a p (record joined { next = update joined.next p (some a) })
            joined_prev in
        rw (r0, ◌>>=◌, w1, w2, joined_prev, w3, w4) refl

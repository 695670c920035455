-- ===== src/Linear/Remove.antt =====
-- A ring without one of its nodes.
use foo.Prelude.{
  ℕ, ◌+◌, ◌-◌, ◌<◌, ◌≡◌, ◌≢◌, refl, arith, Option, none, some, ltb, if◌then◌else◌, update,
}
use foo.Cache.Interface.{◌>>=◌}
use foo.Linear.{Store, delete_node, unlink}
use foo.Linear.Ring.{Ring, apart_after}
use foo.Linear.Insert.{write_prev_lem, write_next_lem}

-- The elements without the one at the index `i`.
abbrev pub remove_at : {A : Type 0} → ℕ → (ℕ → A) → ℕ → A
remove_at i f j = if ltb j i then f j else f (j + 1)

module _ {V : Type 0} where
  -- The store after the node `a` between `p` and `q` is unlinked and deleted.
  unfoldable pub unlinked : ℕ → ℕ → ℕ → Store V → Store V
  unlinked a p q s = record {
    prev = update (update s.prev q (some p)) a none;
    next = update (update s.next p (some q)) a none;
    value = update s.value a none;
  }

  pub unlink-unlinked :
      (s : Store V) (a p q : ℕ)
      → s.next a ≡ some q
      → s.prev a ≡ some p
      → s.next p ≡ some a
      → s.prev q ≡ some a
      → p ≢ a
      → q ≢ a
      → unlink a s ≡ some (unlinked a p q s)
  unfolding unlink unlinked delete_node
  unlink-unlinked s a p q e f g h m n =
      let bridged = record s { prev = update s.prev q (some p) } in
      let w1 = write_prev_lem q p a s h in
      let r1 : bridged.prev a ≡ some p = ground (arith, f) in
      let w2 = write_next_lem p q a bridged g in
      let bridged2 = record bridged { next = update bridged.next p (some q) } in
      let r2 : bridged2.next a ≡ some q = ground (arith, e) in
      rw (e, f, ◌>>=◌, w1, r1, e, w2, delete_node, r2) refl

  module _ (s : Store V) (head n : ℕ) (node : ℕ → ℕ) (element : ℕ → Option V)
      (r : Ring s head n node element) where
    pub unlinked-Ring :
        (i : ℕ)
        → i < n
        → Ring
            (unlinked (node (i + 1)) (node i) (node (i + 2)) s)
            head
            (n - 1)
            (remove_at (i + 1) node)
            (remove_at i element)
    unfolding unlinked
    unlinked-Ring i h = record {
      start = ground (arith, r.start);
      close = ground (arith, r.close);
      forth = λ j k. ground (
        arith,
        r.forth j,
        r.forth (j + 1),
        r.apart j i,
        r.apart j (i + 1),
        r.apart (j + 1) i,
        r.apart (j + 1) (i + 1),
      );
      back = λ j k. ground (
        arith,
        r.back j,
        r.back (j + 1),
        apart_after s head n node element r j i,
        apart_after s head n node element r j (i + 1),
        apart_after s head n node element r (j + 1) i,
        apart_after s head n node element r (j + 1) (i + 1),
      );
      apart = λ j k c d e.
          ground
            (arith, r.apart j k, r.apart (j + 1) (k + 1), r.apart (j + 1) k, r.apart j (k + 1));
      held = λ j k. ground (
        arith,
        r.held j,
        r.held (j + 1),
        apart_after s head n node element r j i,
        apart_after s head n node element r (j + 1) i,
      );
    }

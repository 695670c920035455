-- ===== src/Cache/Simulation.antt =====
-- A cache that simulates another one operation by operation gives the same answers in every run.
use foo.Prelude.{ℕ, ◌≡◌, refl, ap, sym, Bool, Option, none, some, List, [], ◌∷◌}
use foo.Cache.Interface
use foo.Cache.Interface.{
  Operations, Call, Answer, done, flag, number, value, values, call, run, one_more, answer, ◌>>=◌,
}

module _ {S A : Type 0} (R : S → A → Type 0) where
  -- Both results are defined, with equal values and states in relation.
  abbrev pub Related : {X : Type 0} → Option (S × X) → Option (A × X) → Type 0
  Related none b = ⊥
  Related (some x) none = ⊥
  Related (some (s, x)) (some (a, y)) = R s a × (x ≡ y)

  pub Related-some :
      {X : Type 0} (s : S) (a : A) (x : X) (m : Option (S × X)) (n : Option (A × X))
      → m ≡ some (s, x)
      → n ≡ some (a, x)
      → R s a
      → Related m n
  Related-some s a x m n p q h = rw (p, q) (h, refl)

  pub Related-bind :
      {X Y : Type 0} (m : Option (S × X)) (n : Option (A × X)) (f : S × X → Option (S × Y))
      (g : A × X → Option (A × Y))
      → Related m n
      → ((s : S) (a : A) (x : X) → R s a → Related (f (s, x)) (g (a, x)))
      → Related (m >>= f) (n >>= g)
  Related-bind none n f g h k = absurd h
  Related-bind (some x) none f g h k = absurd h
  Related-bind (some (s, x)) (some (a, y)) f g h k = rw (sym h.1) (k s a x h.0)

module _ {S A V : Type 0} where
  pub record Simulates (c : Operations S V) (d : Operations A V) (R : S → A → Type 0) : Type 0 where
    pub insert :
        (k : ℕ) (v : V) (s : S) (a : A) → R s a → Related R (c.insert k v s) (d.insert k v a)
    pub erase : (k : ℕ) (s : S) (a : A) → R s a → Related R (c.erase k s) (d.erase k a)
    pub find : (p : Bool) (k : ℕ) (s : S) (a : A) → R s a → Related R (c.find p k s) (d.find p k a)
    pub is_empty : (s : S) (a : A) → R s a → c.is_empty s ≡ d.is_empty a
    pub size : (s : S) (a : A) → R s a → c.size s ≡ d.size a
    pub capacity : (s : S) (a : A) → R s a → c.capacity s ≡ d.capacity a

  module _ {c : Operations S V} {d : Operations A V} {R : S → A → Type 0}
      (sim : Simulates c d R) where
    insert_range-Related :
        (r : List (ℕ × V)) (s : S) (a : A)
        → R s a
        → Related R (Interface.insert_range c r s) (Interface.insert_range d r a)
    unfolding Interface.insert_range
    insert_range-Related [] s a h = (h, refl)
    insert_range-Related ((k, v) ∷ r) s a h =
        Related-bind R (c.insert k v s) (d.insert k v a) _ _ (sim.insert k v s a h) (λ s' a' x h'.
          Related-bind R (Interface.insert_range c r s') (Interface.insert_range d r a') _ _
            (insert_range-Related r s' a' h') (λ s'' a'' n h''. (h'', refl)))

    erase_range-Related :
        (r : List ℕ) (s : S) (a : A)
        → R s a
        → Related R (Interface.erase_range c r s) (Interface.erase_range d r a)
    unfolding Interface.erase_range
    erase_range-Related [] s a h = (h, refl)
    erase_range-Related (k ∷ r) s a h =
        Related-bind R (c.erase k s) (d.erase k a) _ _ (sim.erase k s a h) (λ s' a' x h'.
          Related-bind R (Interface.erase_range c r s') (Interface.erase_range d r a') _ _
            (erase_range-Related r s' a' h') (λ s'' a'' n h''. (h'', refl)))

    find_range-Related :
        (p : Bool) (r : List ℕ) (s : S) (a : A)
        → R s a
        → Related R (Interface.find_range c p r s) (Interface.find_range d p r a)
    unfolding Interface.find_range
    find_range-Related p [] s a h = (h, refl)
    find_range-Related p (k ∷ r) s a h =
        Related-bind R (c.find p k s) (d.find p k a) _ _ (sim.find p k s a h) (λ s' a' x h'.
          Related-bind R (Interface.find_range c p r s') (Interface.find_range d p r a') _ _
            (find_range-Related p r s' a' h') (λ s'' a'' n h''. (h'', refl)))

    resolve_range-Related :
        (p : Bool) (r : List (ℕ × Option V)) (s : S) (a : A)
        → R s a
        → Related R (Interface.resolve_range c p r s) (Interface.resolve_range d p r a)
    unfolding Interface.resolve_range
    resolve_range-Related p [] s a h = (h, refl)
    resolve_range-Related p ((k, _) ∷ r) s a h =
        Related-bind R (c.find p k s) (d.find p k a) _ _ (sim.find p k s a h) (λ s' a' x h'.
          Related-bind R (Interface.resolve_range c p r s') (Interface.resolve_range d p r a') _ _
            (resolve_range-Related p r s' a' h') (λ s'' a'' n h''. (h'', refl)))

    Related-answer :
        {X : Type 0} (f : X → Answer V) (m : Option (S × X)) (n : Option (A × X))
        → Related R m n
        → Related R (answer f m) (answer f n)
    Related-answer f none n h = h
    Related-answer f (some x) none h = h
    Related-answer f (some (s, x)) (some (a, y)) h = (h.0, ap f h.1)

    call-Related : (x : Call V) (s : S) (a : A) → R s a → Related R (call c x s) (call d x a)
    unfolding call
    call-Related (Call.put k v) s a h = Related-answer done _ _ (sim.insert k v s a h)
    call-Related (Call.put_range r) s a h = Related-answer number _ _ (insert_range-Related r s a h)
    call-Related (Call.drop k) s a h = Related-answer flag _ _ (sim.erase k s a h)
    call-Related (Call.drop_range r) s a h = Related-answer number _ _ (erase_range-Related r s a h)
    call-Related (Call.get p k) s a h = Related-answer value _ _ (sim.find p k s a h)
    call-Related (Call.get_range p r) s a h =
        Related-answer values _ _ (find_range-Related p r s a h)
    call-Related (Call.resolve p r) s a h =
        Related-answer values _ _ (resolve_range-Related p r s a h)
    call-Related Call.ask_empty s a h = (h, ap flag (sim.is_empty s a h))
    call-Related Call.ask_size s a h = (h, ap number (sim.size s a h))
    call-Related Call.ask_capacity s a h = (h, ap number (sim.capacity s a h))

    pub run-Related :
        (xs : List (Call V)) (s : S) (a : A) → R s a → Related R (run c xs s) (run d xs a)
    unfolding run
    run-Related [] s a h = (h, refl)
    run-Related (x ∷ xs) s a h =
        Related-bind R (call c x s) (call d x a) _ _ (call-Related x s a h) (λ s' a' y h'.
          Related-bind R (run c xs s') (run d xs a') _ _ (run-Related xs s' a' h')
            (λ s'' a'' ys h''. (h'', refl)))

-- ===== src/Linear/Tests.antt =====
-- Lists of nodes at concrete stores.
use foo.Prelude.{
  ℕ, zero, suc, ◌+◌, ◌*◌, ◌≤◌, ◌<◌, ◌≡◌, ◌≢◌, ◌⊎◌, refl, arith, true, false, Option, none, some,
}
use foo.Prelude.Int.{pos}
use foo.Linear.Destroy.{destroy_deletes}
use foo.Linear.{Store, destroy, insert, remove, pop}
use foo.Linear.Stack
use foo.Linear.Ring.{Ring, IsList}
use foo.Linear.Insert.{insert_at}
use foo.Linear.Remove.{remove_at}
use foo.Linear.Refines.{Succeeds, insert-IsList, remove-IsList, pop_takes_first, push-pop}

abbrev sample_next : ℕ → Option ℕ
sample_next zero = some 1
sample_next (suc zero) = some 2
sample_next (suc (suc zero)) = some 0
sample_next (suc (suc (suc a))) = none

abbrev sample_prev : ℕ → Option ℕ
sample_prev zero = some 2
sample_prev (suc zero) = some 0
sample_prev (suc (suc zero)) = some 1
sample_prev (suc (suc (suc a))) = none

abbrev sample_node : ℕ → ℕ
sample_node zero = 0
sample_node (suc zero) = 1
sample_node (suc (suc zero)) = 2
sample_node (suc (suc (suc i))) = 0

-- The head at 0, and the elements 10 and 20 at 1 and 2.
abbrev sample : Store ℕ
sample = record { prev = sample_prev; next = sample_next; value = λ a. some (some (10 * a)) }

abbrev sample_element : ℕ → Option ℕ
sample_element i = some (10 * (i + 1))

sample-Ring : Ring sample 0 2 sample_node sample_element
sample-Ring = record {
  start = refl;
  close = refl;
  forth = forth;
  back = back;
  apart = apart;
  held = held;
}
  where
    forth : (i : ℕ) → i ≤ 2 → sample_next (sample_node i) ≡ some (sample_node (i + 1))
    forth zero h = refl
    forth (suc zero) h = refl
    forth (suc (suc zero)) h = refl
    forth (suc (suc (suc i))) h = absurd (omega arith)

    back : (i : ℕ) → i ≤ 2 → sample_prev (sample_node (i + 1)) ≡ some (sample_node i)
    back zero h = refl
    back (suc zero) h = refl
    back (suc (suc zero)) h = refl
    back (suc (suc (suc i))) h = absurd (omega arith)

    held : (i : ℕ) → i < 2 → some (some (10 * sample_node (i + 1))) ≡ some (sample_element i)
    held zero h = refl
    held (suc zero) h = refl
    held (suc (suc i)) h = absurd (omega arith)

    identity : (i : ℕ) → i ≤ 2 → sample_node i ≡ i
    identity zero h = refl
    identity (suc zero) h = refl
    identity (suc (suc zero)) h = refl
    identity (suc (suc (suc i))) h = absurd (omega arith)

    apart : (i j : ℕ) → i ≤ 2 → j ≤ 2 → sample_node i ≡ sample_node j → i ≡ j
    apart i j h k e = omega (arith, identity i h, identity j k)

sample-IsList : IsList sample 0 2 sample_element
sample-IsList = (sample_node, sample-Ring)

insert-IsList_example :
    ((i : ℕ) × (pos 1 ≡ pos i)
      × ((i < 2) ⊎ (i ≡ 0))
      × Succeeds
          (insert 9 sample (some 0) (pos 1) (some 30) (some 5))
          0
          3
          (insert_at i (some 30) sample_element))
    ⊎ (((i : ℕ) → pos 1 ≡ pos i → (0 < i) × (2 ≤ i))
        × (insert 9 sample (some 0) (pos 1) (some 30) (some 5) ≡ some (sample, false)))
insert-IsList_example =
    insert-IsList sample 0 2 sample_element sample-IsList (some 30) 5 refl 9 (pos 1) (omega arith)
      (omega arith)

remove-IsList_example :
    ((i : ℕ) × (pos 1 ≡ pos i)
      × (i < 2)
      × Succeeds (remove 9 sample (some 0) (pos 1)) 0 1 (remove_at i sample_element))
    ⊎ (((i : ℕ) → pos 1 ≡ pos i → 2 ≤ i)
        × (remove 9 sample (some 0) (pos 1) ≡ some (sample, false)))
remove-IsList_example =
    remove-IsList sample 0 2 sample_element sample-IsList 9 (omega arith) (omega arith) (pos 1)

pop_takes_first_example :
    ((◌≡◌ {A = ℕ} 2 0) × (pop 9 sample (some 0) ≡ some (sample, none)))
    ⊎ ((0 < 2)
        × (s' : Store ℕ) × (pop 9 sample (some 0) ≡ some (s', some 10))
        × IsList s' 0 1 (remove_at 0 sample_element))
pop_takes_first_example =
    pop_takes_first sample 0 2 sample_element sample-IsList 9 (omega arith) (omega arith)

push-pop_example :
    (s1 : Store ℕ) × (Stack.push sample (some 0) (some 30) (some 5) ≡ some (s1, true))
    × (s2 : Store ℕ) × (Stack.pop 9 s1 (some 0) ≡ some (s2, some 30))
    × IsList s2 0 2 sample_element
push-pop_example =
    push-pop sample 0 2 sample_element 9 (some 30) 5 sample-IsList refl (omega arith) (omega arith)

destroy_deletes_example :
    (t : Store ℕ) × (destroy 9 sample (some 0) ≡ some (t, none, true))
    × ((j : ℕ) → j ≤ 2 → t.next (sample_node j) ≡ none)
    × ((a : ℕ) → ((j : ℕ) → j ≤ 2 → a ≢ sample_node j) → t.next a ≡ sample_next a)
destroy_deletes_example =
    destroy_deletes 0 2 sample_node sample sample_element 9 sample-Ring (omega arith)

-- ===== src/Cache/Interface.antt =====
-- What the three caches of data_structure/include/cache.hpp share: the operations that each class
-- has, the loops over ranges, which the classes repeat word for word, and runs of calls. Keys are
-- natural numbers: the templates only compare and hash them. `none` stands for what is undefined
-- in the code, such as reading the end of a list.
use foo.Prelude.{ℕ, ◌+◌, Bool, true, false, Option, none, some, List, [], ◌∷◌}

infixl 5 ◌>>=◌
abbrev pub ◌>>=◌ : {A B : Type 0} → Option A → (A → Option B) → Option B
none >>= f = none
some a >>= f = f a

-- The operations of a cache with states `S`. An operation returns the new state and a result.
pub record Operations (S V : Type 0) : Type 0 where
  pub insert : ℕ → V → S → Option (S × Unit {0})
  pub erase : ℕ → S → Option (S × Bool)
  pub find : Bool → ℕ → S → Option (S × Option V)
  pub is_empty : S → Bool
  pub size : S → ℕ
  pub capacity : S → ℕ

module _ {S V : Type 0} (c : Operations S V) where
  -- The loop of `insertRange`, and its count of rounds.
  unfoldable pub insert_range : List (ℕ × V) → S → Option (S × ℕ)
  insert_range [] s = some (s, 0)
  insert_range ((key, value) ∷ range) s = do
    (s, _) ← c.insert key value s
    (s, inserted) ← insert_range range s
    some (s, inserted + 1)

  -- One more erased key, if it was found.
  abbrev pub one_more : Bool → ℕ → ℕ
  one_more true n = n + 1
  one_more false n = n

  unfoldable pub erase_range : List ℕ → S → Option (S × ℕ)
  erase_range [] s = some (s, 0)
  erase_range (key ∷ range) s = do
    (s, found) ← c.erase key s
    (s, erased) ← erase_range range s
    some (s, one_more found erased)

  unfoldable pub find_range : Bool → List ℕ → S → Option (S × List (ℕ × Option V))
  find_range peek [] s = some (s, [])
  find_range peek (key ∷ range) s = do
    (s, value) ← c.find peek key s
    (s, result) ← find_range peek range s
    some (s, (key, value) ∷ result)

  -- The values of the pairs are overwritten.
  unfoldable pub resolve_range : Bool → List (ℕ × Option V) → S → Option (S × List (ℕ × Option V))
  resolve_range peek [] s = some (s, [])
  resolve_range peek ((key, _) ∷ range) s = do
    (s, value) ← c.find peek key s
    (s, result) ← resolve_range peek range s
    some (s, (key, value) ∷ result)

pub data Call (V : Type 0) : Type 0 where
  put : ℕ → V → Call V
  put_range : List (ℕ × V) → Call V
  drop : ℕ → Call V
  drop_range : List ℕ → Call V
  get : Bool → ℕ → Call V
  get_range : Bool → List ℕ → Call V
  resolve : Bool → List (ℕ × Option V) → Call V
  ask_empty ask_size ask_capacity : Call V

pub data Answer (V : Type 0) : Type 0 where
  done : Unit {0} → Answer V
  flag : Bool → Answer V
  number : ℕ → Answer V
  value : Option V → Answer V
  values : List (ℕ × Option V) → Answer V

module _ {S V : Type 0} where
  -- A result as an answer.
  abbrev pub answer : {X : Type 0} → (X → Answer V) → Option (S × X) → Option (S × Answer V)
  answer f none = none
  answer f (some (s, x)) = some (s, f x)

  unfoldable pub call : Operations S V → Call V → S → Option (S × Answer V)
  call c (put k v) s = answer done (c.insert k v s)
  call c (put_range r) s = answer number (insert_range c r s)
  call c (drop k) s = answer flag (c.erase k s)
  call c (drop_range r) s = answer number (erase_range c r s)
  call c (get p k) s = answer value (c.find p k s)
  call c (get_range p r) s = answer values (find_range c p r s)
  call c (resolve p r) s = answer values (resolve_range c p r s)
  call c ask_empty s = some (s, flag (c.is_empty s))
  call c ask_size s = some (s, number (c.size s))
  call c ask_capacity s = some (s, number (c.capacity s))

  -- A run of calls, and the list of their answers.
  unfoldable pub run : Operations S V → List (Call V) → S → Option (S × List (Answer V))
  run c [] s = some (s, [])
  run c (x ∷ xs) s = do (s, a) ← call c x s; (s, answers) ← run c xs s; some (s, a ∷ answers)

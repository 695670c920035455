-- ===== src/Cache/Entries.antt =====
-- The abstract view of a cache: its entries as a list of keys and values, in the order in which
-- the policy keeps them.
use foo.Prelude.{
  ℕ, ◌≡◌, refl, Bool, true, false, Option, none, some, List, [], ◌∷◌, arith, ◌==◌, if◌then◌else◌,
}

module _ {V : Type 0} where
  unfoldable pub lookup : ℕ → List (ℕ × V) → Option V
  lookup k [] = none
  lookup k ((j, v) ∷ es) = if k == j then some v else lookup k es

  -- The entry of `k` without moving it.
  unfoldable pub assign : ℕ → V → List (ℕ × V) → List (ℕ × V)
  assign k v [] = []
  assign k v ((j, w) ∷ es) = if k == j then (j, v) ∷ es else (j, w) ∷ assign k v es

  unfoldable pub discard : ℕ → List (ℕ × V) → List (ℕ × V)
  discard k [] = []
  discard k ((j, w) ∷ es) = if k == j then es else (j, w) ∷ discard k es

  abbrev pub tail : List (ℕ × V) → List (ℕ × V)
  tail [] = []
  tail (e ∷ es) = es

  -- All but the last entry.
  unfoldable pub init : List (ℕ × V) → List (ℕ × V)
  init [] = []
  init (e ∷ []) = []
  init (e ∷ f ∷ es) = e ∷ init (f ∷ es)

  abbrev pub is_some : Option V → Bool
  is_some none = false
  is_some (some v) = true

  pub discard-absent : (k : ℕ) (es : List (ℕ × V)) → lookup k es ≡ none → discard k es ≡ es
  unfolding lookup discard
  discard-absent k [] e = refl
  discard-absent k ((j, w) ∷ es) e = ground (arith, discard-absent k es)

-- What a cache promises to keep: at most `capacity` entries.
pub record Model (E : Type 0) : Type 0 where
  pub entries : List E
  pub capacity : ℕ

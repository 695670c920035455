-- ===== src/Cache/Lru/Tests.antt =====
-- The class `LRU` in concrete runs.
use foo.Prelude.{◌≡◌, refl, Option, none, some, ℕ, true, false, List, [], ◌∷◌, arith}
use foo.Cache.Interface.{
  Call, put, put_range, drop, get, get_range, ask_size, Answer, run, call, number, value, done,
  values, flag,
}
use foo.Cache.Simulation.{Related}
use foo.Cache.Cells
use foo.Cache.Interface
use foo.Cache.Lru.{
  Lru, create, operations, do_insert_or_update, do_insert, do_update, do_prune, do_erase, do_access,
  place, step_back, splice_end, back, without_back, erase, do_find, size,
}
use foo.Cache.Lru.Policy.{lru}
use foo.Cache.Lru.Holds.{Refines}
use foo.Cache.Lru.Refines.{run-lru}

abbrev sample_calls : List (Call ℕ)
sample_calls =
    put_range ((1, 10) ∷ (2, 20) ∷ [])
    ∷ get false 1
    ∷ put 3 30
    ∷ get_range true (1 ∷ 2 ∷ 3 ∷ [])
    ∷ drop 3
    ∷ ask_size
    ∷ []

abbrev answers_of : Option (Lru ℕ × List (Answer ℕ)) → List (Answer ℕ)
answers_of none = []
answers_of (some (s, answers)) = answers

-- Key 2 is used least recently when key 3 comes.
lru_answers :
    answers_of (run operations sample_calls (create 0 2))
    ≡ number 2
      ∷ value (some 10)
      ∷ done tt
      ∷ values ((1, some 10) ∷ (2, none) ∷ (3, some 30) ∷ [])
      ∷ flag true
      ∷ number 1
      ∷ []
unfolding run call operations create do_insert_or_update do_insert do_update do_prune do_erase
    do_access place step_back splice_end back without_back erase do_find size Cells.remove
    Cells.iota_from Interface.insert_range Interface.find_range
lru_answers = refl

run-lru_example :
    Related Refines
      (run operations sample_calls (create 0 2))
      (run lru sample_calls (record { entries = []; capacity = 2 }))
run-lru_example = run-lru 0 2 sample_calls (ground arith)

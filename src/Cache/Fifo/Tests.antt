-- ===== src/Cache/Fifo/Tests.antt =====
-- The class `FIFO` in concrete runs.
use foo.Prelude.{ℕ, true, false, List, [], ◌∷◌, arith, ◌≡◌, refl, Option, none, some}
use foo.Cache.Interface.{
  Call, put, put_range, drop, get, get_range, ask_size, run, Answer, call, number, value, done,
  values, flag,
}
use foo.Cache.Simulation.{Related}
use foo.Cache.Cells
use foo.Cache.Interface
use foo.Cache.Fifo.{
  Fifo, create, operations, do_insert_or_update, do_insert, do_update, evict, release, do_erase,
  erase, do_find, splice_front, size,
}
use foo.Cache.Fifo.Policy.{fifo}
use foo.Cache.Fifo.Holds.{Refines}
use foo.Cache.Fifo.Refines.{run-fifo}

abbrev sample_calls : List (Call ℕ)
sample_calls =
    put_range ((1, 10) ∷ (2, 20) ∷ [])
    ∷ get false 1
    ∷ put 3 30
    ∷ get_range true (1 ∷ 2 ∷ 3 ∷ [])
    ∷ drop 3
    ∷ ask_size
    ∷ []

abbrev answers_of : Option (Fifo ℕ × List (Answer ℕ)) → List (Answer ℕ)
answers_of none = []
answers_of (some (s, answers)) = answers

-- Key 1 was inserted first, and is gone when key 3 comes.
fifo_answers :
    answers_of (run operations sample_calls (create 0 2))
    ≡ number 2
      ∷ value (some 10)
      ∷ done tt
      ∷ values ((1, none) ∷ (2, some 20) ∷ (3, some 30) ∷ [])
      ∷ flag true
      ∷ number 1
      ∷ []
unfolding run call operations create do_insert_or_update do_insert do_update evict release do_erase
    erase do_find splice_front size Cells.remove Cells.iota_from Interface.insert_range
    Interface.find_range
fifo_answers = refl

run-fifo_example :
    Related Refines
      (run operations sample_calls (create 0 2))
      (run fifo sample_calls (record { entries = []; capacity = 2 }))
run-fifo_example = run-fifo 0 2 sample_calls (ground arith)

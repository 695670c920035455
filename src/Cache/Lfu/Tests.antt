-- ===== src/Cache/Lfu/Tests.antt =====
-- The class `LFU` in concrete runs.
use foo.Prelude.{ℕ, true, false, List, [], ◌∷◌, arith, ◌≡◌, refl, Option, none, some}
use foo.Cache.Interface.{
  Call, put, put_range, drop, get, get_range, ask_size, run, ◌>>=◌, Answer, call, number, value,
  done, values, flag,
}
use foo.Cache.Simulation.{Related}
use foo.Cache.Cells
use foo.Cache.Lru
use foo.Cache.Interface
use foo.Cache.Lfu.{
  Lfu, create, operations, do_find_with_refcount, do_insert_or_update, do_insert, do_update,
  do_prune, do_erase, do_access, access_unless, place, step_back, erase, do_find, size, capacity,
  emplace_count, erase_count, refcount,
}
use foo.Cache.Lfu.Policy.{lfu, find_with_refcount}
use foo.Cache.Lfu.Holds.{Refines}
use foo.Cache.Lfu.Refines.{run-lfu}
use foo.Cache.Lfu.Counts.{find_with_refcount-refcounted}

abbrev sample_calls : List (Call ℕ)
sample_calls =
    put_range ((1, 10) ∷ (2, 20) ∷ [])
    ∷ get false 1
    ∷ put 3 30
    ∷ get_range true (1 ∷ 2 ∷ 3 ∷ [])
    ∷ drop 3
    ∷ ask_size
    ∷ []

abbrev answers_of : Option (Lfu ℕ × List (Answer ℕ)) → List (Answer ℕ)
answers_of none = []
answers_of (some (s, answers)) = answers

-- Key 2 is used less often than key 1 when key 3 comes.
lfu_answers :
    answers_of (run operations sample_calls (create 0 2))
    ≡ number 2
      ∷ value (some 10)
      ∷ done tt
      ∷ values ((1, some 10) ∷ (2, none) ∷ (3, some 30) ∷ [])
      ∷ flag true
      ∷ number 1
      ∷ []
unfolding run call operations create do_insert_or_update do_insert do_update do_prune do_erase
    do_access access_unless place step_back Lru.splice_end Lru.back Lru.without_back erase do_find
    size capacity emplace_count erase_count refcount Cells.remove Cells.iota_from
    Interface.insert_range Interface.find_range
lfu_answers = refl

run-lfu_example :
    Related Refines
      (run operations sample_calls (create 0 2))
      (run lfu sample_calls (record { entries = []; capacity = 2 }))
run-lfu_example = run-lfu 0 2 sample_calls (ground arith)

find_with_refcount-refcounted_example :
    Related Refines
      (run operations sample_calls (create 0 2) >>= λ r. do_find_with_refcount false 1 r.0)
      (run lfu sample_calls (record { entries = []; capacity = 2 }) >>= λ r.
        find_with_refcount false 1 r.0)
find_with_refcount-refcounted_example =
    find_with_refcount-refcounted 0 2 sample_calls false 1 (ground arith)

-- ===== src/Linear/Stack.antt =====
-- Namespace `stack` of data_structure/source/linear.cpp: operations of the list by other names.
use foo.Prelude.{ℕ, Bool, Option}
use foo.Linear
use foo.Linear.{Store}

module _ {V : Type 0} where
  abbrev pub create : Option ℕ → Store V → Store V × Option ℕ
  create new s = Linear.create new s

  abbrev pub destroy : ℕ → Store V → Option ℕ → Option (Store V × Option ℕ × Bool)
  destroy fuel s head = Linear.destroy fuel s head

  abbrev pub size : ℕ → Store V → Option ℕ → Option ℕ
  size fuel s head = Linear.size fuel s head

  abbrev pub empty : ℕ → Store V → Option ℕ → Option Bool
  empty fuel s head = Linear.empty fuel s head

  abbrev pub push : Store V → Option ℕ → Option V → Option ℕ → Option (Store V × Bool)
  push s head v new = Linear.insert_first s head v new

  abbrev pub top : ℕ → Store V → Option ℕ → Option (Option V)
  top fuel s head = Linear.get_first fuel s head

  abbrev pub pop : ℕ → Store V → Option ℕ → Option (Store V × Option V)
  pop fuel s head = Linear.pop fuel s head

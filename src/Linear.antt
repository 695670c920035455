-- ===== src/Linear.antt =====
-- The linear structures of data_structure/source/linear.cpp: namespace `dll`, a circular doubly
-- linked list with a head node, and the stack and the queue on it. A node is an address, and the
-- store has its fields, `none` if the node is not allocated, so that a result `none` stands for a
-- use of memory that is not allocated, or for a loop that has used up its fuel, or for an `int`
-- counter that overflows. Null is `none` for a pointer to a node and for a value. An allocation is
-- given by the address that it returns.
mod Ring
mod Walk
mod Insert
mod Remove
mod Stack
mod Queue
mod Refines
mod Destroy
mod Order
mod Tests
use foo.Prelude.{
  ℕ, zero, suc, ◌+◌, ◌-◌, ◌/◌, Bool, true, false, Option, none, some, leb, ◌==◌, if◌then◌else◌,
  update, ltb, List, [], ◌∷◌,
}
use foo.Prelude.Int.{ℤ, pos, negsuc}
use foo.Cache.Interface.{◌>>=◌}

abbrev pub int_max : ℕ
int_max = 2147483647

pub record Store (V : Type 0) : Type 0 where
  pub prev : ℕ → Option ℕ
  pub next : ℕ → Option ℕ
  pub value : ℕ → Option (Option V)

module _ {V : Type 0} where
  -- A write of a field, which is defined where the node is allocated.
  pub write_prev : ℕ → ℕ → Store V → Option (Store V)
  write_prev a b s = elim (s.prev a) [
    | none ↦ none
    | some _ ↦ some (record s { prev = update s.prev a (some b) })
  ]

  pub write_next : ℕ → ℕ → Store V → Option (Store V)
  write_next a b s = elim (s.next a) [
    | none ↦ none
    | some _ ↦ some (record s { next = update s.next a (some b) })
  ]

  -- The allocation gave the address `a`.
  pub create_node : ℕ → Option V → Store V → Store V
  create_node a v s = record {
    prev = update s.prev a (some a);
    next = update s.next a (some a);
    value = update s.value a (some v);
  }

  -- `::delete`, which is defined where the node is allocated.
  pub delete_node : ℕ → Store V → Option (Store V)
  delete_node a s = elim (s.next a) [
    | none ↦ none
    | some _ ↦ some (record {
      prev = update s.prev a none;
      next = update s.next a none;
      value = update s.value a none;
    })
  ]

  -- The loop that counts the nodes up to the head. The counter is an `int`.
  pub count_loop : ℕ → Store V → ℕ → ℕ → ℕ → Option ℕ
  count_loop zero s head a counter = none
  count_loop (suc fuel) s head a counter = elim (a == head) [
    | true ↦ some counter
    | false ↦ elim (ltb counter int_max) [
      | false ↦ none
      | true ↦ (do b ← s.next a; count_loop fuel s head b (counter + 1))
    ]
  ]

-- The loop that follows a field for a number of rounds.
pub walk : (ℕ → Option ℕ) → ℕ → ℕ → Option ℕ
walk field zero a = some a
walk field (suc n) a = do b ← field a; walk field n b

module _ {V : Type 0} where
  pub get_node : ℕ → Store V → Option ℕ → ℤ → Option (Option ℕ)
  unfolding count_loop walk
  get_node fuel s none index = some none
  get_node fuel s (some head) (negsuc i) = some none
  get_node fuel s (some head) (pos i) = do
    first ← s.next head
    counter ← count_loop fuel s head first 0
    elim (leb counter i) [
      | true ↦ some none
      | false ↦ elim (leb i (counter / 2)) [
        | true ↦ (do a ← walk s.next i first; some (some a))
        | false ↦ (do last ← s.prev head; a ← walk s.prev (counter - i - 1) last; some (some a))
      ]
    ]

  -- The head node, if it could be allocated.
  pub create : Option ℕ → Store V → Store V × Option ℕ
  unfolding create_node
  create none s = (s, none)
  create (some a) s = (create_node a none s, some a)

  pub size : ℕ → Store V → Option ℕ → Option ℕ
  unfolding count_loop
  size fuel s none = some 0
  size fuel s (some head) = do first ← s.next head; count_loop fuel s head first 0

  pub empty : ℕ → Store V → Option ℕ → Option Bool
  unfolding size
  empty fuel s head = do n ← size fuel s head; some (n == 0)

  pub get : ℕ → Store V → Option ℕ → ℤ → Option (Option V)
  unfolding get_node
  get fuel s head index = do
    node ← get_node fuel s head index
    elim node [ none ↦ some none | some a ↦ s.value a ]

  -- The loop of `destroy`, and the deletion of the head.
  pub destroy_loop : ℕ → ℕ → ℕ → Store V → Option (Store V)
  unfolding delete_node
  destroy_loop zero head a s = none
  destroy_loop (suc fuel) head a s = elim (a == head) [
    | true ↦ delete_node head s
    | false ↦ (do b ← s.next a; s ← delete_node a s; destroy_loop fuel head b s)
  ]

  -- The result has the handle `*dll`, too, which is null then.
  pub destroy : ℕ → Store V → Option ℕ → Option (Store V × Option ℕ × Bool)
  unfolding destroy_loop
  destroy fuel s none = some (s, none, false)
  destroy fuel s (some head) = do
    first ← s.next head
    s ← destroy_loop fuel head first s
    some (s, none, true)

-- `size(head) - 1`
pub last_index : ℕ → ℤ
last_index zero = negsuc 0
last_index (suc n) = pos n

module _ {V : Type 0} where
  pub get_first : ℕ → Store V → Option ℕ → Option (Option V)
  unfolding get
  get_first fuel s head = get fuel s head (pos 0)

  pub get_last : ℕ → Store V → Option ℕ → Option (Option V)
  unfolding get size last_index
  get_last fuel s head = do n ← size fuel s head; get fuel s head (last_index n)

  -- The rest of an insertion at a head, with a new node.
  pub link_first : ℕ → ℕ → Store V → Option (Store V)
  unfolding write_prev write_next
  link_first a head s = do
    s ← write_prev a head s
    first ← s.next head
    s ← write_next a first s
    first ← s.next head
    s ← write_prev first a s
    write_next head a s

  pub insert_first : Store V → Option ℕ → Option V → Option ℕ → Option (Store V × Bool)
  unfolding create_node link_first
  insert_first s none v new = some (s, false)
  insert_first s (some head) v none = some (s, false)
  insert_first s (some head) v (some a) = do
    s ← link_first a head (create_node a v s)
    some (s, true)

  pub link_last : ℕ → ℕ → Store V → Option (Store V)
  unfolding write_prev write_next
  link_last a head s = do
    s ← write_next a head s
    last ← s.prev head
    s ← write_prev a last s
    last ← s.prev head
    s ← write_next last a s
    write_prev head a s

  pub insert_last : Store V → Option ℕ → Option V → Option ℕ → Option (Store V × Bool)
  unfolding create_node link_last
  insert_last s none v new = some (s, false)
  insert_last s (some head) v none = some (s, false)
  insert_last s (some head) v (some a) = do s ← link_last a head (create_node a v s); some (s, true)

  -- In front of the node `b`.
  pub link_before : ℕ → ℕ → Store V → Option (Store V)
  unfolding write_prev write_next
  link_before a b s = do
    before ← s.prev b
    s ← write_prev a before s
    s ← write_next a b s
    before ← s.prev b
    s ← write_next before a s
    write_prev b a s

  pub insert_before : Store V → Option ℕ → Option V → Option ℕ → Option (Store V × Bool)
  unfolding create_node link_before
  insert_before s none v new = some (s, false)
  insert_before s (some b) v none = some (s, false)
  insert_before s (some b) v (some a) = do s ← link_before a b (create_node a v s); some (s, true)

  pub insert : ℕ → Store V → Option ℕ → ℤ → Option V → Option ℕ → Option (Store V × Bool)
  unfolding insert_first insert_before get_node
  insert fuel s head (pos zero) v new = insert_first s head v new
  insert fuel s head index v new = do node ← get_node fuel s head index; insert_before s node v new

  pub unlink : ℕ → Store V → Option (Store V)
  unfolding write_prev write_next delete_node
  unlink a s = do
    after ← s.next a
    before ← s.prev a
    s ← write_prev after before s
    before ← s.prev a
    after ← s.next a
    s ← write_next before after s
    delete_node a s

  pub remove : ℕ → Store V → Option ℕ → ℤ → Option (Store V × Bool)
  unfolding unlink get_node
  remove fuel s head index = do
    node ← get_node fuel s head index
    elim node [ none ↦ some (s, false) | some a ↦ (do s ← unlink a s; some (s, true)) ]

  pub remove_first : ℕ → Store V → Option ℕ → Option (Store V × Bool)
  unfolding remove
  remove_first fuel s head = remove fuel s head (pos 0)

  pub remove_last : ℕ → Store V → Option ℕ → Option (Store V × Bool)
  unfolding remove size last_index
  remove_last fuel s head = do n ← size fuel s head; remove fuel s head (last_index n)

  -- `pop` of the stack and of the queue.
  pub pop : ℕ → Store V → Option ℕ → Option (Store V × Option V)
  unfolding get_first remove_first
  pop fuel s head = do v ← get_first fuel s head; (s, _) ← remove_first fuel s head; some (s, v)

  -- The loop of `Traverse::order`, and the values that it passes to the operation.
  pub order_loop : ℕ → ℕ → Store V → Option ℕ → ℕ → Option (List (Option V))
  unfolding size get
  order_loop zero fuel s head i = none
  order_loop (suc rounds) fuel s head i = do
    n ← size fuel s head
    elim (ltb i n) [
      | false ↦ some []
      | true ↦ (do
        v ← get fuel s head (pos i)
        rest ← order_loop rounds fuel s head (i + 1)
        some (v ∷ rest))
    ]

  pub order : ℕ → Store V → Option ℕ → Option (List (Option V))
  unfolding order_loop
  order fuel s none = some []
  order fuel s (some head) = order_loop fuel fuel s (some head) 0

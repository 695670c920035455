-- ===== src/Algorithm/Notation.antt =====
-- The notations of algorithm/source/notation.cpp. Characters are their ASCII codes, and `none`
-- stands for a read of the top of an empty stack, which is undefined in the code.
mod Expr
mod Stack
mod Grammar
mod Prefix
mod Tests
use mathlib.Core.Option
use foo.Prelude.{
  ℕ, ◌+◌, Bool, true, false, not, Option, none, some, List, [], ◌∷◌, ◌++◌, map, reverse, leb, ◌==◌,
  ◌&&◌, ◌||◌, if◌then◌else◌,
}

pub data Priority : Type 0 where
  lowest low medium high : Priority

-- The enumerators' values: `none` is 0.
abbrev pub value : Priority → ℕ
value lowest = 0
value low = 1
value medium = 2
value high = 3

unfoldable pub get_priority : ℕ → Priority
get_priority c =
    if c == b'+' || c == b'-'
    then low
    else if c == b'*' || c == b'/'
    then medium
    else if c == b'^'
    then high
    else lowest

is_alpha : ℕ → Bool
is_alpha c = (leb b'a' c && leb c b'z') || (leb b'A' c && leb c b'Z')

is_digit : ℕ → Bool
is_digit c = leb b'0' c && leb c b'9'

unfoldable pub is_operator : ℕ → Bool
unfolding is_alpha is_digit
is_operator c = not (is_alpha c) && not (is_digit c)

-- The stack, its top first, and the output so far.
abbrev pub State : Type 0
State = List ℕ × List ℕ

-- The loop on `)`: pop up to the opening parenthesis, and pop that too.
pub pop_group : List ℕ → List ℕ → Option State
pop_group [] out = none
pop_group (top ∷ rest) out =
    if top == b'(' then some (rest, out) else pop_group rest (out ++ top ∷ [])

-- The loop on any other operator: pop what binds at least as tightly.
pub pop_tighter : ℕ → List ℕ → List ℕ → State
pop_tighter c [] out = ([], out)
pop_tighter c (top ∷ rest) out =
    if leb (value (get_priority c)) (value (get_priority top))
    then pop_tighter c rest (out ++ top ∷ [])
    else (top ∷ rest, out)

-- The body of the loop over the characters.
pub convert_char : ℕ → State → Option State
convert_char c (stack, out) =
    let (rest, out') = pop_tighter c stack out in
    if not (is_operator c)
    then some (stack, out ++ c ∷ [])
    else if c == b'('
    then some (b'(' ∷ stack, out)
    else if c == b')'
    then pop_group stack out
    else some (c ∷ rest, out')

infixl 5 ◌>>=◌
abbrev pub ◌>>=◌ : Option State → (State → Option State) → Option State
none >>= f = none
some s >>= f = f s

pub convert : List ℕ → State → Option State
convert [] s = some s
convert (c ∷ cs) s = convert_char c s >>= convert cs

-- The last loop empties the stack.
pub pop_all : List ℕ → List ℕ → List ℕ
pop_all [] out = out
pop_all (top ∷ rest) out = pop_all rest (out ++ top ∷ [])

abbrev pub flush : Option State → Option (List ℕ)
flush none = none
flush (some (stack, out)) = some (pop_all stack out)

pub infix_to_postfix : List ℕ → Option (List ℕ)
unfolding convert convert_char pop_group pop_tighter pop_all is_operator get_priority
infix_to_postfix s = flush (convert s ([], []))

pub postfix : List ℕ → Option (List ℕ)
unfolding infix_to_postfix
postfix s = infix_to_postfix s

-- The loop that mirrors the parentheses.
abbrev pub mirror : ℕ → ℕ
mirror c = if c == b'(' then b')' else if c == b')' then b'(' else c

pub prefix : List ℕ → Option (List ℕ)
unfolding infix_to_postfix
prefix s = Option.map reverse (infix_to_postfix (map mirror (reverse s)))

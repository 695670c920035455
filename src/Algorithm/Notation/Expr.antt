-- ===== src/Algorithm/Notation/Expr.antt =====
-- Infix expressions, and how they print with the parentheses that left-associative operators need.
use foo.Prelude.{ℕ, ◌≡◌, Bool, true, false, List, [], ◌∷◌, ◌++◌, ltb, leb}
use foo.Algorithm.Notation.{is_operator}

pub data Op : Type 0 where
  add sub mul div pow : Op

abbrev pub char_of : Op → ℕ
char_of add = b'+'
char_of sub = b'-'
char_of mul = b'*'
char_of div = b'/'
char_of pow = b'^'

-- How tightly an operator binds.
abbrev pub level_of : Op → ℕ
level_of add = 1
level_of sub = 1
level_of mul = 2
level_of div = 2
level_of pow = 3

pub data Expr : Type 0 where
  operand : ℕ → Expr
  binary : Expr → Op → Expr → Expr

abbrev pub level : Expr → ℕ
level (operand c) = 4
level (binary l o r) = level_of o

-- Every operand is a letter or a digit.
abbrev pub HasOperands : Expr → Type 0
HasOperands (operand c) = is_operator c ≡ false
HasOperands (binary l o r) = HasOperands l × HasOperands r

abbrev pub parenthesize : Bool → List ℕ → List ℕ
parenthesize true s = b'(' ∷ (s ++ b')' ∷ [])
parenthesize false s = s

-- A left operand is parenthesised if it binds less tightly than the operator, a right operand
-- also if it binds as tightly.
unfoldable pub print : Expr → List ℕ
print (operand c) = c ∷ []
print (binary l o r) =
    parenthesize (ltb (level l) (level_of o)) (print l)
    ++ (char_of o ∷ parenthesize (leb (level r) (level_of o)) (print r))

unfoldable pub reverse_polish : Expr → List ℕ
reverse_polish (operand c) = c ∷ []
reverse_polish (binary l o r) = reverse_polish l ++ (reverse_polish r ++ char_of o ∷ [])

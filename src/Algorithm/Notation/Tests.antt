-- ===== src/Algorithm/Notation/Tests.antt =====
-- The notations of concrete expressions.
use foo.Prelude.{◌≡◌, refl, false, some, [], ◌∷◌}
use foo.Algorithm.Notation.{prefix, postfix, is_operator, is_alpha, is_digit}
use foo.Algorithm.Notation.Expr.{
  add, sub, mul, Expr, operand, binary, HasOperands, print, reverse_polish,
}
use foo.Algorithm.Notation.Grammar.{postfix-print}
use foo.Algorithm.Notation.Prefix.{prefix_groups_right}

-- (a+b)*c
abbrev product : Expr
product = binary (binary (operand b'a') add (operand b'b')) mul (operand b'c')

product-HasOperands : HasOperands product
unfolding is_operator is_alpha is_digit
product-HasOperands = ((refl, refl), refl)

print-product : print product ≡ b'(' ∷ b'a' ∷ b'+' ∷ b'b' ∷ b')' ∷ b'*' ∷ b'c' ∷ []
unfolding print
print-product = refl

letter : is_operator b'a' ≡ false
unfolding is_operator is_alpha is_digit
letter = refl

letter_b : is_operator b'b' ≡ false
unfolding is_operator is_alpha is_digit
letter_b = refl

letter_c : is_operator b'c' ≡ false
unfolding is_operator is_alpha is_digit
letter_c = refl

postfix-print_example : postfix (print product) ≡ some (reverse_polish product)
postfix-print_example = postfix-print product product-HasOperands

prefix_groups_right_example :
    prefix (b'a' ∷ b'-' ∷ b'b' ∷ b'-' ∷ b'c' ∷ []) ≡ some (b'-' ∷ b'a' ∷ b'-' ∷ b'b' ∷ b'c' ∷ [])
prefix_groups_right_example =
    prefix_groups_right b'a' b'b' b'c' sub sub letter letter_b letter_c refl

-- ===== src/Algorithm/Notation/Prefix.antt =====
-- How `prefix` groups two operators of one priority.
use mathlib.Core.Option
use foo.Prelude.{ℕ, ◌<◌, ◌≡◌, refl, sym, ap, ◌∙◌, reverse, [], ◌∷◌, some, false, arith}
use foo.Algorithm.Notation.{is_operator, prefix, infix_to_postfix, mirror, postfix}
use foo.Algorithm.Notation.Expr.{
  Op, add, sub, mul, div, pow, char_of, level_of, Expr, operand, binary, print, reverse_polish,
}
use foo.Algorithm.Notation.Grammar.{postfix-print}

mirror-operand : (c : ℕ) → is_operator c ≡ false → mirror c ≡ c
unfolding is_operator
mirror-operand c h = ground arith

mirror-char_of : (o : Op) → mirror (char_of o) ≡ char_of o
mirror-char_of add = refl
mirror-char_of sub = refl
mirror-char_of mul = refl
mirror-char_of div = refl
mirror-char_of pow = refl

level_of-lt : (o : Op) → level_of o < 4
level_of-lt add = omega arith
level_of-lt sub = omega arith
level_of-lt mul = omega arith
level_of-lt div = omega arith
level_of-lt pow = omega arith

-- prefix groups two operators of one priority to the right: of a o b p c, with letters or digits
-- a, b and c, it makes the prefix form o a p b c.
pub prefix_groups_right :
    (a b c : ℕ) (o p : Op)
    → is_operator a ≡ false
    → is_operator b ≡ false
    → is_operator c ≡ false
    → level_of o ≡ level_of p
    → prefix (a ∷ char_of o ∷ b ∷ char_of p ∷ c ∷ [])
      ≡ some (char_of o ∷ a ∷ char_of p ∷ b ∷ c ∷ [])
unfolding prefix postfix print reverse_polish
prefix_groups_right a b c o p ha hb hc e =
    rw
      (
        mirror-operand a ha,
        mirror-operand b hb,
        mirror-operand c hc,
        mirror-char_of o,
        mirror-char_of p,
      )
      (ap (Option.map reverse) (sym (ap infix_to_postfix printed) ∙ polish))
  where
    mirrored : Expr
    mirrored = binary (binary (operand c) p (operand b)) o (operand a)

    polish : infix_to_postfix (print mirrored) ≡ some (reverse_polish mirrored)
    polish = postfix-print mirrored ((hc, hb), ha)

    printed : print mirrored ≡ c ∷ char_of p ∷ b ∷ char_of o ∷ a ∷ []
    printed = ground (arith, level_of-lt o)

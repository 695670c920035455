-- ===== src/Algorithm/Notation/Grammar.antt =====
-- What `postfix` makes of a printed expression.
use mathlib.Core.List.{append-nil, append_assoc}
use foo.Prelude.{
  ℕ, ◌≤◌, ◌≡◌, refl, sym, ap, ◌∙◌, Bool, true, false, some, List, [], ◌∷◌, ◌++◌, arith, ltb, leb,
}
use foo.Algorithm.Notation.{get_priority, convert, postfix}
use foo.Algorithm.Notation.Expr.{
  Op, char_of, level_of, Expr, operand, binary, level, HasOperands, parenthesize, print,
  reverse_polish,
}
use foo.Algorithm.Notation.Stack.{
  Under, convert-append, pop_group-Pending, pop_all-append, Done, Under-mono, Pending-append,
  Pending-mono, level_of-value, char_of-Pending, level-pos, convert_char-open, convert_char-close,
  convert_char-op, convert_char-operand,
}

group-Done :
    (m n : ℕ) (s stack out rp : List ℕ)
    → Done n s (b'(' ∷ stack) out rp
    → Done m (b'(' ∷ (s ++ b')' ∷ [])) stack out rp
unfolding convert
group-Done m n s stack out rp d = record {
  pend = [];
  output = d.output ++ d.pend;
  runs = rw (
    convert_char-open,
    convert-append s (b')' ∷ []) (b'(' ∷ stack, out),
    d.runs,
    convert_char-close,
    pop_group-Pending n d.pend stack d.output d.held,
  );
  held = tt;
  joined = append-nil _ ∙ d.joined;
}

binary-Done :
    (o : Op) (ls rs stack out lp rp : List ℕ)
    → Under (level_of o) stack
    → Done (level_of o) ls stack out lp
    → ((out' : List ℕ) → Done (level_of o) rs (char_of o ∷ stack) out' rp)
    → Done (level_of o) (ls ++ (char_of o ∷ rs)) stack out (lp ++ (rp ++ char_of o ∷ []))
unfolding convert
binary-Done o ls rs stack out lp rp u dl dr =
    let r = dr (dl.output ++ dl.pend) in
    record {
      pend = r.pend ++ char_of o ∷ [];
      output = r.output;
      runs = rw (
        convert-append ls (char_of o ∷ rs) (stack, out),
        dl.runs,
        convert_char-op o dl.pend stack dl.output dl.held u,
        r.runs,
        append_assoc r.pend (char_of o ∷ []) stack,
      );
      held = Pending-append (level_of o) r.pend (char_of o ∷ []) r.held (char_of-Pending o);
      joined =
          sym (append_assoc r.output r.pend (char_of o ∷ []))
          ∙ ap (λ x. x ++ char_of o ∷ []) (r.joined ∙ ap (λ x. x ++ rp) dl.joined)
          ∙ simp append_assoc;
    }

Under-open : (e : Expr) (stack : List ℕ) → Under (level e) (b'(' ∷ stack)
unfolding get_priority
Under-open e stack = level-pos e

parenthesize-Done :
    (b : Bool) (m n : ℕ) (s stack out rp : List ℕ)
    → (b ≡ false → m ≤ n)
    → Done n s (b'(' ∷ stack) out rp
    → (b ≡ false → Done n s stack out rp)
    → Done m (parenthesize b s) stack out rp
parenthesize-Done true m n s stack out rp h d e = group-Done m n s stack out rp d
parenthesize-Done false m n s stack out rp h d e =
    let f = e refl in
    record {
      pend = f.pend;
      output = f.output;
      runs = f.runs;
      held = Pending-mono m n f.pend (h refl) f.held;
      joined = f.joined;
    }

-- Reading a printed expression over a stack whose top binds less tightly than the expression.
print-Done :
    (e : Expr) (stack out : List ℕ)
    → HasOperands e
    → Under (level e) stack
    → Done (level e) (print e) stack out (reverse_polish e)
unfolding print reverse_polish convert
print-Done (operand c) stack out v u = record {
  pend = [];
  output = out ++ c ∷ [];
  runs = rw (convert_char-operand c stack out v);
  held = tt;
  joined = append-nil _;
}
print-Done (binary l o r) stack out v u =
    binary-Done o (parenthesize (ltb (level l) (level_of o)) (print l))
      (parenthesize (leb (level r) (level_of o)) (print r)) stack out (reverse_polish l)
      (reverse_polish r) u
      (parenthesize-Done (ltb (level l) (level_of o)) (level_of o) (level l) (print l) stack out
        (reverse_polish l) (λ e. ground arith)
        (print-Done l (b'(' ∷ stack) out v.0 (Under-open l stack))
        (λ e.
          print-Done l stack out v.0 (Under-mono (level_of o) (level l) stack (ground arith) u)))
      (λ out'.
        parenthesize-Done (leb (level r) (level_of o)) (level_of o) (level r) (print r)
          (char_of o ∷ stack) out' (reverse_polish r) (λ e. ground arith)
          (print-Done r (b'(' ∷ (char_of o ∷ stack)) out' v.1 (Under-open r (char_of o ∷ stack)))
          (λ e. print-Done r (char_of o ∷ stack) out' v.1 (rw (level_of-value o) (ground arith))))

-- postfix of an expression, printed with the parentheses that left-associative operators need, is
-- the reverse Polish form of the expression, if the operands are single letters or digits.
pub postfix-print : (e : Expr) → HasOperands e → postfix (print e) ≡ some (reverse_polish e)
unfolding postfix
postfix-print e v =
    let d = print-Done e [] [] v tt in rw (d.runs, append-nil, pop_all-append) (ap some d.joined)

-- ===== src/Algorithm/Notation/Stack.antt =====
-- What a character of an expression does to the stack of the conversion and to its output.
use mathlib.Core.List.{append-nil, append_assoc}
use mathlib.Core.Path.{subst}
use foo.Prelude.{
  ℕ, ◌≤◌, ◌<◌, ◌≡◌, refl, sym, ap, ◌∙◌, false, Option, none, some, List, [], ◌∷◌, ◌++◌, arith,
  le→leb, ◌==◌,
}
use foo.Algorithm.Notation.{
  value, get_priority, is_operator, State, pop_group, pop_tighter, convert_char, convert, pop_all,
  ◌>>=◌,
}
use foo.Algorithm.Notation.Expr.{
  Op, add, sub, mul, div, pow, char_of, level_of, Expr, operand, binary, level,
}

-- The characters are operators that bind at least as tightly as `n`.
abbrev pub Pending : ℕ → List ℕ → Type 0
Pending n [] = Unit {0}
Pending n (c ∷ cs) = (n ≤ value (get_priority c)) × ((c == b'(') ≡ false) × Pending n cs

-- What stands on top of the stack binds less tightly than `n`.
abbrev pub Under : ℕ → List ℕ → Type 0
Under n [] = Unit {0}
Under n (c ∷ cs) = value (get_priority c) < n

pub convert-append :
    (xs ys : List ℕ) (s : State) → convert (xs ++ ys) s ≡ (convert xs s >>= convert ys)
unfolding convert
convert-append [] ys s = refl
convert-append (x ∷ xs) ys s = go (convert_char x s) (convert-append xs ys)
  where
    go :
        (o : Option State)
        → ((t : State) → convert (xs ++ ys) t ≡ (convert xs t >>= convert ys))
        → (o >>= convert (xs ++ ys)) ≡ ((o >>= convert xs) >>= convert ys)
    go none ih = refl
    go (some t) ih = ih t

pub pop_group-Pending :
    (n : ℕ) (pend stack out : List ℕ)
    → Pending n pend
    → pop_group (pend ++ b'(' ∷ stack) out ≡ some (stack, out ++ pend)
unfolding pop_group
pop_group-Pending n [] stack out v = rw append-nil
pop_group-Pending n (c ∷ pend) stack out v =
    rw (v.1, pop_group-Pending n pend stack (out ++ c ∷ []) v.2, append_assoc)

pub pop_tighter-Under :
    (c : ℕ) (stack out : List ℕ)
    → Under (value (get_priority c)) stack
    → pop_tighter c stack out ≡ (stack, out)
unfolding pop_tighter
pop_tighter-Under c [] out u = refl
pop_tighter-Under c (t ∷ stack) out u = ground arith

pub pop_tighter-Pending :
    (c n : ℕ) (pend stack out : List ℕ)
    → value (get_priority c) ≤ n
    → Pending n pend
    → Under (value (get_priority c)) stack
    → pop_tighter c (pend ++ stack) out ≡ (stack, out ++ pend)
unfolding pop_tighter
pop_tighter-Pending c n [] stack out h v u = rw (append-nil, pop_tighter-Under c stack out u)
pop_tighter-Pending c n (d ∷ pend) stack out h v u =
    rw
      (
        le→leb (value (get_priority c)) (value (get_priority d)) (omega (arith, v.0)),
        pop_tighter-Pending c n pend stack (out ++ d ∷ []) h v.2 u,
      )
      (ap (λ x. (stack, x)) (append_assoc out (d ∷ []) pend))

pub pop_all-append : (stack out : List ℕ) → pop_all stack out ≡ out ++ stack
unfolding pop_all
pop_all-append [] out = rw append-nil
pop_all-append (c ∷ stack) out = rw (pop_all-append stack (out ++ c ∷ []), append_assoc)

-- `s` was read over `stack` and `out`: its operators that are still held bind at least as tightly
-- as `n`, and popping them gives `out` and `rp`.
pub record Done (n : ℕ) (s stack out rp : List ℕ) : Type 0 where
  pub pend : List ℕ
  pub output : List ℕ
  pub runs : convert s (stack, out) ≡ some (pend ++ stack, output)
  pub held : Pending n pend
  pub joined : output ++ pend ≡ out ++ rp

pub Under-mono : (m n : ℕ) (stack : List ℕ) → m ≤ n → Under m stack → Under n stack
Under-mono m n [] h u = tt
Under-mono m n (c ∷ stack) h u = omega (arith, u)

pub Pending-append : (n : ℕ) (cs ds : List ℕ) → Pending n cs → Pending n ds → Pending n (cs ++ ds)
Pending-append n [] ds v w = w
Pending-append n (c ∷ cs) ds v w = (v.0, v.1, Pending-append n cs ds v.2 w)

pub Pending-mono : (m n : ℕ) (cs : List ℕ) → m ≤ n → Pending n cs → Pending m cs
Pending-mono m n [] h v = tt
Pending-mono m n (c ∷ cs) h v = (omega (arith, v.0), v.1, Pending-mono m n cs h v.2)

pub level_of-value : (o : Op) → value (get_priority (char_of o)) ≡ level_of o
unfolding get_priority
level_of-value add = refl
level_of-value sub = refl
level_of-value mul = refl
level_of-value div = refl
level_of-value pow = refl

pub char_of-Pending : (o : Op) → Pending (level_of o) (char_of o ∷ [])
unfolding get_priority
char_of-Pending add = (omega arith, refl, tt)
char_of-Pending sub = (omega arith, refl, tt)
char_of-Pending mul = (omega arith, refl, tt)
char_of-Pending div = (omega arith, refl, tt)
char_of-Pending pow = (omega arith, refl, tt)

pub level-pos : (e : Expr) → 0 < level e
level-pos (operand c) = omega arith
level-pos (binary l add r) = omega arith
level-pos (binary l sub r) = omega arith
level-pos (binary l mul r) = omega arith
level-pos (binary l div r) = omega arith
level-pos (binary l pow r) = omega arith

pub convert_char-open :
    (stack out : List ℕ) → convert_char b'(' (stack, out) ≡ some (b'(' ∷ stack, out)
unfolding convert_char is_operator
convert_char-open stack out = refl

pub convert_char-close : (stack out : List ℕ) → convert_char b')' (stack, out) ≡ pop_group stack out
unfolding convert_char is_operator
convert_char-close stack out = refl

pub convert_char-op :
    (o : Op) (pend stack out : List ℕ)
    → Pending (level_of o) pend
    → Under (level_of o) stack
    → convert_char (char_of o) (pend ++ stack, out) ≡ some (char_of o ∷ stack, out ++ pend)
unfolding convert_char is_operator
convert_char-op o pend stack out v u =
    read o ∙ ap (λ (s : State). some (char_of o ∷ s.0, s.1)) popped
  where
    popped : pop_tighter (char_of o) (pend ++ stack) out ≡ (stack, out ++ pend)
    popped =
        pop_tighter-Pending (char_of o) (level_of o) pend stack out
          (omega (arith, level_of-value o)) v
          (subst (λ n. Under n stack) (sym (level_of-value o)) u)

    read :
        (o : Op)
        → convert_char (char_of o) (pend ++ stack, out)
          ≡ some (
            char_of o ∷ (pop_tighter (char_of o) (pend ++ stack) out).0,
            (pop_tighter (char_of o) (pend ++ stack) out).1,
          )
    read add = refl
    read sub = refl
    read mul = refl
    read div = refl
    read pow = refl

pub convert_char-operand :
    (c : ℕ) (stack out : List ℕ)
    → is_operator c ≡ false
    → convert_char c (stack, out) ≡ some (stack, out ++ c ∷ [])
unfolding convert_char
convert_char-operand c stack out e = rw e

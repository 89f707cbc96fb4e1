-- ===== src/Exercises/Calculator/Line/Loop.antt =====
-- 23-12-25/4-3.c: a round of `main` takes one line of the input, and `main` ends behind the last.
use intern_status_update.Base.{
  ℕ, ◌+◌, ◌≤◌, ◌≡◌, ◌≢◌, ne→==, refl, [], ◌∷◌, ◌++◌, List, Bytes, true, false, ok, length, All,
  arith, le→leb, some,
}
use intern_status_update.Proxy.Text.{scan-append}
use intern_status_update.Exercises.Calculator.{Double, Output, answer}
use intern_status_update.Exercises.Calculator.Evaluate.{
  Expr, rpn, IsExpr, value, fresh, evaluate-rpn,
}
use intern_status_update.Exercises.Calculator.Safety.{NoRemainder}
use intern_status_update.Exercises.Calculator.Line.{ends_line, behind_line, get_line, round}
use intern_status_update.Exercises.Calculator.Line.Split.{IsOperand, line_of, split-line_of}

-- Neither a newline nor what is `EOF` in a `char`.
abbrev pub IsLineByte : ℕ → Type 0
IsLineByte c = (c ≢ b'\n') × (c ≢ 255)

in_line : (line : Bytes) → All IsLineByte line → All (λ c. ends_line c ≡ false) line
unfolding ends_line
in_line [] h = tt
in_line (c ∷ line) (h, more) = (rw (ne→== c b'\n' h.0, ne→== c 255 h.1) refl, in_line line more)

get_line-newline :
    (line rest : Bytes)
    → All IsLineByte line
    → length line ≤ 99
    → get_line (line ++ b'\n' ∷ rest) ≡ ok (line, true, rest)
unfolding get_line behind_line ends_line
get_line-newline line rest h short =
    rw
      (
        scan-append ends_line line b'\n' rest (in_line line h) refl,
        le→leb (length line + 1) 100 (omega arith),
      )
      refl

-- What `main` is given: lines of operands, none of them a remainder, that fit its arrays.
abbrev pub IsLine : List Bytes → Type 0
IsLine ops =
    All IsOperand ops
    × (length ops ≤ 30)
    × All IsLineByte (line_of ops)
    × (length (line_of ops) ≤ 99)
    × NoRemainder ops

-- The lines, with a newline behind each.
unfoldable pub lines_of : List (List Bytes) → Bytes
lines_of [] = []
lines_of (ops ∷ lines) = line_of ops ++ b'\n' ∷ lines_of lines

module _ (f : Double) where
  -- A line of at most 99 bytes that is an expression with a value, in reverse Polish notation with a
  -- blank between two operands: at most 30 operands of 1 to 19 bytes, each number beginning with a
  -- digit or with a minus sign and a digit, and no blank, NUL, newline or byte 255 in them. A round of
  -- `main` takes it off the input and prints the value and nothing else.
  pub round-rpn :
      (e : Expr) (v : f.D) (p : List (Output f.D)) (rest : Bytes)
      → IsExpr e
      → value f e ≡ some v
      → All IsOperand (rpn e)
      → length (rpn e) ≤ 30
      → All IsLineByte (line_of (rpn e))
      → length (line_of (rpn e)) ≤ 99
      → round f (line_of (rpn e) ++ b'\n' ∷ rest) (fresh f p)
        ≡ ok (true, rest, fresh f (answer v ∷ p))
  unfolding round
  round-rpn e v p rest num h operand few line short =
      rw
        (
          get_line-newline (line_of (rpn e)) rest line short,
          split-line_of (rpn e) operand few,
          evaluate-rpn f e v p num h,
        )
        refl

-- ===== src/Exercises/Calculator/Line.antt =====
-- The lines of 23-12-25/4-3.c: how one is read, how it is split into operands, and the loop of `main`.
pub mod Split
pub mod Loop
use intern_status_update.Base.{
  ℕ, zero, suc, ◌+◌, ◌≤◌, ◌≡◌, refl, [], ◌∷◌, List, Bytes, Bool, true, false, not, ◌&&◌, ◌||◌,
  Option, none, some, Run, ok, fault, ◌>>=◌, if◌then◌else◌, leb, ◌==◌, length,
}
use intern_status_update.Proxy.Text.{scan}
use intern_status_update.Exercises.Calculator.{Double, Calc, evaluate}

-- A byte 255 is `EOF` once it is stored in the `char` `ch`.
unfoldable pub ends_line : ℕ → Bool
ends_line c = c == b'\n' || c == 255

-- `f`, and the input left, from what stopped the line.
unfoldable pub behind_line : Bytes → Bool × Bytes
behind_line [] = (false, [])
behind_line (c ∷ rest) = (c == b'\n', rest)

-- `getLine`, into `line[MAXLINE]`.
unfoldable pub get_line : Bytes → Run (Bytes × Bool × Bytes)
get_line input =
    let (line, rest) = scan ends_line input in
    if leb (length line + 1) 100
    then (let (more, left) = behind_line rest in ok (line, more, left))
    else fault

-- The rounds of `split`: the blanks, then an operand, which is empty behind a last blank.
unfoldable pub operands : ℕ → Bytes → List Bytes
operands zero s = []
operands (suc k) [] = []
operands (suc k) (x ∷ s) =
    let (blanks, found) = scan (λ c. not (c == b' ')) (x ∷ s) in
    let (op, rest) = scan (λ c. c == b' ') found in op ∷ operands k rest

-- Each operand fits `ops[no]`, with its terminator.
unfoldable pub fits_all : List Bytes → Bool
fits_all [] = true
fits_all (op ∷ ops) = leb (length op + 1) 20 && fits_all ops

-- `split`, which stops at the first NUL of the line; each round takes a byte at least.
unfoldable pub split : Bytes → Run (List Bytes)
split line =
    let text = (scan (λ c. c == 0) line).0 in
    let ops = operands (length text) text in
    if leb (length ops) 30 && fits_all ops then ok ops else fault

module _ (f : Double) where
  -- One round of `main`: `f`, the input left and the calculator.
  unfoldable pub round : Bytes → Calc f.D → Run (Bool × Bytes × Calc f.D)
  round input c = do
    (line, more, rest) ← get_line input
    ops ← split line
    d ← evaluate f ops c
    ok (more, rest, d)

  abbrev pub continue :
      Run (Bool × Bytes × Calc f.D)
      → (Bytes → Calc f.D → Option (Run (Calc f.D)))
      → Option (Run (Calc f.D))
  continue fault again = some fault
  continue (ok (more, rest, d)) again = if more then again rest d else some (ok d)

  -- `main`, for so many rounds; none when they are not enough.
  unfoldable pub session : ℕ → Bytes → Calc f.D → Option (Run (Calc f.D))
  session zero input c = none
  session (suc k) input c = continue (round input c) (session k)

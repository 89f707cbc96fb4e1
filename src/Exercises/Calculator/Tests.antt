-- ===== src/Exercises/Calculator/Tests.antt =====
-- Lines given to the calculator, with natural numbers for `double`.
use intern_status_update.Base.{
  ℕ, ◌+◌, ◌-◌, ◌*◌, ◌/◌, ◌%◌, ◌≡◌, refl, inl, [], ◌∷◌, ◌++◌, List, Bytes, true, none, some, ok,
  codes, if◌then◌else◌, arith, get_or, ◌==◌,
}
use intern_status_update.Libc.{is_digit, read_digits}
use intern_status_update.Proxy.Text.{scan}
use intern_status_update.Exercises.Calculator.{
  Double, Output, answer, structure_invalid, push, pop, empty_stack, is_number, pop_two, operate,
  step, evaluate_ops, finish_line, evaluate,
}
use intern_status_update.Exercises.Calculator.Evaluate.{
  Expr, number, binary, minus, times, rpn, value, fresh, IsExpr,
}
use intern_status_update.Exercises.Calculator.Safety.{evaluate-Resets}
use intern_status_update.Exercises.Calculator.Line.{
  ends_line, behind_line, get_line, operands, fits_all, split, round, session,
}
use intern_status_update.Exercises.Calculator.Line.Split.{line_of, spaced}
use intern_status_update.Exercises.Calculator.Line.Loop.{round-rpn}

abbrev naturals : Double
naturals = record {
  D = ℕ;
  add = λ a b. a + b;
  sub = λ a b. a - b;
  mul = λ a b. a * b;
  div = λ a b. a / b;
  is_zero = λ a. a == 0;
  rem = λ a b. if b == 0 then none else some (a % b);
  atof = read_digits 0;
}

-- (9 - 4) * 2
abbrev sample : Expr
sample = binary times (binary minus (number (codes "9")) (number (codes "4"))) (number (codes "2"))

abbrev sample-IsExpr : IsExpr sample
sample-IsExpr = (
  (
    (b'9', [], inl ((omega arith, omega arith), refl)),
    (b'4', [], inl ((omega arith, omega arith), refl)),
  ),
  (b'2', [], inl ((omega arith, omega arith), refl)),
)

round-rpn_example :
    round naturals (line_of (rpn sample) ++ b'\n' ∷ codes "7") (fresh naturals [])
    ≡ ok (true, codes "7", fresh naturals (answer 10 ∷ []))
unfolding value read_digits is_number is_digit rpn ends_line line_of spaced get_or
round-rpn_example =
    round-rpn naturals sample 10 [] (codes "7") sample-IsExpr refl (omega arith) (omega arith)
      (
        (omega arith, omega arith),
        (
          (omega arith, omega arith),
          (
            (omega arith, omega arith),
            (
              (omega arith, omega arith),
              (
                (omega arith, omega arith),
                (
                  (omega arith, omega arith),
                  (
                    (omega arith, omega arith),
                    ((omega arith, omega arith), ((omega arith, omega arith), tt)),
                  ),
                ),
              ),
            ),
          ),
        ),
      )
      (omega arith)

evaluate-Resets_example :
    (q : List (Output ℕ)) × (evaluate naturals (codes "+" ∷ codes "1" ∷ []) (fresh naturals [])
      ≡ ok (fresh naturals q))
unfolding get_or
evaluate-Resets_example = evaluate-Resets naturals (codes "+" ∷ codes "1" ∷ []) [] (omega arith)

-- The lines `1 2` and `+`.
abbrev two_lines : List (List Bytes)
two_lines = (codes "1" ∷ codes "2" ∷ []) ∷ (codes "+" ∷ []) ∷ []

-- A blank at the end of a line is an operand without bytes, which is no symbol.
split_last_blank : split (codes "1 2 ") ≡ ok (codes "1" ∷ codes "2" ∷ [] ∷ [])
unfolding split scan operands fits_all
split_last_blank = refl

-- The end of the input is a line without operands.
session_end :
    session naturals 3 (codes "6 4 %\n") (fresh naturals [])
    ≡ some (ok (fresh naturals (structure_invalid ∷ answer 2 ∷ [])))
unfolding session round get_line scan behind_line ends_line split operands fits_all evaluate
    evaluate_ops step is_number is_digit read_digits operate pop_two pop push empty_stack
    finish_line get_or
session_end = refl

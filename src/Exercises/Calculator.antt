-- ===== src/Exercises/Calculator.antt =====
-- 23-12-25/4-3.c: the calculator for reverse Polish notation. `double` and its library are a parameter.
pub mod Evaluate
pub mod Safety
pub mod Line
mod Tests
use intern_status_update.Base.{
  ℕ, zero, suc, ◌+◌, ◌-◌, ◌≤◌, [], ◌∷◌, ◌++◌, List, Bytes, Bool, true, false, not, ◌&&◌, ◌||◌,
  Option, none, some, Run, ok, fault, ◌>>=◌, deref, if◌then◌else◌, ltb, leb, ◌==◌, length, get_or,
}
use intern_status_update.Libc.{is_digit}

-- `rem` is `(double)((int)t2 % (int)t1)`, none where C leaves it undefined.
pub record Double : Type 1 where
  pub D : Type 0
  pub add : D → D → D
  pub sub : D → D → D
  pub mul : D → D → D
  pub div : D → D → D
  pub is_zero : D → Bool
  pub rem : D → D → Option D
  pub atof : Bytes → D

-- What is printed.
pub data Output (D : Type 0) : Type 0 where
  answer : D → Output D
  divide_by_zero : Output D
  unknown_symbol : Output D
  input_invalid : Output D
  structure_invalid : Output D

-- `stack`, `stack_length`, and what was printed, the last first.
pub record Calc (D : Type 0) : Type 0 where
  pub stack : List D
  pub stack_length : ℕ
  pub printed : List (Output D)

-- `push`, where `malloc` succeeds.
unfoldable pub push : {D : Type 0} → List D → D → List D
push s v = v ∷ s

-- `pop`: none is STACK_EMPTY, which leaves the target as it was, without a value here.
unfoldable pub pop : {D : Type 0} → List D → Option (D × List D)
pop [] = none
pop (v ∷ s) = some (v, s)

unfoldable pub empty_stack : {D : Type 0} → List D → List D
empty_stack [] = []
empty_stack (v ∷ s) = empty_stack s

-- An operand: a digit first, or a minus sign and a digit.
unfoldable pub is_number : Bytes → Bool
is_number op = is_digit (get_or op 0 0) || (get_or op 0 0 == b'-' && is_digit (get_or op 1 0))

abbrev pub say : {D : Type 0} → Output D → Calc D → Calc D
say o c = record c { printed = o ∷ c.printed }

module _ (f : Double) where
  -- `pop(&stack, &t1); pop(&stack, &t2);`
  unfoldable pub pop_two : List f.D → Run (f.D × f.D × List f.D)
  pop_two s = do (t1, s1) ← deref (pop s); (t2, s2) ← deref (pop s1); ok (t1, t2, s2)

  -- `push(&stack, v); stack_length--`, behind the two pops.
  abbrev pub give : f.D → List f.D → Calc f.D → Calc f.D
  give v s c = record c { stack = push s v; stack_length = c.stack_length - 1 }

  unfoldable pub divide : f.D → f.D → List f.D → Calc f.D → Calc f.D
  divide t1 t2 s c =
      let c1 = record c { stack = s; stack_length = c.stack_length - 2 } in
      if f.is_zero t1
      then say divide_by_zero c1
      else record c1 { stack = push s (f.div t2 t1); stack_length = c1.stack_length + 1 }

  -- The `switch`, with two operands on the stack.
  unfoldable pub operate : ℕ → Calc f.D → Run (Calc f.D)
  operate op c =
      if op == b'+'
      then (do (t1, t2, s) ← pop_two c.stack; ok (give (f.add t2 t1) s c))
      else if op == b'-'
      then (do (t1, t2, s) ← pop_two c.stack; ok (give (f.sub t2 t1) s c))
      else if op == b'*'
      then (do (t1, t2, s) ← pop_two c.stack; ok (give (f.mul t2 t1) s c))
      else if op == b'/'
      then (do (t1, t2, s) ← pop_two c.stack; ok (divide t1 t2 s c))
      else if op == b'%'
      then (do (t1, t2, s) ← pop_two c.stack; v ← deref (f.rem t2 t1); ok (give v s c))
      else ok (say unknown_symbol c)

  -- One round of the loop; false is `break`.
  unfoldable pub step : Bytes → Calc f.D → Run (Bool × Calc f.D)
  step op c =
      if is_number op
      then ok
          (true, record c { stack = push c.stack (f.atof op); stack_length = c.stack_length + 1 })
      else if leb 2 c.stack_length
      then (do c1 ← operate (get_or op 0 0) c; ok (true, c1))
      else ok (false, say input_invalid c)

  -- The loop over `ops`; the flag is `i == n`.
  unfoldable pub evaluate_ops : List Bytes → Calc f.D → Run (Bool × Calc f.D)
  evaluate_ops [] c = ok (true, c)
  evaluate_ops (op ∷ ops) c = do
    (go, c1) ← step op c
    if go then evaluate_ops ops c1 else ok (false, c1)

  -- Behind the loop.
  unfoldable pub finish_line : Bool → Calc f.D → Run (Calc f.D)
  finish_line whole c =
      if c.stack_length == 1 && whole
      then (do (ans, s) ← deref (pop c.stack); ok (say (answer ans) (record c { stack = s })))
      else ok (say structure_invalid c)

  unfoldable pub evaluate : List Bytes → Calc f.D → Run (Calc f.D)
  evaluate ops c = do
    (whole, c1) ← evaluate_ops ops c
    c2 ← finish_line whole c1
    ok (record c2 { stack = empty_stack c2.stack; stack_length = 0 })

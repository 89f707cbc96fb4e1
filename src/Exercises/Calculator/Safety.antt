-- ===== src/Exercises/Calculator/Safety.antt =====
-- The calculator of 23-12-25/4-3.c on every line: it takes no operand from an empty stack.
use intern_status_update.Base.{
  ℕ, ◌+◌, ◌≡◌, ◌≢◌, refl, sym, inl, inr, [], ◌∷◌, List, Bytes, Bool, true, false, ◌&&◌, Run, ok,
  if◌then◌else◌, leb, ◌==◌, Bool-cases, length, get_or, arith, All, ne→==,
}
use intern_status_update.Exercises.Calculator.{
  Double, Calc, push, pop, empty_stack, is_number, pop_two, divide, operate, step, evaluate_ops,
  finish_line, evaluate,
}
use intern_status_update.Exercises.Calculator.Evaluate.{fresh}

-- No operand is a remainder, which C leaves undefined for a divisor that is 0 as an `int`.
abbrev pub NoRemainder : List Bytes → Type 0
NoRemainder = All (λ op. get_or op 0 0 ≢ b'%')

module _ (f : Double) where
  -- `stack_length` counts the nodes of `stack`.
  abbrev pub Counted : Calc f.D → Type 0
  Counted c = length c.stack ≡ c.stack_length

  Returns : Run (Calc f.D) → Type 0
  Returns m = (d : Calc f.D) × (m ≡ ok d) × Counted d

  if_Returns :
      (b : Bool) (m n : Run (Calc f.D)) → Returns m → Returns n → Returns (if b then m else n)
  if_Returns true m n first other = first
  if_Returns false m n first other = other

  divide-Counted :
      (b a : f.D) (s : List f.D) (c : Calc f.D) (z : Bool)
      → f.is_zero b ≡ z
      → length s + 2 ≡ c.stack_length
      → Counted (divide f b a s c)
  unfolding divide push
  divide-Counted b a s c true e h = rw e (omega arith)
  divide-Counted b a s c false e h = rw e (omega arith)

  operate-Returns :
      (op n : ℕ) (a b : f.D) (s : List f.D) (p : List _)
      → op ≢ b'%'
      → length s + 2 ≡ n
      → Returns (operate f op (record { stack = b ∷ a ∷ s; stack_length = n; printed = p }))
  unfolding operate pop_two pop push Returns
  operate-Returns op n a b s p h depth =
      if_Returns (op == b'+') _ _ (_, refl, omega arith)
        (if_Returns (op == b'-') _ _ (_, refl, omega arith)
          (if_Returns (op == b'*') _ _ (_, refl, omega arith)
            (if_Returns (op == b'/') _ _ (_, refl, divide-Counted b a s _ _ refl depth)
              (rw (ne→== op b'%' h) (_, refl, omega arith)))))

  operate-enough :
      (op : ℕ) (s : List f.D) (n : ℕ) (p : List _)
      → op ≢ b'%'
      → length s ≡ n
      → leb 2 n ≡ true
      → Returns (operate f op (record { stack = s; stack_length = n; printed = p }))
  operate-enough op [] n p h depth enough = absurd (ground arith)
  operate-enough op (b ∷ []) n p h depth enough = absurd (ground arith)
  operate-enough op (b ∷ a ∷ s) n p h depth enough = operate-Returns op n a b s p h (omega arith)

  Goes : Run (Bool × Calc f.D) → Type 0
  Goes m = (go : Bool) × (d : Calc f.D) × (m ≡ ok (go, d)) × Counted d

  step-Goes : (op : Bytes) (c : Calc f.D) → get_or op 0 0 ≢ b'%' → Counted c → Goes (step f op c)
  unfolding step push Returns Goes
  step-Goes op c h depth = elim (Bool-cases (is_number op)) [
    | inl num ↦ rw num (true, _, refl, omega arith)
    | inr not_num ↦ elim (Bool-cases (leb 2 c.stack_length)) [
      | inl enough ↦
          let (d, run, counted) =
            operate-enough _ c.stack c.stack_length c.printed h depth enough in
          rw (not_num, enough, run) (true, d, refl, counted)
      | inr few ↦ rw (not_num, few) (false, _, refl, depth)
    ]
  ]

  if_Goes : (b : Bool) (m n : Run (Bool × Calc f.D)) → Goes m → Goes n → Goes (if b then m else n)
  if_Goes true m n first other = first
  if_Goes false m n first other = other

  evaluate_ops-Goes :
      (ops : List Bytes) (c : Calc f.D) → NoRemainder ops → Counted c → Goes (evaluate_ops f ops c)
  unfolding evaluate_ops Goes
  evaluate_ops-Goes [] c h depth = (true, c, refl, depth)
  evaluate_ops-Goes (op ∷ ops) c h depth =
      let (go, d, run, counted) = step-Goes op c h.0 depth in
      rw run (
        if_Goes go (evaluate_ops f ops d) (ok (false, d)) (evaluate_ops-Goes ops d h.1 counted)
          (false, d, refl, counted))

  Ends : Run (Calc f.D) → Type 0
  Ends m = (d : Calc f.D) × (m ≡ ok d)

  if_Ends : (b : Bool) (m n : Run (Calc f.D)) → Ends m → Ends n → Ends (if b then m else n)
  if_Ends true m n first other = first
  if_Ends false m n first other = other

  finish_line-Ends :
      (whole : Bool) (s : List f.D) (n : ℕ) (p : List _)
      → length s ≡ n
      → Ends (finish_line f whole (record { stack = s; stack_length = n; printed = p }))
  unfolding finish_line pop Ends
  finish_line-Ends whole (v ∷ s) n p depth = if_Ends (n == 1 && whole) _ _ (_, refl) (_, refl)
  finish_line-Ends whole [] n p depth = rw (sym depth) (_, refl)

  empty_stack-nil : (s : List f.D) → empty_stack s ≡ []
  unfolding empty_stack
  empty_stack-nil [] = refl
  empty_stack-nil (v ∷ s) = empty_stack-nil s

  -- Whatever the operands of a line, when none of them is a remainder: no operand is taken from an
  -- empty stack, and the line ends with the stack empty and its length 0, as it began.
  pub evaluate-Resets :
      (ops : List Bytes) (p : List _)
      → NoRemainder ops
      → (q : List _) × (evaluate f ops (fresh f p) ≡ ok (fresh f q))
  unfolding evaluate Goes Ends
  evaluate-Resets ops p h =
      let (whole, c, run, counted) = evaluate_ops-Goes ops (fresh f p) h refl in
      let (d, end) = finish_line-Ends whole c.stack c.stack_length c.printed counted in
      rw (run, end, empty_stack-nil d.stack) (d.printed, refl)

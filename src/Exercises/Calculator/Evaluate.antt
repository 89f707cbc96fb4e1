-- ===== src/Exercises/Calculator/Evaluate.antt =====
-- The calculator computes the values of expressions, and starts afresh with every line.
use intern_status_update.Libc.{is_digit}
use intern_status_update.Base.{
  ℕ, ◌+◌, ◌-◌, ◌≤◌, ◌≡◌, ◌⊎◌, refl, subst, ◌∙◌, inl, inr, [], ◌∷◌, ◌++◌, List, Bytes, Bool, true,
  false, Option, none, some, ok, if◌then◌else◌, get_or, append_assoc, append-nil, arith,
  some-injective, le→leb,
}
use intern_status_update.Exercises.Calculator.{
  Double, Output, answer, Calc, push, pop, empty_stack, is_number, pop_two, give, divide, operate,
  step, evaluate_ops, finish_line, evaluate,
}

pub data Operator : Type 0 where
  plus minus times over modulo : Operator

abbrev pub symbol : Operator → ℕ
symbol plus = b'+'
symbol minus = b'-'
symbol times = b'*'
symbol over = b'/'
symbol modulo = b'%'

pub data Expr : Type 0 where
  number : Bytes → Expr
  binary : Operator → Expr → Expr → Expr

-- The expression in reverse Polish notation.
unfoldable pub rpn : Expr → List Bytes
rpn (number b) = b ∷ []
rpn (binary o l r) = rpn l ++ (rpn r ++ (symbol o ∷ []) ∷ [])

abbrev pub IsDigit : ℕ → Type 0
IsDigit c = (b'0' ≤ c) × (c ≤ b'9')

-- A number begins with a digit, or with a minus sign and a digit.
abbrev pub IsNumber : Bytes → Type 0
IsNumber b =
    (c : ℕ) × (rest : Bytes) × (IsDigit c × (b ≡ c ∷ rest) ⊎ IsDigit c × (b ≡ b'-' ∷ c ∷ rest))

number-is_number : (b : Bytes) → IsNumber b → is_number b ≡ true
unfolding is_number is_digit get_or
number-is_number b (c, rest, inl (digit, e)) = rw e (ground (arith, digit))
number-is_number b (c, rest, inr (digit, e)) = rw e (ground (arith, digit))

-- Its operands are numbers.
abbrev pub IsExpr : Expr → Type 0
IsExpr (number b) = IsNumber b
IsExpr (binary o l r) = IsExpr l × IsExpr r

module _ (f : Double) where
  abbrev pub apply : Operator → f.D → f.D → Option f.D
  apply plus a b = some (f.add a b)
  apply minus a b = some (f.sub a b)
  apply times a b = some (f.mul a b)
  apply over a b = if f.is_zero b then none else some (f.div a b)
  apply modulo a b = f.rem a b

  abbrev pub apply_both : Operator → Option f.D → Option f.D → Option f.D
  apply_both o (some a) (some b) = apply o a b
  apply_both o _ _ = none

  -- The value; none where the code divides by zero, or by what is zero as an `int`.
  unfoldable pub value : Expr → Option f.D
  value (number b) = some (f.atof b)
  value (binary o l r) = apply_both o (value l) (value r)

  abbrev pub pushed : Calc f.D → f.D → Calc f.D
  pushed c v = record c { stack = v ∷ c.stack; stack_length = c.stack_length + 1 }

  -- A result in place of its two operands is the result pushed.
  give-pushed :
      (w v a b : f.D) (c : Calc f.D)
      → some w ≡ some v
      → ok (give f w c.stack (pushed (pushed c a) b)) ≡ ok (pushed c v)
  unfolding push
  give-pushed w v a b c h =
      let same : w ≡ v = some-injective h in
      let depth : c.stack_length + 1 + 1 - 1 ≡ c.stack_length + 1 = omega arith in
      rw (depth, same) refl

  divide-pushed :
      (a b v : f.D) (c : Calc f.D) (z : Bool)
      → f.is_zero b ≡ z
      → (if z then none else some (f.div a b)) ≡ some v
      → ok (divide f b a c.stack (pushed (pushed c a) b)) ≡ ok (pushed c v)
  unfolding divide push
  divide-pushed a b v c true e h = cc
  divide-pushed a b v c false e h =
      let same : f.div a b ≡ v = some-injective h in
      let depth : c.stack_length + 1 + 1 - 2 + 1 ≡ c.stack_length + 1 = omega arith in
      rw (e, depth, same) refl

  operate-symbol :
      (o : Operator) (a b v : f.D) (c : Calc f.D)
      → apply o a b ≡ some v
      → operate f (symbol o) (pushed (pushed c a) b) ≡ ok (pushed c v)
  unfolding operate pop_two pop push
  operate-symbol plus a b v c h = give-pushed _ v a b c h
  operate-symbol minus a b v c h = give-pushed _ v a b c h
  operate-symbol times a b v c h = give-pushed _ v a b c h
  operate-symbol over a b v c h = divide-pushed a b v c (f.is_zero b) refl h
  operate-symbol modulo a b v c h = rw h (give-pushed v v a b c refl)

  symbol-not_number : (o : Operator) → is_number (symbol o ∷ []) ≡ false
  unfolding is_number is_digit get_or
  symbol-not_number plus = refl
  symbol-not_number minus = refl
  symbol-not_number times = refl
  symbol-not_number over = refl
  symbol-not_number modulo = refl

  step-operate :
      (op : Bytes) (c d : Calc f.D)
      → is_number op ≡ false
      → 2 ≤ c.stack_length
      → operate f (get_or op 0 0) c ≡ ok d
      → step f op c ≡ ok (true, d)
  unfolding step
  step-operate op c d is_op enough h = rw (is_op, le→leb 2 c.stack_length enough, h) refl

  step-symbol :
      (o : Operator) (a b v : f.D) (c : Calc f.D)
      → apply o a b ≡ some v
      → step f (symbol o ∷ []) (pushed (pushed c a) b) ≡ ok (true, pushed c v)
  unfolding get_or
  step-symbol o a b v c h =
      step-operate _ _ _ (symbol-not_number o) (omega arith) (operate-symbol o a b v c h)

  step-number :
      (b : Bytes) (c : Calc f.D) → is_number b ≡ true → step f b c ≡ ok (true, pushed c (f.atof b))
  unfolding step push
  step-number b c h = rw h refl

  evaluate_ops-step :
      (op : Bytes) (rest : List Bytes) (c d : Calc f.D)
      → step f op c ≡ ok (true, d)
      → evaluate_ops f (op ∷ rest) c ≡ evaluate_ops f rest d
  unfolding evaluate_ops
  evaluate_ops-step op rest c d h = rw h refl

  -- Both operands of an operation with a value have values.
  apply_both-some :
      {P : Type 0} (o : Operator) (x y : Option f.D) (v : f.D)
      → apply_both o x y ≡ some v
      → ((a b : f.D) → x ≡ some a → y ≡ some b → apply o a b ≡ some v → P)
      → P
  apply_both-some o (some a) (some b) v h use_it = use_it a b refl refl h
  apply_both-some o (some a) none v h use_it = cc
  apply_both-some o none y v h use_it = cc

  -- The operands of an expression that has a value leave that value on the stack, whatever is
  -- below it, and whatever operands follow.
  pub evaluate_ops-rpn :
      (e : Expr) (v : f.D) (rest : List Bytes) (c : Calc f.D)
      → IsExpr e
      → value e ≡ some v
      → evaluate_ops f (rpn e ++ rest) c ≡ evaluate_ops f rest (pushed c v)
  unfolding value rpn
  evaluate_ops-rpn (number b) v rest c num h =
      let same : f.atof b ≡ v = some-injective h in
      evaluate_ops-step b rest c _ (step-number b c (number-is_number b num)) ∙ rw same refl
  evaluate_ops-rpn (binary o l r) v rest c (num_l, num_r) h =
      apply_both-some o (value l) (value r) v h λ a b has_l has_r both.
        rw (append_assoc, append_assoc)
          (evaluate_ops-rpn l a _ c num_l has_l
            ∙ evaluate_ops-rpn r b _ (pushed c a) num_r has_r
            ∙ evaluate_ops-step _ rest _ _ (step-symbol o a b v c both))

  -- The calculator between two lines, with what has been printed.
  abbrev pub fresh : List (Output f.D) → Calc f.D
  fresh p = record { stack = []; stack_length = 0; printed = p }

  evaluate-finish :
      (ops : List Bytes) (v : f.D) (p : List (Output f.D))
      → evaluate_ops f ops (fresh p) ≡ ok (true, pushed (fresh p) v)
      → evaluate f ops (fresh p) ≡ ok (fresh (answer v ∷ p))
  unfolding evaluate finish_line pop empty_stack
  evaluate-finish ops v p h = rw h refl

  -- A line that is an expression with a value prints that value and nothing else, and leaves the
  -- calculator as it was.
  pub evaluate-rpn :
      (e : Expr) (v : f.D) (p : List (Output f.D))
      → IsExpr e
      → value e ≡ some v
      → evaluate f (rpn e) (fresh p) ≡ ok (fresh (answer v ∷ p))
  unfolding evaluate_ops
  evaluate-rpn e v p num h = evaluate-finish (rpn e) v p (
      subst (λ ops. evaluate_ops f ops (fresh p) ≡ ok (true, pushed (fresh p) v))
        (append-nil (rpn e)) (evaluate_ops-rpn e v [] (fresh p) num h))

-- ===== src/Exercises/Calculator/Line/Split.antt =====
-- 23-12-25/4-3.c: a line of operands with blanks between them is split into these operands.
use intern_status_update.Base.{
  ℕ, zero, suc, ◌+◌, ◌≤◌, ◌≡◌, ◌≢◌, refl, ap, ◌∙◌, [], ◌∷◌, ◌++◌, List, Bytes, true, false, not, ok,
  ◌==◌, length, length-append, All, arith, ne→==, le→leb,
}
use intern_status_update.Proxy.Text.{scan, scan-All}
use intern_status_update.Exercises.Calculator.Line.{operands, fits_all, split}

-- Neither a blank nor the terminator.
abbrev pub IsPrinted : ℕ → Type 0
IsPrinted c = (c ≢ b' ') × (c ≢ 0)

-- What an entry of `ops` holds.
abbrev pub IsOperand : Bytes → Type 0
IsOperand [] = ⊥
IsOperand (x ∷ op) = All IsPrinted (x ∷ op) × (length (x ∷ op) ≤ 19)

-- Operands with a blank in front of each.
unfoldable pub spaced : List Bytes → Bytes
spaced [] = []
spaced (op ∷ ops) = b' ' ∷ op ++ spaced ops

-- Operands with a blank between two.
unfoldable pub line_of : List Bytes → Bytes
line_of [] = []
line_of (op ∷ ops) = op ++ spaced ops

-- No byte of an operand ends it.
scan-operand :
    (op : Bytes) (ops : List Bytes)
    → All IsPrinted op
    → scan (λ c. c == b' ') (op ++ spaced ops) ≡ (op, spaced ops)
unfolding scan spaced
scan-operand [] [] h = refl
scan-operand [] (o ∷ ops) h = refl
scan-operand (x ∷ op) ops h = rw (ne→== x b' ' h.0.0, scan-operand op ops h.1) refl

scan-start :
    (x : ℕ) (op : Bytes) (t : Bytes)
    → IsPrinted x
    → scan (λ c. not (c == b' ')) ((x ∷ op) ++ t) ≡ ([], (x ∷ op) ++ t)
unfolding scan
scan-start x op t h = rw (ne→== x b' ' h.0) refl

scan-blank :
    (x : ℕ) (op : Bytes) (t : Bytes)
    → IsPrinted x
    → scan (λ c. not (c == b' ')) (b' ' ∷ (x ∷ op) ++ t) ≡ (b' ' ∷ [], (x ∷ op) ++ t)
unfolding scan
scan-blank x op t h = rw (ne→== x b' ' h.0) refl

-- One round of `split`.
operands-round :
    (k x : ℕ) (s blanks found op rest : Bytes)
    → scan (λ c. not (c == b' ')) (x ∷ s) ≡ (blanks, found)
    → scan (λ c. c == b' ') found ≡ (op, rest)
    → operands (suc k) (x ∷ s) ≡ op ∷ operands k rest
unfolding operands
operands-round k x s blanks found op rest before it = rw (before, it) refl

operands-spaced :
    (k : ℕ) (ops : List Bytes) → All IsOperand ops → length ops ≤ k → operands k (spaced ops) ≡ ops
unfolding operands spaced
operands-spaced zero [] h enough = refl
operands-spaced (suc k) [] h enough = refl
operands-spaced zero (op ∷ ops) h enough = absurd (omega arith)
operands-spaced (suc k) ([] ∷ ops) h enough = absurd h.0
operands-spaced (suc k) ((x ∷ op) ∷ ops) h enough =
    operands-round k _ _ _ _ _ _ (scan-blank x op (spaced ops) h.0.0.0)
      (scan-operand (x ∷ op) ops h.0.0)
    ∙ ap (λ t. (x ∷ op) ∷ t) (operands-spaced k ops h.1 (omega arith))

operands-line_of :
    (k : ℕ) (ops : List Bytes) → All IsOperand ops → length ops ≤ k → operands k (line_of ops) ≡ ops
unfolding line_of spaced
operands-line_of k [] h enough = operands-spaced k [] h enough
operands-line_of zero (op ∷ ops) h enough = absurd (omega arith)
operands-line_of (suc k) ([] ∷ ops) h enough = absurd h.0
operands-line_of (suc k) ((x ∷ op) ∷ ops) h enough =
    operands-round k _ _ _ _ _ _ (scan-start x op (spaced ops) h.0.0.0)
      (scan-operand (x ∷ op) ops h.0.0)
    ∙ ap (λ t. (x ∷ op) ∷ t) (operands-spaced k ops h.1 (omega arith))

IsText : Bytes → Type 0
IsText = All (λ c. (c == 0) ≡ false)

operand-IsText : (op s : Bytes) → All IsPrinted op → IsText s → IsText (op ++ s)
unfolding IsText
operand-IsText [] s h t = t
operand-IsText (x ∷ op) s h t = (ne→== x 0 h.0.1, operand-IsText op s h.1 t)

spaced-IsText : (ops : List Bytes) → All IsOperand ops → IsText (spaced ops)
unfolding IsText spaced
spaced-IsText [] h = tt
spaced-IsText ([] ∷ ops) h = absurd h.0
spaced-IsText ((x ∷ op) ∷ ops) h = (refl, operand-IsText (x ∷ op) _ h.0.0 (spaced-IsText ops h.1))

line_of-IsText : (ops : List Bytes) → All IsOperand ops → IsText (line_of ops)
unfolding line_of IsText
line_of-IsText [] h = tt
line_of-IsText ([] ∷ ops) h = absurd h.0
line_of-IsText ((x ∷ op) ∷ ops) h = operand-IsText (x ∷ op) _ h.0.0 (spaced-IsText ops h.1)

fits_all-operands : (ops : List Bytes) → All IsOperand ops → fits_all ops ≡ true
unfolding fits_all
fits_all-operands [] h = refl
fits_all-operands ([] ∷ ops) h = absurd h.0
fits_all-operands ((x ∷ op) ∷ ops) h =
    rw (le→leb (length (x ∷ op) + 1) 20 (omega (arith, h.0.1)), fits_all-operands ops h.1) refl

-- No more operands than bytes.
length-spaced : (ops : List Bytes) → length ops ≤ length (spaced ops)
unfolding spaced
length-spaced [] = omega arith
length-spaced (op ∷ ops) = omega (arith, length-append op (spaced ops), length-spaced ops)

length-line_of : (ops : List Bytes) → All IsOperand ops → length ops ≤ length (line_of ops)
unfolding line_of
length-line_of [] h = omega arith
length-line_of ([] ∷ ops) h = absurd h.0
length-line_of ((x ∷ op) ∷ ops) h = omega (arith, length-append op (spaced ops), length-spaced ops)

-- A line of at most 30 operands of 1 to 19 bytes, without blanks and NULs in them and with a blank
-- between two, is split into these operands.
pub split-line_of :
    (ops : List Bytes) → All IsOperand ops → length ops ≤ 30 → split (line_of ops) ≡ ok ops
unfolding split IsText
split-line_of ops h few =
    rw
      (
        scan-All (λ c. c == 0) (line_of ops) (line_of-IsText ops h),
        operands-line_of (length (line_of ops)) ops h (length-line_of ops h),
        le→leb (length ops) 30 few,
        fits_all-operands ops h,
      )
      refl

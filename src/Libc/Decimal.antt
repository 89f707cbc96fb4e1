-- ===== src/Libc/Decimal.antt =====
-- `atoi` reads back what `%d` prints.
use intern_status_update.Base.{
  ℕ, zero, suc, ◌+◌, ◌-◌, ◌*◌, ◌/◌, ◌%◌, ◌^◌, ◌≤◌, ◌<◌, ◌≡◌, refl, [], ◌∷◌, ◌++◌, Bytes, false, ok,
  ltb, lt→ltb, le→leb, Bool-cases, inl, inr, length, length-append, All, arith,
}
use intern_status_update.Base.Int.{ℤ, pos, negsuc}
use intern_status_update.Libc.{
  digits_of, print_int, is_digit, read_digits, signed, skip_space, atoi,
}
use native.Mathlib.Nat.{pow-suc}

abbrev pub IsDigit : ℕ → Type 0
IsDigit c = (48 ≤ c) × (c ≤ 57)

All-append-IsDigit : (xs : Bytes) (x : ℕ) → All IsDigit xs → IsDigit x → All IsDigit (xs ++ x ∷ [])
All-append-IsDigit [] x h d = (d, tt)
All-append-IsDigit (y ∷ xs) x h d = (h.0, All-append-IsDigit xs x h.1 d)

pub All-digits_of : (fuel n : ℕ) → All IsDigit (digits_of fuel n)
unfolding digits_of
All-digits_of zero n = tt
All-digits_of (suc fuel) n = elim (Bool-cases (ltb n 10)) [
  | inl e ↦ rw e (ground arith)
  | inr e ↦ rw e (All-append-IsDigit _ (48 + n % 10) (All-digits_of fuel (n / 10)) (omega arith))
]

read_digits-append :
    (acc : ℕ) (xs : Bytes) (x : ℕ)
    → All IsDigit xs
    → IsDigit x
    → read_digits acc (xs ++ x ∷ []) ≡ read_digits acc xs * 10 + (x - 48)
unfolding read_digits is_digit
read_digits-append acc [] x h d = ground arith
read_digits-append acc (y ∷ xs) x h d =
    ground (arith, read_digits-append (acc * 10 + (y - 48)) xs x)

read_digits-digits_of : (fuel n : ℕ) → n < fuel → read_digits 0 (digits_of fuel n) ≡ n
unfolding digits_of
read_digits-digits_of zero n h = absurd (omega arith)
read_digits-digits_of (suc fuel) n h = elim (Bool-cases (ltb n 10)) [
  | inl e ↦ rw e (unfold read_digits is_digit in (ground arith))
  | inr e ↦
      rw
        (
          e,
          read_digits-append 0 (digits_of fuel (n / 10)) (48 + n % 10) (All-digits_of fuel (n / 10))
              (omega arith),
        )
        (ground (arith, read_digits-digits_of fuel (n / 10)))
]

-- A digit string is neither signed nor indented.
plain_digits : (xs : Bytes) → All IsDigit xs → (skip_space xs ≡ xs) × (signed xs ≡ (false, xs))
unfolding skip_space signed
plain_digits [] h = (refl, refl)
plain_digits (x ∷ xs) h = ground arith

pub length-digits_of : (fuel n k : ℕ) → n < 10 ^ k → 0 < k → length (digits_of fuel n) ≤ k
unfolding digits_of
length-digits_of fuel n zero h p = absurd (omega arith)
length-digits_of zero n (suc k) h p = omega arith
length-digits_of (suc fuel) n (suc zero) h p =
    rw (lt→ltb n 10 (let e : 10 ^ 1 ≡ 10 = refl in omega (arith, e))) (omega arith)
length-digits_of (suc fuel) n (suc (suc k)) h p = elim (Bool-cases (ltb n 10)) [
  | inl e ↦ rw e (omega arith)
  | inr e ↦
      rw (e, length-append)
        (omega (
          arith,
          length-digits_of fuel (n / 10) (suc k) (omega (arith, pow-suc 10 (suc k))) (omega arith),
        ))
]

-- The values of a 32-bit `int`.
abbrev pub IsInt : ℤ → Type 0
IsInt (pos n) = n < 2 ^ 31
IsInt (negsuc n) = n < 2 ^ 31

-- `atoi` of what `%d` prints for an `int` is that `int`.
pub atoi-print_int : (z : ℤ) → IsInt z → atoi (print_int z) ≡ ok z
unfolding atoi print_int
atoi-print_int (pos n) h =
    let (plain, unsigned) = plain_digits (digits_of (suc n) n) (All-digits_of (suc n) n) in
    rw (plain, unsigned, read_digits-digits_of (suc n) n (omega arith), lt→ltb n (2 ^ 31) h)
atoi-print_int (negsuc n) h =
    rw (read_digits-digits_of (suc (suc n)) (suc n) (omega arith), le→leb (suc n) (2 ^ 31) h)
      (ground arith)

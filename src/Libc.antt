-- ===== src/Libc.antt =====
-- What the programs use of the C library's text functions, over memory as a list of bytes: the end
-- of the list is the end of the object, and a zero byte ends a string inside it.
pub mod Decimal
pub mod Search
pub mod Compare
use intern_status_update.Base.{
  ℕ, zero, suc, ◌+◌, ◌-◌, ◌*◌, ◌/◌, ◌%◌, ◌^◌, [], ◌∷◌, ◌++◌, Bytes, Bool, true, false, Option, none,
  some, Run, ok, fault, ◌>>=◌, if◌then◌else◌, ltb, leb, ◌==◌, ◌&&◌, ◌||◌,
}
use intern_status_update.Base.Int.{ℤ, pos, negsuc}

-- The string that starts a piece of memory known to hold a terminator behind it.
unfoldable pub cstr : Bytes → Bytes
cstr [] = []
cstr (x ∷ xs) = if x == 0 then [] else x ∷ cstr xs

-- Whether `needle`, a literal, stands at the start of the memory.
unfoldable pub starts_at : Bytes → Bytes → Run Bool
starts_at [] mem = ok true
starts_at (n ∷ ns) [] = fault
starts_at (n ∷ ns) (x ∷ xs) = if x == n then starts_at ns xs else ok false

-- `strstr(mem, needle)`: the memory from the first occurrence on.
unfoldable pub strstr : Bytes → Bytes → Run (Option Bytes)
unfolding starts_at
strstr [] needle = fault
strstr (x ∷ xs) needle = do
  hit ← starts_at needle (x ∷ xs)
  let rest = strstr xs needle
  if hit then ok (some (x ∷ xs)) else if x == 0 then ok none else rest

-- The decimal digits of a number below 10 ^ fuel.
unfoldable pub digits_of : ℕ → ℕ → Bytes
digits_of zero n = []
digits_of (suc fuel) n =
    let rest = digits_of fuel (n / 10) in
    if ltb n 10 then (48 + n) ∷ [] else rest ++ (48 + n % 10) ∷ []

-- `%d`; the fuel is enough, as a number has no more digits than its value and one.
unfoldable pub print_int : ℤ → Bytes
unfolding digits_of
print_int (pos n) = digits_of (suc n) n
print_int (negsuc n) = b'-' ∷ digits_of (suc (suc n)) (suc n)

unfoldable pub is_digit : ℕ → Bool
is_digit c = leb 48 c && leb c 57

unfoldable pub read_digits : ℕ → Bytes → ℕ
unfolding is_digit
read_digits acc [] = acc
read_digits acc (c ∷ s) =
    let rest = read_digits (acc * 10 + (c - 48)) s in if is_digit c then rest else acc

-- The sign in front of the digits.
unfoldable pub signed : Bytes → Bool × Bytes
signed [] = (false, [])
signed (c ∷ s) = if c == b'-' then (true, s) else if c == b'+' then (false, s) else (false, c ∷ s)

unfoldable pub skip_space : Bytes → Bytes
skip_space [] = []
skip_space (c ∷ s) =
    let rest = skip_space s in if c == 32 || (leb 9 c && leb c 13) then rest else c ∷ s

-- `atoi`: a value outside `int` is undefined.
unfoldable pub atoi : Bytes → Run ℤ
unfolding read_digits signed skip_space
atoi s =
    let (minus, digits) = signed (skip_space s) in
    let n = read_digits 0 digits in
    if minus
    then (if leb n (2 ^ 31) then ok (if n == 0 then pos 0 else negsuc (n - 1)) else fault)
    else (if ltb n (2 ^ 31) then ok (pos n) else fault)

-- ===== src/Base/Words.antt =====
-- Bytes and words: shifts as written in C, and the laws of `|`, `&` and `^` that the frame code
-- uses, at variables.
use Prim.Native.Nat.{ℕ, zero, suc, ◌+◌, ◌*◌, ◌/◌, ◌%◌, ◌^◌, ◌≤◌, ◌<◌, min, max}
use Prim.Native.Nat.{bit_and, bit_or, digits, bitwise}
use Prim.Native.Nat.{bit_and-bitwise, bit_or-bitwise}
use mathlib.Core.Path.{◌≡◌, refl, ap}
use mathlib.Core.Bool.{Bool, true, ◌&&◌}
use native.Mathlib.Omega.{arith}
use native.Mathlib.Nat.{pow-suc, le_refl}

infixl 60 ◌<<<◌ ◌>>>◌
abbrev pub ◌<<<◌ : ℕ → ℕ → ℕ
a <<< k = a * 2 ^ k

abbrev pub ◌>>>◌ : ℕ → ℕ → ℕ
a >>> k = a / 2 ^ k

abbrev pub u8 : ℕ → ℕ
u8 a = a % 256

abbrev pub u64 : ℕ → ℕ
u64 a = a % 2 ^ 64

abbrev pub IsByte : ℕ → Type 0
IsByte b = b < 256

-- A property of every byte, by evaluation.
unfoldable pub every_below : ℕ → (ℕ → Bool) → Bool
every_below zero test = true
every_below (suc k) test = every_below k test && test k

pub every_below_lem :
    (k : ℕ) (test : ℕ → Bool) (b : ℕ) → every_below k test ≡ true → b < k → test b ≡ true
unfolding every_below
every_below_lem zero test b all inside = absurd (omega arith)
every_below_lem (suc k) test b all inside = ground (arith, every_below_lem k test b)

-- `digits` counts down from its first number; any larger count gives the same digits.
module _ (rest : ℕ → ℕ) (digit : ℕ → ℕ → ℕ) where
  count_irrelevant :
      (x y c d : ℕ) → x ≤ c → x ≤ d → digits rest digit c x y ≡ digits rest digit d x y
  count_irrelevant (suc x) y (suc c) (suc d) hc hd =
      let half = count_irrelevant (suc x / 2) (y / 2) c d (omega arith) (omega arith) in
      ap (λ t. t * 2 + digit (suc x % 2) (y % 2)) half
  count_irrelevant (suc x) y zero d hc hd = absurd (omega arith)
  count_irrelevant (suc x) y (suc c) zero hc hd = absurd (omega arith)
  count_irrelevant zero y zero zero hc hd = refl
  count_irrelevant zero y zero (suc d) hc hd = refl
  count_irrelevant zero y (suc c) zero hc hd = refl
  count_irrelevant zero y (suc c) (suc d) hc hd = refl

  pub bitwise_step :
      (x y : ℕ)
      → bitwise rest digit (suc x) y
        ≡ bitwise rest digit (suc x / 2) (y / 2) * 2 + digit (suc x % 2) (y % 2)
  bitwise_step x y =
      let h : suc x / 2 ≤ x = omega arith in
      ap (λ t. t * 2 + digit (suc x % 2) (y % 2))
        (count_irrelevant (suc x / 2) (y / 2) x (suc x / 2) h (le_refl _))

bit_or_step : (x y : ℕ) → bit_or x y ≡ max (x % 2) (y % 2) + 2 * bit_or (x / 2) (y / 2)
bit_or_step (suc x) y = omega (
  arith,
  bit_or-bitwise (suc x) y,
  bit_or-bitwise (suc x / 2) (y / 2),
  bitwise_step (λ b. b) max x y,
)
bit_or_step zero y = omega (arith, bit_or-bitwise zero y, bit_or-bitwise zero (y / 2))

bit_or-zero_below : (n a : ℕ) → a ≤ n → bit_or a 0 ≡ a
bit_or-zero_below n zero h = refl
bit_or-zero_below zero (suc a) h = absurd (omega arith)
bit_or-zero_below (suc n) (suc a) h =
    omega (arith, bit_or_step (suc a) 0, bit_or-zero_below n (suc a / 2) (omega arith))

double_pow : (q k : ℕ) → q * 2 ^ suc k ≡ 2 * (q * 2 ^ k)
double_pow q k = omega (arith, ap (λ (t : ℕ). q * t) (pow-suc 2 k))

-- `(q << k) | r` is a sum when `r` fits `k` bits.
pub bit_or-shl : (k q r : ℕ) → r < 2 ^ k → bit_or (q <<< k) r ≡ q * 2 ^ k + r
bit_or-shl zero q r fits = ground (arith, bit_or-zero_below q q)
bit_or-shl (suc k) q r fits =
    ground
      (arith, bit_or_step (q * 2 ^ suc k) r, double_pow q k, bit_or-shl k q (r / 2) (omega arith))

bit_and_step : (x y : ℕ) → bit_and x y ≡ min (x % 2) (y % 2) + 2 * bit_and (x / 2) (y / 2)
bit_and_step (suc x) y = omega (
  arith,
  bit_and-bitwise (suc x) y,
  bit_and-bitwise (suc x / 2) (y / 2),
  bitwise_step (λ b. 0) min x y,
)
bit_and_step zero y = omega (arith, bit_and-bitwise zero y, bit_and-bitwise zero (y / 2))

bit_and-zero_below : (n a : ℕ) → a ≤ n → bit_and a 0 ≡ 0
bit_and-zero_below n zero h = refl
bit_and-zero_below zero (suc a) h = absurd (omega arith)
bit_and-zero_below (suc n) (suc a) h =
    omega (arith, bit_and_step (suc a) 0, bit_and-zero_below n (suc a / 2) (omega arith))

-- Doubling a mask of low bits takes one more bit.
pub bit_and-one : (x : ℕ) → bit_and x 1 ≡ x % 2
bit_and-one x = omega (arith, bit_and_step x 1, bit_and-zero_below (x / 2) (x / 2) (le_refl _))

bit_and-three : (x : ℕ) → bit_and x 3 ≡ x % 4
bit_and-three x = omega (arith, bit_and_step x 3, bit_and-one (x / 2))

bit_and-seven : (x : ℕ) → bit_and x 7 ≡ x % 8
bit_and-seven x = omega (arith, bit_and_step x 7, bit_and-three (x / 2))

pub bit_and-nibble : (x : ℕ) → bit_and x 0x0F ≡ x % 16
bit_and-nibble x = omega (arith, bit_and_step x 15, bit_and-seven (x / 2))

bit_and-five_bits : (x : ℕ) → bit_and x 0x1F ≡ x % 32
bit_and-five_bits x = omega (arith, bit_and_step x 31, bit_and-nibble (x / 2))

bit_and-six_bits : (x : ℕ) → bit_and x 0x3F ≡ x % 64
bit_and-six_bits x = omega (arith, bit_and_step x 63, bit_and-five_bits (x / 2))

bit_and-seven_bits : (x : ℕ) → bit_and x 0x7F ≡ x % 128
bit_and-seven_bits x = omega (arith, bit_and_step x 127, bit_and-six_bits (x / 2))

pub bit_and-byte : (x : ℕ) → bit_and x 0xFF ≡ x % 256
bit_and-byte x = omega (arith, bit_and_step x 255, bit_and-seven_bits (x / 2))

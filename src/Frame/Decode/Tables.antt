-- ===== src/Frame/Decode/Tables.antt =====
-- Facts about the bits of a byte, and `^`, for the decoding of frames.
use Prim.Native.Nat.{differ, bit_xor-bitwise}
use intern_status_update.Base.{
  ℕ, zero, suc, ◌+◌, ◌*◌, ◌/◌, ◌%◌, ◌≤◌, ◌<◌, ◌≡◌, refl, bit_and, bit_xor, ◌>>>◌, ◌==◌, ◌&&◌,
  every_below, every_below_lem, bitwise_step, arith, true,
}

xor_step : (a b : ℕ) → bit_xor a b ≡ bit_xor (a / 2) (b / 2) * 2 + differ (a % 2) (b % 2)
xor_step zero b = simp bit_xor-bitwise (omega arith)
xor_step (suc a) b = simp bit_xor-bitwise (bitwise_step (λ y. y) differ a b)

differ_bits : (x y : ℕ) → x < 2 → y < 2 → (differ x y < 2) × (differ (differ x y) y ≡ x)
differ_bits zero zero h k = (omega arith, refl)
differ_bits zero (suc zero) h k = (omega arith, refl)
differ_bits (suc zero) zero h k = (omega arith, refl)
differ_bits (suc zero) (suc zero) h k = (omega arith, refl)
differ_bits (suc (suc x)) y h k = absurd (omega arith)
differ_bits x (suc (suc y)) h k = absurd (omega arith)

xor_twice_below : (n a b : ℕ) → a ≤ n → b ≤ n → bit_xor (bit_xor a b) b ≡ a
xor_twice_below zero zero zero h k = refl
xor_twice_below zero (suc a) b h k = absurd (omega arith)
xor_twice_below zero zero (suc b) h k = absurd (omega arith)
xor_twice_below (suc n) a b h k =
    let (small, back) = differ_bits (a % 2) (b % 2) (omega arith) (omega arith) in
    let half : bit_xor a b / 2 ≡ bit_xor (a / 2) (b / 2) = omega (arith, xor_step a b) in
    let low : bit_xor a b % 2 ≡ differ (a % 2) (b % 2) = omega (arith, xor_step a b) in
    rw (xor_step (bit_xor a b) b, half, low, back)
      (omega (arith, xor_twice_below n (a / 2) (b / 2) (omega arith) (omega arith)))

pub xor_twice : (a b : ℕ) → bit_xor (bit_xor a b) b ≡ a
xor_twice a b = xor_twice_below (a + b) a b (omega arith) (omega arith)

table :
    every_below 256 (λ x.
      (bit_and x 0x80 >>> 7 == x / 128)
      && (bit_and x 0x40 >>> 6 == x / 64 % 2)
      && (bit_and x 0x20 >>> 5 == x / 32 % 2)
      && (bit_and x 0x10 >>> 4 == x / 16 % 2)
      && (bit_and x 0x0F == x % 16)
      && (bit_and x 0x7F == x % 128))
    ≡ true
unfolding every_below
table = refl

-- The fields that the masks and shifts of `parse_frame` take from a byte.
pub bits_of :
    (x : ℕ)
    → x < 256
    → (bit_and x 0x80 >>> 7 ≡ x / 128)
      × (bit_and x 0x40 >>> 6 ≡ x / 64 % 2)
      × (bit_and x 0x20 >>> 5 ≡ x / 32 % 2)
      × (bit_and x 0x10 >>> 4 ≡ x / 16 % 2)
      × (bit_and x 0x0F ≡ x % 16)
      × (bit_and x 0x7F ≡ x % 128)
bits_of x h = ground (arith, every_below_lem 256 _ x table h)

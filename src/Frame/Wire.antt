-- ===== src/Frame/Wire.antt =====
-- WebSocket frames as RFC 6455 lays them out, written with arithmetic: an independent
-- description of the bytes that TicTacToe/Server/frame.c reads and writes.
use intern_status_update.Base.{
  ℕ, zero, suc, ◌+◌, ◌*◌, ◌/◌, ◌%◌, ◌^◌, ◌≤◌, ◌<◌, ◌≡◌, refl, ◌∙◌, [], ◌∷◌, ◌++◌, Bytes,
  if◌then◌else◌, leb, ◌==◌, length, All, IsByte, bit_xor, length-append, arith,
}
use intern_status_update.Frame.{Frame}
use native.Mathlib.Nat.{pow-suc}

-- `k` bytes, the most significant first.
unfoldable pub big_endian : ℕ → ℕ → Bytes
big_endian zero n = []
big_endian (suc k) n = big_endian k (n / 256) ++ n % 256 ∷ []

unfoldable pub head_byte : Frame → ℕ
head_byte f = f.fin * 128 + f.rsv1 * 64 + f.rsv2 * 32 + f.rsv3 * 16 + f.opcode

unfoldable pub length_bytes : ℕ → ℕ → Bytes
length_bytes mask n =
    if leb n 125
    then (mask * 128 + n) ∷ []
    else if leb n 65535
    then (mask * 128 + 126) ∷ big_endian 2 n
    else (mask * 128 + 127) ∷ big_endian 8 n

-- The payload under a key that is used over and over: its first byte goes to the end each time.
unfoldable pub masked : Bytes → Bytes → Bytes
masked key [] = []
masked [] (x ∷ xs) = x ∷ xs
masked (k ∷ key) (x ∷ xs) = bit_xor x k ∷ masked (key ++ k ∷ []) xs

-- The payload stands on the wire combined with the key, which is empty without a mask.
unfoldable pub wire : Frame → Bytes
wire f =
    head_byte f
    ∷ (length_bytes f.mask f.payload_len
        ++ (f.mask_key
            ++ (if f.mask == 0 then f.payload_data else masked f.mask_key f.payload_data)))

-- A frame that can be sent.
pub record IsFrame (f : Frame) : Type 0 where
  pub fin : f.fin < 2
  pub rsv1 : f.rsv1 < 2
  pub rsv2 : f.rsv2 < 2
  pub rsv3 : f.rsv3 < 2
  pub opcode : f.opcode < 16
  pub mask : f.mask < 2
  pub size : f.payload_len ≡ length f.payload_data
  pub fits : f.payload_len < 2 ^ 64
  pub key : length f.mask_key ≡ (if f.mask == 0 then 0 else 4)

pub length-big_endian : (k n : ℕ) → length (big_endian k n) ≡ k
unfolding big_endian
length-big_endian zero n = refl
length-big_endian (suc k) n =
    omega
      (arith, length-append (big_endian k (n / 256)) (n % 256 ∷ []), length-big_endian k (n / 256))

All-append_last : (xs : Bytes) (x : ℕ) → All IsByte xs → x < 256 → All IsByte (xs ++ x ∷ [])
All-append_last [] x h b = (b, tt)
All-append_last (y ∷ xs) x h b = (h.0, All-append_last xs x h.1 b)

pub All-big_endian : (k n : ℕ) → All IsByte (big_endian k n)
unfolding big_endian
All-big_endian zero n = tt
All-big_endian (suc k) n =
    All-append_last (big_endian k (n / 256)) (n % 256) (All-big_endian k (n / 256)) (omega arith)

-- What the bytes stand for, behind the digits read before.
unfoldable pub value : ℕ → Bytes → ℕ
value acc [] = acc
value acc (b ∷ bs) = value (acc * 256 + b) bs

value-append_last :
    (acc : ℕ) (bs : Bytes) (b : ℕ) → value acc (bs ++ b ∷ []) ≡ value acc bs * 256 + b
unfolding value
value-append_last acc [] b = refl
value-append_last acc (c ∷ bs) b = value-append_last (acc * 256 + c) bs b

pub le-value : (acc : ℕ) (bs : Bytes) → acc ≤ value acc bs
unfolding value
le-value acc [] = omega arith
le-value acc (b ∷ bs) = omega (arith, le-value (acc * 256 + b) bs)

pub value-big_endian : (k n : ℕ) → n < 256 ^ k → value 0 (big_endian k n) ≡ n
unfolding big_endian value
value-big_endian zero n h = omega arith
value-big_endian (suc k) n h =
    value-append_last 0 (big_endian k (n / 256)) (n % 256)
    ∙ omega (arith, value-big_endian k (n / 256) (omega (arith, pow-suc 256 k)))

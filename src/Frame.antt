-- ===== src/Frame.antt =====
-- TicTacToe/Server/frame.c: WebSocket frames. `char` data are bytes. Allocation is taken to
-- succeed; `printFrame` only prints.
pub mod Wire
pub mod Decode
pub mod Encode
pub mod RoundTrip
pub mod Long
mod Tests
use intern_status_update.Base.{
  ℕ, zero, suc, ◌+◌, ◌*◌, ◌/◌, ◌%◌, ◌^◌, List, [], ◌∷◌, Bytes, Run, ok, fault, ◌>>=◌, if◌then◌else◌,
  leb, ltb, ◌==◌, ◌&&◌, bit_and, bit_or, bit_xor, ◌<<<◌, ◌>>>◌, u8, u64, read_at, copy_from, store,
  store_all, get_or, length,
}

-- `mask_key` is [] where the code leaves it unset.
pub record Frame : Type 0 where
  pub fin : ℕ
  pub rsv1 : ℕ
  pub rsv2 : ℕ
  pub rsv3 : ℕ
  pub opcode : ℕ
  pub mask : ℕ
  pub payload_len : ℕ
  pub mask_key : Bytes
  pub payload_data : Bytes

-- The loop over buf[2] to buf[9], `rounds` of them left.
unfoldable pub extended_length : ℕ → Bytes → ℕ → ℕ → Run ℕ
extended_length zero buf i acc = ok acc
extended_length (suc rounds) buf i acc = do
  b ← read_at buf i
  extended_length rounds buf (i + 1) (bit_or (u64 (acc <<< 8)) b)

-- `payload_len` and the offset of `next`; the last branch leaves `next` unset.
unfoldable pub payload_length : Bytes → ℕ → Run (ℕ × ℕ)
payload_length buf len7 =
    if leb len7 125
    then ok (len7, 2)
    else if len7 == 126
    then (do b2 ← read_at buf 2; b3 ← read_at buf 3; ok (bit_or (b2 <<< 8) b3, 4))
    else if len7 == 127
    then (do len ← extended_length 8 buf 2 0; ok (len, 10))
    else fault

-- The loop `payload_data[i] ^= mask_key[i % 4]`, from index i on.
unfoldable pub unmask : Bytes → ℕ → Bytes → Bytes
unmask key i [] = []
unmask key i (x ∷ xs) = bit_xor x (get_or key (i % 4) 0) ∷ unmask key (i + 1) xs

-- The mask key and the payload behind it.
unfoldable pub masked_payload : Bytes → ℕ → ℕ → ℕ → Run (Bytes × Bytes)
masked_payload buf mask next len =
    if mask == 0 then (do payload ← copy_from buf next len; ok ([], payload)) else do
      key ← copy_from buf next 4
      payload ← copy_from buf (next + 4) len
      ok (key, unmask key 0 payload)

-- The frame; `*opcode` is its field. The count `n` of received bytes is not used.
unfoldable pub parse_frame : Bytes → Run Frame
parse_frame buf = do
  b0 ← read_at buf 0
  b1 ← read_at buf 1
  let mask = bit_and b1 0x80 >>> 7
  (len, next) ← payload_length buf (bit_and b1 0x7F)
  (key, payload) ← masked_payload buf mask next len
  ok (record {
    fin = bit_and b0 0x80 >>> 7;
    rsv1 = bit_and b0 0x40 >>> 6;
    rsv2 = bit_and b0 0x20 >>> 5;
    rsv3 = bit_and b0 0x10 >>> 4;
    opcode = bit_and b0 0x0F;
    mask = mask;
    payload_len = len;
    mask_key = key;
    payload_data = payload;
  })

-- The first byte of both encoders.
unfoldable pub first_byte : ℕ → ℕ → ℕ → ℕ → ℕ → ℕ
first_byte f r1 r2 r3 opcode = bit_or (bit_and f 1 <<< 7) (
    bit_or (bit_and r1 1 <<< 6)
      (bit_or (bit_and r2 1 <<< 5) (bit_or (bit_and r3 1 <<< 4) (bit_and opcode 0x0F))))

-- The loop `buffer[pos++] = (payload_len >> 8 * i) && 0xFF` for i from 7 down, `i + 1` rounds left.
unfoldable pub long_length : ℕ → Bytes → ℕ → ℕ → Run (Bytes × ℕ)
long_length zero buffer pos len = ok (buffer, pos)
long_length (suc i) buffer pos len = do
  b ← store buffer pos (if len >>> (8 * i) == 0 then 0 else 1)
  long_length i b (pos + 1) len

-- The length bytes of the two short forms, common to both encoders.
unfoldable pub short_length : Bytes → ℕ → Run (Bytes × ℕ)
short_length buffer len = if leb len 125 then (do b ← store buffer 1 (u8 len); ok (b, 2)) else do
  b1 ← store buffer 1 126
  b2 ← store b1 2 (bit_and (len >>> 8) 0xFF)
  b3 ← store b2 3 (bit_and len 0xFF)
  ok (b3, 4)

-- The final `memcpy`, and `pos + payload_len`.
unfoldable pub append_payload : Bytes → ℕ → ℕ → Bytes → Run (Bytes × ℕ)
append_payload buffer pos len payload = do
  src ← copy_from payload 0 len
  b ← store_all buffer pos src
  ok (b, pos + len)

-- What a `uint64_t` becomes as the `int` `*len`: its 32 bits, which from 2^31 on stand for a negative
-- number.
unfoldable pub int_bits : ℕ → ℕ
int_bits len = len % 2 ^ 32

-- `payload_len` is a `uint64_t`. The buffer is the caller's array.
unfoldable pub create_client_frame_buffer : Frame → Bytes → Run (Bytes × ℕ)
create_client_frame_buffer f buffer = do
  b0 ← store buffer 0 (first_byte f.fin f.rsv1 f.rsv2 f.rsv3 f.opcode)
  (b1, pos) ←
      (if leb f.payload_len 65535
        then short_length b0 f.payload_len
        else (do b ← store b0 1 127; long_length 8 b 1 f.payload_len))
  (b2, len) ← append_payload b1 pos f.payload_len f.payload_data
  ok (b2, int_bits len)

-- `payload_len` is an `int`, not negative here: in the long form its first shift, by 56, is
-- undefined.
unfoldable pub create_frame : ℕ → ℕ → ℕ → ℕ → ℕ → ℕ → Bytes → Bytes → Run (Bytes × ℕ)
create_frame f r1 r2 r3 opcode payload_len payload_data buffer = do
  b0 ← store buffer 0 (first_byte f r1 r2 r3 opcode)
  (b1, pos) ← (if leb payload_len 65535 then short_length b0 payload_len else fault)
  append_payload b1 pos payload_len payload_data

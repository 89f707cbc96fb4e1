-- ===== src/Frame/Encode.antt =====
-- The two encoders write what RFC 6455 lays down for an unmasked frame of at most 65535 bytes, and
-- nothing else; a longer one is not readable.
use intern_status_update.Base.{
  ℕ, suc, ◌+◌, ◌*◌, ◌/◌, ◌%◌, ◌^◌, ◌≤◌, ◌<◌, ◌≡◌, sym, ◌∙◌, [], ◌∷◌, ◌++◌, Bytes,
}
use intern_status_update.Base.{
  leb, le→leb, Bool-cases, inl, inr, length, arith, Run, Run-cases, ok, fault, ◌>>=◌, >>=-assoc,
  >>=-same, ap, append-nil, bit_and, bit_or-shl, bit_and-one, bit_and-nibble, bit_and-byte, ◌>>>◌,
  u8, take_exact, take_exact-append, store, store_all, store_all-split, store_all-append,
  store_all_overflow, take, take-append, drop, length-append,
}
use intern_status_update.Frame.{
  Frame, first_byte, short_length, append_payload, int_bits, create_client_frame_buffer,
  create_frame,
}
use intern_status_update.Frame.Wire.{IsFrame, wire, head_byte, length_bytes, big_endian}
use intern_status_update.Frame.Decode.{nil_of_length}

first_byte-head :
    (f : Frame) → IsFrame f → first_byte f.fin f.rsv1 f.rsv2 f.rsv3 f.opcode ≡ head_byte f
unfolding first_byte head_byte
first_byte-head f v =
    rw
      (
        bit_and-one f.fin,
        bit_and-one f.rsv1,
        bit_and-one f.rsv2,
        bit_and-one f.rsv3,
        bit_and-nibble f.opcode,
        bit_or-shl 4 (f.rsv3 % 2) (f.opcode % 16) (omega arith),
        bit_or-shl 5 (f.rsv2 % 2) (f.rsv3 % 2 * 2 ^ 4 + f.opcode % 16) (omega arith),
        bit_or-shl 6 (f.rsv1 % 2) (f.rsv2 % 2 * 2 ^ 5 + (f.rsv3 % 2 * 2 ^ 4 + f.opcode % 16))
            (omega arith),
        bit_or-shl 7 (f.fin % 2)
            (f.rsv1 % 2 * 2 ^ 6 + (f.rsv2 % 2 * 2 ^ 5 + (f.rsv3 % 2 * 2 ^ 4 + f.opcode % 16)))
            (omega arith),
      )
      (omega (arith, v))

short_length-wire :
    (n : ℕ) (b : Bytes)
    → n ≤ 65535
    → short_length b n
      ≡ (store_all b 1 (length_bytes 0 n) >>= λ b'. ok (b', 1 + length (length_bytes 0 n)))
unfolding short_length length_bytes store_all big_endian
short_length-wire n b h = elim (Bool-cases (leb n 125)) [
  | inl tiny ↦
      let whole : u8 n ≡ n = ground arith in
      let plain : 0 * 128 + n ≡ n = omega arith in
      rw (tiny, whole, plain) (sym (>>=-assoc (store b 1 n) ok _))
  | inr more ↦
      let high : bit_and (n >>> 8) 0xFF ≡ n / 256 % 256 = bit_and-byte (n / 256) in
      rw (more, le→leb n 65535 h, high, bit_and-byte n) (simp >>=-assoc)
]

pub append_payload-store :
    (b payload : Bytes) (pos len : ℕ)
    → len ≡ length payload
    → append_payload b pos len payload
      ≡ (store_all b pos payload >>= λ b'. ok (b', pos + length payload))
unfolding append_payload
append_payload-store b payload pos len e =
    let read : take_exact payload len ≡ ok payload =
      rw append-nil at (rw (← e) at (take_exact-append payload [])) in
    rw (read, e)

length-length_bytes : (n : ℕ) → length (length_bytes 0 n) ≤ 9
unfolding length_bytes big_endian
length-length_bytes n = elim (Bool-cases (leb n 125)) [
  | inl tiny ↦ rw tiny (omega arith)
  | inr more ↦ elim (Bool-cases (leb n 65535)) [
    | inl medium ↦ rw (more, medium) (omega arith)
    | inr large ↦ rw (more, large) (omega arith)
  ]
]

-- One store of the whole frame.
pub write_wire : Frame → Bytes → Run (Bytes × ℕ)
write_wire f buffer = do b ← store_all buffer 0 (wire f); ok (b, length (wire f))

-- The length as `*len` holds it.
abbrev as_int : Bytes × ℕ → Run (Bytes × ℕ)
as_int q = ok (q.0, int_bits q.1)

module _ (f : Frame) (v : IsFrame f) (clear : f.mask ≡ 0) (small : f.payload_len ≤ 65535) where
  key_nil : f.mask_key ≡ []
  key_nil = nil_of_length f.mask_key (v.key ∙ (rw clear))

  wire_parts : wire f ≡ head_byte f ∷ (length_bytes 0 f.payload_len ++ f.payload_data)
  unfolding wire
  wire_parts = rw (clear, key_nil)

  behind_head :
      (b0 : Bytes)
      → (short_length b0 f.payload_len >>= λ p. append_payload p.0 p.1 f.payload_len f.payload_data)
        ≡ (store_all b0 1 (length_bytes 0 f.payload_len ++ f.payload_data) >>= λ b.
            ok (b, suc (length (length_bytes 0 f.payload_len ++ f.payload_data))))
  behind_head b0 =
      let lb = length_bytes 0 f.payload_len in
      let total : 1 + length lb + length f.payload_data ≡ suc (length (lb ++ f.payload_data)) =
        omega (arith, length-append lb f.payload_data) in
      rw (short_length-wire f.payload_len b0 small, store_all-split lb f.payload_data b0 1)
        (elim (Run-cases (store_all b0 1 lb)) [
          | inl e ↦ rw e
          | inr (b1, e) ↦ rw (
            e,
            append_payload-store b1 f.payload_data (1 + length lb) f.payload_len v.size,
            total,
          )
        ])

  pub create_frame-write :
      (buffer : Bytes)
      → create_frame f.fin f.rsv1 f.rsv2 f.rsv3 f.opcode f.payload_len f.payload_data buffer
        ≡ write_wire f buffer
  unfolding create_frame write_wire store_all
  create_frame-write buffer =
      rw (first_byte-head f v, wire_parts, le→leb f.payload_len 65535 small)
        (elim (Run-cases (store buffer 0 (head_byte f))) [
          | inl e ↦ rw e
          | inr (b0, e) ↦ rw e (behind_head b0)
        ])

  -- The length fits the `int`.
  whole_length :
      int_bits (suc (length (length_bytes 0 f.payload_len ++ f.payload_data)))
      ≡ suc (length (length_bytes 0 f.payload_len ++ f.payload_data))
  unfolding int_bits
  whole_length =
      let lb = length_bytes 0 f.payload_len in
      omega (arith, length-append lb f.payload_data, length-length_bytes f.payload_len, v.size)

  client_behind :
      (b0 : Bytes)
      → (short_length b0 f.payload_len >>= λ p.
          append_payload p.0 p.1 f.payload_len f.payload_data >>= as_int)
        ≡ (store_all b0 1 (length_bytes 0 f.payload_len ++ f.payload_data) >>= λ b.
            ok (b, suc (length (length_bytes 0 f.payload_len ++ f.payload_data))))
  client_behind b0 =
      let all = length_bytes 0 f.payload_len ++ f.payload_data in
      sym (>>=-assoc (short_length b0 f.payload_len) _ _)
      ∙ ap {B = Run (Bytes × ℕ)} (λ m. m >>= as_int) (behind_head b0)
      ∙ >>=-assoc (store_all b0 1 all) _ _
      ∙ >>=-same (store_all b0 1 all) _ _
          (λ b. ap {B = Run (Bytes × ℕ)} (λ k. ok (b, k)) whole_length)

  pub create_client_frame_buffer-write :
      (buffer : Bytes) → create_client_frame_buffer f buffer ≡ write_wire f buffer
  unfolding create_client_frame_buffer write_wire store_all
  create_client_frame_buffer-write buffer =
      rw (first_byte-head f v, wire_parts, le→leb f.payload_len 65535 small)
        (elim (Run-cases (store buffer 0 (head_byte f))) [
          | inl e ↦ rw e
          | inr (b0, e) ↦ rw e (client_behind b0)
        ])

-- What a caller sends: the first `len` bytes of the buffer.
abbrev pub sent : Bytes × ℕ → Bytes
sent (b, len) = take len b

pub write_wire-sent :
    (f : Frame) (buffer : Bytes)
    → length (wire f) ≤ length buffer
    → (r : Bytes × ℕ) × (write_wire f buffer ≡ ok r) × (sent r ≡ wire f)
unfolding write_wire
write_wire-sent f buffer room = (
  (wire f ++ drop (length (wire f)) buffer, length (wire f)),
  rw (store_all-append (wire f) [] buffer room),
  take-append (wire f) _,
)

pub write_wire_overflow :
    (f : Frame) (buffer : Bytes) → length buffer < length (wire f) → write_wire f buffer ≡ fault
unfolding write_wire
write_wire_overflow f buffer h =
    rw (store_all_overflow (wire f) buffer 0 (omega arith) (omega arith))

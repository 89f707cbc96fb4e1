-- ===== src/Frame/Decode.antt =====
-- `parse_frame` reads every frame of RFC 6455, of any payload length, and undoes the mask.
mod Tables
use Tables.{xor_twice, bits_of}
use Prim.Native.Nat.{bit_xor}
use intern_status_update.Base.{
  ℕ, zero, suc, ◌+◌, ◌*◌, ◌/◌, ◌%◌, ◌^◌, ◌≤◌, ◌<◌, ◌≡◌, refl, sym, ◌∙◌, ap, ap₂, List, [], ◌∷◌,
  ◌++◌, Bytes,
}
use intern_status_update.Base.{
  if◌then◌else◌, leb, le→leb, ◌==◌, Bool-cases, true, false, inl, inr, some, ◌>>>◌, length, All,
  IsByte, length-append, arith, Run, ok, ◌>>=◌, get_elem?, get_or, drop, drop_next, take_exact,
  take_exact-append, drop-length, append_assoc, append-nil, bit_or, bit_and, bit_or-shl, ◌<<<◌, u64,
}
use intern_status_update.Frame.{
  Frame, extended_length, payload_length, unmask, masked_payload, parse_frame,
}
use intern_status_update.Frame.Wire.{
  IsFrame, masked, wire, head_byte, length_bytes, big_endian, value, le-value, value-big_endian,
  All-big_endian, length-big_endian,
}

-- One round of the loop appends a byte, as long as nothing is shifted out.
shift_in :
    (acc b : ℕ) → acc * 256 + b < 2 ^ 64 → b < 256 → bit_or (u64 (acc <<< 8)) b ≡ acc * 256 + b
shift_in acc b h k =
    let whole : u64 (acc <<< 8) ≡ acc <<< 8 = omega arith in
    rw whole (bit_or-shl 8 acc b (omega arith))

extended_length-value :
    (bs : Bytes) (buf rest : Bytes) (i acc : ℕ)
    → drop i buf ≡ bs ++ rest
    → All IsByte bs
    → value acc bs < 2 ^ 64
    → extended_length (length bs) buf i acc ≡ ok (value acc bs)
unfolding extended_length value
extended_length-value [] buf rest i acc e h k = refl
extended_length-value (b ∷ bs) buf rest i acc e h k =
    let (found, next) = drop_next buf i e in
    let room : acc * 256 + b < 2 ^ 64 = omega (arith, le-value (acc * 256 + b) bs) in
    rw (found, shift_in acc b room h.0)
      (extended_length-value bs buf rest (i + 1) (acc * 256 + b) next h.1 k)

-- Masking twice with one key gives the payload back.
pub unmask-unmask : (key : Bytes) (i : ℕ) (xs : Bytes) → unmask key i (unmask key i xs) ≡ xs
unfolding unmask
unmask-unmask key i [] = refl
unmask-unmask key i (x ∷ xs) =
    ap₂ ◌∷◌ (xor_twice x (get_or key (i % 4) 0)) (unmask-unmask key (i + 1) xs)

-- The index of the code runs through a key of four bytes as the wire does.
masked-unmask :
    (key xs : Bytes) (i : ℕ)
    → masked
        (get_or key (i % 4) 0
          ∷ get_or key ((i + 1) % 4) 0
          ∷ get_or key ((i + 2) % 4) 0
          ∷ get_or key ((i + 3) % 4) 0
          ∷ [])
        xs
      ≡ unmask key i xs
unfolding masked unmask
masked-unmask key [] i = refl
masked-unmask key (x ∷ xs) i =
    let second : i + 1 + 1 ≡ i + 2 = omega arith in
    let third : i + 1 + 2 ≡ i + 3 = omega arith in
    let around : (i + 1 + 3) % 4 ≡ i % 4 = omega arith in
    ap (λ t. bit_xor x (get_or key (i % 4) 0) ∷ t)
      (rw (second, third, around) at (masked-unmask key xs (i + 1)))

four_bytes :
    (key : Bytes)
    → length key ≡ 4
    → key ≡ get_or key 0 0 ∷ get_or key 1 0 ∷ get_or key 2 0 ∷ get_or key 3 0 ∷ []
unfolding get_or
four_bytes [] h = absurd (omega arith)
four_bytes (a ∷ []) h = absurd (omega arith)
four_bytes (a ∷ b ∷ []) h = absurd (omega arith)
four_bytes (a ∷ b ∷ c ∷ []) h = absurd (omega arith)
four_bytes (a ∷ b ∷ c ∷ d ∷ []) h = refl
four_bytes (a ∷ b ∷ c ∷ d ∷ e ∷ key) h = absurd (omega arith)

masked-key : (key xs : Bytes) → length key ≡ 4 → masked key xs ≡ unmask key 0 xs
masked-key key xs h = ap (λ k. masked k xs) (four_bytes key h) ∙ masked-unmask key xs 0

abbrev body : Frame → Bytes
body f = if f.mask == 0 then f.payload_data else masked f.mask_key f.payload_data

length-unmask : (key : Bytes) (i : ℕ) (xs : Bytes) → length (unmask key i xs) ≡ length xs
unfolding unmask
length-unmask key i [] = refl
length-unmask key i (x ∷ xs) = ap suc (length-unmask key (i + 1) xs)

pub nil_of_length : (xs : Bytes) → length xs ≡ 0 → xs ≡ []
nil_of_length [] h = refl
nil_of_length (x ∷ xs) h = absurd (omega arith)

drop-add :
    (i : ℕ) (buf : Bytes) (pre xs : Bytes) → drop i buf ≡ pre ++ xs → drop (i + length pre) buf ≡ xs
drop-add i buf [] xs h = ap (λ k. drop k buf) (let e : i + 0 ≡ i = omega arith in e) ∙ h
drop-add i buf (p ∷ pre) xs h =
    let e : i + suc (length pre) ≡ i + 1 + length pre = omega arith in
    ap (λ k. drop k buf) e ∙ drop-add (i + 1) buf pre xs (drop_next buf i h).1

take_exact_prefix :
    (xs ys rest : Bytes) (n : ℕ) → xs ≡ ys ++ rest → n ≡ length ys → take_exact xs n ≡ ok ys
take_exact_prefix xs ys rest n e h = rw (e, h) (take_exact-append ys rest)

masked_payload-wire :
    (f : Frame) (buf rest : Bytes) (next : ℕ)
    → IsFrame f
    → drop next buf ≡ f.mask_key ++ (body f ++ rest)
    → masked_payload buf f.mask next f.payload_len ≡ ok (f.mask_key, f.payload_data)
unfolding masked_payload
masked_payload-wire f buf rest next v e = elim (Bool-cases (f.mask == 0)) [
  | inl clear ↦
      let k : f.mask_key ≡ [] = nil_of_length f.mask_key (v.key ∙ (rw clear)) in
      let at : drop next buf ≡ f.payload_data ++ rest = rw (clear, k) at e in
      rw (clear, take_exact_prefix (drop next buf) f.payload_data rest f.payload_len at v.size)
        (rw k)
  | inr has_mask ↦
      let four : length f.mask_key ≡ 4 = v.key ∙ (rw has_mask) in
      let at : drop next buf ≡ f.mask_key ++ (unmask f.mask_key 0 f.payload_data ++ rest) =
        rw (has_mask, masked-key f.mask_key f.payload_data four) at e in
      let behind : drop (next + 4) buf ≡ unmask f.mask_key 0 f.payload_data ++ rest =
        rw four at (drop-add next buf f.mask_key _ at) in
      rw
        (
          has_mask,
          take_exact_prefix (drop next buf) f.mask_key _ 4 at (sym four),
          take_exact_prefix (drop (next + 4) buf) _ rest f.payload_len behind
              (v.size ∙ sym (length-unmask f.mask_key 0 f.payload_data)),
        )
        (ap (λ p. ok (f.mask_key, p)) (unmask-unmask f.mask_key 0 f.payload_data))
]

-- The fields of the frame from its two first bytes, its length and what stands behind them.
parse_frame_parts :
    (f : Frame) (buf rest : Bytes) (b1 next : ℕ)
    → IsFrame f
    → get_elem? buf 0 ≡ some (head_byte f)
    → get_elem? buf 1 ≡ some b1
    → b1 < 256
    → b1 / 128 ≡ f.mask
    → payload_length buf (b1 % 128) ≡ ok (f.payload_len, next)
    → drop next buf ≡ f.mask_key ++ (body f ++ rest)
    → parse_frame buf ≡ ok f
unfolding parse_frame head_byte
parse_frame_parts f buf rest b1 next v e0 e1 small m len behind =
    let b0 = bits_of (head_byte f) (omega (arith, v)) in
    let b = bits_of b1 small in
    let mask : bit_and b1 0x80 >>> 7 ≡ f.mask = b.0 ∙ m in
    let fin : bit_and (head_byte f) 0x80 >>> 7 ≡ f.fin = b0.0 ∙ omega (arith, v) in
    let rsv1 : bit_and (head_byte f) 0x40 >>> 6 ≡ f.rsv1 = b0.1 ∙ omega (arith, v) in
    let rsv2 : bit_and (head_byte f) 0x20 >>> 5 ≡ f.rsv2 = b0.2 ∙ omega (arith, v) in
    let rsv3 : bit_and (head_byte f) 0x10 >>> 4 ≡ f.rsv3 = b0.3 ∙ omega (arith, v) in
    let opcode : bit_and (head_byte f) 0x0F ≡ f.opcode = b0.4 ∙ omega (arith, v) in
    rw (e0, e1, b.5, len, mask, masked_payload-wire f buf rest next v behind)
      (rw (fin, rsv1, rsv2, rsv3, opcode))

payload_length_tiny : (buf : Bytes) (n : ℕ) → n ≤ 125 → payload_length buf n ≡ ok (n, 2)
unfolding payload_length
payload_length_tiny buf n h = rw (le→leb n 125 h)

payload_length_medium :
    (h0 h1 n : ℕ) (tail : Bytes)
    → n ≤ 65535
    → payload_length (h0 ∷ h1 ∷ (big_endian 2 n ++ tail)) 126 ≡ ok (n, 4)
unfolding payload_length big_endian
payload_length_medium h0 h1 n tail h =
    rw (bit_or-shl 8 (n / 256 % 256) (n % 256) (omega arith))
      (ap (λ k. ok (k, 4)) (let e : n / 256 % 256 * 2 ^ 8 + n % 256 ≡ n = omega arith in e))

payload_length_large :
    (h0 h1 n : ℕ) (tail : Bytes)
    → n < 2 ^ 64
    → payload_length (h0 ∷ h1 ∷ (big_endian 8 n ++ tail)) 127 ≡ ok (n, 10)
unfolding payload_length
payload_length_large h0 h1 n tail h =
    let whole : value 0 (big_endian 8 n) ≡ n = value-big_endian 8 n h in
    let read : extended_length 8 (h0 ∷ h1 ∷ (big_endian 8 n ++ tail)) 2 0 ≡ ok n =
      rw (length-big_endian, whole) at
        (extended_length-value (big_endian 8 n) (h0 ∷ h1 ∷ (big_endian 8 n ++ tail)) tail 2 0 refl
          (All-big_endian 8 n) (rw whole h)) in
    rw read

module _ (f : Frame) (rest : Bytes) (v : IsFrame f) where
  open_wire :
      (len : Bytes)
      → (len ++ (f.mask_key ++ body f)) ++ rest ≡ len ++ (f.mask_key ++ (body f ++ rest))
  open_wire len = simp append_assoc

  -- Of the length bytes only the first seven bits and the value matter.
  parse_with :
      (n7 : ℕ) (ext : Bytes)
      → n7 < 128
      → length_bytes f.mask f.payload_len ≡ (f.mask * 128 + n7) ∷ ext
      → ((h0 h1 : ℕ) (tail : Bytes)
          → payload_length (h0 ∷ h1 ∷ (ext ++ tail)) n7 ≡ ok (f.payload_len, 2 + length ext))
      → parse_frame (wire f ++ rest) ≡ ok f
  unfolding wire
  parse_with n7 ext small shape read =
      let low : (f.mask * 128 + n7) % 128 ≡ n7 = omega arith in
      rw (shape, open_wire ext)
        (parse_frame_parts f _ rest (f.mask * 128 + n7) (2 + length ext) v refl refl
          (omega (arith, v)) (omega (arith, v)) (rw low (read _ _ _))
          (drop-add 2
            (head_byte f ∷ (f.mask * 128 + n7) ∷ (ext ++ (f.mask_key ++ (body f ++ rest)))) ext _
            refl))

-- Every frame, with whatever bytes behind it, is read back.
pub parse_frame-wire : (f : Frame) (rest : Bytes) → IsFrame f → parse_frame (wire f ++ rest) ≡ ok f
unfolding length_bytes
parse_frame-wire f rest v = elim (Bool-cases (leb f.payload_len 125)) [
  | inl tiny ↦
      parse_with f rest v f.payload_len [] (ground arith) (rw tiny)
        (λ h0 h1 tail. payload_length_tiny _ f.payload_len (ground arith))
  | inr more ↦ elim (Bool-cases (leb f.payload_len 65535)) [
    | inl medium ↦
        parse_with f rest v 126 (big_endian 2 f.payload_len) (omega arith) (rw (more, medium))
          (λ h0 h1 tail.
            rw length-big_endian (payload_length_medium h0 h1 f.payload_len tail (ground arith)))
    | inr large ↦
        parse_with f rest v 127 (big_endian 8 f.payload_len) (omega arith) (rw (more, large))
          (λ h0 h1 tail.
            rw length-big_endian (payload_length_large h0 h1 f.payload_len tail v.fits))
  ]
]

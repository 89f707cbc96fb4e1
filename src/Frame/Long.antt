-- ===== src/Frame/Long.antt =====
-- Frames of more than 65535 payload bytes: the loop of `createClientFrameBuffer` writes truth
-- values (`&&` for `&`), and its first write goes over the marker 127.
use intern_status_update.Base.{
  ℕ, zero, suc, ◌+◌, ◌*◌, ◌^◌, ◌%◌, take_exact, ◌≤◌, ◌<◌, ◌≡◌, refl, ◌∙◌, ap, [], ◌∷◌, ◌++◌, Bytes,
  arith, if◌then◌else◌, lt→leb, ◌==◌, inl, inr, length, Run-cases, ok,
}
use intern_status_update.Base.{
  ◌>>=◌, ◌>>>◌, store, store_all, store-append, store_all-append, drop, take-append, length-append,
  append_assoc, length-drop,
}
use intern_status_update.Frame.{
  Frame, first_byte, long_length, create_client_frame_buffer, parse_frame, payload_length,
  masked_payload, int_bits,
}
use intern_status_update.Frame.Encode.{sent, append_payload-store}

truth : ℕ → ℕ
truth n = if n == 0 then 0 else 1

-- What the loop writes.
flags : ℕ → ℕ → Bytes
flags zero len = []
flags (suc i) len = truth (len >>> (8 * i)) ∷ flags i len

length-flags : (i len : ℕ) → length (flags i len) ≡ i
unfolding flags
length-flags zero len = refl
length-flags (suc i) len = ap suc (length-flags i len)

long_length-flags :
    (i pos len : ℕ) (buffer : Bytes)
    → long_length i buffer pos len ≡ (store_all buffer pos (flags i len) >>= λ b. ok (b, pos + i))
unfolding long_length store_all flags truth
long_length-flags zero pos len buffer =
    ap (λ k. ok (buffer, k)) (let e : pos ≡ pos + 0 = omega arith in e)
long_length-flags (suc i) pos len buffer =
    elim (Run-cases (store buffer pos (truth (len >>> (8 * i))))) [
      | inl e ↦ rw e
      | inr (b, e) ↦
          let shift : pos + 1 + i ≡ pos + suc i = omega arith in
          rw (e, long_length-flags i (pos + 1) len b, shift)
    ]

module _ (f : Frame) (x0 x1 : ℕ) (tail : Bytes) where
  abbrev head : ℕ
  head = first_byte f.fin f.rsv1 f.rsv2 f.rsv3 f.opcode

  -- The bytes that go out.
  written :
      65535 < f.payload_len
      → f.payload_len ≡ length f.payload_data
      → 9 + f.payload_len < 2 ^ 31
      → 7 + f.payload_len ≤ length tail
      → (r : Bytes × ℕ) × (create_client_frame_buffer f (x0 ∷ x1 ∷ tail) ≡ ok r)
        × (sent r ≡ head ∷ (flags 8 f.payload_len ++ f.payload_data))
  unfolding create_client_frame_buffer int_bits
  written long size int room =
      let len = f.payload_len in
      let fl = flags 8 len in
      let eight : length fl ≡ 8 = length-flags 8 len in
      let rest = drop (length fl) (127 ∷ tail) in
      let space : length f.payload_data ≤ length rest =
        omega (arith, length-drop (length fl) (127 ∷ tail)) in
      let flagged : long_length 8 (head ∷ 127 ∷ tail) 1 len ≡ ok (head ∷ (fl ++ rest), 9) =
        long_length-flags 8 1 len (head ∷ 127 ∷ tail)
        ∙ (rw (store_all-append fl (head ∷ []) (127 ∷ tail) (omega (arith, eight)))) in
      let nine : length (head ∷ fl) ≡ 9 = omega (arith, eight) in
      let copied : store_all (head ∷ (fl ++ rest)) 9 f.payload_data
          ≡ ok (head ∷ (fl ++ (f.payload_data ++ drop (length f.payload_data) rest))) =
        rw nine at (store_all-append f.payload_data (head ∷ fl) rest space) in
      let kept : (9 + length f.payload_data) % 2 ^ 32 ≡ 9 + length f.payload_data = omega arith in
      let whole : 9 + length f.payload_data ≡ length (head ∷ (fl ++ f.payload_data)) =
        omega (arith, length-append fl f.payload_data, eight) in
      (
        (
          head ∷ (fl ++ (f.payload_data ++ drop (length f.payload_data) rest)),
          9 + length f.payload_data,
        ),
        rw (
          store-append [] x0 head (x1 ∷ tail),
          lt→leb len 65535 long,
          store-append (head ∷ []) x1 127 tail,
          flagged,
          append_payload-store (head ∷ (fl ++ rest)) f.payload_data 9 len size,
          copied,
          kept,
        ),
        rw (whole, ← append_assoc)
            (take-append (head ∷ (fl ++ f.payload_data)) (drop (length f.payload_data) rest)),
      )

-- A frame whose length byte is 0 or 1 is read as one with that many payload bytes.
short_read :
    (h b y : ℕ) (xs : Bytes)
    → b < 2
    → (g : Frame) × (parse_frame (h ∷ b ∷ y ∷ xs) ≡ ok g) × (g.payload_len ≡ b)
unfolding parse_frame payload_length masked_payload take_exact
short_read h zero y xs small = (_, refl, refl)
short_read h (suc zero) y xs small = (_, refl, refl)
short_read h (suc (suc b)) y xs small = absurd (omega arith)

truth-lt : (n : ℕ) → truth n < 2
unfolding truth
truth-lt n = ground arith

-- `createClientFrameBuffer` of a frame with more than 65535 payload bytes, and so many that the length
-- of the frame is an `int`, into a buffer with room, succeeds, and `parse_frame` reads from what it
-- writes, whatever follows, a frame with a payload of 0 or 1 bytes.
pub create_client_frame_buffer_long :
    (f : Frame) (x0 x1 : ℕ) (tail : Bytes)
    → 65535 < f.payload_len
    → f.payload_len ≡ length f.payload_data
    → 9 + f.payload_len < 2 ^ 31
    → 7 + f.payload_len ≤ length tail
    → (r : Bytes × ℕ) × (create_client_frame_buffer f (x0 ∷ x1 ∷ tail) ≡ ok r)
      × ((rest : Bytes) → (g : Frame) × (parse_frame (sent r ++ rest) ≡ ok g) × (g.payload_len < 2))
unfolding flags
create_client_frame_buffer_long f x0 x1 tail long size int room =
    let (r, done, bytes) = written f x0 x1 tail long size int room in
    (
      r,
      done,
      λ rest.
          let first = truth (f.payload_len >>> 56) in
          let small : first < 2 = truth-lt (f.payload_len >>> 56) in
          let (g, read, len) = short_read _ first _ _ small in
          (g, ap (λ t. parse_frame (t ++ rest)) bytes ∙ read, (rw len small)),
    )

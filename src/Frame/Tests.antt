-- ===== src/Frame/Tests.antt =====
-- Runs of the frame code, and the theorems at concrete frames.
use intern_status_update.Base.{
  ℕ, ◌≤◌, ◌<◌, ◌≡◌, refl, sym, [], ◌∷◌, ◌++◌, Bytes, ok, fault, codes, replicate, length, get_or,
  length-replicate, arith, take_exact, get_or,
}
use intern_status_update.Frame.{
  Frame, parse_frame, payload_length, masked_payload, unmask, create_frame,
  create_client_frame_buffer,
}
use intern_status_update.Frame.Wire.{IsFrame, masked, wire, head_byte, length_bytes}
use intern_status_update.Frame.Decode.{parse_frame-wire}
use intern_status_update.Frame.Encode.{sent}
use intern_status_update.Frame.RoundTrip.{parse_frame-create_frame, create_frame_overflow}
use intern_status_update.Frame.Long.{create_client_frame_buffer_long}

-- "Hello" of RFC 6455, section 5.7, unmasked and masked.
abbrev hello : Frame
hello = record {
  fin = 1;
  rsv1 = 0;
  rsv2 = 0;
  rsv3 = 0;
  opcode = 1;
  mask = 0;
  payload_len = 5;
  mask_key = [];
  payload_data = codes "Hello";
}

abbrev masked_hello : Frame
masked_hello = record hello { mask = 1; mask_key = 0x37 ∷ 0xfa ∷ 0x21 ∷ 0x3d ∷ [] }

wire-hello : wire hello ≡ 0x81 ∷ 0x05 ∷ codes "Hello"
unfolding wire head_byte length_bytes
wire-hello = refl

abbrev masked_bytes : Bytes
masked_bytes = 0x81 ∷ 0x85 ∷ 0x37 ∷ 0xfa ∷ 0x21 ∷ 0x3d ∷ 0x7f ∷ 0x9f ∷ 0x4d ∷ 0x51 ∷ 0x58 ∷ []

wire-masked_hello : wire masked_hello ≡ masked_bytes
unfolding wire head_byte length_bytes masked
wire-masked_hello = refl

parse_masked : parse_frame masked_bytes ≡ ok masked_hello
unfolding parse_frame payload_length masked_payload unmask take_exact get_or
parse_masked = refl

-- A frame that ends before its payload is read past its end.
parse_cut : parse_frame (0x81 ∷ 0x05 ∷ codes "Hel") ≡ fault
unfolding parse_frame payload_length masked_payload take_exact
parse_cut = refl

hello-IsFrame : IsFrame hello
hello-IsFrame = omega arith

masked_hello-IsFrame : IsFrame masked_hello
masked_hello-IsFrame = omega arith

parse_frame-wire_example : parse_frame (wire masked_hello ++ 7 ∷ []) ≡ ok masked_hello
parse_frame-wire_example = parse_frame-wire masked_hello (7 ∷ []) masked_hello-IsFrame

abbrev small_buffer : Bytes
small_buffer = 0 ∷ 0 ∷ 0 ∷ 0 ∷ 0 ∷ 0 ∷ 0 ∷ 0 ∷ []

hello_fits : length (wire hello) ≤ length small_buffer
unfolding wire head_byte length_bytes
hello_fits = omega arith

parse_frame-create_frame_example :
    (r : Bytes × ℕ) × (create_frame 1 0 0 0 1 5 (codes "Hello") small_buffer ≡ ok r)
    × (sent r ≡ wire hello)
    × (parse_frame (sent r ++ []) ≡ ok hello)
parse_frame-create_frame_example =
    parse_frame-create_frame hello small_buffer [] hello-IsFrame refl (omega arith) hello_fits

abbrev tiny_buffer : Bytes
tiny_buffer = 0 ∷ 0 ∷ 0 ∷ []

hello_too_long : length tiny_buffer < length (wire hello)
unfolding wire head_byte length_bytes
hello_too_long = omega arith

create_frame_overflow_example :
    (create_frame 1 0 0 0 1 5 (codes "Hello") tiny_buffer ≡ fault)
    × (create_client_frame_buffer hello tiny_buffer ≡ fault)
create_frame_overflow_example =
    create_frame_overflow hello tiny_buffer hello-IsFrame refl (omega arith) hello_too_long

-- 65536 spaces, and a buffer for them.
long_hello : ℕ → Frame
long_hello n = record hello { payload_len = n; payload_data = replicate n 0x20 }

create_client_frame_buffer_long_example :
    (r : Bytes × ℕ) × (create_client_frame_buffer (long_hello 65536) (0 ∷ 0 ∷ replicate 65543 0)
      ≡ ok r)
    × ((rest : Bytes) → (g : Frame) × (parse_frame (sent r ++ rest) ≡ ok g) × (g.payload_len < 2))
unfolding long_hello
create_client_frame_buffer_long_example =
    create_client_frame_buffer_long (long_hello 65536) 0 0 (replicate 65543 0) (omega arith)
      (sym (length-replicate {A = ℕ} 65536 0x20)) (omega arith)
      (omega (arith, length-replicate {A = ℕ} 65543 0))

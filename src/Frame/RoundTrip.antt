-- ===== src/Frame/RoundTrip.antt =====
-- What a peer makes of the frames that the two encoders write, and what they do without room.
use intern_status_update.Base.{ℕ, ◌≤◌, ◌<◌, ◌≡◌, ◌∙◌, ap, ◌++◌, Bytes, length, ok, fault}
use intern_status_update.Frame.{Frame, create_client_frame_buffer, create_frame, parse_frame}
use intern_status_update.Frame.Wire.{IsFrame, wire}
use intern_status_update.Frame.Decode.{parse_frame-wire}
use intern_status_update.Frame.Encode.{
  sent, create_frame-write, create_client_frame_buffer-write, write_wire-sent, write_wire_overflow,
}

-- For an unmasked frame of at most 65535 payload bytes and a buffer that holds it,
-- `createClientFrameBuffer` writes the bytes of RFC 6455, and `parse_frame` reads the frame back
-- from them, whatever bytes follow.
pub parse_frame-create_client_frame_buffer :
    (f : Frame) (buffer rest : Bytes)
    → IsFrame f
    → f.mask ≡ 0
    → f.payload_len ≤ 65535
    → length (wire f) ≤ length buffer
    → (r : Bytes × ℕ) × (create_client_frame_buffer f buffer ≡ ok r)
      × (sent r ≡ wire f)
      × (parse_frame (sent r ++ rest) ≡ ok f)
parse_frame-create_client_frame_buffer f buffer rest v clear small room =
    let (r, written, bytes) = write_wire-sent f buffer room in
    (
      r,
      create_client_frame_buffer-write f v clear small buffer ∙ written,
      bytes,
      ap (λ t. parse_frame (t ++ rest)) bytes ∙ parse_frame-wire f rest v,
    )

-- The same for `createFrame`, called with the fields of the frame.
pub parse_frame-create_frame :
    (f : Frame) (buffer rest : Bytes)
    → IsFrame f
    → f.mask ≡ 0
    → f.payload_len ≤ 65535
    → length (wire f) ≤ length buffer
    → (r : Bytes × ℕ) × (create_frame f.fin f.rsv1 f.rsv2 f.rsv3 f.opcode f.payload_len
          f.payload_data buffer
        ≡ ok r)
      × (sent r ≡ wire f)
      × (parse_frame (sent r ++ rest) ≡ ok f)
parse_frame-create_frame f buffer rest v clear small room =
    let (r, written, bytes) = write_wire-sent f buffer room in
    (
      r,
      create_frame-write f v clear small buffer ∙ written,
      bytes,
      ap (λ t. parse_frame (t ++ rest)) bytes ∙ parse_frame-wire f rest v,
    )

-- Neither encoder looks at the size of the buffer: where the frame is longer than the buffer, both
-- write past its end.
pub create_frame_overflow :
    (f : Frame) (buffer : Bytes)
    → IsFrame f
    → f.mask ≡ 0
    → f.payload_len ≤ 65535
    → length buffer < length (wire f)
    → (create_frame f.fin f.rsv1 f.rsv2 f.rsv3 f.opcode f.payload_len f.payload_data buffer ≡ fault)
      × (create_client_frame_buffer f buffer ≡ fault)
create_frame_overflow f buffer v clear small h = (
  create_frame-write f v clear small buffer ∙ write_wire_overflow f buffer h,
  create_client_frame_buffer-write f v clear small buffer ∙ write_wire_overflow f buffer h,
)

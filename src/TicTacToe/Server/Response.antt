-- ===== src/TicTacToe/Server/Response.antt =====
-- What `send_response` hands to the kernel, and what the peer reads from it.
use intern_status_update.Base.{
  ℕ, suc, ◌+◌, ◌≤◌, ◌≡◌, ◌≢◌, refl, ap, [], ◌++◌, Bytes, ok, length, length-append,
  length-replicate, append-nil, replicate, arith, lt→ltb,
}
use intern_status_update.Base.Int.{ℤ, pos, negsuc}
use intern_status_update.Libc.{print_int}
use intern_status_update.Libc.Decimal.{IsInt, length-digits_of}
use intern_status_update.Frame.{Frame, parse_frame}
use intern_status_update.Frame.Wire.{IsFrame, wire, length_bytes, length-big_endian}
use intern_status_update.Frame.Decode.{parse_frame-wire}
use intern_status_update.Frame.RoundTrip.{parse_frame-create_frame}
use intern_status_update.TicTacToe.Message.{message_text, create_message_json, parse_json_string}
use intern_status_update.TicTacToe.Message.RoundTrip.{IsPlain, parse_json_string-message_text}
use intern_status_update.TicTacToe.Server.{response_bytes, response_size}

length-print_int : (z : ℤ) → IsInt z → length (print_int z) ≤ 11
unfolding print_int
length-print_int (pos n) h =
    omega (arith, length-digits_of (suc n) n 10 (omega arith) (omega arith))
length-print_int (negsuc n) h =
    omega (arith, length-digits_of (suc (suc n)) (suc n) 10 (omega arith) (omega arith))

length-message_text :
    (id : Bytes) (player : ℕ) (code message : Bytes)
    → length (message_text id player code message) ≡ length id + length code + length message + 50
unfolding message_text
length-message_text id player code message = simp length-append (omega arith)

-- The frame of a response.
unfoldable pub response_frame : ℤ → ℕ → Bytes → Bytes → Frame
response_frame m_id player code message =
    let text = message_text (print_int m_id) player code message in
    record {
      fin = 1;
      rsv1 = 0;
      rsv2 = 0;
      rsv3 = 0;
      opcode = 1;
      mask = 0;
      payload_len = length text;
      mask_key = [];
      payload_data = text;
    }

length_bytes-le : (mask n : ℕ) → length (length_bytes mask n) ≤ 9
unfolding length_bytes
length_bytes-le mask n = ground (arith, length-big_endian 2 n, length-big_endian 8 n)

length-wire :
    (f : Frame) → f.mask ≡ 0 → f.mask_key ≡ [] → length (wire f) ≤ length f.payload_data + 10
unfolding wire
length-wire f clear key =
    rw (clear, key, length-append) (omega (arith, length_bytes-le 0 f.payload_len))

module _ (m_id : ℤ) (player : ℕ) (code message : Bytes) (int : IsInt m_id)
    (short : length code + length message ≤ 900) where
  text_short : length (message_text (print_int m_id) player code message) ≤ 961
  text_short =
      omega
        (arith, length-message_text (print_int m_id) player code message, length-print_int m_id int)

  response_frame-IsFrame : IsFrame (response_frame m_id player code message)
  unfolding response_frame
  response_frame-IsFrame = omega (arith, text_short)

  text_made :
      create_message_json m_id player code message
      ≡ ok (message_text (print_int m_id) player code message)
  unfolding create_message_json
  text_made = rw (
      lt→ltb (length (message_text (print_int m_id) player code message)) 1000
        (omega (arith, text_short)))

  -- A response whose strings have at most 900 bytes together fits both buffers.
  pub response_bytes-wire :
      response_bytes m_id player code message ≡ ok (wire (response_frame m_id player code message))
  unfolding response_bytes response_frame
  response_bytes-wire =
      let f = response_frame m_id player code message in
      let room : length (wire f) ≤ length (replicate {A = ℕ} response_size 0) =
        omega
          (arith, length-wire f refl refl, text_short, length-replicate {A = ℕ} response_size 0) in
      let ((buffer, len), created, bytes, _) =
        parse_frame-create_frame f (replicate response_size 0) [] response_frame-IsFrame refl
          (omega (arith, text_short)) room in
      rw (text_made, created, response_bytes) (ap ok bytes)

-- A response whose strings are plain and have at most 900 bytes together, with an `int` for an id
-- and a player other than the terminator, fits the buffers; and from what is sent, whatever bytes
-- follow, `parse_frame` and `parse_json_string` recover the strings, the player and the printed id.
pub response_bytes-delivered :
    (m_id : ℤ) (player : ℕ) (code message rest : Bytes)
    → IsInt m_id
    → IsPlain code
    → IsPlain message
    → player ≢ 0
    → length code + length message ≤ 900
    → (bytes : Bytes) × (f : Frame) × (response_bytes m_id player code message ≡ ok bytes)
      × (parse_frame (bytes ++ rest) ≡ ok f)
      × (f.opcode ≡ 1)
      × (parse_json_string f.payload_data
          ≡ ok (record {
            matchid = print_int m_id;
            player = player;
            code = code;
            message = message;
          }))
unfolding response_frame
response_bytes-delivered m_id player code message rest int hcode hmsg hplayer short =
    let f = response_frame m_id player code message in
    (
      wire f,
      f,
      response_bytes-wire m_id player code message int short,
      parse_frame-wire f rest (response_frame-IsFrame m_id player code message int short),
      refl,
      rw append-nil at
          (parse_json_string-message_text m_id player code message [] hcode hmsg hplayer),
    )

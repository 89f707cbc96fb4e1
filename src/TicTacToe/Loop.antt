-- ===== src/TicTacToe/Loop.antt =====
-- TicTacToe/Server/websocket.c and the loop of `main` in server.c: the handshake and one turn for
-- each event. OpenSSL is a parameter.
pub mod Invariant
use intern_status_update.Base.{
  ℕ, zero, suc, ◌+◌, ◌-◌, ◌≤◌, ◌<◌, [], ◌∷◌, ◌++◌, List, Bytes, Bool, true, false, not, ◌&&◌, ◌||◌,
  Option, none, some, Run, ok, fault, if◌then◌else◌, ltb, leb, ◌==◌, length, codes, str_eq,
  replicate, take, drop, get_or,
}
use intern_status_update.Base.Int.{ℤ, pos, negsuc, int_eq, no_fd}
use intern_status_update.Libc.{atoi, strstr, cstr}
use intern_status_update.Frame.{Frame, create_frame, parse_frame}
use intern_status_update.TicTacToe.Message.{
  Message, create_message_json, parse_json_string, until_quote,
}
use intern_status_update.TicTacToe.Board.{Match, create_match, set_cell, evaluate_board}
use intern_status_update.TicTacToe.State.{
  Client, Server, M, ◌>>=◌, ◌>>◌, return, crash, lift, skip, load_match, store_match, free_match,
  new_match, matches_at, set_matches, next_match_id, load_client, store_client, free_client,
  new_client, create_client, transmit, max_matches,
}
use intern_status_update.TicTacToe.Server.{
  Kernel, Received, received, closed, failed, close_connection, dispatch, close_frame,
}

-- The two functions of OpenSSL that make the accept key: the SHA-1 digest of a text, and the text of
-- its base 64 encoding.
pub record OpenSsl : Type 0 where
  pub sha1 : Bytes → Bytes
  pub encode_block : Bytes → Bytes

-- A frame from a client that has shaken hands.
unfoldable pub client_frame : Kernel → ℕ → ℤ → Received → M (Unit {0})
client_frame k c fd (received bytes) = do
  f ← lift (parse_frame (bytes ++ k.stale))
  let message : M (Unit {0}) = (do
    msg ← lift (parse_json_string f.payload_data)
    dispatch k c fd msg)
  if f.opcode == 8 then close_frame k c fd else message
client_frame k c fd closed = close_connection c
client_frame k c fd failed = close_connection c

abbrev guid : Bytes
guid = codes "258EAFA5-E914-47DA-95CA-C5AB0DC85B11"

-- `create_accept_key`, with its array of 256 bytes.
unfoldable pub create_accept_key : OpenSsl → Bytes → Run Bytes
create_accept_key ssl client_key =
    let combined = client_key ++ guid in
    if ltb (length combined) 256 then ok (ssl.encode_block (ssl.sha1 combined)) else fault

-- `send_handshake`: the response in its 512 bytes; the result of `send` is not used.
unfoldable pub send_handshake : OpenSsl → Kernel → ℤ → Bytes → M (Unit {0})
send_handshake ssl k fd client_key = do
  accept_key ← lift (create_accept_key ssl client_key)
  let response =
      codes "HTTP/1.1 101 Switching Protocols\r\nUpgrade: websocket\r\nConnection: Upgrade\r\n"
      ++ (codes "Sec-WebSocket-Accept: " ++ (accept_key ++ codes "\r\n\r\n"))
  sent ←
      (if ltb (length response) 512 then transmit (k.can_send fd response) fd response else crash)
  skip

-- The text of a client without the upgrade, which is then closed.
unfoldable pub refuse_client : Kernel → ℕ → ℤ → M (Unit {0})
refuse_client k c fd = do
  let text = codes "Only Websockets are allowed!!\nHandshake not done\nClosing Connection\n"
  sent ← transmit (k.can_send fd text) fd text
  close_connection c

-- The key from behind its header to the end of the line, cut to the 127 bytes of `client_key`.
unfoldable pub client_key_of : Bytes → Run (Option Bytes)
client_key_of req = elim (strstr req (codes "Sec-WebSocket-Key: ")) [
  | fault ↦ fault
  | ok none ↦ ok none
  | ok (some p) ↦
      let key_start = drop 19 p in
      elim (strstr key_start (codes "\r\n")) [
        | fault ↦ fault
        | ok none ↦ ok none
        | ok (some e) ↦ ok (some (take 127 (cstr (take (length key_start - length e) key_start))))
      ]
]

-- `req[n] = '\0'`, which is outside the array for a full one and for n = -1.
unfoldable pub request_text : Received → Run Bytes
request_text (received bytes) = if ltb (length bytes) 65536 then ok (bytes ++ 0 ∷ []) else fault
request_text closed = ok (0 ∷ [])
request_text failed = fault

-- Whether a search found its text.
abbrev pub found : Option Bytes → Bool
found none = false
found (some p) = true

-- A request on a connection without a handshake.
unfoldable pub handshake_request : OpenSsl → Kernel → ℕ → Client → M (Unit {0})
handshake_request ssl k c r = do
  req ← lift (request_text k.input)
  upgrade ← lift (strstr req (codes "Upgrade: websocket"))
  header ← lift (strstr req (codes "Sec-WebSocket-Key"))
  key ← lift (client_key_of req)
  let accept : M (Unit {0}) = elim key [
    | none ↦ skip
    | some client_key ↦ do
      send_handshake ssl k r.fd client_key
      store_client c (record r { handshake = true })
  ]
  if found upgrade && found header then accept else refuse_client k c r.fd

-- `accept` on the listening socket.
unfoldable pub accept_client : Option ℕ → M (Unit {0})
accept_client none = skip
accept_client (some fd) = do c ← new_client (create_client (pos fd) none); skip

-- What the event asks for.
unfoldable pub attend : OpenSsl → ℤ → Kernel → ℕ → Client → M (Unit {0})
attend ssl listen_fd k c r =
    if k.broken
    then close_connection c
    else if int_eq r.fd listen_fd
    then accept_client k.accepted
    else if r.handshake
    then client_frame k c r.fd k.input
    else handshake_request ssl k c r

-- The body of the loop over the events, for the client `c`.
unfoldable pub handle_event : OpenSsl → ℤ → Kernel → ℕ → M (Unit {0})
handle_event ssl listen_fd k c = do r ← load_client c; attend ssl listen_fd k c r

-- The events in the order of their handling.
unfoldable pub run : OpenSsl → ℤ → List (Kernel × ℕ) → M (Unit {0})
run ssl listen_fd [] = skip
run ssl listen_fd ((k, c) ∷ events) = do handle_event ssl listen_fd k c; run ssl listen_fd events

-- The state in front of the loop of `main`.
unfoldable pub start : ℤ → Server
start listen_fd = record {
  match_id = 0;
  matches = replicate max_matches none;
  match_heap = [];
  client_heap = some (create_client listen_fd none) ∷ [];
  sent = [];
}

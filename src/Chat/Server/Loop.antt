-- ===== src/Chat/Server/Loop.antt =====
-- Chat System/Server/server.c: the loop of `main` and the accepting of connections. The handshake is
-- that of the game server, and OpenSSL is a parameter.
pub mod Order
use intern_status_update.Base.{
  ℕ, ◌+◌, ◌<◌, [], ◌∷◌, ◌++◌, List, Bytes, Bool, Option, none, some, Run, ok, fault, ◌>>=◌,
  if◌then◌else◌, ltb, length, codes,
}
use intern_status_update.Base.Int.{ℤ, pos, int_eq}
use intern_status_update.HashMap.{init_table}
use intern_status_update.TicTacToe.Server.{Received, received, closed, failed}
use intern_status_update.TicTacToe.Loop.{OpenSsl, create_accept_key, client_key_of}
use intern_status_update.Chat.Server.{Server, create_client, load, close_connection, client_event}

-- What the kernel answers for one event: whether the socket is broken, what `accept` and `recv`
-- return, and what the array held behind the bytes received.
pub record Kernel : Type 0 where
  pub broken : Bool
  pub accepted : Option ℕ
  pub input : Received
  pub stale : Bytes

-- `req`, which is not terminated and is searched whatever `recv` returns.
unfoldable pub request_bytes : Received → Bytes → Bytes
request_bytes (received bytes) stale = bytes ++ stale
request_bytes closed stale = stale
request_bytes failed stale = stale

-- `send_handshake`: the response in its 512 bytes.
unfoldable pub handshake_text : OpenSsl → Bytes → Run Bytes
handshake_text ssl client_key = do
  accept_key ← create_accept_key ssl client_key
  let response =
      codes "HTTP/1.1 101 Switching Protocols\r\nUpgrade: websocket\r\nConnection: Upgrade\r\n"
      ++ (codes "Sec-WebSocket-Accept: " ++ (accept_key ++ codes "\r\n\r\n"))
  if ltb (length response) 512 then ok response else fault

-- A connection whose request has a key, or `continue`.
unfoldable pub welcome : OpenSsl → ℤ → Option Bytes → Server → Run Server
welcome ssl fd none s = ok s
welcome ssl fd (some client_key) s = do
  response ← handshake_text ssl client_key
  ok (record s {
    sent = (fd, response) ∷ s.sent;
    clients = s.clients ++ some (create_client fd) ∷ [];
  })

-- The listening socket is readable.
unfoldable pub accept_client : OpenSsl → Kernel → Option ℕ → Server → Run Server
accept_client ssl k none s = ok s
accept_client ssl k (some fd) s = do
  key ← client_key_of (request_bytes k.input k.stale)
  welcome ssl (pos fd) key s

-- What the event asks for.
unfoldable pub attend : OpenSsl → ℤ → Kernel → ℕ → ℤ → Server → Run Server
attend ssl listen_fd k c fd s =
    if k.broken
    then close_connection c s
    else if int_eq fd listen_fd
    then accept_client ssl k k.accepted s
    else client_event c k.input k.stale s

-- The body of the loop over the events, for the client `c`.
unfoldable pub handle_event : OpenSsl → ℤ → Kernel → ℕ → Server → Run Server
handle_event ssl listen_fd k c s = do r ← load c s; attend ssl listen_fd k c r.fd s

unfoldable pub handle_all : OpenSsl → ℤ → ℕ → List (Kernel × ℕ) → Server → Run Server
handle_all ssl listen_fd first [] s = ok s
handle_all ssl listen_fd first ((k, c) ∷ events) s = do
  s1 ← handle_event ssl listen_fd k first s
  handle_all ssl listen_fd first events s1

-- The events of one `epoll_wait`. The client is `event->data.ptr`, that of the first, for all of them.
unfoldable pub handle_batch : OpenSsl → ℤ → List (Kernel × ℕ) → Server → Run Server
handle_batch ssl listen_fd [] s = ok s
handle_batch ssl listen_fd ((k, c) ∷ events) s = handle_all ssl listen_fd c ((k, c) ∷ events) s

unfoldable pub run : OpenSsl → ℤ → List (List (Kernel × ℕ)) → Server → Run Server
run ssl listen_fd [] s = ok s
run ssl listen_fd (batch ∷ batches) s = do
  s1 ← handle_batch ssl listen_fd batch s
  run ssl listen_fd batches s1

-- The state in front of the loop of `main`.
unfoldable pub start : ℤ → Server
start listen_fd = record {
  table = init_table;
  clients = some (create_client listen_fd) ∷ [];
  sent = [];
}

-- ===== src/Proxy/Server.antt =====
-- HTTP Proxy Effecient/proxy.c: the body of the loop of `main`, one event at a time. What the kernel,
-- the resolver and OpenSSL answer is part of the event.
pub mod Counts
pub mod Steps
pub mod Requests
pub mod Invariant
pub mod Progress
use intern_status_update.Base.{
  ℕ, zero, suc, ◌+◌, [], ◌∷◌, ◌++◌, List, Bytes, Bool, true, false, not, ◌&&◌, Option, none, some,
  Run, ok, fault, ◌>>=◌, deref, if◌then◌else◌, length, codes, str_eq,
}
use intern_status_update.Base.Int.{ℤ, pos, negsuc, int_eq, no_fd}
use intern_status_update.Libc.{cstr}
use intern_status_update.HashMap.{put, get, init_table}
use intern_status_update.Proxy.Url.{Request, parse_request, get_key_from_request}
use intern_status_update.Proxy.Auth.{User, add_user, authorize}
use intern_status_update.Proxy.State.{
  Connection, End, Proxy, load_end, load_connection, store_connection, store_end, create_connection,
  create_end, cleanup_connection,
}

-- What `recv` gives, and what `send` gives.
pub data Received : Type 0 where
  received : Bytes → Received
  closed : Received
  would_block : Received
  failed : Received

pub data Sent : Type 0 where
  some_sent : Sent
  none_sent : Sent
  send_would_block : Sent
  send_failed : Sent

-- `stale` is what the packet's array holds behind the bytes received, `decoded_stale` what the array of
-- the decoded credentials does; `connect` is `connect_upstream`.
pub record Kernel : Type 0 where
  pub broken : Bool
  pub accepted : Option ℕ
  pub input : Received
  pub stale : Bytes
  pub decode_block : Bytes → Option Bytes
  pub decoded_stale : Bytes
  pub connect : Bytes → Bytes → Option ℕ
  pub send : ℤ → Bytes → Sent

-- Whether bytes went out.
abbrev pub is_sent : Sent → Bool
is_sent some_sent = true
is_sent _ = false

-- Whether the result is negative.
abbrev pub is_negative : Sent → Bool
is_negative send_would_block = true
is_negative send_failed = true
is_negative _ = false

-- `send`: what went out is put on the list.
abbrev pub transmit : Kernel → ℤ → Bytes → Proxy → Proxy
transmit k to bytes s = record s {
  sent = if is_sent (k.send to bytes) then (to, bytes) ∷ s.sent else s.sent;
}

-- `accept` on the listening socket.
unfoldable pub accept_client : Option ℕ → Proxy → Run Proxy
accept_client none s = ok s
accept_client (some fd) s = do
  (d, s1) ←
      create_end (pos fd) (length s.connections)
        (record s { connections = s.connections ++ some (create_connection (pos fd) no_fd) ∷ [] })
  ok s1

abbrev pub established : Bytes
established = codes "HTTP/1.1 200 Connection Established\r\n\r\n"

unfoldable pub cleanup_both : ℕ → ℕ → Proxy → Run Proxy
cleanup_both d d2 s = do s1 ← cleanup_connection d s; cleanup_connection d2 s1

-- CONNECT: the client is told, and its end becomes a tunnel.
unfoldable pub open_tunnel : Kernel → ℕ → ℕ → End → Proxy → Run Proxy
open_tunnel k d d2 x s =
    if is_sent (k.send x.fd established)
    then store_end d (record x { tunnel_mode = true }) (transmit k x.fd established s)
    else cleanup_both d d2 s

-- Any other scheme: the packet goes on to the server.
unfoldable pub forward_packet : Kernel → ℕ → ℕ → ℤ → Bytes → Proxy → Run Proxy
forward_packet k d d2 server_fd bytes s =
    if is_negative (k.send server_fd bytes)
    then cleanup_both d d2 s
    else ok (transmit k server_fd bytes s)

abbrev pub scheme_code : Bytes → ℕ
scheme_code scheme = if str_eq scheme (codes "http") then 0 else 1

-- Behind `connect_upstream`. Without a server the client's socket is closed, and its end stays.
unfoldable pub upstream : Kernel → ℕ → ℕ → End → Request → Bytes → Option ℕ → Proxy → Run Proxy
upstream k d p x req bytes none s = ok s
upstream k d p x req bytes (some fd) s = do
  c ← load_connection p s
  s1 ← store_connection p (record c { fd2 = pos fd; scheme = some (scheme_code req.url.scheme) }) s
  (d2, s2) ← create_end (pos fd) p s1
  if str_eq req.url.scheme (codes "https")
      then open_tunnel k d d2 x s2
      else forward_packet k d d2 (pos fd) bytes s2

-- The cached response, if it goes out, ends the connection.
unfoldable pub answer_cached : Kernel → ℕ → ℕ → End → Request → Bytes → Bytes → Proxy → Run Proxy
answer_cached k d p x req bytes value s =
    if is_sent (k.send x.fd value)
    then cleanup_connection d (transmit k x.fd value s)
    else upstream k d p x req bytes (k.connect req.url.host req.url.port) s

-- GET of an `http` URL: the key is kept, and the cache is asked.
unfoldable pub cached_request : Kernel → ℕ → ℕ → End → Request → Bytes → Proxy → Run Proxy
cached_request k d p x req bytes s = do
  key ← get_key_from_request req
  c ← load_connection p s
  s1 ← store_connection p (record c { key = some key }) s
  elim (get key s1.table) [
    | some value ↦ answer_cached k d p x req bytes value s1
    | none ↦ upstream k d p x req bytes (k.connect req.url.host req.url.port) s1
  ]

-- A request that is not understood closes the socket, and the end stays.
unfoldable pub serve : Kernel → ℕ → ℕ → End → Bytes → Proxy → Run Proxy
serve k d p x bytes s = elim (parse_request (cstr bytes)) [
  | none ↦ ok s
  | some req ↦
      if str_eq req.method (codes "GET") && str_eq req.url.scheme (codes "http")
      then cached_request k d p x req bytes s
      else upstream k d p x req bytes (k.connect req.url.host req.url.port) s
]

-- `authorize` sends its answers one after the other and does not look at the results.
abbrev pub logged : Kernel → ℤ → List Bytes → List (ℤ × Bytes) → List (ℤ × Bytes)
logged k to [] log = log
logged k to (bytes ∷ rest) log =
    logged k to rest (if is_sent (k.send to bytes) then (to, bytes) ∷ log else log)

abbrev pub send_all : Kernel → ℤ → List Bytes → Proxy → Proxy
send_all k to replies s = record s { sent = logged k to replies s.sent }

-- The credentials are accepted.
unfoldable pub admit : Kernel → ℕ → ℕ → End → Bytes → Proxy → Run Proxy
admit k d p x bytes s = do
  c ← load_connection p s
  s1 ← store_connection p (record c { authorized = true }) s
  serve k d p x bytes s1

-- The first packet of a client.
unfoldable pub first_request : Kernel → ℕ → ℕ → End → Bytes → Proxy → Run Proxy
first_request k d p x bytes s = do
  (valid, replies) ← authorize k.decode_block (bytes ++ k.stale) k.decoded_stale s.users
  let s1 = send_all k x.fd replies s
  if valid then admit k d p x bytes s1 else cleanup_connection d s1

unfoldable pub client_input : Kernel → ℕ → ℕ → End → Received → Proxy → Run Proxy
client_input k d p x (received bytes) s = first_request k d p x bytes s
client_input k d p x _ s = cleanup_connection d s

-- The cache keeps the bytes under the connection's key.
abbrev pub remember : Connection → Bytes → Proxy → Proxy
remember c bytes s = elim c.key [
  | none ↦ s
  | some key ↦ record s { table = (put key bytes s.table).0 }
]

unfoldable pub relay_bytes : Kernel → ℕ → ℤ → Bytes → Sent → Proxy → Run Proxy
relay_bytes k d to bytes some_sent s = ok (record s { sent = (to, bytes) ∷ s.sent })
relay_bytes k d to bytes send_would_block s = ok s
relay_bytes k d to bytes none_sent s = cleanup_connection d s
relay_bytes k d to bytes send_failed s = cleanup_connection d s

unfoldable pub relay : Kernel → ℕ → End → Connection → Received → Proxy → Run Proxy
relay k d x c (received bytes) s =
    let to = if int_eq c.fd1 x.fd then c.fd2 else c.fd1 in
    relay_bytes k d to bytes (k.send to bytes) (remember c bytes s)
relay k d x c would_block s = ok s
relay k d x c closed s = cleanup_connection d s
relay k d x c failed s = cleanup_connection d s

-- An event of a socket that is not the listening one.
unfoldable pub socket_event : Kernel → ℕ → End → Proxy → Run Proxy
socket_event k d x s = do
  p ← deref x.connection
  c ← load_connection p s
  if int_eq x.fd c.fd1 && (not x.tunnel_mode && not c.authorized)
      then client_input k d p x k.input s
      else (if c.authorized then relay k d x c k.input s else ok s)

-- The body of the loop over the events, for the end `d`.
unfoldable pub handle_event : ℤ → Kernel → ℕ → Proxy → Run Proxy
handle_event listen_fd k d s = do
  x ← load_end d s
  if k.broken
      then cleanup_connection d s
      else (if int_eq x.fd listen_fd then accept_client k.accepted s else socket_event k d x s)

unfoldable pub run : ℤ → List (Kernel × ℕ) → Proxy → Run Proxy
run listen_fd [] s = ok s
run listen_fd ((k, d) ∷ events) s = do s1 ← handle_event listen_fd k d s; run listen_fd events s1

-- The state in front of the loop of `main`: the end of the listening socket has no connection.
unfoldable pub start : ℤ → Proxy
start listen_fd = record {
  table = init_table;
  users =
      add_user (codes "mobicipuser") (codes "mobicip2026")
        (add_user (codes "nirmal") (codes "mobicipintern") []);
  connections = [];
  ends = some (record { fd = listen_fd; tunnel_mode = false; connection = none }) ∷ [];
  sent = [];
}

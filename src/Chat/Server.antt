-- ===== src/Chat/Server.antt =====
-- Chat System/Server: `Client` of client.c, and what server.c does with a client's frame. A client is
-- the place of its object among all that were allocated; a freed one leaves `none`.
pub mod Owners
pub mod Registry
pub mod Invariant
pub mod Register
pub mod Loop
use intern_status_update.Base.{
  ℕ, zero, suc, ◌+◌, ◌≤◌, [], ◌∷◌, ◌++◌, List, Bytes, Bool, true, false, not, ◌&&◌, Option, none,
  some, Run, ok, fault, ◌>>=◌, deref, if◌then◌else◌, leb, ◌==◌, length, codes, str_eq, replicate,
  set, take, live,
}
use intern_status_update.Base.Int.{ℤ, int_eq}
use intern_status_update.Frame.{Frame, parse_frame, create_client_frame_buffer}
use intern_status_update.HashMap.{Table, put, get, is_available, remove_key}
use intern_status_update.TicTacToe.Server.{Received, received, closed, failed}
use intern_status_update.Chat.Message.{Message, parse_json_string, broadcast_text}

pub record Client : Type 0 where
  pub fd : ℤ
  pub username : Option Bytes
  pub active : Bool
  pub added : Bool

unfoldable pub create_client : ℤ → Client
create_client fd = record { fd = fd; username = none; active = true; added = false }

-- `Table`, the clients allocated, and what was given to `send`, the last first; what `send` answers
-- is not used.
pub record Server : Type 0 where
  pub table : Table ℕ
  pub clients : List (Option Client)
  pub sent : List (ℤ × Bytes)

-- `*c`
abbrev pub load : ℕ → Server → Run Client
load c s = deref (live s.clients c)

unfoldable pub store_client : ℕ → Client → Server → Run Server
store_client c r s = do old ← load c s; ok (record s { clients = set s.clients c (some r) })

-- `free`, of the client that the table gave back.
unfoldable pub free_client : Option ℕ → Server → Run Server
free_client none s = ok s
free_client (some p) s = do old ← load p s; ok (record s { clients = set s.clients p none })

-- `removeKey` reads the name, which is NULL for a client that is not registered.
unfoldable pub close_connection : ℕ → Server → Run Server
close_connection c s = do
  r ← load c s
  s1 ← store_client c (record r { active = false }) s
  name ← deref r.username
  let (t, freed) = remove_key name s1.table
  free_client freed (record s1 { table = t })

-- `put` of a name that is free.
unfoldable pub enter : ℕ → Bytes → Server → Run Server
enter c name s = let (t, freed) = put name c s.table in free_client freed (record s { table = t })

-- The creation of a user.
unfoldable pub register : ℕ → Client → Message → Server → Run Server
register c r m s = do
  s1 ← store_client c (record r { added = true; username = some m.message }) s
  if not (is_available m.message s1.table) then enter c m.message s1 else close_connection c s1

-- `createClientFrame` into the 1024 bytes on the stack, which are taken to be zero.
unfoldable pub frame_bytes : Frame → Run Bytes
frame_bytes f = do
  (buffer, len) ← create_client_frame_buffer f (replicate 1024 0)
  ok (take len buffer)

-- The inner loop: every active client of the chain but the sender.
unfoldable pub send_chain : ℤ → Bytes → List (Bytes × ℕ) → Server → Run Server
send_chain fd bytes [] s = ok s
send_chain fd bytes ((k, p) ∷ chain) s = do
  r ← load p s
  let go = not (int_eq r.fd fd) && r.active
  send_chain fd bytes chain (record s { sent = if go then (r.fd, bytes) ∷ s.sent else s.sent })

unfoldable pub send_all : ℤ → Bytes → Table ℕ → Server → Run Server
send_all fd bytes [] s = ok s
send_all fd bytes (chain ∷ table) s = do
  s1 ← send_chain fd bytes chain s
  send_all fd bytes table s1

-- The text of the broadcast must fit the payload's length and 20 bytes.
unfoldable pub broadcast : Client → Frame → Message → Server → Run Server
broadcast r f m s = do
  let text = broadcast_text m
  payload ← (if leb (length text + 1) (f.payload_len + 20) then ok text else fault)
  bytes ← frame_bytes (record f { payload_data = payload; payload_len = length payload })
  send_all r.fd bytes s.table s

-- The frame goes on as it came.
unfoldable pub relay : Frame → Message → Server → Run Server
relay f m s = elim (get m.to s.table) [
  | none ↦ ok s
  | some p ↦ do bytes ← frame_bytes f; r ← load p s; ok (record s { sent = (r.fd, bytes) ∷ s.sent })
]

unfoldable pub chat_message : ℕ → Client → Frame → Message → Server → Run Server
chat_message c r f m s =
    if not r.added && (str_eq (codes "client") m.from && str_eq (codes "server") m.to)
    then register c r m s
    else if r.added && (r.active && str_eq m.to (codes "broadcast"))
    then broadcast r f m s
    else relay f m s

-- A client's socket is readable; `stale` is what the array held behind the bytes received.
unfoldable pub client_event : ℕ → Received → Bytes → Server → Run Server
client_event c (received bytes) stale s = do
  r ← load c s
  f ← parse_frame (bytes ++ stale)
  let message = parse_json_string f.payload_data >>= λ m. chat_message c r f m s
  if f.opcode == 8 then close_connection c s else message
client_event c closed stale s = close_connection c s
client_event c failed stale s = close_connection c s

-- ===== src/Echo.antt =====
-- Mini Project 27-1-26/EchoServer.c: the threads of the server, one for each connection. What a thread
-- does under the lock is one step, as are the steps between; what the kernel answers is part of the
-- event.
pub mod Invariant
pub mod Progress
mod Tests
use intern_status_update.Base.{
  ℕ, zero, suc, ◌+◌, ◌^◌, [], ◌∷◌, ◌++◌, List, Bytes, Bool, true, false, ◌&&◌, Option, none, some,
  Run, ok, fault, ◌>>=◌, deref, if◌then◌else◌, ltb, ◌==◌, length, get_elem?, set, str_eq, take,
  codes,
}
use intern_status_update.Base.Int.{ℤ, int_eq, no_fd}
use intern_status_update.Packet.{ClientData, unpack_client_data, trim}
use intern_status_update.Packet.Transfer.{Received, whole, none_left, broken}
use intern_status_update.Packet.Server.{Network, ServerData, pack_server_data}

-- `Client_FD`, without the socket address, from which nothing is read.
pub record Client : Type 0 where
  pub fd : ℤ
  pub echo_count : ℕ
  pub ip_address : Bytes

-- How far a thread has come.
pub data Stage : Type 0 where
  joining : Stage
  reading : ℕ → Stage
  counting : ℕ → ClientData → Stage
  answering : ℕ → ClientData → Stage
  sending : ℕ → ServerData → Stage
  leaving : ℕ → Stage
  ended : Stage

-- A thread, with its own copy of the client.
pub record Thread : Type 0 where
  pub client : Client
  pub stage : Stage

-- `cfds` up to `n_sockets`, and what was closed and sent.
pub record Server : Type 0 where
  pub cfds : List Client
  pub total_echo : ℕ
  pub threads : List Thread
  pub closed : List ℤ
  pub sent : List (ℤ × Bytes)
  pub exited : Bool

-- For one step: what `recvall` returns, and whether `sendall` sends.
pub record Kernel : Type 0 where
  pub input : Received
  pub sends : Bool

abbrev pub max_sockets : ℕ
max_sockets = 100

unfoldable pub find_user : Bytes → List Client → Option ℕ
find_user ip [] = none
find_user ip (c ∷ cfds) =
    let rest = find_user ip cfds in
    if str_eq ip c.ip_address then some 0 else elim rest [ none ↦ none | some i ↦ some (suc i) ]

-- The entry of an address that is known.
unfoldable pub update_user : Client → ℕ → Server → Run (ℕ × Server)
update_user cfd i s = do
  old ← deref (get_elem? s.cfds i)
  ok (
    i,
    record s {
      cfds = set s.cfds i (record old { fd = cfd.fd });
      closed = if int_eq old.fd no_fd then s.closed else old.fd ∷ s.closed;
    },
  )

-- A new one, behind the others.
unfoldable pub add_user : Client → Server → Run (ℕ × Server)
add_user cfd s =
    if ltb (length s.cfds) max_sockets
    then ok (length s.cfds, record s { cfds = s.cfds ++ cfd ∷ [] })
    else fault

unfoldable pub add_or_update_user : Client → Server → Run (ℕ × Server)
add_or_update_user cfd s = elim (find_user cfd.ip_address s.cfds) [
  | some i ↦ update_user cfd i s
  | none ↦ add_user cfd s
]

abbrev pub close : ℤ → Server → Server
close fd s = record s { closed = fd ∷ s.closed }

-- `strncmp("exit", message, 4) == 0`
abbrev pub is_exit : Bytes → Bool
is_exit message = str_eq (take 4 message) (codes "exit")

unfoldable pub receive : Received → Client → ℕ → Server → Run (Stage × Server)
receive (whole bytes) cfd pos s = do
  data_ ← unpack_client_data bytes
  ok (if is_exit data_.message then (leaving pos, close cfd.fd s) else (counting pos data_, s))
receive none_left cfd pos s = ok (leaving pos, close cfd.fd s)
receive broken cfd pos s = ok (ended, record s { exited = true })

-- An `int` and a `long` that would overflow fault.
unfoldable pub count_echo : ℕ → Server → Run Server
count_echo pos s = do
  c ← deref (get_elem? s.cfds pos)
  if ltb (c.echo_count + 1) (2 ^ 31) && ltb (s.total_echo + 1) (2 ^ 63)
      then ok (record s {
        cfds = set s.cfds pos (record c { echo_count = c.echo_count + 1 });
        total_echo = s.total_echo + 1;
      })
      else fault

unfoldable pub read_counts : ℕ → ClientData → Server → Run ServerData
read_counts pos data_ s = do
  c ← deref (get_elem? s.cfds pos)
  ok (record { echo = data_; user_count = c.echo_count; total_count = s.total_echo })

-- The message is trimmed to be printed, if it was sent.
unfoldable pub send_answer : Network → Bool → Client → ServerData → Server → Run Server
send_answer w false cfd sdata s = ok s
send_answer w true cfd sdata s = do
  message ← trim sdata.echo.message
  ok (record s { sent = (cfd.fd, pack_server_data w sdata) ∷ s.sent })

-- `cfds[pos].fd = -1`
unfoldable pub forget_socket : ℕ → Server → Run Server
forget_socket pos s = do
  c ← deref (get_elem? s.cfds pos)
  ok (record s { cfds = set s.cfds pos (record c { fd = no_fd }) })

-- The next step of a thread of `thread_routene`.
unfoldable pub advance : Network → Kernel → Client → Stage → Server → Run (Stage × Server)
advance w k cfd joining s = do (pos, s1) ← add_or_update_user cfd s; ok (reading pos, s1)
advance w k cfd (reading pos) s = receive k.input cfd pos s
advance w k cfd (counting pos data_) s = do s1 ← count_echo pos s; ok (answering pos data_, s1)
advance w k cfd (answering pos data_) s = do
  sdata ← read_counts pos data_ s
  ok (sending pos sdata, s)
advance w k cfd (sending pos sdata) s = do
  s1 ← send_answer w k.sends cfd sdata s
  ok (reading pos, s1)
advance w k cfd (leaving pos) s = do s1 ← forget_socket pos s; ok (ended, s1)
advance w k cfd ended s = ok (ended, s)

-- A connection that `main` accepts, and a turn of a thread.
pub data Event : Type 0 where
  accepted : ℤ → Bytes → Event
  turn : ℕ → Kernel → Event

unfoldable pub handle_event : Network → Event → Server → Run Server
handle_event w (accepted fd ip) s =
    let cfd : Client = record { fd = fd; echo_count = 0; ip_address = ip } in
    ok (record s { threads = s.threads ++ record { client = cfd; stage = joining } ∷ [] })
handle_event w (turn t k) s = do
  thread ← deref (get_elem? s.threads t)
  (stage, s1) ← advance w k thread.client thread.stage s
  ok (record s1 { threads = set s1.threads t (record thread { stage = stage }) })

-- Behind `exit` there is nothing more.
unfoldable pub run : Network → List Event → Server → Run Server
run w [] s = ok s
run w (e ∷ events) s = do s1 ← if s.exited then ok s else handle_event w e s; run w events s1

unfoldable pub start : Server
start = record { cfds = []; threads = []; total_echo = 0; closed = []; sent = []; exited = false }

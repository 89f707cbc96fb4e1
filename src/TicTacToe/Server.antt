-- ===== src/TicTacToe/Server.antt =====
-- TicTacToe/Server/server.c: the responses and the handlers of the requests and of a close, over the
-- server's memory. The kernel's answers are part of the event.
use intern_status_update.Base.{
  ℕ, zero, suc, ◌+◌, ◌-◌, ◌≤◌, ◌<◌, [], ◌∷◌, ◌++◌, List, Bytes, Bool, true, false, not, ◌&&◌, ◌||◌,
  Option, none, some, Run, ok, fault, if◌then◌else◌, ltb, leb, ◌==◌, length, codes, str_eq,
  replicate, take, drop, get_or,
}
pub mod Response
pub mod Safety
pub mod Requests
pub mod Create
pub mod Join
pub mod GameOver
use intern_status_update.Base.Int.{ℤ, pos, negsuc, int_eq, no_fd}
use intern_status_update.Libc.{atoi, strstr, cstr}
use intern_status_update.Frame.{Frame, create_frame, parse_frame}
use intern_status_update.TicTacToe.Message.{
  Message, create_message_json, parse_json_string, until_quote,
}
use intern_status_update.TicTacToe.Board.{Match, create_match, set_cell, evaluate_board}
use intern_status_update.TicTacToe.State.{
  Client, Server, M, ◌>>=◌, ◌>>◌, return, crash, lift, skip, load_match, store_match, free_match,
  new_match, matches_at, set_matches, next_match_id, load_client, store_client, free_client,
  new_client, create_client, transmit, max_matches,
}

-- What `recv` gives: bytes, the end of the stream, or an error.
pub data Received : Type 0 where
  received : Bytes → Received
  closed : Received
  failed : Received

-- The kernel's part in the handling of one event. `stale` is what the buffer on the stack holds
-- behind the bytes received; `can_send` says whether `send` of these bytes to this descriptor
-- succeeds.
pub record Kernel : Type 0 where
  pub broken : Bool
  pub accepted : Option ℕ
  pub input : Received
  pub stale : Bytes
  pub can_send : ℤ → Bytes → Bool

abbrev pub response_size : ℕ
response_size = 1024

-- The bytes that `send_response` hands to `send`. What the array on the stack held does not matter,
-- so it is taken to be zero.
unfoldable pub response_bytes : ℤ → ℕ → Bytes → Bytes → Run Bytes
response_bytes m_id player code message = elim (create_message_json m_id player code message) [
  | fault ↦ fault
  | ok payload ↦
      elim (create_frame 1 0 0 0 1 (length payload) payload (replicate response_size 0)) [
        | fault ↦ fault
        | ok (buffer, len) ↦ ok (take len buffer)
      ]
]

unfoldable pub send_response : Kernel → ℤ → ℤ → ℕ → Bytes → Bytes → M Bool
send_response k to m_id player code message = do
  bytes ← lift (response_bytes m_id player code message)
  transmit (k.can_send to bytes) to bytes

-- `epoll_ctl` and `close` concern the kernel alone.
unfoldable pub close_connection : ℕ → M (Unit {0})
close_connection c = free_client c

-- The opponent of `fd`, if there is one, is told that it has won.
unfoldable pub tell_opponent : Kernel → Match → ℤ → M (Unit {0})
tell_opponent k m opponent = if int_eq opponent no_fd then skip else (do
  sent ←
      send_response k opponent (pos m.match_id) (if int_eq m.player_x opponent then b'X' else b'O')
        (codes "GAME_OVER") (codes "Opponent disconnected. You win!")
  skip)

-- The body under `players == 2`.
unfoldable pub close_full_match : Kernel → ℕ → Match → ℤ → M (Unit {0})
close_full_match k p m fd = do
  store_match p (record m { players = m.players - 1 })
  tell_opponent k m (if int_eq m.player_x fd then m.player_o else m.player_x)
  set_matches m.match_id none
  free_match p

unfoldable pub send_peer_close_response_to_another_peer : Kernel → ℕ → ℤ → M (Unit {0})
send_peer_close_response_to_another_peer k p fd = do
  m ← load_match p
  if m.players == 2 then close_full_match k p m fd else skip

unfoldable pub create_match_request : Kernel → ℕ → ℤ → M (Unit {0})
create_match_request k c fd = do
  id ← next_match_id
  let new = create_match fd no_fd id
  p ← new_match new
  r ← load_client c
  store_client c (record r { current_match = some p })
  set_matches new.match_id (some p)
  m ← load_match p
  store_match p (record m { players = m.players + 1 })
  sent ← send_response k fd (pos new.match_id) b'X' (codes "MATCH_CREATED") (codes " ")
  skip

-- The test that admits a second player.
abbrev pub joinable : Match → Bool
joinable m = not (int_eq m.player_x no_fd) && (int_eq m.player_o no_fd && not (m.players == 2))

-- The index of a table entry; a negative one is outside the table.
abbrev pub index_of : ℤ → Run ℕ
index_of (pos i) = ok i
index_of (negsuc i) = fault

-- The two INIT_BOARD messages, each sent if the one before went out.
unfoldable pub init_boards : Kernel → Match → M (Unit {0})
init_boards k m = do
  x ← send_response k m.player_x (pos 0) b'X' (codes "INIT_BOARD") (codes " ")
  let second : M (Unit {0}) = (do
    o ← send_response k m.player_o (pos 0) b'O' (codes "INIT_BOARD") (codes " ")
    skip)
  if x then second else skip

unfoldable pub join_found : Kernel → ℕ → ℤ → ℕ → Match → M (Unit {0})
join_found k c fd p m = do
  let joined = record m { player_o = fd; players = m.players + 1 }
  store_match p joined
  r ← load_client c
  store_client c (record r { current_match = some p })
  told ← send_response k fd (pos m.match_id) b'O' (codes "MATCH_JOINED") (codes " ")
  if told then init_boards k joined else skip

unfoldable pub join_failed : Kernel → ℤ → M (Unit {0})
join_failed k fd = do
  sent ← send_response k fd (pos 0) b'O' (codes "MATCH_JOIN_FAILED") (codes " ")
  skip

unfoldable pub join_match_request : Kernel → ℕ → ℤ → Message → M (Unit {0})
join_match_request k c fd msg = do
  number ← lift (atoi msg.message)
  idx ← lift (index_of number)
  entry ← matches_at idx
  elim entry [
    | none ↦ join_failed k fd
    | some p ↦ do m ← load_match p; if joinable m then join_found k c fd p m else join_failed k fd
  ]

-- The second half: the message to O, and the end of the match.
unfoldable pub finish_second : Kernel → ℕ → Match → ℤ → Bytes → M (Unit {0})
finish_second k p m id text = do
  o ← send_response k m.player_o id b'O' (codes "GAME_OVER") text
  let free : M (Unit {0}) = (do set_matches m.match_id none; free_match p)
  if o then free else skip

-- Both players are told that the game is over, and the match is freed if both messages went out.
unfoldable pub finish_match : Kernel → ℕ → Match → ℤ → Bytes → M (Unit {0})
finish_match k p m id text = do
  x ← send_response k m.player_x id b'X' (codes "GAME_OVER") text
  if x then finish_second k p m id text else skip

-- `message[k] - '0'` as an index of the board, or outside it.
abbrev pub board_index : Bytes → ℕ → Run ℕ
board_index message k =
    let c = get_or message k 0 in if leb 48 c && ltb c 51 then ok (c - 48) else fault

-- What follows from the result of `evaluate_board`.
unfoldable pub conclude : Kernel → ℕ → Match → ℤ → ℕ → M (Unit {0})
conclude k p m id res =
    if not (res == b'*')
    then finish_match k p m id (codes "Player " ++ (res ∷ codes " Won!!"))
    else if m.moves == 9
    then finish_match k p m id (codes "Match Draw")
    else skip

-- The part of MOVE behind the relay: the cell, the count, and the end of the game; `id` is
-- `atoi(recvmessage->matchid)`, as for the relay.
unfoldable pub play : Kernel → ℕ → Match → ℤ → Message → M (Unit {0})
play k p m id msg = do
  i ← lift (board_index msg.message 0)
  j ← lift (board_index msg.message 1)
  let played = record m { board = set_cell m.board i j msg.player; moves = m.moves + 1 }
  store_match p played
  conclude k p played id (evaluate_board played.board)

-- `c->currentMatch` is used without a test.
unfoldable pub move_request : Kernel → ℕ → Message → M (Unit {0})
move_request k c msg = do
  r ← load_client c
  elim r.current_match [
    | none ↦ crash
    | some p ↦ do
      m ← load_match p
      id ← lift (atoi msg.matchid)
      relayed ←
          send_response k (if msg.player == b'X' then m.player_o else m.player_x) id msg.player
            msg.code msg.message
      if relayed then play k p m id msg else skip
  ]

-- Any other code is ignored.
unfoldable pub dispatch : Kernel → ℕ → ℤ → Message → M (Unit {0})
dispatch k c fd msg =
    if str_eq (codes "CREATE_MATCH") msg.code
    then create_match_request k c fd
    else if str_eq (codes "JOIN_MATCH") msg.code
    then join_match_request k c fd msg
    else if str_eq (codes "MOVE") msg.code
    then move_request k c msg
    else skip

-- The match of a client that closes.
unfoldable pub leave_match : Kernel → ℕ → Client → ℤ → M (Unit {0})
leave_match k c r fd = elim r.current_match [
  | none ↦ skip
  | some p ↦ do
    send_peer_close_response_to_another_peer k p fd
    store_client c (record r { current_match = none })
]

-- Opcode 8.
unfoldable pub close_frame : Kernel → ℕ → ℤ → M (Unit {0})
close_frame k c fd = do r ← load_client c; leave_match k c r fd; close_connection c

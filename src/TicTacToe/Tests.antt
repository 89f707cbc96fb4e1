-- ===== src/TicTacToe/Tests.antt =====
-- Runs of the game server, and its theorems at concrete inputs.
use intern_status_update.Base.{
  ℕ, ◌≡◌, refl, [], ◌∷◌, ◌++◌, List, Bytes, true, false, Option, none, some, ok, fault, codes,
  length, replicate, take, arith, if◌then◌else◌, ◌==◌, get_or, store, store_all, take_exact, str_eq,
  inl, ◌<◌, ◌≤◌, ◌≢◌, ◌&&◌, get_elem?, live,
}
use intern_status_update.Base.Int.{ℤ, pos, no_fd}
use intern_status_update.TicTacToe.Message.{
  create_message_json, field_value, message_text, parse_json_string, seek, until_quote, Message,
}
use intern_status_update.Libc.{
  strstr, starts_at, cstr, print_int, digits_of, atoi, read_digits, signed, skip_space, is_digit,
}
use intern_status_update.Frame.{
  append_payload, create_frame, extended_length, first_byte, masked_payload, parse_frame,
  payload_length, short_length, unmask, Frame,
}
use intern_status_update.TicTacToe.Server.Join.{JoinEffect, join_match_request-JoinEffect}
use intern_status_update.TicTacToe.Server.Create.{with_match, create_match_request-effect}
use intern_status_update.TicTacToe.Server.GameOver.{moved, move_request_game_over}
use intern_status_update.TicTacToe.Server.Response.{response_bytes-delivered}
use intern_status_update.TicTacToe.Board.{
  Match, Board, set_cell, find_line, evaluate_board, create_match,
}
use intern_status_update.TicTacToe.Board.Lines.{Verdict, evaluate_board-Verdict}
use intern_status_update.TicTacToe.State.{
  Client, Server, create_client, load_client, new_client, transmit, store_client, load_match,
  new_match, next_match_id, set_matches, store_match, matches_at, free_match, max_matches,
}
use intern_status_update.TicTacToe.State.Tidy.{Inv}
use intern_status_update.TicTacToe.Server.{
  Kernel, Received, received, closed, create_match_request, dispatch, response_bytes, send_response,
  join_match_request, join_found, join_failed, init_boards, move_request, play, conclude,
  finish_match, finish_second, close_frame,
}
use intern_status_update.TicTacToe.Loop.{
  OpenSsl, handle_event, run, start, attend, accept_client, handshake_request, request_text,
  client_key_of, send_handshake, create_accept_key, client_frame,
}
use intern_status_update.TicTacToe.Loop.Invariant.{run-start-Inv}

-- X on the middle row.
abbrev middle_row : Board
middle_row i j = if i == 1 then b'X' else if j == 1 then b'O' else b' '

evaluate_board-middle_row : evaluate_board middle_row ≡ b'X'
unfolding evaluate_board find_line
evaluate_board-middle_row = refl

evaluate_board-Verdict_example : Verdict middle_row (evaluate_board middle_row)
evaluate_board-Verdict_example = evaluate_board-Verdict middle_row

abbrev test_ssl : OpenSsl
test_ssl = record { sha1 = λ t. take 20 t; encode_block = λ t. codes "KEY" }

-- An event of the kernel that is no error, with everything sent.
abbrev event : Option ℕ → Received → Kernel
event accepted input = record {
  broken = false;
  accepted = accepted;
  input = input;
  stale = [];
  can_send = λ to bytes. true;
}

abbrev text_frame : Bytes → Bytes
text_frame text = 129 ∷ length text ∷ text

abbrev upgrade : Bytes
upgrade = codes "GET / HTTP/1.1\r\nUpgrade: websocket\r\nSec-WebSocket-Key: abc\r\n\r\n"

abbrev create_text : Bytes
create_text =
    codes "{\"matchid\":\"0\",\"player\":\"X\",\"code\":\"CREATE_MATCH\",\"message\":\" \"}"

-- A client connects, shakes hands and creates a match.
abbrev one_match : List (Kernel × ℕ)
one_match =
    (event (some 5) closed, 0)
    ∷ (event none (received upgrade), 1)
    ∷ (event none (received (text_frame create_text)), 1)
    ∷ []

abbrev first_match : Match
first_match = record {
  match_id = 0;
  player_x = pos 5;
  player_o = no_fd;
  board = λ i j. b' ';
  moves = 0;
  players = 1;
}

-- What the server has sent, the last first: the MATCH_CREATED response, and the handshake.
abbrev sent_so_far : List (ℤ × Bytes)
sent_so_far =
    (
      pos 5,
      text_frame (
          codes
            "{\"matchid\":\"0\",\"player\":\"X\",\"code\":\"MATCH_CREATED\",\"message\":\" \"}"),
    )
    ∷ (
      pos 5,
      codes "HTTP/1.1 101 Switching Protocols\r\nUpgrade: websocket\r\nConnection: Upgrade\r\n"
          ++ codes "Sec-WebSocket-Accept: KEY\r\n\r\n",
    )
    ∷ []

abbrev after_one : Server
after_one = record {
  match_id = 1;
  matches = some 0 ∷ replicate 999 none;
  match_heap = some first_match ∷ [];
  client_heap =
      some (create_client (pos 3) none)
      ∷ some (record (create_client (pos 5) (some 0)) { handshake = true })
      ∷ [];
  sent = sent_so_far;
}

one_match-runs : run test_ssl (pos 3) one_match (start (pos 3)) ≡ ok (tt, after_one)
unfolding load_client start attend create_client accept_client new_client handshake_request
    request_text client_key_of send_handshake create_accept_key transmit store_client client_frame
    create_match create_message_json field_value message_text parse_json_string seek until_quote
    create_match_request dispatch response_bytes send_response load_match new_match next_match_id
    set_matches store_match matches_at join_match_request join_found join_failed init_boards
    move_request play conclude finish_match finish_second free_match set_cell find_line
    evaluate_board run handle_event strstr starts_at cstr print_int digits_of atoi read_digits
    signed skip_space is_digit take get_or replicate store store_all take_exact str_eq
    append_payload create_frame extended_length first_byte masked_payload parse_frame payload_length
    short_length unmask
one_match-runs = refl

run-start-Inv_example : Inv after_one
run-start-Inv_example = run-start-Inv test_ssl (pos 3) one_match after_one one_match-runs

abbrev seven : Client
seven = record (create_client (pos 7) none) { handshake = true }

-- A second client has shaken hands.
abbrev two_clients : Server
two_clients = record after_one { client_heap = after_one.client_heap ++ some seven ∷ [] }

abbrev message_of : Bytes → Bytes → Message
message_of code text = record { matchid = codes "0"; player = b'X'; code = code; message = text }

create_match_request-effect_example :
    (1 < max_matches
      → (log : List (ℤ × Bytes)) × (create_match_request (event none closed) 2 (pos 7) two_clients
          ≡ ok (tt, with_match two_clients 2 seven (pos 7) log)))
    × (max_matches ≤ 1 → create_match_request (event none closed) 2 (pos 7) two_clients ≡ fault)
create_match_request-effect_example =
    create_match_request-effect (event none closed) 2 (pos 7) two_clients seven
      run-start-Inv_example.width refl

join_zero : atoi (codes "0") ≡ ok (pos 0)
unfolding atoi skip_space signed read_digits is_digit
join_zero = refl

join_match_request-JoinEffect_example :
    (t : Server) × (join_match_request
        (event none closed)
        2
        (pos 7)
        (message_of (codes "JOIN_MATCH") (codes "0"))
        two_clients
      ≡ ok (tt, t))
    × (t.matches ≡ two_clients.matches)
    × JoinEffect two_clients t 2 seven (pos 7) 0
join_match_request-JoinEffect_example =
    join_match_request-JoinEffect (event none closed) 2 (pos 7)
      (message_of (codes "JOIN_MATCH") (codes "0")) 0 two_clients seven run-start-Inv_example refl
      join_zero (omega arith)

-- X needs the last cell of the first row.
abbrev near_win : Match
near_win = record first_match {
  player_o = pos 7;
  board = λ i j.
      if i == 0 && j == 2 then b' ' else if i == 0 then b'X' else if i == 1 then b'O' else b' ';
  moves = 5;
  players = 2;
}

abbrev five : Client
five = record (create_client (pos 5) (some 0)) { handshake = true }

abbrev last_move : Server
last_move = record two_clients {
  match_heap = some near_win ∷ [];
  client_heap =
      some (create_client (pos 3) none)
      ∷ some five
      ∷ some (record seven { current_match = some 0 })
      ∷ [];
}

abbrev winning : Message
winning = message_of (codes "MOVE") (codes "02")

move_wins : evaluate_board (moved near_win winning 0 2).board ≢ b'*'
unfolding evaluate_board find_line set_cell
move_wins = omega arith

move_request_game_over_example :
    (t : Server) × (move_request (event none closed) 1 winning last_move ≡ ok (tt, t))
    × (get_elem? t.matches 0 ≡ some none)
    × (live t.match_heap 0 ≡ none)
    × (t.client_heap ≡ last_move.client_heap)
    × ((k : Kernel) (d : ℕ) (q : Client) (msg : Message) (fd : ℤ)
        → live last_move.client_heap d ≡ some q
        → q.current_match ≡ some 0
        → (move_request k d msg t ≡ fault) × (close_frame k d fd t ≡ fault))
unfolding create_client get_or
move_request_game_over_example =
    move_request_game_over (event none closed) 1 winning last_move five 0 near_win (pos 0) 0 2
      (λ to bytes. refl) refl refl refl (omega (arith, run-start-Inv_example.width)) join_zero
      (omega arith) (omega arith) refl refl (inl move_wins)

response_bytes-delivered_example :
    (bytes : Bytes) × (f : Frame) × (response_bytes (pos 12) b'X' (codes "MOVE") (codes "01")
      ≡ ok bytes)
    × (parse_frame (bytes ++ 7 ∷ []) ≡ ok f)
    × (f.opcode ≡ 1)
    × (parse_json_string f.payload_data
        ≡ ok (record {
          matchid = print_int (pos 12);
          player = b'X';
          code = codes "MOVE";
          message = codes "01";
        }))
response_bytes-delivered_example =
    response_bytes-delivered (pos 12) b'X' (codes "MOVE") (codes "01") (7 ∷ []) (omega arith)
      (omega arith) (omega arith) (omega arith) (omega arith)

-- ===== src/Chat/Tests.antt =====
-- Runs of the chat server, and its theorems at concrete inputs.
use intern_status_update.Chat.Server.Loop.Order.{run-start-IsOrdered}
use intern_status_update.Chat.Server.Loop.{
  Kernel, run, start, handle_batch, handle_all, handle_event, attend, accept_client, welcome,
  handshake_text, request_bytes,
}
use intern_status_update.TicTacToe.Loop.{OpenSsl, create_accept_key, client_key_of}
use intern_status_update.Base.{
  ℕ, ◌+◌, ◌≤◌, ◌≡◌, refl, [], ◌∷◌, ◌++◌, Bytes, none, some, ok, fault, codes, length, if◌then◌else◌,
  str_eq, arith, get_or, set, replicate, take_exact, store, store_all, live, List, false, take,
}
use intern_status_update.Base.Int.{pos}
use intern_status_update.Libc.{strstr, starts_at, cstr}
use intern_status_update.Frame.{
  parse_frame, payload_length, masked_payload, unmask, extended_length,
}
use intern_status_update.HashMap.{
  hash, hash_loop, widen, put, put_chain, get, get_chain, init_table, is_available, available_chain,
}
use intern_status_update.HashMap.Correct.{init_table-IsTable, get-init_table}
use intern_status_update.TicTacToe.Message.{seek, until_quote}
use intern_status_update.TicTacToe.Server.{Received, received}
use intern_status_update.Chat.Message.{Message, quoted, parse_json_string, broadcast_text}
use intern_status_update.Chat.Message.Inside.{broadcast_text_fits}
use intern_status_update.Chat.Message.RoundTrip.{message_of, parse_json_string-broadcast_text}
use intern_status_update.Chat.Server.{
  Server, create_client, store_client, free_client, enter, register, chat_message, client_event,
}
use intern_status_update.Chat.Server.Owners.{Inv}
use intern_status_update.Chat.Server.Invariant.{client_event-Inv}
use intern_status_update.Chat.Server.Register.{named, register-effect}

abbrev hello : Message
hello = message_of (codes "ann") (codes "broadcast") (codes "hello")

abbrev hello_text : Bytes
hello_text = codes "{\"from\":\"ann\",\"to\":\"broadcast\",\"msg\":\"hello\"}"

parse-hello : parse_json_string hello_text ≡ ok hello
unfolding parse_json_string quoted seek strstr starts_at until_quote cstr
parse-hello = refl

broadcast_text_fits_example : length (broadcast_text hello) + 1 ≤ length hello_text + 20
broadcast_text_fits_example = broadcast_text_fits hello_text hello parse-hello

parse_json_string-broadcast_text_example :
    parse_json_string (broadcast_text hello ++ 0 ∷ [])
    ≡ ok (message_of (codes "BroadCast from " ++ codes "ann") (codes "broadcast") (codes "hello"))
parse_json_string-broadcast_text_example =
    parse_json_string-broadcast_text hello (0 ∷ []) (omega arith) (omega arith) (omega arith)

-- Two connections without a name.
abbrev two_strangers : Server
two_strangers = record {
  table = init_table;
  clients = some (create_client (pos 5)) ∷ some (create_client (pos 6)) ∷ [];
  sent = [];
}

two_strangers-Inv : Inv two_strangers
two_strangers-Inv = record {
  table = init_table-IsTable;
  owner = λ key p listed. cc (rw get-init_table at listed);
}

abbrev ann_text : Bytes
ann_text = codes "{\"from\":\"client\",\"to\":\"server\",\"msg\":\"ann\"}"

abbrev ann_message : Message
ann_message = message_of (codes "client") (codes "server") (codes "ann")

-- The first one is ann.
abbrev with_ann : Server
with_ann = record {
  table = (put (codes "ann") 0 init_table).0;
  clients = some (named (create_client (pos 5)) ann_message) ∷ some (create_client (pos 6)) ∷ [];
  sent = [];
}

register-ann :
    client_event 0 (received (129 ∷ length ann_text ∷ ann_text)) [] two_strangers ≡ ok with_ann
unfolding client_event chat_message register enter store_client free_client is_available
    available_chain parse_frame payload_length masked_payload take_exact parse_json_string quoted
    seek strstr starts_at until_quote create_client str_eq cstr get_or init_table replicate hash
    hash_loop widen put put_chain get get_chain set unmask extended_length store store_all
register-ann = refl

with_ann-Inv : Inv with_ann
with_ann-Inv =
    client_event-Inv 0 (received (129 ∷ length ann_text ∷ ann_text)) [] two_strangers with_ann
      two_strangers-Inv register-ann

register-effect_example :
    (get (codes "ann") with_ann.table ≡ none
      → (t : Server) × (register 1 (create_client (pos 6)) ann_message with_ann ≡ ok t)
        × (live t.clients 1 ≡ some (named (create_client (pos 6)) ann_message))
        × ((q : Bytes)
            → get q t.table ≡ (if str_eq (codes "ann") q then some 1 else get q with_ann.table)))
    × ((p : ℕ)
        → get (codes "ann") with_ann.table ≡ some p
        → (t : Server) × (register 1 (create_client (pos 6)) ann_message with_ann ≡ ok t)
          × (get (codes "ann") t.table ≡ none)
          × ((input : Received) (stale : Bytes) → client_event p input stale t ≡ fault))
unfolding create_client
register-effect_example =
    register-effect 1 (create_client (pos 6)) ann_message with_ann with_ann-Inv refl refl

abbrev test_ssl : OpenSsl
test_ssl = record { sha1 = λ t. t; encode_block = λ t. codes "KEY" }

-- An event with these bytes.
abbrev gets : Bytes → Kernel
gets bytes = record { broken = false; accepted = some 5; input = received bytes; stale = 0 ∷ [] }

abbrev welcome_text : Bytes
welcome_text =
    codes
      "HTTP/1.1 101 Switching Protocols\r\nUpgrade: websocket\r\nConnection: Upgrade\r\nSec-WebSocket-Accept: KEY\r\n\r\n"

-- A connection is accepted, and its client takes the name ann.
abbrev ann_joins : List (List (Kernel × ℕ))
ann_joins =
    ((gets (codes "Sec-WebSocket-Key: k\r\n"), 0) ∷ [])
    ∷ ((gets (129 ∷ length ann_text ∷ ann_text), 1) ∷ [])
    ∷ []

abbrev ann_joined : Server
ann_joined = record {
  table = (put (codes "ann") 1 init_table).0;
  clients = some (create_client (pos 3)) ∷ some (named (create_client (pos 5)) ann_message) ∷ [];
  sent = (pos 5, welcome_text) ∷ [];
}

ann_joins-runs : run test_ssl (pos 3) ann_joins (start (pos 3)) ≡ ok ann_joined
unfolding run handle_batch handle_all handle_event start attend create_client accept_client
    client_key_of strstr request_bytes welcome handshake_text create_accept_key take cstr
    client_event parse_frame get_or replicate take_exact str_eq parse_json_string quoted
    chat_message enter free_client register store_client extended_length masked_payload
    payload_length unmask available_chain get get_chain hash hash_loop init_table is_available put
    put_chain widen starts_at seek until_quote
ann_joins-runs = refl

run-start-IsOrdered_example : Inv ann_joined
run-start-IsOrdered_example =
    run-start-IsOrdered test_ssl (pos 3) ann_joins ann_joined ann_joins-runs

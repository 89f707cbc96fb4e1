-- ===== src/TicTacToe/Loop/Invariant.antt =====
-- The table of matches never names a freed match, whatever the clients and the kernel do.
use intern_status_update.Base.{
  ℕ, zero, suc, ◌≡◌, [], ◌∷◌, ◌++◌, List, Bytes, Bool, true, false, ◌&&◌, Option, none, some, ok,
  if◌then◌else◌, ◌==◌, codes, get_elem?, replicate, length-replicate,
}
use intern_status_update.Base.Int.{ℤ, pos, int_eq}
use intern_status_update.Libc.{strstr}
use intern_status_update.Frame.{parse_frame}
use intern_status_update.TicTacToe.Message.{parse_json_string}
use intern_status_update.TicTacToe.State.{
  Client, Server, ◌>>◌, crash, lift, skip, load_client, store_client, new_client, create_client,
  transmit, max_matches,
}
use intern_status_update.TicTacToe.State.Laws.{
  Calm, bind-Calm, bind-Triple, lift-Calm, transmit-Calm, load_client-Calm, store_client-Calm,
  free_client-Calm, new_client-Calm,
}
use intern_status_update.TicTacToe.State.Tidy.{Inv}
use intern_status_update.TicTacToe.State.Owned.{Keeps, Calm-Keeps, Calm-then_Keeps}
use intern_status_update.TicTacToe.Server.{
  Kernel, Received, received, closed, failed, close_connection,
  send_peer_close_response_to_another_peer, leave_match, close_frame,
}
use intern_status_update.TicTacToe.Loop.{
  OpenSsl, client_frame, create_accept_key, send_handshake, refuse_client, client_key_of,
  request_text, found, handshake_request, accept_client, attend, handle_event, run, start,
}
use intern_status_update.TicTacToe.Server.Safety.{
  if-Keeps, if-Calm, skip-Calm, crash-Calm, dispatch-Keeps, send_peer_close-Keeps,
}

leave_match-Keeps : (k : Kernel) (c : ℕ) (r : Client) (fd : ℤ) → Keeps Inv (leave_match k c r fd)
unfolding leave_match
leave_match-Keeps k c r fd = leave (r.current_match)
  where
    leave :
        (current : Option ℕ)
        → Keeps {A = Unit {0}} Inv (elim current [
          | none ↦ skip
          | some p ↦ do
            send_peer_close_response_to_another_peer k p fd
            store_client c (record r { current_match = none })
        ])
    leave none = Calm-Keeps skip skip-Calm
    leave (some p) =
        bind-Triple (λ _ s. Inv s) (send_peer_close_response_to_another_peer k p fd) _
          (send_peer_close-Keeps k p fd)
          (λ _.
            Calm-Keeps (store_client c (record r { current_match = none })) (store_client-Calm c _))

close_connection-Calm : (c : ℕ) → Calm (close_connection c)
unfolding close_connection
close_connection-Calm c = free_client-Calm c

close_frame-Keeps : (k : Kernel) (c : ℕ) (fd : ℤ) → Keeps Inv (close_frame k c fd)
unfolding close_frame
close_frame-Keeps k c fd = Calm-then_Keeps (load_client c) _ (load_client-Calm c) λ r.
    bind-Triple (λ _ s. Inv s) (leave_match k c r fd) _ (leave_match-Keeps k c r fd)
      (λ _. Calm-Keeps (close_connection c) (close_connection-Calm c))

client_frame-Keeps :
    (k : Kernel) (c : ℕ) (fd : ℤ) (input : Received) → Keeps Inv (client_frame k c fd input)
unfolding client_frame
client_frame-Keeps k c fd (received bytes) =
    Calm-then_Keeps (lift (parse_frame (bytes ++ k.stale))) _ (lift-Calm _) λ f.
      if-Keeps {P = Inv} (f.opcode == 8) _ _ (close_frame-Keeps k c fd) (
        Calm-then_Keeps (lift (parse_json_string f.payload_data)) _ (lift-Calm _)
          (dispatch-Keeps k c fd))
client_frame-Keeps k c fd closed = Calm-Keeps (close_connection c) (close_connection-Calm c)
client_frame-Keeps k c fd failed = Calm-Keeps (close_connection c) (close_connection-Calm c)

transmit_if-Calm :
    (b accepted : Bool) (to : ℤ) (bytes : Bytes)
    → Calm (if b then transmit accepted to bytes else crash)
transmit_if-Calm true accepted to bytes = transmit-Calm accepted to bytes
transmit_if-Calm false accepted to bytes = crash-Calm

send_handshake-Calm :
    (ssl : OpenSsl) (k : Kernel) (fd : ℤ) (key : Bytes) → Calm (send_handshake ssl k fd key)
unfolding send_handshake
send_handshake-Calm ssl k fd key =
    bind-Calm (lift (create_accept_key ssl key)) _ (lift-Calm _)
      λ accept_key. bind-Calm _ _ (transmit_if-Calm _ _ fd _) (λ _. skip-Calm)

handshake_request-Calm :
    (ssl : OpenSsl) (k : Kernel) (c : ℕ) (r : Client) → Calm (handshake_request ssl k c r)
unfolding handshake_request refuse_client
handshake_request-Calm ssl k c r = bind-Calm (lift (request_text k.input)) _ (lift-Calm _) λ req.
    bind-Calm (lift (strstr req (codes "Upgrade: websocket"))) _ (lift-Calm _) λ upgrade.
      bind-Calm (lift (strstr req (codes "Sec-WebSocket-Key"))) _ (lift-Calm _) λ header.
        bind-Calm (lift (client_key_of req)) _ (lift-Calm _) λ key.
          if-Calm (found upgrade && found header) _ _ (accepted key)
            (bind-Calm _ _ (transmit-Calm _ _ _) (λ _. close_connection-Calm c))
  where
    accepted :
        (key : Option Bytes)
        → Calm {A = Unit {0}} (elim key [
          | none ↦ skip
          | some client_key ↦ do
            send_handshake ssl k r.fd client_key
            store_client c (record r { handshake = true })
        ])
    accepted none = skip-Calm
    accepted (some client_key) =
        bind-Calm (send_handshake ssl k r.fd client_key) _
          (send_handshake-Calm ssl k r.fd client_key) (λ _. store_client-Calm c _)

accept_client-Calm : (fd : Option ℕ) → Calm (accept_client fd)
unfolding accept_client
accept_client-Calm none = skip-Calm
accept_client-Calm (some fd) =
    bind-Calm (new_client (create_client (pos fd) none)) _ (new_client-Calm _) (λ _. skip-Calm)

handle_event-Keeps :
    (ssl : OpenSsl) (listen_fd : ℤ) (k : Kernel) (c : ℕ)
    → Keeps Inv (handle_event ssl listen_fd k c)
unfolding handle_event attend
handle_event-Keeps ssl listen_fd k c = Calm-then_Keeps (load_client c) _ (load_client-Calm c) λ r.
    if-Keeps {P = Inv} k.broken _ _ (Calm-Keeps (close_connection c) (close_connection-Calm c)) (
      if-Keeps {P = Inv} (int_eq r.fd listen_fd) _ _
        (Calm-Keeps (accept_client k.accepted) (accept_client-Calm k.accepted))
        (if-Keeps {P = Inv} r.handshake _ _ (client_frame-Keeps k c r.fd k.input)
          (Calm-Keeps (handshake_request ssl k c r) (handshake_request-Calm ssl k c r))))

run-Keeps :
    (ssl : OpenSsl) (listen_fd : ℤ) (events : List (Kernel × ℕ))
    → Keeps Inv (run ssl listen_fd events)
unfolding run
run-Keeps ssl listen_fd [] = Calm-Keeps skip skip-Calm
run-Keeps ssl listen_fd ((k, c) ∷ events) =
    bind-Triple (λ _ s. Inv s) (handle_event ssl listen_fd k c) _
      (handle_event-Keeps ssl listen_fd k c) (λ _. run-Keeps ssl listen_fd events)

empty_table : (n i p : ℕ) → get_elem? (replicate n none) i ≡ some (some p) → ⊥
unfolding replicate
empty_table zero i p h = cc
empty_table (suc n) zero p h = cc
empty_table (suc n) (suc i) p h = empty_table n i p h

start-Inv : (listen_fd : ℤ) → Inv (start listen_fd)
unfolding start
start-Inv listen_fd = record {
  width = length-replicate max_matches none;
  entry = λ i p h. absurd (empty_table max_matches i p h);
  fresh = λ p m h. cc;
}

-- From the start of the server, after any sequence of events that is handled without a fault, with
-- any answers of the kernel: the table has 1000 entries, each that is not empty points to a match
-- that has not been freed and whose id is its place, and every live match has an id that was given
-- out.
pub run-start-Inv :
    (ssl : OpenSsl) (listen_fd : ℤ) (events : List (Kernel × ℕ)) (s : Server)
    → run ssl listen_fd events (start listen_fd) ≡ ok (tt, s)
    → Inv s
run-start-Inv ssl listen_fd events s h =
    run-Keeps ssl listen_fd events (start listen_fd) (start-Inv listen_fd) tt s h

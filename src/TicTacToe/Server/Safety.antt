-- ===== src/TicTacToe/Server/Safety.antt =====
-- The handlers of the three requests keep the invariant of the table of matches.
use intern_status_update.Base.{
  ℕ, ◌+◌, ◌-◌, refl, subst, Bytes, Bool, true, false, not, Option, none, some, if◌then◌else◌, ◌==◌,
  codes, str_eq,
}
use intern_status_update.Base.Int.{ℤ, pos, int_eq, no_fd}
use intern_status_update.Libc.{atoi}
use intern_status_update.TicTacToe.Message.{Message}
use intern_status_update.TicTacToe.Board.{Match, create_match, set_cell, evaluate_board}
use intern_status_update.TicTacToe.State.{
  Server, M, ◌>>=◌, crash, lift, skip, load_match, store_match, matches_at, set_matches,
  load_client, store_client, transmit,
}
use intern_status_update.TicTacToe.State.Laws.{
  Same, Same-refl, Calm, bind-Calm, bind-Triple, return-Calm, lift-Calm, transmit-Calm,
  load_client-Calm, store_client-Calm, matches_at-eq-ok,
}
use intern_status_update.TicTacToe.State.Tidy.{Inv}
use intern_status_update.TicTacToe.State.Owned.{
  Owned, Keeps, Calm-Keeps, Owned-Keeps, Calm-then_Owned, Calm-then_Keeps, load_then_Keeps,
  store_match-Owned, remove-Keeps, list-Owned, create_then_Keeps,
}
use intern_status_update.TicTacToe.Server.{
  Kernel, response_bytes, send_response, tell_opponent, close_full_match,
  send_peer_close_response_to_another_peer, create_match_request, joinable, index_of, init_boards,
  join_found, join_failed, join_match_request, finish_second, finish_match, board_index, conclude,
  play, move_request, dispatch,
}

-- A branch keeps what both sides keep.
pub if-Keeps :
    {P : Server → Type 0} (b : Bool) (m n : M (Unit {0}))
    → Keeps P m
    → Keeps P n
    → Keeps P (if b then m else n)
if-Keeps true m n h k = h
if-Keeps false m n h k = k

pub if-Calm : (b : Bool) (m n : M (Unit {0})) → Calm m → Calm n → Calm (if b then m else n)
if-Calm true m n h k = h
if-Calm false m n h k = k

pub skip-Calm : Calm skip
skip-Calm = return-Calm tt

pub crash-Calm : {A : Type 0} → Calm {A = A} crash
crash-Calm s a t h = cc

send_response-Calm :
    (k : Kernel) (to m_id : ℤ) (player : ℕ) (code message : Bytes)
    → Calm (send_response k to m_id player code message)
unfolding send_response
send_response-Calm k to m_id player code message =
    bind-Calm (lift (response_bytes m_id player code message))
      (λ bytes. transmit (k.can_send to bytes) to bytes) (lift-Calm _)
      (λ bytes. transmit-Calm _ to bytes)

send_skip-Calm :
    (k : Kernel) (to m_id : ℤ) (player : ℕ) (code message : Bytes)
    → Calm (send_response k to m_id player code message >>= λ _. skip)
send_skip-Calm k to m_id player code message =
    bind-Calm (send_response k to m_id player code message) (λ _. skip)
      (send_response-Calm k to m_id player code message) (λ _. skip-Calm)

tell_opponent-Calm : (k : Kernel) (m : Match) (fd : ℤ) → Calm (tell_opponent k m fd)
unfolding tell_opponent
tell_opponent-Calm k m fd = if-Calm (int_eq fd no_fd) _ _ skip-Calm (send_skip-Calm k _ _ _ _ _)

close_full_match-Keeps :
    (k : Kernel) (p : ℕ) (m : Match) (fd : ℤ) → Keeps (Owned p m) (close_full_match k p m fd)
unfolding close_full_match
close_full_match-Keeps k p m fd =
    let m' = record m { players = m.players - 1 } in
    bind-Triple (λ _. Owned p m') (store_match p m') _ (store_match-Owned p m m' refl)
      (λ _.
        Calm-then_Owned p m' (tell_opponent k m _) _ (tell_opponent-Calm k m _)
          (λ _. remove-Keeps p m'))

pub send_peer_close-Keeps :
    (k : Kernel) (p : ℕ) (fd : ℤ) → Keeps Inv (send_peer_close_response_to_another_peer k p fd)
unfolding send_peer_close_response_to_another_peer
send_peer_close-Keeps k p fd = load_then_Keeps p _ (λ m.
    if-Keeps {P = Owned p m} (m.players == 2) _ _ (close_full_match-Keeps k p m fd)
      (Owned-Keeps p m skip skip-Calm))

create_match_request-Keeps : (k : Kernel) (c : ℕ) (fd : ℤ) → Keeps Inv (create_match_request k c fd)
unfolding create_match_request create_match
create_match_request-Keeps k c fd =
    create_then_Keeps (create_match fd no_fd) _ (λ i. refl)
      λ i p.
        let m = create_match fd no_fd i in
        Calm-then_Owned p m (load_client c) _ (load_client-Calm c) λ r.
          Calm-then_Owned p m (store_client c (record r { current_match = some p })) _
            (store_client-Calm c _)
            λ _.
              bind-Triple (λ _. Owned p m) (set_matches i (some p)) _ (list-Owned p m i refl)
                λ _ s o a t h.
                  load_then_Keeps p _
                    (λ n.
                      bind-Triple (λ _. Owned p (record n { players = n.players + 1 }))
                        (store_match p (record n { players = n.players + 1 })) _
                        (store_match-Owned p n _ refl)
                        (λ _. Owned-Keeps p _ _ (send_skip-Calm k fd (pos i) b'X' _ _)))
                    s o.tidy a t h

init_boards-Calm : (k : Kernel) (m : Match) → Calm (init_boards k m)
unfolding init_boards
init_boards-Calm k m =
    bind-Calm (send_response k m.player_x (pos 0) b'X' (codes "INIT_BOARD") (codes " ")) _
      (send_response-Calm k _ _ _ _ _)
      (λ x. if-Calm x _ _ (send_skip-Calm k m.player_o (pos 0) b'O' _ _) skip-Calm)

join_failed-Calm : (k : Kernel) (fd : ℤ) → Calm (join_failed k fd)
unfolding join_failed
join_failed-Calm k fd = send_skip-Calm k fd (pos 0) b'O' _ _

join_found-Keeps :
    (k : Kernel) (c : ℕ) (fd : ℤ) (p : ℕ) (m : Match) → Keeps (Owned p m) (join_found k c fd p m)
unfolding join_found
join_found-Keeps k c fd p m =
    let joined = record m { player_o = fd; players = m.players + 1 } in
    bind-Triple (λ _. Owned p joined) (store_match p joined) _ (store_match-Owned p m joined refl)
      λ _. Owned-Keeps p joined _ (
        bind-Calm (load_client c) _ (load_client-Calm c) λ r.
          bind-Calm (store_client c (record r { current_match = some p })) _ (store_client-Calm c _)
            λ _.
              bind-Calm
                (send_response k fd (pos m.match_id) b'O' (codes "MATCH_JOINED") (codes " ")) _
                (send_response-Calm k _ _ _ _ _)
                (λ told. if-Calm told _ _ (init_boards-Calm k joined) skip-Calm))

join_entry-Keeps :
    (k : Kernel) (c : ℕ) (fd : ℤ) (entry : Option ℕ)
    → Keeps Inv (elim entry [
      | none ↦ join_failed k fd
      | some p ↦ do m ← load_match p; if joinable m then join_found k c fd p m else join_failed k fd
    ])
join_entry-Keeps k c fd none = Calm-Keeps (join_failed k fd) (join_failed-Calm k fd)
join_entry-Keeps k c fd (some p) = load_then_Keeps p _ λ m.
    if-Keeps {P = Owned p m} (joinable m) _ _ (join_found-Keeps k c fd p m)
      (Owned-Keeps p m (join_failed k fd) (join_failed-Calm k fd))

matches_at-Calm : (i : ℕ) → Calm (matches_at i)
matches_at-Calm i s o t h =
    let (_, same) = matches_at-eq-ok i s o t h in subst (Same s) same (Same-refl s)

join_match_request-Keeps :
    (k : Kernel) (c : ℕ) (fd : ℤ) (msg : Message) → Keeps Inv (join_match_request k c fd msg)
unfolding join_match_request
join_match_request-Keeps k c fd msg =
    Calm-then_Keeps (lift (atoi msg.message)) _ (lift-Calm _) λ number.
      Calm-then_Keeps (lift (index_of number)) _ (lift-Calm _)
        λ idx. Calm-then_Keeps (matches_at idx) _ (matches_at-Calm idx) (join_entry-Keeps k c fd)

module _ (k : Kernel) (p : ℕ) (m : Match) (id : ℤ) where
  finish_second-Keeps : (text : Bytes) → Keeps (Owned p m) (finish_second k p m id text)
  unfolding finish_second
  finish_second-Keeps text =
      Calm-then_Owned p m (send_response k m.player_o id b'O' (codes "GAME_OVER") text) _
        (send_response-Calm k _ _ _ _ _)
        λ o. if-Keeps {P = Owned p m} o _ _ (remove-Keeps p m) (Owned-Keeps p m skip skip-Calm)

  finish_match-Keeps : (text : Bytes) → Keeps (Owned p m) (finish_match k p m id text)
  unfolding finish_match
  finish_match-Keeps text =
      Calm-then_Owned p m (send_response k m.player_x id b'X' (codes "GAME_OVER") text) _
        (send_response-Calm k _ _ _ _ _)
        λ x.
          if-Keeps {P = Owned p m} x _ _ (finish_second-Keeps text) (Owned-Keeps p m skip skip-Calm)

  conclude-Keeps : (res : ℕ) → Keeps (Owned p m) (conclude k p m id res)
  unfolding conclude
  conclude-Keeps res = if-Keeps {P = Owned p m} (not (res == b'*')) _ _ (finish_match-Keeps _) (
      if-Keeps {P = Owned p m} (m.moves == 9) _ _ (finish_match-Keeps _)
        (Owned-Keeps p m skip skip-Calm))

play-Keeps :
    (k : Kernel) (p : ℕ) (m : Match) (id : ℤ) (msg : Message)
    → Keeps (Owned p m) (play k p m id msg)
unfolding play
play-Keeps k p m id msg =
    Calm-then_Owned p m (lift (board_index msg.message 0)) _ (lift-Calm _) λ i.
      Calm-then_Owned p m (lift (board_index msg.message 1)) _ (lift-Calm _) λ j.
        let played = record m { board = set_cell m.board i j msg.player; moves = m.moves + 1 } in
        bind-Triple (λ _. Owned p played) (store_match p played) _
          (store_match-Owned p m played refl)
          (λ _. conclude-Keeps k p played id (evaluate_board played.board))

move_current-Keeps :
    (k : Kernel) (msg : Message) (current : Option ℕ)
    → Keeps {A = Unit {0}} Inv (elim current [
      | none ↦ crash
      | some p ↦ do
        m ← load_match p
        id ← lift (atoi msg.matchid)
        relayed ←
            send_response k
              (if msg.player == b'X' then m.player_o else m.player_x)
              id
              msg.player
              msg.code
              msg.message
        if relayed then play k p m id msg else skip
    ])
move_current-Keeps k msg none = Calm-Keeps crash crash-Calm
move_current-Keeps k msg (some p) = load_then_Keeps p _ λ m.
    Calm-then_Owned p m (lift (atoi msg.matchid)) _ (lift-Calm _) λ id.
      Calm-then_Owned p m (send_response k _ id msg.player msg.code msg.message) _
        (send_response-Calm k _ _ _ _ _)
        λ relayed.
          if-Keeps {P = Owned p m} relayed _ _ (play-Keeps k p m id msg)
            (Owned-Keeps p m skip skip-Calm)

move_request-Keeps : (k : Kernel) (c : ℕ) (msg : Message) → Keeps Inv (move_request k c msg)
unfolding move_request
move_request-Keeps k c msg =
    Calm-then_Keeps (load_client c) _ (load_client-Calm c)
      λ r. move_current-Keeps k msg r.current_match

pub dispatch-Keeps : (k : Kernel) (c : ℕ) (fd : ℤ) (msg : Message) → Keeps Inv (dispatch k c fd msg)
unfolding dispatch
dispatch-Keeps k c fd msg =
    if-Keeps {P = Inv} (str_eq (codes "CREATE_MATCH") msg.code) _ _
      (create_match_request-Keeps k c fd)
      (if-Keeps {P = Inv} (str_eq (codes "JOIN_MATCH") msg.code) _ _
        (join_match_request-Keeps k c fd msg)
        (if-Keeps {P = Inv} (str_eq (codes "MOVE") msg.code) _ _ (move_request-Keeps k c msg)
          (Calm-Keeps skip skip-Calm)))

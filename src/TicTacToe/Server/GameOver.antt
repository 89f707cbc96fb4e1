-- ===== src/TicTacToe/Server/GameOver.antt =====
-- The end of a game by MOVE, and the pointers it leaves behind.
use intern_status_update.Base.{
  set-set, ℕ, ◌+◌, ◌≤◌, ◌<◌, ◌≡◌, ◌≢◌, refl, ap, ◌∙◌, ◌⊎◌, inl, inr, ◌∷◌, ◌++◌, List, Bytes, true,
  Option, none, some, Run, ok, fault, codes, length, get_elem?, get_elem?-set, set, if◌then◌else◌,
  ◌==◌, ==_iff, Bool-cases, arith, live, live-lt, live-set,
}
use intern_status_update.Base.Int.{ℤ}
use intern_status_update.Libc.{atoi}
use intern_status_update.Libc.Decimal.{IsInt}
use intern_status_update.TicTacToe.Message.{Message}
use intern_status_update.TicTacToe.Board.{Match, set_cell, evaluate_board}
use intern_status_update.TicTacToe.State.{
  Client, Server, ◌>>◌, lift, load_match, store_match, set_matches, load_client, store_client,
}
use intern_status_update.TicTacToe.State.Laws.{bind_step, bind_fault}
use intern_status_update.TicTacToe.State.Outcomes.{
  load_match-ok, load_match_dead, store_match-ok, free_match-ok, load_client-ok, set_matches-ok,
}
use intern_status_update.TicTacToe.Server.{
  Kernel, send_response, board_index, finish_second, finish_match, conclude, play, move_request,
  close_frame, leave_match, send_peer_close_response_to_another_peer, close_connection,
}
use intern_status_update.TicTacToe.Server.Requests.{send_response-ok}

-- A kernel that sends everything.
abbrev pub Sends : Kernel → Type 0
Sends k = (to : ℤ) (bytes : Bytes) → k.can_send to bytes ≡ true

-- `s` without the match at p.
abbrev pub without : Server → ℕ → ℕ → List (ℤ × Bytes) → Server
without s p id log = record s {
  matches = set s.matches id none;
  match_heap = set s.match_heap p none;
  sent = log;
}

module _ (k : Kernel) (all : Sends k) where
  sent-ok :
      (to m_id : ℤ) (player : ℕ) (code message : Bytes)
      → IsInt m_id
      → length code + length message ≤ 900
      → (s : Server)
      → (log : List (ℤ × Bytes)) × (send_response k to m_id player code message s
          ≡ ok (true, record s { sent = log }))
  sent-ok to m_id player code message int short s =
      (_, rw (all) at (send_response-ok k to m_id player code message int short s))

  finish_match-ok :
      (p : ℕ) (m old : Match) (id : ℤ) (text : Bytes) (s : Server)
      → live s.match_heap p ≡ some old
      → m.match_id < length s.matches
      → IsInt id
      → length text ≤ 800
      → (log : List (ℤ × Bytes)) × (finish_match k p m id text s
          ≡ ok (tt, without s p m.match_id log))
  unfolding finish_match finish_second
  finish_match-ok p m old id text s at inside int short =
      let (log, x) = sent-ok m.player_x id b'X' (codes "GAME_OVER") text int (omega arith) s in
      let s1 = record s { sent = log } in
      let (log2, o) = sent-ok m.player_o id b'O' (codes "GAME_OVER") text int (omega arith) s1 in
      let s2 = record s { sent = log2 } in
      let s3 = record s2 { matches = set s.matches m.match_id none } in
      (
        log2,
        bind_step (send_response k m.player_x id b'X' (codes "GAME_OVER") text) _ s true s1 x
            ∙ bind_step (send_response k m.player_o id b'O' (codes "GAME_OVER") text) _ s1 true s2 o
            ∙ bind_step (set_matches m.match_id none) _ s2 tt s3
                (set_matches-ok s2 m.match_id none inside)
            ∙ free_match-ok s3 p old at,
      )

  -- With a winner, or after the ninth move.
  conclude-ok :
      (p : ℕ) (m old : Match) (id : ℤ) (res : ℕ) (s : Server)
      → (res ≢ b'*') ⊎ (m.moves ≡ 9)
      → live s.match_heap p ≡ some old
      → m.match_id < length s.matches
      → IsInt id
      → (log : List (ℤ × Bytes)) × (conclude k p m id res s ≡ ok (tt, without s p m.match_id log))
  unfolding conclude finish_match finish_second
  conclude-ok p m old id res s over at inside int = elim (Bool-cases (res == b'*')) [
    | inr e ↦
        rw (e, conclude)
          (finish_match-ok p m old id (codes "Player " ++ (res ∷ codes " Won!!")) s at inside int
            (omega arith))
    | inl e ↦ elim over [
      | inl wins ↦ absurd (wins ((==_iff res b'*').0 e))
      | inr nine ↦
          rw (e, nine, conclude)
            (finish_match-ok p m old id (codes "Match Draw") s at inside int (omega arith))
    ]
  ]

-- The match after the move of `msg` to the cell (i, j).
abbrev pub moved : Match → Message → ℕ → ℕ → Match
moved m msg i j = record m { board = set_cell m.board i j msg.player; moves = m.moves + 1 }

now_at :
    (heap : List (Option Match)) (p : ℕ) (old : Match) (o : Option Match)
    → live heap p ≡ some old
    → live (set heap p o) p ≡ o
now_at heap p old o at = rw (live-set heap p p o (live-lt heap p old at), (==_iff p p).1 refl) refl

play-ok :
    (k : Kernel) (p : ℕ) (m : Match) (id : ℤ) (msg : Message) (s : Server) (i j : ℕ)
    → Sends k
    → live s.match_heap p ≡ some m
    → m.match_id < length s.matches
    → IsInt id
    → board_index msg.message 0 ≡ ok i
    → board_index msg.message 1 ≡ ok j
    → (evaluate_board (moved m msg i j).board ≢ b'*') ⊎ (m.moves ≡ 8)
    → (log : List (ℤ × Bytes)) × (play k p m id msg s ≡ ok (tt, without s p m.match_id log))
unfolding play
play-ok k p m id msg s i j all at inside int row column over =
    let s1 = record s { match_heap = set s.match_heap p (some (moved m msg i j)) } in
    let ninth : (evaluate_board (moved m msg i j).board ≢ b'*') ⊎ (m.moves + 1 ≡ 9) = elim over [
      | inl wins ↦ inl wins
      | inr eight ↦ inr (omega (arith, eight))
    ] in
    let (log, done) =
      conclude-ok k all p (moved m msg i j) (moved m msg i j) id
        (evaluate_board (moved m msg i j).board) s1 ninth
        (now_at s.match_heap p m (some (moved m msg i j)) at) inside int in
    (
      log,
      bind_step (lift (board_index msg.message 0)) _ s i s (rw row refl)
          ∙ bind_step (lift (board_index msg.message 1)) _ s j s (rw column refl)
          ∙ bind_step (store_match p (moved m msg i j)) _ s tt s1
              (store_match-ok s p m (moved m msg i j) at)
          ∙ done
          ∙ ap {B = Run (Unit {0} × Server)}
              (λ heap. ok (
                tt,
                record s { matches = set s.matches m.match_id none; match_heap = heap; sent = log },
              ))
              (set-set s.match_heap p (some (moved m msg i j)) none),
    )

move_request-ok :
    (k : Kernel) (c : ℕ) (msg : Message) (s : Server) (r : Client) (p : ℕ) (m : Match) (id : ℤ)
    (i j : ℕ)
    → Sends k
    → live s.client_heap c ≡ some r
    → r.current_match ≡ some p
    → live s.match_heap p ≡ some m
    → m.match_id < length s.matches
    → atoi msg.matchid ≡ ok id
    → IsInt id
    → length msg.code + length msg.message ≤ 900
    → board_index msg.message 0 ≡ ok i
    → board_index msg.message 1 ≡ ok j
    → (evaluate_board (moved m msg i j).board ≢ b'*') ⊎ (m.moves ≡ 8)
    → (log : List (ℤ × Bytes)) × (move_request k c msg s ≡ ok (tt, without s p m.match_id log))
unfolding move_request
move_request-ok k c msg s r p m id i j all client current at inside number int short row column
      over =
    let receiver = if msg.player == b'X' then m.player_o else m.player_x in
    let (log1, relayed) = sent-ok k all receiver id msg.player msg.code msg.message int short s in
    let s1 = record s { sent = log1 } in
    let (log, done) = play-ok k p m id msg s1 i j all at inside int row column over in
    (
      log,
      bind_step (load_client c) _ s r s (load_client-ok s c r client)
          ∙ (rw current (
              bind_step (load_match p) _ s m s (load_match-ok s p m at)
              ∙ bind_step (lift (atoi msg.matchid)) _ s id s (rw number refl)
              ∙ bind_step (send_response k receiver id msg.player msg.code msg.message) _ s true s1
                  relayed
              ∙ done)),
    )

module _ (k : Kernel) (d : ℕ) (t : Server) (q : Client) (p : ℕ)
    (found : live t.client_heap d ≡ some q) (same : q.current_match ≡ some p)
    (freed : live t.match_heap p ≡ none) where
  dead-move_request : (msg : Message) → move_request k d msg t ≡ fault
  unfolding move_request
  dead-move_request msg =
      bind_step (load_client d) _ t q t (load_client-ok t d q found)
      ∙ rw same (bind_fault (load_match p) _ t (load_match_dead t p freed))

  dead-close_frame : (fd : ℤ) → close_frame k d fd t ≡ fault
  unfolding close_frame leave_match send_peer_close_response_to_another_peer
  dead-close_frame fd =
      bind_step (load_client d) _ t q t (load_client-ok t d q found)
      ∙ rw same (
          bind_fault
            (send_peer_close_response_to_another_peer k p fd
              >> store_client d (record q { current_match = none }))
            (λ _. close_connection d) t
            (bind_fault (send_peer_close_response_to_another_peer k p fd) _ t
              (bind_fault (load_match p) _ t (load_match_dead t p freed))))

-- A move by a client in a live match of the table, its message short and its fields numbers, that
-- completes a line or is the ninth, with every message sent: the request returns, the match is
-- freed and its entry cleared, and the clients are as before, so they keep their pointers to the
-- freed match. Any move or close from a client in this match is then a use of freed memory.
pub move_request_game_over :
    (k : Kernel) (c : ℕ) (msg : Message) (s : Server) (r : Client) (p : ℕ) (m : Match) (id : ℤ)
    (i j : ℕ)
    → Sends k
    → live s.client_heap c ≡ some r
    → r.current_match ≡ some p
    → live s.match_heap p ≡ some m
    → m.match_id < length s.matches
    → atoi msg.matchid ≡ ok id
    → IsInt id
    → length msg.code + length msg.message ≤ 900
    → board_index msg.message 0 ≡ ok i
    → board_index msg.message 1 ≡ ok j
    → (evaluate_board (moved m msg i j).board ≢ b'*') ⊎ (m.moves ≡ 8)
    → (t : Server) × (move_request k c msg s ≡ ok (tt, t))
      × (get_elem? t.matches m.match_id ≡ some none)
      × (live t.match_heap p ≡ none)
      × (t.client_heap ≡ s.client_heap)
      × ((k' : Kernel) (d : ℕ) (q : Client) (msg' : Message) (fd : ℤ)
          → live s.client_heap d ≡ some q
          → q.current_match ≡ some p
          → (move_request k' d msg' t ≡ fault) × (close_frame k' d fd t ≡ fault))
move_request_game_over k c msg s r p m id i j all client current at inside number int short row
      column over =
    let (log, done) =
      move_request-ok k c msg s r p m id i j all client current at inside number int short row
        column over in
    let t = without s p m.match_id log in
    let freed : live t.match_heap p ≡ none = now_at s.match_heap p m none at in
    (
      t,
      done,
      rw
          (
            get_elem?-set s.matches m.match_id m.match_id none inside,
            (==_iff m.match_id m.match_id).1 refl,
          )
          refl,
      freed,
      refl,
      λ k' d q msg' fd found same. (
        dead-move_request k' d t q p found same freed msg',
        dead-close_frame k' d t q p found same freed fd,
      ),
    )

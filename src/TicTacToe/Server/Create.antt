-- ===== src/TicTacToe/Server/Create.antt =====
-- CREATE_MATCH on both branches: the match it leaves, and the full table.
use intern_status_update.Base.{
  ℕ, ◌+◌, ◌≤◌, ◌<◌, ◌≡◌, refl, ap, ◌∙◌, [], ◌∷◌, ◌++◌, List, Bytes, Option, some, Run, ok, fault,
  codes, length, set, arith, live, live-append_new,
}
use intern_status_update.Base.Int.{ℤ, pos, no_fd}
use intern_status_update.TicTacToe.Board.{Match, create_match}
use intern_status_update.TicTacToe.State.{
  Client, Server, M, ◌>>=◌, ◌>>◌, skip, load_match, store_match, new_match, set_matches,
  next_match_id, load_client, store_client, max_matches,
}
use intern_status_update.TicTacToe.State.Laws.{bind_step, bind_fault}
use intern_status_update.TicTacToe.State.Outcomes.{
  load_match-ok, store_match-ok, load_client-ok, store_client-ok, set_matches-ok,
  set_matches_outside,
}
use intern_status_update.TicTacToe.Server.{Kernel, send_response, create_match_request}
use intern_status_update.TicTacToe.Server.Requests.{send_skip-Logs}

-- The part of CREATE_MATCH behind the entry into the table.
abbrev fill : Kernel → ℕ → ℤ → ℕ → M (Unit {0})
fill k p fd id = load_match p >>= λ m.
    store_match p (record m { players = m.players + 1 })
    >> (send_response k fd (pos id) b'X' (codes "MATCH_CREATED") (codes " ") >>= λ _. skip)

-- The match with the caller for X and an empty board.
abbrev pub created : Server → ℤ → Match
created s fd = record {
  match_id = s.match_id;
  player_x = fd;
  player_o = no_fd;
  board = λ i j. b' ';
  moves = 0;
  players = 1;
}

-- The state that CREATE_MATCH leaves, with the log.
abbrev pub with_match : Server → ℕ → Client → ℤ → List (ℤ × Bytes) → Server
with_match s c r fd log = record s {
  match_id = s.match_id + 1;
  matches = set s.matches s.match_id (some (length s.match_heap));
  match_heap = s.match_heap ++ some (created s fd) ∷ [];
  client_heap =
      set s.client_heap c (some (record r { current_match = some (length s.match_heap) }));
  sent = log;
}

set_last :
    (heap : List (Option Match)) (a b : Option Match)
    → set (heap ++ a ∷ []) (length heap) b ≡ heap ++ b ∷ []
set_last [] a b = refl
set_last (x ∷ heap) a b = ap (λ t. x ∷ t) (set_last heap a b)

-- CREATE_MATCH on a table of 1000 entries and from a live client. While fewer than 1000 matches have
-- been created it returns: the next number is taken, and a new match with this number, the caller
-- for X, no O and one player is in the heap, in the table at its number and the caller's match.
-- From the 1000th match on it writes past the table.
pub create_match_request-effect :
    (k : Kernel) (c : ℕ) (fd : ℤ) (s : Server) (r : Client)
    → length s.matches ≡ max_matches
    → live s.client_heap c ≡ some r
    → (s.match_id < max_matches
        → (log : List (ℤ × Bytes)) × (create_match_request k c fd s
            ≡ ok (tt, with_match s c r fd log)))
      × (max_matches ≤ s.match_id → create_match_request k c fd s ≡ fault)
unfolding create_match_request next_match_id new_match create_match
create_match_request-effect k c fd s r width client =
    let id = s.match_id in
    let p = length s.match_heap in
    let m = create_match fd no_fd id in
    let s1 = record s { match_id = id + 1; match_heap = s.match_heap ++ some m ∷ [] } in
    let linked = record r { current_match = some p } in
    let s2 = record s1 { client_heap = set s.client_heap c (some linked) } in
    let s3 = record s2 { matches = set s.matches id (some p) } in
    let s4 = record s3 { match_heap = set (s.match_heap ++ some m ∷ []) p (some (created s fd)) } in
    let new : live s3.match_heap p ≡ some m = live-append_new s.match_heap m in
    let start : create_match_request k c fd s ≡ (set_matches id (some p) >> fill k p fd id) s2 =
      bind_step (load_client c) _ s1 r s1 (load_client-ok s1 c r client)
      ∙ bind_step (store_client c linked) _ s1 tt s2 (store_client-ok s1 c r linked client) in
    (
      λ inside.
          let (log, done) =
            send_skip-Logs k fd (pos id) b'X' (codes "MATCH_CREATED") (codes " ") (omega arith)
              (omega arith) s4 in
          (
            log,
            start
                ∙ bind_step (set_matches id (some p)) _ s2 tt s3
                    (set_matches-ok s2 id (some p) (omega (arith, width)))
                ∙ bind_step (load_match p) _ s3 m s3 (load_match-ok s3 p m new)
                ∙ bind_step (store_match p (created s fd)) _ s3 tt s4
                    (store_match-ok s3 p m (created s fd) new)
                ∙ done
                ∙ ap {B = Run (Unit {0} × Server)}
                    (λ heap. ok (tt, record (with_match s c r fd log) { match_heap = heap }))
                    (set_last s.match_heap (some m) (some (created s fd))),
          ),
      λ outside.
          start
          ∙ bind_fault (set_matches id (some p)) (λ _. fill k p fd id) s2
              (set_matches_outside s2 id (some p) (omega (arith, width))),
    )

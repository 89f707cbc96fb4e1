-- ===== src/TicTacToe/Server/Join.antt =====
-- JOIN_MATCH on every branch: it returns, and what it changes.
use intern_status_update.Base.{
  ℕ, zero, suc, ◌+◌, ◌<◌, ◌^◌, ◌≡◌, ◌≢◌, refl, ◌∙◌, ◌⊎◌, inl, inr, [], ◌∷◌, List, Bytes, true,
  false, Option, none, some, ok, codes, length, get_elem?, set, if◌then◌else◌, Bool-cases, arith,
  live,
}
use intern_status_update.Base.Int.{ℤ, pos, no_fd, int_eq_iff}
use intern_status_update.Libc.{atoi}
use intern_status_update.TicTacToe.Message.{Message}
use intern_status_update.TicTacToe.Board.{Match}
use intern_status_update.TicTacToe.State.{
  Client, Server, M, ◌>>=◌, lift, load_match, store_match, matches_at, load_client, store_client,
  max_matches,
}
use intern_status_update.TicTacToe.State.Laws.{bind_step}
use intern_status_update.TicTacToe.State.Outcomes.{
  load_match-ok, store_match-ok, load_client-ok, store_client-ok, matches_at-ok,
}
use intern_status_update.TicTacToe.State.Tidy.{Inv}
use intern_status_update.TicTacToe.Server.{
  Kernel, joinable, index_of, init_boards, join_found, join_failed, join_match_request,
}
use intern_status_update.TicTacToe.Server.Requests.{join_failed-Logs, branch-Logs, init_boards-Logs}

abbrev joined : Match → ℤ → Match
joined m fd = record m { player_o = fd; players = m.players + 1 }

abbrev playing : Client → ℕ → Client
playing r p = record r { current_match = some p }

-- The match has a player for X, none for O, and not two players.
abbrev pub Waits : Match → Type 0
Waits m = (m.player_x ≢ no_fd) × (m.player_o ≡ no_fd) × (m.players ≢ 2)

joinable-Waits :
    (m : Match) → ((joinable m ≡ true) → Waits m) × ((joinable m ≡ false) → Waits m → ⊥)
joinable-Waits m =
    let x = int_eq_iff m.player_x no_fd in
    let o = int_eq_iff m.player_o no_fd in ground (arith, x, o)

-- What JOIN_MATCH for the table entry i leaves: the joined match, or everything as it was.
abbrev pub JoinEffect : Server → Server → ℕ → Client → ℤ → ℕ → Type 0
JoinEffect s t c r fd i =
    ((p : ℕ) × (m : Match) × (get_elem? s.matches i ≡ some (some p))
      × (live s.match_heap p ≡ some m)
      × Waits m
      × (t.match_heap ≡ set s.match_heap p (some (joined m fd)))
      × (t.client_heap ≡ set s.client_heap c (some (playing r p))))
    ⊎ (((p : ℕ) (m : Match)
          → get_elem? s.matches i ≡ some (some p)
          → live s.match_heap p ≡ some m
          → Waits m
          → ⊥)
        × (t.match_heap ≡ s.match_heap)
        × (t.client_heap ≡ s.client_heap))

join_found-ok :
    (k : Kernel) (c : ℕ) (fd : ℤ) (p : ℕ) (m : Match) (s : Server) (r : Client)
    → live s.match_heap p ≡ some m
    → live s.client_heap c ≡ some r
    → m.match_id < 2 ^ 31
    → (log : List (ℤ × Bytes)) × (join_found k c fd p m s
        ≡ ok (
          tt,
          record s {
            match_heap = set s.match_heap p (some (joined m fd));
            client_heap = set s.client_heap c (some (playing r p));
            sent = log;
          },
        ))
unfolding join_found
join_found-ok k c fd p m s r at client small =
    let s' = record s {
      match_heap = set s.match_heap p (some (joined m fd));
      client_heap = set s.client_heap c (some (playing r p));
    } in
    let (log, done) =
      branch-Logs k fd (pos m.match_id) b'O' (codes "MATCH_JOINED") (codes " ")
        (init_boards k (joined m fd)) small (omega arith) s'
        (λ log. init_boards-Logs k (joined m fd) (record s' { sent = log })) in
    let s1 = record s { match_heap = set s.match_heap p (some (joined m fd)) } in
    (
      log,
      bind_step (store_match p (joined m fd)) _ s tt s1 (store_match-ok s p m (joined m fd) at)
          ∙ bind_step (load_client c) _ s1 r s1 (load_client-ok s1 c r client)
          ∙ bind_step (store_client c (playing r p)) _ s1 tt s'
              (store_client-ok s1 c r (playing r p) client)
          ∙ done,
    )

-- What JOIN_MATCH does with the entry it found.
abbrev join_entry : Kernel → ℕ → ℤ → Option ℕ → M (Unit {0})
join_entry k c fd entry = elim entry [
  | none ↦ join_failed k fd
  | some p ↦ load_match p >>= λ m. if joinable m then join_found k c fd p m else join_failed k fd
]

live_same :
    (heap : List (Option Match)) (p q : ℕ) (m n : Match)
    → p ≡ q
    → live heap p ≡ some m
    → live heap q ≡ some n
    → m ≡ n
live_same heap p q m n same at found = let here : live heap p ≡ some n = rw same found in cc

join_entry-JoinEffect :
    (k : Kernel) (c : ℕ) (fd : ℤ) (i : ℕ) (s : Server) (r : Client)
    → Inv s
    → live s.client_heap c ≡ some r
    → i < max_matches
    → (o : Option ℕ) → get_elem? s.matches i ≡ some o
    → (t : Server) × (join_entry k c fd o s ≡ ok (tt, t))
      × (t.matches ≡ s.matches)
      × JoinEffect s t c r fd i
join_entry-JoinEffect k c fd i s r v client inside none entry =
    let (log, done) = join_failed-Logs k fd s in
    (record s { sent = log }, done, refl, inr ((λ p m listed. cc), refl, refl))
join_entry-JoinEffect k c fd i s r v client inside (some p) entry =
    let (m, at, id) = v.entry i p entry in
    let first : join_entry k c fd (some p) s
        ≡ (if joinable m then join_found k c fd p m else join_failed k fd) s =
      bind_step (load_match p) (λ m. if joinable m then join_found k c fd p m else join_failed k fd)
        s m s (load_match-ok s p m at) in
    elim (Bool-cases (joinable m)) [
      | inl e ↦
          let (log, done) = join_found-ok k c fd p m s r at client (omega (arith, id)) in
          (
            record s {
              match_heap = set s.match_heap p (some (joined m fd));
              client_heap = set s.client_heap c (some (playing r p));
              sent = log;
            },
            first ∙ rw e done,
            refl,
            inl (p, m, entry, at, (joinable-Waits m).0 e, refl, refl),
          )
      | inr e ↦
          let (log, done) = join_failed-Logs k fd s in
          (
            record s { sent = log },
            first ∙ rw e done,
            refl,
            inr (
              (λ q n listed found.
                  let place : some p ≡ some q = cc in
                  let here : p ≡ q = cc in
                  let same : m ≡ n = live_same s.match_heap p q m n here at found in
                  (joinable-Waits n).1 (rw (← same) e)),
              refl,
              refl,
            ),
          )
    ]

entry_at :
    (xs : List (Option ℕ)) (i : ℕ) → i < length xs → (o : Option ℕ) × (get_elem? xs i ≡ some o)
entry_at [] i h = absurd (omega arith)
entry_at (x ∷ xs) zero h = (x, refl)
entry_at (x ∷ xs) (suc i) h = entry_at xs i (omega arith)

-- On a tidy table JOIN_MATCH returns whenever the message is a number from 0 to 999. The request is
-- granted exactly if that entry is a match with an X, no O and not two players: then O is the caller
-- and the match has one player more, and the caller's match is that one. In every other case no
-- match and no client changes. The table never does.
pub join_match_request-JoinEffect :
    (k : Kernel) (c : ℕ) (fd : ℤ) (msg : Message) (i : ℕ) (s : Server) (r : Client)
    → Inv s
    → live s.client_heap c ≡ some r
    → atoi msg.message ≡ ok (pos i)
    → i < max_matches
    → (t : Server) × (join_match_request k c fd msg s ≡ ok (tt, t))
      × (t.matches ≡ s.matches)
      × JoinEffect s t c r fd i
unfolding join_match_request
join_match_request-JoinEffect k c fd msg i s r v client number inside =
    let next : Option ℕ → M (Unit {0}) = join_entry k c fd in
    let at_index : ℕ → M (Unit {0}) = λ idx. matches_at idx >>= next in
    let at_number : ℤ → M (Unit {0}) = λ n. lift (index_of n) >>= at_index in
    let first : join_match_request k c fd msg s ≡ at_number (pos i) s =
      bind_step (lift (atoi msg.message)) at_number s (pos i) s (rw number refl) in
    let second : at_number (pos i) s ≡ at_index i s =
      bind_step (lift (index_of (pos i))) at_index s i s refl in
    let (o, entry) = entry_at s.matches i (omega (arith, v.width)) in
    let third : at_index i s ≡ next o s =
      bind_step (matches_at i) next s o s (matches_at-ok s i o entry) in
    let (t, done, same, effect) = join_entry-JoinEffect k c fd i s r v client inside o entry in
    (t, first ∙ second ∙ third ∙ done, same, effect)

-- ===== src/TicTacToe/State/Outcomes.antt =====
-- The outcome of each use of the server's memory, for live objects and for others.
use intern_status_update.Base.{
  ℕ, ◌≤◌, ◌<◌, ◌≡◌, ap, Option, none, some, Run, ok, fault, lt→ltb, le→ltb, length, get_elem?, set,
  live,
}
use intern_status_update.TicTacToe.Board.{Match}
use intern_status_update.TicTacToe.State.{
  Server, Client, load_match, store_match, free_match, matches_at, set_matches, load_client,
  store_client,
}

-- The outcome of each use of a live object.
use_some :
    {X Y : Type 0} (o : Option X) (g : X → Y) (x : X)
    → o ≡ some x
    → elim o [ none ↦ fault | some x ↦ ok (g x) ] ≡ ok (g x)
use_some {Y = Y} o g x e = ap {B = Run Y} (λ o. elim o [ none ↦ fault | some x ↦ ok (g x) ]) e

module _ (s : Server) (p : ℕ) where
  pub load_match-ok : (m : Match) → live s.match_heap p ≡ some m → load_match p s ≡ ok (m, s)
  unfolding load_match
  load_match-ok m e = use_some (live s.match_heap p) (λ m. (m, s)) m e

  pub load_match_dead : live s.match_heap p ≡ none → load_match p s ≡ fault
  unfolding load_match
  load_match_dead e =
      ap {B = Run (Match × Server)} (λ o. elim o [ none ↦ fault | some m ↦ ok (m, s) ]) e

  pub store_match-ok :
      (old m : Match)
      → live s.match_heap p ≡ some old
      → store_match p m s ≡ ok (tt, record s { match_heap = set s.match_heap p (some m) })
  unfolding store_match
  store_match-ok old m e =
      use_some (live s.match_heap p)
        (λ _. (tt, record s { match_heap = set s.match_heap p (some m) })) old e

  pub free_match-ok :
      (old : Match)
      → live s.match_heap p ≡ some old
      → free_match p s ≡ ok (tt, record s { match_heap = set s.match_heap p none })
  unfolding free_match
  free_match-ok old e =
      use_some (live s.match_heap p) (λ _. (tt, record s { match_heap = set s.match_heap p none }))
        old e

  pub load_client-ok : (r : Client) → live s.client_heap p ≡ some r → load_client p s ≡ ok (r, s)
  unfolding load_client
  load_client-ok r e = use_some (live s.client_heap p) (λ r. (r, s)) r e

  pub store_client-ok :
      (old r : Client)
      → live s.client_heap p ≡ some old
      → store_client p r s ≡ ok (tt, record s { client_heap = set s.client_heap p (some r) })
  unfolding store_client
  store_client-ok old r e =
      use_some (live s.client_heap p)
        (λ _. (tt, record s { client_heap = set s.client_heap p (some r) })) old e

  pub matches_at-ok : (o : Option ℕ) → get_elem? s.matches p ≡ some o → matches_at p s ≡ ok (o, s)
  unfolding matches_at
  matches_at-ok o e = use_some (get_elem? s.matches p) (λ o. (o, s)) o e

  pub set_matches-ok :
      (o : Option ℕ)
      → p < length s.matches
      → set_matches p o s ≡ ok (tt, record s { matches = set s.matches p o })
  unfolding set_matches
  set_matches-ok o h = rw (lt→ltb p (length s.matches) h)

  pub set_matches_outside : (o : Option ℕ) → length s.matches ≤ p → set_matches p o s ≡ fault
  unfolding set_matches
  set_matches_outside o h = rw (le→ltb p (length s.matches) h)

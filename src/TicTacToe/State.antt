-- ===== src/TicTacToe/State.antt =====
-- The memory of the game server: the table of matches, the matches and clients allocated, and what
-- has been sent. A pointer is the place in the list of its kind; a freed object leaves `none`.
pub mod Laws
pub mod Outcomes
pub mod Tidy
pub mod Owned
use intern_status_update.Base.{
  ℕ, zero, suc, ◌+◌, ◌<◌, [], ◌∷◌, ◌++◌, List, Bytes, Bool, true, false, Option, none, some, Run,
  ok, fault, if◌then◌else◌, ltb, length, get_elem?, set, live,
}
use intern_status_update.Base.Int.{ℤ}
use intern_status_update.TicTacToe.Board.{Match}

pub record Client : Type 0 where
  pub fd : ℤ
  pub username : Option Bytes
  pub handshake : Bool
  pub active : Bool
  pub connected : Bool
  pub current_match : Option ℕ

-- `matches`, `match_id` and the heap; `sent` lists what `send` accepted, the last first.
pub record Server : Type 0 where
  pub match_id : ℕ
  pub matches : List (Option ℕ)
  pub match_heap : List (Option Match)
  pub client_heap : List (Option Client)
  pub sent : List (ℤ × Bytes)

abbrev pub max_matches : ℕ
max_matches = 1000

-- `createClient`
unfoldable pub create_client : ℤ → Option ℕ → Client
create_client fd m = record {
  fd = fd;
  username = none;
  handshake = false;
  active = true;
  connected = false;
  current_match = m;
}

-- Code that changes the memory and may fault.
abbrev pub M : Type 0 → Type 0
M A = Server → Run (A × Server)

infixl 5 ◌>>=◌ ◌>>◌
abbrev pub ◌>>=◌ : {A B : Type 0} → M A → (A → M B) → M B
◌>>=◌ m f s = elim (m s) [ fault ↦ fault | ok (a, s') ↦ f a s' ]

abbrev pub ◌>>◌ : {B : Type 0} → M (Unit {0}) → M B → M B
m >> k = m >>= λ _. k

abbrev pub return : {A : Type 0} → A → M A
return a s = ok (a, s)

abbrev pub crash : {A : Type 0} → M A
crash s = fault

-- A pure step that may fault.
abbrev pub lift : {A : Type 0} → Run A → M A
lift r s = elim r [ fault ↦ fault | ok a ↦ ok (a, s) ]

abbrev pub skip : M (Unit {0})
skip = return tt

-- `*m`; a freed match may not be read.
unfoldable pub load_match : ℕ → M Match
load_match p s = elim (live s.match_heap p) [ none ↦ fault | some m ↦ ok (m, s) ]

unfoldable pub store_match : ℕ → Match → M (Unit {0})
store_match p m s = elim (live s.match_heap p) [
  | none ↦ fault
  | some old ↦ ok (tt, record s { match_heap = set s.match_heap p (some m) })
]

-- `free(m)`; twice is an error.
unfoldable pub free_match : ℕ → M (Unit {0})
free_match p s = elim (live s.match_heap p) [
  | none ↦ fault
  | some old ↦ ok (tt, record s { match_heap = set s.match_heap p none })
]

unfoldable pub new_match : Match → M ℕ
new_match m s = ok (length s.match_heap, record s { match_heap = s.match_heap ++ some m ∷ [] })

-- `matches[i]`, read and written.
unfoldable pub matches_at : ℕ → M (Option ℕ)
matches_at i s = elim (get_elem? s.matches i) [ none ↦ fault | some o ↦ ok (o, s) ]

unfoldable pub set_matches : ℕ → Option ℕ → M (Unit {0})
set_matches i o s =
    if ltb i (length s.matches) then ok (tt, record s { matches = set s.matches i o }) else fault

-- `match_id++`
unfoldable pub next_match_id : M ℕ
next_match_id s = ok (s.match_id, record s { match_id = s.match_id + 1 })

unfoldable pub load_client : ℕ → M Client
load_client c s = elim (live s.client_heap c) [ none ↦ fault | some r ↦ ok (r, s) ]

unfoldable pub store_client : ℕ → Client → M (Unit {0})
store_client c r s = elim (live s.client_heap c) [
  | none ↦ fault
  | some old ↦ ok (tt, record s { client_heap = set s.client_heap c (some r) })
]

unfoldable pub free_client : ℕ → M (Unit {0})
free_client c s = elim (live s.client_heap c) [
  | none ↦ fault
  | some old ↦ ok (tt, record s { client_heap = set s.client_heap c none })
]

unfoldable pub new_client : Client → M ℕ
new_client r s = ok (length s.client_heap, record s { client_heap = s.client_heap ++ some r ∷ [] })

-- `send`, where the kernel's answer is given; what it refuses is not sent.
unfoldable pub transmit : Bool → ℤ → Bytes → M Bool
transmit accepted to bytes s =
    if accepted then ok (true, record s { sent = (to, bytes) ∷ s.sent }) else ok (false, s)

-- ===== src/Chat/Server/Register.antt =====
-- What the creation of a user does, for a name that is free and for one that is taken.
use intern_status_update.Base.{
  ℕ, ◌≡◌, refl, sym, ap, ◌∙◌, Bytes, true, false, none, some, ok, fault, if◌then◌else◌, ◌==◌,
  ==_iff, ne→==, set, length-set, str_eq, str_eq_iff, arith, live, live-lt, live-set,
}
use intern_status_update.HashMap.{put, get, remove_key}
use intern_status_update.HashMap.Correct.{put_refines, remove_key_refines, is_available-get}
use intern_status_update.TicTacToe.Server.{Received, received, closed, failed}
use intern_status_update.Chat.Message.{Message}
use intern_status_update.Chat.Server.{
  Client, Server, store_client, free_client, close_connection, enter, register, client_event,
}
use intern_status_update.Chat.Server.Owners.{Inv}

-- The client with its name.
abbrev pub named : Client → Message → Client
named r m = record r { added = true; username = some m.message }

abbrev pub silenced : Client → Client
silenced r = record r { active = false }

store_client-ok :
    (c : ℕ) (r old : Client) (s : Server)
    → live s.clients c ≡ some old
    → store_client c r s ≡ ok (record s { clients = set s.clients c (some r) })
unfolding store_client
store_client-ok c r old s at = rw (at) refl

-- An event of a client that was freed.
freed-client_event :
    (p : ℕ) (input : Received) (stale : Bytes) (t : Server)
    → live t.clients p ≡ none
    → client_event p input stale t ≡ fault
unfolding client_event close_connection
freed-client_event p (received bytes) stale t gone = rw gone refl
freed-client_event p closed stale t gone = rw gone refl
freed-client_event p failed stale t gone = rw gone refl

module _ (c : ℕ) (r : Client) (m : Message) (s : Server) (v : Inv s)
    (at : live s.clients c ≡ some r) (fresh : r.added ≡ false) where
  vacant-register :
      get m.message s.table ≡ none
      → register c r m s
        ≡ ok (record s {
          clients = set s.clients c (some (named r m));
          table = (put m.message c s.table).0;
        })
  unfolding register enter free_client
  vacant-register vacant =
      let (_, freed, _) = put_refines s.table v.table m.message c in
      rw
        (
          store_client-ok c (named r m) r s at,
          is_available-get s.table m.message,
          vacant,
          freed,
          vacant,
          free_client,
        )
        refl

  -- Where the second write leaves the other clients.
  other :
      (p : ℕ)
      → (c == p) ≡ false
      → live (set (set s.clients c (some (named r m))) c (some (silenced (named r m)))) p
        ≡ live s.clients p
  other p e =
      rw
        (
          live-set (set s.clients c (some (named r m))) c p (some (silenced (named r m)))
              (omega (arith, length-set s.clients c (some (named r m)), live-lt s.clients c r at)),
          e,
          live-set s.clients c p (some (named r m)) (live-lt s.clients c r at),
          e,
        )
        refl

  at_c : live (set s.clients c (some (named r m))) c ≡ some (named r m)
  at_c =
      rw (live-set s.clients c c (some (named r m)) (live-lt s.clients c r at), (==_iff c c).1 refl)
        refl

  apart : (p : ℕ) (x : Client) → live s.clients p ≡ some x → x.added ≡ true → (c == p) ≡ false
  apart p x found added = ne→== c p λ same.
      let both : some r ≡ some x = sym at ∙ ap (live s.clients) same ∙ found in
      let one : r ≡ x = cc in
      let wrong : false ≡ true = sym fresh ∙ ap (λ q. q.added) one ∙ added in cc

  taken-register :
      (p : ℕ)
      → get m.message s.table ≡ some p
      → register c r m s
        ≡ ok (record s {
          clients =
              set (set (set s.clients c (some (named r m))) c (some (silenced (named r m)))) p none;
          table = (remove_key m.message s.table).0;
        })
  unfolding register close_connection free_client
  taken-register p taken =
      let (_, freed, _) = remove_key_refines s.table v.table m.message in
      let (x, found, _, added) = v.owner m.message p taken in
      let s1 = record s { clients = set s.clients c (some (named r m)) } in
      rw
        (
          store_client-ok c (named r m) r s at,
          is_available-get s.table m.message,
          taken,
          at_c,
          store_client-ok c (silenced (named r m)) (named r m) s1 at_c,
          freed,
          taken,
          free_client,
          other p (apart p x found added),
          found,
        )
        refl

-- A client that is not registered asks for a name, in a state in which the table is well formed and
-- every name in it stands for a client that is alive, registered and has this name. If the name is
-- free, the request returns, the client has the name, and the table has the client under it and is as
-- before for every other name. If the name is taken by a client p, the request returns too, but p is
-- freed and the name is out of the table: any event of p is then a use of freed memory.
pub register-effect :
    (c : ℕ) (r : Client) (m : Message) (s : Server)
    → Inv s
    → live s.clients c ≡ some r
    → r.added ≡ false
    → (get m.message s.table ≡ none
        → (t : Server) × (register c r m s ≡ ok t)
          × (live t.clients c ≡ some (named r m))
          × ((q : Bytes) → get q t.table ≡ (if str_eq m.message q then some c else get q s.table)))
      × ((p : ℕ)
          → get m.message s.table ≡ some p
          → (t : Server) × (register c r m s ≡ ok t)
            × (get m.message t.table ≡ none)
            × ((input : Received) (stale : Bytes) → client_event p input stale t ≡ fault))
register-effect c r m s v at fresh = (
  λ vacant.
      let (_, _, after) = put_refines s.table v.table m.message c in
      (_, vacant-register c r m s v at fresh vacant, at_c c r m s v at fresh, after),
  λ p taken.
      let (_, _, after) = remove_key_refines s.table v.table m.message in
      let (x, found, _, added) = v.owner m.message p taken in
      let heap = set (set s.clients c (some (named r m))) c (some (silenced (named r m))) in
      let inside : live heap p ≡ some x =
        other c r m s v at fresh p (apart c r m s v at fresh p x found added) ∙ found in
      let gone : live (set heap p none) p ≡ none =
        rw (live-set heap p p none (live-lt heap p x inside), (==_iff p p).1 refl) refl in
      (
        _,
        taken-register c r m s v at fresh p taken,
        rw (after m.message, (str_eq_iff m.message m.message).1 refl) refl,
        λ input stale. freed-client_event p input stale _ gone,
      ),
)

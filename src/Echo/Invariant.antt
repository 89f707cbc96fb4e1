-- ===== src/Echo/Invariant.antt =====
-- Mini Project 27-1-26/EchoServer.c: the counts and the table under any interleaving of the threads.
pub mod Table
pub mod Steps
pub mod Runs
use intern_status_update.Base.{
  ℕ, zero, suc, ◌+◌, ◌≤◌, ◌<◌, ◌^◌, ◌≡◌, refl, ap, subst, sym, ◌∙◌, inl, inr, [], ◌∷◌, ◌++◌, List,
  Bytes, Bool, true, false, Option, none, some, Run, ok, fault, ◌>>=◌, deref, deref-eq-ok, after,
  ok-injective, if◌then◌else◌, ltb, ◌==◌, length, get_elem?, set, str_eq, str_eq_iff, arith, All,
  Bool-cases, get_elem?-lt, get_elem?-append, get_elem?-append_last, get_elem?-set, some-injective,
}
use intern_status_update.Packet.{ClientData}
use intern_status_update.Packet.Server.{Network, ServerData}
use intern_status_update.Packet.Transfer.{Received, whole, none_left, broken}
use intern_status_update.Echo.{
  Client, Stage, joining, reading, counting, answering, sending, leaving, ended, Thread, Server,
  Kernel, Event, accepted, turn, find_user, update_user, add_user, add_or_update_user, receive,
  count_echo, read_counts, send_answer, forget_socket, advance, handle_event, run, start,
}

-- The sum of the counts of the users.
unfoldable pub echoes : List Client → ℕ
echoes [] = 0
echoes (c ∷ cfds) = c.echo_count + echoes cfds

unfoldable pub addresses : List Client → List Bytes
addresses [] = []
addresses (c ∷ cfds) = c.ip_address ∷ addresses cfds

abbrev pub IsDistinct : List Bytes → Type 0
IsDistinct [] = Unit {0}
IsDistinct (a ∷ all) = All (λ b. str_eq a b ≡ false) all × IsDistinct all

-- Where a thread of this address is in the table, and what it is about to answer.
abbrev pub Placed : List Bytes → Bytes → Stage → Type 0
Placed all ip joining = Unit {0}
Placed all ip (reading pos) = get_elem? all pos ≡ some ip
Placed all ip (counting pos data_) = get_elem? all pos ≡ some ip
Placed all ip (answering pos data_) = get_elem? all pos ≡ some ip
Placed all ip (sending pos sdata) =
    (get_elem? all pos ≡ some ip) × (sdata.user_count ≤ sdata.total_count)
Placed all ip (leaving pos) = get_elem? all pos ≡ some ip
Placed all ip ended = Unit {0}

-- The total is the sum of the counts, no address stands twice in the table, and every thread is at
-- the entry of its own address, with its own copy of the client as it was created.
pub record Inv (s : Server) : Type 0 where
  pub total : s.total_echo ≡ echoes s.cfds
  pub users : IsDistinct (addresses s.cfds)
  pub placed :
      (t : ℕ) (thread : Thread)
      → get_elem? s.threads t ≡ some thread
      → (thread.client.echo_count ≡ 0)
        × Placed (addresses s.cfds) thread.client.ip_address thread.stage

-- What a step of a thread leaves as it was.
pub record Moved (s s1 : Server) : Type 0 where
  pub total : s1.total_echo ≡ echoes s1.cfds
  pub users : IsDistinct (addresses s1.cfds)
  pub same : s1.threads ≡ s.threads
  pub old :
      (i : ℕ) (a : Bytes)
      → get_elem? (addresses s.cfds) i ≡ some a
      → get_elem? (addresses s1.cfds) i ≡ some a

pub addresses-found :
    (cfds : List Client) (i : ℕ) (c : Client)
    → get_elem? cfds i ≡ some c
    → get_elem? (addresses cfds) i ≡ some c.ip_address
unfolding addresses
addresses-found [] i c h = cc
addresses-found (x ∷ cfds) zero c h = ap (λ c. some c.ip_address) (some-injective h)
addresses-found (x ∷ cfds) (suc i) c h = addresses-found cfds i c h

addresses-set :
    (cfds : List Client) (i : ℕ) (c c1 : Client)
    → get_elem? cfds i ≡ some c
    → c1.ip_address ≡ c.ip_address
    → addresses (set cfds i c1) ≡ addresses cfds
unfolding addresses
addresses-set [] i c c1 h same = refl
addresses-set (x ∷ cfds) zero c c1 h same =
    let first : x ≡ c = some-injective h in
    ap (λ a. a ∷ addresses cfds) (same ∙ ap (λ c. c.ip_address) (sym first))
addresses-set (x ∷ cfds) (suc i) c c1 h same =
    ap (λ t. x.ip_address ∷ t) (addresses-set cfds i c c1 h same)

echoes-set :
    (cfds : List Client) (i : ℕ) (c c1 : Client)
    → get_elem? cfds i ≡ some c
    → echoes (set cfds i c1) + c.echo_count ≡ echoes cfds + c1.echo_count
unfolding echoes
echoes-set [] i c c1 h = cc
echoes-set (x ∷ cfds) zero c c1 h =
    let first : x.echo_count ≡ c.echo_count = ap (λ c. c.echo_count) (some-injective h) in
    omega arith
echoes-set (x ∷ cfds) (suc i) c c1 h = omega (arith, echoes-set cfds i c c1 h)

-- One entry is rewritten, for the same address.
pub set-Moved :
    (s s1 : Server) (i : ℕ) (c c1 : Client)
    → get_elem? s.cfds i ≡ some c
    → c1.ip_address ≡ c.ip_address
    → s1.cfds ≡ set s.cfds i c1
    → s1.threads ≡ s.threads
    → s1.total_echo + c.echo_count ≡ s.total_echo + c1.echo_count
    → Inv s
    → Moved s s1
set-Moved s s1 i c c1 at same_address table same counts v =
    let all : addresses s1.cfds ≡ addresses s.cfds =
      ap addresses table ∙ addresses-set s.cfds i c c1 at same_address in
    let sum = echoes-set s.cfds i c c1 at in
    record {
      total = omega (arith, v.total, ap echoes table);
      users = subst IsDistinct (sym all) v.users;
      same = same;
      old = λ j a found. ap (λ t. get_elem? t j) all ∙ found;
    }

-- The table is not touched.
pub same-Moved :
    (s s1 : Server)
    → s1.cfds ≡ s.cfds
    → s1.total_echo ≡ s.total_echo
    → s1.threads ≡ s.threads
    → Inv s
    → Moved s s1
same-Moved s s1 table total same v = record {
  total = total ∙ v.total ∙ sym (ap echoes table);
  users = subst (λ t. IsDistinct (addresses t)) (sym table) v.users;
  same = same;
  old = λ j a found. ap (λ t. get_elem? (addresses t) j) table ∙ found;
}

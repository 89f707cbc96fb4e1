-- ===== src/Echo/Invariant/Runs.antt =====
-- Mini Project 27-1-26/EchoServer.c: the events one after the other.
use intern_status_update.Base.{
  ℕ, zero, suc, ◌<◌, ◌≡◌, refl, ap, subst, sym, ◌∙◌, ◌⊎◌, inl, inr, [], ◌∷◌, ◌++◌, List, Bytes,
  some, ok, deref, deref-eq-ok, after, if_after, ok-injective, if◌then◌else◌, ◌==◌, length,
  get_elem?, set, Bool-cases, get_elem?-lt, get_elem?-set, some-injective,
}
use intern_status_update.Packet.Server.{Network}
use intern_status_update.Echo.{
  Stage, joining, reading, counting, answering, sending, leaving, ended, Thread, Server, Event,
  accepted, turn, advance, handle_event, run, start,
}
use intern_status_update.Echo.Invariant.{echoes, addresses, Placed, Inv, Moved}
use intern_status_update.Echo.Invariant.Steps.{advance-Reached}

Placed-Moved :
    (s s1 : Server) (ip : Bytes) (stage : Stage)
    → Moved s s1
    → Placed (addresses s.cfds) ip stage
    → Placed (addresses s1.cfds) ip stage
Placed-Moved s s1 ip joining m at = tt
Placed-Moved s s1 ip (reading pos) m at = m.old pos ip at
Placed-Moved s s1 ip (counting pos data_) m at = m.old pos ip at
Placed-Moved s s1 ip (answering pos data_) m at = m.old pos ip at
Placed-Moved s s1 ip (sending pos sdata) m at = (m.old pos ip at.0, at.1)
Placed-Moved s s1 ip (leaving pos) m at = m.old pos ip at
Placed-Moved s s1 ip ended m at = tt

last_or_old :
    (threads : List Thread) (new thread : Thread) (t : ℕ)
    → get_elem? (threads ++ new ∷ []) t ≡ some thread
    → (get_elem? threads t ≡ some thread) ⊎ (new ≡ thread)
last_or_old [] new thread zero h = inr (some-injective h)
last_or_old [] new thread (suc t) h = cc
last_or_old (x ∷ threads) new thread zero h = inl h
last_or_old (x ∷ threads) new thread (suc t) h = last_or_old threads new thread t h

set_or_old :
    (threads : List Thread) (new thread : Thread) (t u : ℕ)
    → t < length threads
    → get_elem? (set threads t new) u ≡ some thread
    → (get_elem? threads u ≡ some thread) ⊎ (new ≡ thread)
set_or_old threads new thread t u inside h = elim (Bool-cases (t == u)) [
  | inl e ↦ inr (some-injective (rw (get_elem?-set threads t u new inside, e) at h))
  | inr e ↦ inl (rw (get_elem?-set threads t u new inside, e) at h)
]

-- A thread has moved, and the others stand where they were.
turn-Inv :
    (s s1 : Server) (t : ℕ) (thread : Thread) (next : Stage)
    → Inv s
    → get_elem? s.threads t ≡ some thread
    → Moved s s1
    → Placed (addresses s1.cfds) thread.client.ip_address next
    → Inv (record s1 { threads = set s1.threads t (record thread { stage = next }) })
turn-Inv s s1 t thread next v at m place =
    let inside : t < length s1.threads =
      subst (λ l. t < length l) (sym m.same) (get_elem?-lt s.threads t at) in
    record {
      total = m.total;
      users = m.users;
      placed = λ u x found.
          elim (set_or_old s1.threads (record thread { stage = next }) x t u inside found) [
            | inl e ↦
                let (zero_, old) = v.placed u x (ap (λ l. get_elem? l u) (sym m.same) ∙ e) in
                (zero_, Placed-Moved s s1 x.client.ip_address x.stage m old)
            | inr e ↦
                subst
                  (λ x.
                    (x.client.echo_count ≡ 0)
                    × Placed (addresses s1.cfds) x.client.ip_address x.stage)
                  e ((v.placed t thread at).0, place)
          ];
    }

handle_event-Inv :
    (w : Network) (e : Event) (s s1 : Server) → Inv s → handle_event w e s ≡ ok s1 → Inv s1
unfolding handle_event
handle_event-Inv w (accepted fd ip) s s1 v h = subst Inv (ok-injective h) (record {
  total = v.total;
  users = v.users;
  placed = λ t x found. elim (last_or_old s.threads _ x t found) [
    | inl e ↦ v.placed t x e
    | inr e ↦
        subst
          (λ x. (x.client.echo_count ≡ 0) × Placed (addresses s.cfds) x.client.ip_address x.stage) e
          (refl, tt)
  ];
})
handle_event-Inv w (turn t k) s s1 v h = after (deref (get_elem? s.threads t)) _ s1 h λ thread e h1.
    let at = deref-eq-ok (get_elem? s.threads t) thread e in
    let (zero_, place) = v.placed t thread at in
    after (advance w k thread.client thread.stage s) _ s1 h1 λ y e1 h2.
      let (m, next) = advance-Reached w k thread.client thread.stage s y v zero_ place e1 in
      subst Inv (ok-injective h2) (turn-Inv s y.1 t thread y.0 v at m next)

run-Inv :
    (w : Network) (events : List Event) (s s1 : Server) → Inv s → run w events s ≡ ok s1 → Inv s1
unfolding run
run-Inv w [] s s1 v h = subst Inv (ok-injective h) v
run-Inv w (e ∷ events) s s1 v h =
    after (if s.exited then ok s else handle_event w e s) _ s1 h λ s2 e1 h1.
      let v1 : Inv s2 =
        if_after s.exited (ok s) (handle_event w e s) s2 e1
          (λ same. subst Inv (ok-injective same) v) (handle_event-Inv w e s s2 v) in
      run-Inv w events s2 s1 v1 h1

-- After any connections and any interleaving of the steps of their threads that is handled without
-- a fault, whatever the kernel answers: the total of the echoes is the sum of the users' counts, no
-- address stands twice in the table, and every thread is at the entry of its own client's address
-- and about to answer with a user's count of at most the total.
pub run-start-IsAccounted :
    (w : Network) (events : List Event) (s : Server) → run w events start ≡ ok s → Inv s
unfolding start echoes addresses
run-start-IsAccounted w events s h =
    run-Inv w events start s (record { total = refl; users = tt; placed = λ t x found. cc }) h

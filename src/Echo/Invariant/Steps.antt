-- ===== src/Echo/Invariant/Steps.antt =====
-- Mini Project 27-1-26/EchoServer.c: every step keeps the counts and the table in order.
use intern_status_update.Base.{
  ℕ, zero, suc, ◌+◌, ◌≤◌, ◌^◌, ◌≡◌, refl, ap, subst, sym, inl, inr, [], ◌∷◌, List, Bool, true,
  false, ◌&&◌, some, ok, deref, deref-eq-ok, after, ok-injective, if_ok, ltb, get_elem?, arith,
  Bool-cases, some-injective,
}
use intern_status_update.Packet.{ClientData, unpack_client_data, trim}
use intern_status_update.Base.Int.{no_fd}
use intern_status_update.Packet.Server.{Network, ServerData}
use intern_status_update.Packet.Transfer.{Received, whole, none_left, broken}
use intern_status_update.Echo.{
  Client, Stage, joining, reading, counting, answering, sending, leaving, ended, Server, Kernel,
  is_exit, add_or_update_user, receive, count_echo, read_counts, send_answer, forget_socket,
  advance,
}
use intern_status_update.Echo.Invariant.{
  echoes, addresses, Placed, Inv, Moved, set-Moved, same-Moved,
}
use intern_status_update.Echo.Invariant.Table.{add_or_update_user-Moved}

pub echoes-bound :
    (cfds : List Client) (i : ℕ) (c : Client)
    → get_elem? cfds i ≡ some c
    → c.echo_count ≤ echoes cfds
unfolding echoes
echoes-bound [] i c h = cc
echoes-bound (x ∷ cfds) zero c h =
    let first : x.echo_count ≡ c.echo_count = ap (λ c. c.echo_count) (some-injective h) in
    omega arith
echoes-bound (x ∷ cfds) (suc i) c h = omega (arith, echoes-bound cfds i c h)

count_echo-Moved : (pos : ℕ) (s s1 : Server) → Inv s → count_echo pos s ≡ ok s1 → Moved s s1
unfolding count_echo
count_echo-Moved pos s s1 v h = after (deref (get_elem? s.cfds pos)) _ s1 h λ c e h1.
    let found = deref-eq-ok (get_elem? s.cfds pos) c e in
    let same =
      sym (if_ok (ltb (c.echo_count + 1) (2 ^ 31) && ltb (s.total_echo + 1) (2 ^ 63)) _ s1 h1) in
    let counted : s1.total_echo ≡ s.total_echo + 1 = ap (λ x. x.total_echo) same in
    set-Moved s s1 pos c (record c { echo_count = c.echo_count + 1 }) found refl
      (ap (λ x. x.cfds) same) (ap (λ x. x.threads) same) (omega arith) v

forget_socket-Moved : (pos : ℕ) (s s1 : Server) → Inv s → forget_socket pos s ≡ ok s1 → Moved s s1
unfolding forget_socket
forget_socket-Moved pos s s1 v h = after (deref (get_elem? s.cfds pos)) _ s1 h λ c e h1.
    let found = deref-eq-ok (get_elem? s.cfds pos) c e in
    let same = sym (ok-injective h1) in
    set-Moved s s1 pos c (record c { fd = no_fd }) found refl (ap (λ x. x.cfds) same)
      (ap (λ x. x.threads) same) (ap (λ x. x.total_echo + c.echo_count) same) v

-- A thread of this address after a step.
abbrev pub Reached : Client → Server → Stage × Server → Type 0
Reached cfd s (next, s1) = Moved s s1 × Placed (addresses s1.cfds) cfd.ip_address next

-- The step returned what it is known to reach.
reached :
    (cfd : Client) (s : Server) (x y : Stage × Server)
    → ok x ≡ ok y
    → Reached cfd s x
    → Reached cfd s y
reached cfd s x y h r = subst (Reached cfd s) (ok-injective h) r

-- A step that leaves table and threads.
here :
    (cfd : Client) (s s1 : Server) (next : Stage)
    → s1.cfds ≡ s.cfds
    → s1.total_echo ≡ s.total_echo
    → s1.threads ≡ s.threads
    → Inv s
    → Placed (addresses s1.cfds) cfd.ip_address next
    → Reached cfd s (next, s1)
here cfd s s1 next table total same v place = (same-Moved s s1 table total same v, place)

receive-Reached :
    (input : Received) (cfd : Client) (pos : ℕ) (s : Server) (y : Stage × Server)
    → Inv s
    → get_elem? (addresses s.cfds) pos ≡ some cfd.ip_address
    → receive input cfd pos s ≡ ok y
    → Reached cfd s y
unfolding receive
receive-Reached (whole bytes) cfd pos s y v at h = after (unpack_client_data bytes) _ y h λ d e h1.
    elim (Bool-cases (is_exit d.message)) [
      | inl e1 ↦ reached cfd s _ y (rw e1 at h1) (here cfd s _ (leaving pos) refl refl refl v at)
      | inr e1 ↦ reached cfd s _ y (rw e1 at h1) (here cfd s _ (counting pos d) refl refl refl v at)
    ]
receive-Reached none_left cfd pos s y v at h =
    reached cfd s _ y h (here cfd s _ (leaving pos) refl refl refl v at)
receive-Reached broken cfd pos s y v at h =
    reached cfd s _ y h (here cfd s _ ended refl refl refl v tt)

send_answer-Moved :
    (w : Network) (sends : Bool) (cfd : Client) (sdata : ServerData) (s s1 : Server)
    → Inv s
    → send_answer w sends cfd sdata s ≡ ok s1
    → Moved s s1
unfolding send_answer
send_answer-Moved w false cfd sdata s s1 v h =
    let same = sym (ok-injective h) in
    same-Moved s s1 (ap (λ x. x.cfds) same) (ap (λ x. x.total_echo) same) (ap (λ x. x.threads) same)
      v
send_answer-Moved w true cfd sdata s s1 v h = after (trim sdata.echo.message) _ s1 h λ message e h1.
    let same = sym (ok-injective h1) in
    same-Moved s s1 (ap (λ x. x.cfds) same) (ap (λ x. x.total_echo) same) (ap (λ x. x.threads) same)
      v

-- The counts that are answered.
read_counts-le :
    (pos : ℕ) (d : ClientData) (s : Server) (sdata : ServerData)
    → Inv s
    → read_counts pos d s ≡ ok sdata
    → sdata.user_count ≤ sdata.total_count
unfolding read_counts
read_counts-le pos d s sdata v h = after (deref (get_elem? s.cfds pos)) _ sdata h λ c e h1.
    let found = deref-eq-ok (get_elem? s.cfds pos) c e in
    let bound = echoes-bound s.cfds pos c found in
    let same = sym (ok-injective h1) in
    let user : sdata.user_count ≡ c.echo_count = ap (λ x. x.user_count) same in
    let total : sdata.total_count ≡ s.total_echo = ap (λ x. x.total_count) same in
    omega (arith, v.total)

-- A step of a thread keeps the counts and the table, and the thread at its entry.
pub advance-Reached :
    (w : Network) (k : Kernel) (cfd : Client) (stage : Stage) (s : Server) (y : Stage × Server)
    → Inv s
    → cfd.echo_count ≡ 0
    → Placed (addresses s.cfds) cfd.ip_address stage
    → advance w k cfd stage s ≡ ok y
    → Reached cfd s y
unfolding advance
advance-Reached w k cfd joining s y v zero_ at h =
    after (add_or_update_user cfd s) _ y h
      λ x e h1. reached cfd s _ y h1 (add_or_update_user-Moved cfd s x.1 x.0 v zero_ e)
advance-Reached w k cfd (reading pos) s y v zero_ at h = receive-Reached k.input cfd pos s y v at h
advance-Reached w k cfd (counting pos data_) s y v zero_ at h =
    after (count_echo pos s) _ y h λ s1 e h1.
      let m = count_echo-Moved pos s s1 v e in reached cfd s _ y h1 (m, m.old pos cfd.ip_address at)
advance-Reached w k cfd (answering pos data_) s y v zero_ at h =
    after (read_counts pos data_ s) _ y h λ sdata e h1.
      reached cfd s _ y h1
        (same-Moved s s refl refl refl v, (at, read_counts-le pos data_ s sdata v e))
advance-Reached w k cfd (sending pos sdata) s y v zero_ at h =
    after (send_answer w k.sends cfd sdata s) _ y h λ s1 e h1.
      let m = send_answer-Moved w k.sends cfd sdata s s1 v e in
      reached cfd s _ y h1 (m, m.old pos cfd.ip_address at.0)
advance-Reached w k cfd (leaving pos) s y v zero_ at h =
    after (forget_socket pos s) _ y h
      λ s1 e h1. reached cfd s _ y h1 (forget_socket-Moved pos s s1 v e, tt)
advance-Reached w k cfd ended s y v zero_ at h =
    reached cfd s _ y h (same-Moved s s refl refl refl v, tt)

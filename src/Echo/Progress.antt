-- ===== src/Echo/Progress.antt =====
-- Mini Project 27-1-26/EchoServer.c: when a turn of a thread returns.
use intern_status_update.Base.{
  ℕ, zero, suc, ◌+◌, ◌≤◌, ◌<◌, ◌^◌, ◌≡◌, refl, ap, subst, sym, inl, inr, [], ◌∷◌, List, Bytes, Bool,
  true, false, ◌&&◌, none, some, ok, fault, deref, Returns, >>=-Returns, if◌then◌else◌, ltb, lt→ltb,
  length, get_elem?, drop, take_exact, length-drop, arith, Option-cases,
}
use intern_status_update.Packet.{unpack_client_data, trim}
use intern_status_update.Packet.Server.{Network, ServerData}
use intern_status_update.Packet.Transfer.{Received, whole, none_left, broken}
use intern_status_update.Echo.{
  Client, Stage, joining, reading, counting, answering, sending, leaving, ended, Thread, Server,
  Kernel, turn, find_user, update_user, add_user, add_or_update_user, receive, count_echo,
  read_counts, send_answer, forget_socket, advance, handle_event,
}
use intern_status_update.Echo.Invariant.{addresses, Placed, Inv}
use intern_status_update.Echo.Invariant.Table.{find_user-some}
use intern_status_update.Echo.Invariant.Steps.{echoes-bound}

-- A packet has all its bytes.
abbrev pub Whole : Received → Type 0
Whole (whole bytes) = length bytes ≡ 133
Whole none_left = Unit {0}
Whole broken = Unit {0}

-- The message that is about to be printed can be trimmed.
abbrev pub Trims : Stage → Type 0
Trims (sending pos sdata) = Returns (trim sdata.echo.message)
Trims joining = Unit {0}
Trims (reading pos) = Unit {0}
Trims (counting pos data_) = Unit {0}
Trims (answering pos data_) = Unit {0}
Trims (leaving pos) = Unit {0}
Trims ended = Unit {0}

take_exact-Returns : (n : ℕ) (xs : Bytes) → n ≤ length xs → Returns (take_exact xs n)
unfolding take_exact
take_exact-Returns zero xs h = ([], refl)
take_exact-Returns (suc n) [] h = absurd (omega arith)
take_exact-Returns (suc n) (x ∷ xs) h =
    let (ys, e) = take_exact-Returns n xs (omega arith) in (x ∷ ys, (rw e refl))

unpack_client_data-Returns :
    (bytes : Bytes) → length bytes ≡ 133 → Returns (unpack_client_data bytes)
unfolding unpack_client_data
unpack_client_data-Returns bytes h =
    let (message, e) = take_exact-Returns 100 bytes (omega arith) in
    let (time, e1) =
      take_exact-Returns 32 (drop 100 bytes) (omega (arith, length-drop 100 bytes)) in
    >>=-Returns (take_exact bytes 100) _ message e
      (>>=-Returns (take_exact (drop 100 bytes) 32) _ time e1 (_, refl))

-- The entry of an address in the table.
entry :
    (cfds : List Client) (pos : ℕ) (ip : Bytes)
    → get_elem? (addresses cfds) pos ≡ some ip
    → (c : Client) × (deref (get_elem? cfds pos) ≡ ok c) × (get_elem? cfds pos ≡ some c)
unfolding addresses
entry [] pos ip h = cc
entry (c ∷ cfds) zero ip h = (c, refl, refl)
entry (c ∷ cfds) (suc pos) ip h = entry cfds pos ip h

update_user-Returns :
    (cfd : Client) (s : Server) (i : ℕ)
    → get_elem? (addresses s.cfds) i ≡ some cfd.ip_address
    → Returns (update_user cfd i s)
unfolding update_user
update_user-Returns cfd s i h =
    let (c, at, found) = entry s.cfds i cfd.ip_address h in
    >>=-Returns (deref (get_elem? s.cfds i)) _ c at (_, refl)

-- A guard that holds.
guarded {ℓ} : {A : Type ℓ} (b : Bool) (a : A) → b ≡ true → Returns (if b then ok a else fault)
guarded true a h = (a, refl)
guarded false a h = cc

add_or_update_user-Returns :
    (cfd : Client) (s : Server) → length s.cfds < 100 → Returns (add_or_update_user cfd s)
unfolding add_or_update_user add_user
add_or_update_user-Returns cfd s room = elim (Option-cases (find_user cfd.ip_address s.cfds)) [
  | inl e ↦
      subst (λ o. Returns (elim o [ none ↦ add_user cfd s | some i ↦ update_user cfd i s ])) (sym e)
        (guarded (ltb (length s.cfds) 100) _ (lt→ltb (length s.cfds) 100 room))
  | inr (i, e) ↦
      subst (λ o. Returns (elim o [ none ↦ add_user cfd s | some i ↦ update_user cfd i s ])) (sym e)
        (update_user-Returns cfd s i (find_user-some cfd.ip_address s.cfds i e))
]

count_echo-Returns :
    (pos : ℕ) (ip : Bytes) (s : Server)
    → Inv s
    → get_elem? (addresses s.cfds) pos ≡ some ip
    → s.total_echo + 1 < 2 ^ 31
    → Returns (count_echo pos s)
unfolding count_echo
count_echo-Returns pos ip s v at small =
    let (c, e, found) = entry s.cfds pos ip at in
    let bound = echoes-bound s.cfds pos c found in
    let first : ltb (c.echo_count + 1) (2 ^ 31) ≡ true =
      lt→ltb (c.echo_count + 1) (2 ^ 31) (omega (arith, v.total)) in
    let second : ltb (s.total_echo + 1) (2 ^ 63) ≡ true =
      lt→ltb (s.total_echo + 1) (2 ^ 63) (omega arith) in
    >>=-Returns (deref (get_elem? s.cfds pos)) _ c e (
      guarded (ltb (c.echo_count + 1) (2 ^ 31) && ltb (s.total_echo + 1) (2 ^ 63)) _
        (rw (first, second) refl))

receive-Returns :
    (input : Received) (cfd : Client) (pos : ℕ) (s : Server)
    → Whole input
    → Returns (receive input cfd pos s)
unfolding receive
receive-Returns (whole bytes) cfd pos s full =
    let (d, e) = unpack_client_data-Returns bytes full in
    >>=-Returns (unpack_client_data bytes) _ d e (_, refl)
receive-Returns none_left cfd pos s full = (_, refl)
receive-Returns broken cfd pos s full = (_, refl)

send_answer-Returns :
    (w : Network) (sends : Bool) (cfd : Client) (sdata : ServerData) (s : Server)
    → Returns (trim sdata.echo.message)
    → Returns (send_answer w sends cfd sdata s)
unfolding send_answer
send_answer-Returns w false cfd sdata s h = (_, refl)
send_answer-Returns w true cfd sdata s (message, h) =
    >>=-Returns (trim sdata.echo.message) _ message h (_, refl)

advance-Returns :
    (w : Network) (k : Kernel) (cfd : Client) (stage : Stage) (s : Server)
    → Inv s
    → Placed (addresses s.cfds) cfd.ip_address stage
    → length s.cfds < 100
    → s.total_echo + 1 < 2 ^ 31
    → Whole k.input
    → Trims stage
    → Returns (advance w k cfd stage s)
unfolding advance read_counts forget_socket
advance-Returns w k cfd joining s v at room small full trims =
    let (y, e) = add_or_update_user-Returns cfd s room in
    >>=-Returns (add_or_update_user cfd s) _ y e (_, refl)
advance-Returns w k cfd (reading pos) s v at room small full trims =
    receive-Returns k.input cfd pos s full
advance-Returns w k cfd (counting pos data_) s v at room small full trims =
    let (s1, e) = count_echo-Returns pos cfd.ip_address s v at small in
    >>=-Returns (count_echo pos s) _ s1 e (_, refl)
advance-Returns w k cfd (answering pos data_) s v at room small full trims =
    let (c, e, found) = entry s.cfds pos cfd.ip_address at in
    let (r, e1) = >>=-Returns (deref (get_elem? s.cfds pos)) _ c e (_, refl) in
    >>=-Returns (read_counts pos data_ s) _ r e1 (_, refl)
advance-Returns w k cfd (sending pos sdata) s v at room small full trims =
    let (s1, e) = send_answer-Returns w k.sends cfd sdata s trims in
    >>=-Returns (send_answer w k.sends cfd sdata s) _ s1 e (_, refl)
advance-Returns w k cfd (leaving pos) s v at room small full trims =
    let (c, e, found) = entry s.cfds pos cfd.ip_address at in
    let (r, e1) = >>=-Returns (deref (get_elem? s.cfds pos)) _ c e (_, refl) in
    >>=-Returns (forget_socket pos s) _ r e1 (_, refl)
advance-Returns w k cfd ended s v at room small full trims = (_, refl)

-- Where the counts are right, a turn of any thread returns, if the table has a free entry, there are
-- fewer than 2^31 - 1 echoes, a packet that comes has 133 bytes, and trim returns for the message that
-- is to be printed.
pub handle_event-turn :
    (w : Network) (k : Kernel) (t : ℕ) (thread : Thread) (s : Server)
    → Inv s
    → get_elem? s.threads t ≡ some thread
    → length s.cfds < 100
    → s.total_echo + 1 < 2 ^ 31
    → Whole k.input
    → Trims thread.stage
    → Returns (handle_event w (turn t k) s)
unfolding handle_event
handle_event-turn w k t thread s v at room small full trims =
    let (zero_, place) = v.placed t thread at in
    let (y, e) = advance-Returns w k thread.client thread.stage s v place room small full trims in
    >>=-Returns (deref (get_elem? s.threads t)) _ thread (ap deref at)
      (>>=-Returns (advance w k thread.client thread.stage s) _ y e (_, refl))

-- ===== src/Proxy/Server/Progress.antt =====
-- Events that never fault: the relay, a new client, the end of a connection; and a refused client.
use intern_status_update.Base.{
  Option-cases, inl, inr, drop, after, ok-injective, ℕ, ◌≡◌, refl, sym, ap, ◌∙◌, [], ◌∷◌, ◌++◌,
  List, Bytes, Bool, true, false, not, ◌&&◌, Option, none, some, Run, ok, >>=-ok, deref,
  if◌then◌else◌, set, live,
}
use intern_status_update.Base.Int.{ℤ, int_eq}
use intern_status_update.Proxy.Text.{find_text, split_at_byte}
use intern_status_update.Proxy.Auth.{
  User, validate, refusal, header, decoded_memory, check_header, authorize_text, authorize,
}
use intern_status_update.Proxy.State.{Connection, End, Proxy, load_end, load_connection}
use intern_status_update.Proxy.State.Holders.{Inv, holders}
use intern_status_update.Proxy.State.Cleanup.{cleanup_connection-Inv, remains}
use intern_status_update.Proxy.Server.{
  received, Sent, some_sent, none_sent, send_would_block, send_failed, Kernel, send_all, logged,
  first_request, client_input, relay, socket_event, handle_event,
}

-- A client's first packet: it comes on the first descriptor of a connection that is no tunnel and not
-- authorized.
abbrev pub is_first : End → Connection → Bool
is_first x c = int_eq x.fd c.fd1 && (not x.tunnel_mode && not c.authorized)

if_true : (b : Bool) (m n : Run Proxy) → b ≡ true → (if b then m else n) ≡ m
if_true b m n e = rw e refl

if_false : (b : Bool) (m n : Run Proxy) → b ≡ false → (if b then m else n) ≡ n
if_false b m n e = rw e refl

event_step :
    (k : Kernel) (d : ℕ) (x : End) (p : ℕ) (c : Connection) (s : Proxy)
    → x.connection ≡ some p
    → live s.connections p ≡ some c
    → socket_event k d x s ≡ (
        if is_first x c
        then client_input k d p x k.input s
        else (if c.authorized then relay k d x c k.input s else ok s))
unfolding socket_event
event_step k d x p c s own open_ =
    >>=-ok (deref x.connection) _ p (ap deref own)
    ∙ >>=-ok (load_connection p s) _ c (ap deref open_)

-- A refusal has one answer.
check_header-refused :
    (decode_block : Bytes → Option Bytes) (at stale : Bytes) (users : List User)
    (replies : List Bytes)
    → check_header decode_block at stale users ≡ ok (false, replies)
    → replies ≡ refusal ∷ []
unfolding check_header
check_header-refused decode_block at stale users replies h =
    after (deref (split_at_byte 0x0D (drop 27 at))) _ _ h λ line e1 h1.
      after (decoded_memory decode_block line.0 stale) _ _ h1 λ mem e2 h2.
        after (validate mem users) _ _ h2 λ valid e3 h3.
          let same = ok-injective h3 in
          let refused : valid ≡ false = ap (λ t. t.0) same in
          sym (ap (λ t. t.1) same) ∙ rw refused refl

authorize_text-refused :
    (decode_block : Bytes → Option Bytes) (text stale : Bytes) (users : List User)
    (replies : List Bytes)
    → authorize_text decode_block text stale users ≡ ok (false, replies)
    → replies ≡ refusal ∷ []
unfolding authorize_text
authorize_text-refused decode_block text stale users replies h =
    elim (Option-cases (find_text header text)) [
      | inl e ↦ sym (ap (λ t. t.1) (ok-injective (rw (e, authorize_text) at h)))
      | inr (at, e) ↦
          check_header-refused decode_block at stale users replies (rw (e, authorize_text) at h)
    ]

authorize-refused :
    (decode_block : Bytes → Option Bytes) (buf stale : Bytes) (users : List User)
    (replies : List Bytes)
    → authorize decode_block buf stale users ≡ ok (false, replies)
    → replies ≡ refusal ∷ []
unfolding authorize
authorize-refused decode_block buf stale users replies h =
    after (deref (split_at_byte 0 buf)) _ _ h
      λ text e h1. authorize_text-refused decode_block text.0 stale users replies h1

-- The log behind a `send` with this answer.
abbrev pub log_of : Sent → ℤ × Bytes → List (ℤ × Bytes) → List (ℤ × Bytes)
log_of some_sent message log = message ∷ log
log_of none_sent message log = log
log_of send_would_block message log = log
log_of send_failed message log = log

logged-refusal :
    (k : Kernel) (to : ℤ) (replies : List Bytes) (log : List (ℤ × Bytes)) (answer : Sent)
    → replies ≡ refusal ∷ []
    → k.send to refusal ≡ answer
    → logged k to replies log ≡ log_of answer (to, refusal) log
logged-refusal k to replies log some_sent e h = rw (e, h) refl
logged-refusal k to replies log none_sent e h = rw (e, h) refl
logged-refusal k to replies log send_would_block e h = rw (e, h) refl
logged-refusal k to replies log send_failed e h = rw (e, h) refl

-- Where the counts of references are right: when `authorize` refuses a client's first packet, the
-- refusal is given to `send`, and what that takes of it is all that is sent; then the client's end is
-- freed. The cache, the users and every other end are as before, and no server is asked.
pub handle_event_refused :
    (listen_fd : ℤ) (k : Kernel) (d : ℕ) (x : End) (p : ℕ) (c : Connection) (s : Proxy)
    (bytes : Bytes) (replies : List Bytes)
    → Inv s
    → live s.ends d ≡ some x
    → x.connection ≡ some p
    → live s.connections p ≡ some c
    → is_first x c ≡ true
    → k.broken ≡ false
    → int_eq x.fd listen_fd ≡ false
    → k.input ≡ received bytes
    → authorize k.decode_block (bytes ++ k.stale) k.decoded_stale s.users ≡ ok (false, replies)
    → let ends = set s.ends d none in
      handle_event listen_fd k d s
      ≡ ok (record s {
        ends = ends;
        connections = set s.connections p (remains c (holders p ends));
        sent = log_of (k.send x.fd refusal) (x.fd, refusal) s.sent;
      })
unfolding handle_event client_input first_request
handle_event_refused listen_fd k d x p c s bytes replies v at own open_ first whole apart input
      refused =
    let s1 = send_all k x.fd replies s in
    let ends = set s.ends d none in
    let (done, _) = cleanup_connection-Inv s1 d x p c v at own open_ in
    let one =
      authorize-refused k.decode_block (bytes ++ k.stale) k.decoded_stale s.users replies refused in
    >>=-ok (load_end d s) _ x (ap deref at)
    ∙ if_false k.broken _ _ whole
    ∙ if_false (int_eq x.fd listen_fd) _ _ apart
    ∙ event_step k d x p c s own open_
    ∙ if_true (is_first x c) _ _ first
    ∙ ap (λ i. client_input k d p x i s) input
    ∙ >>=-ok (authorize k.decode_block (bytes ++ k.stale) k.decoded_stale s.users) _
        (false, replies) refused
    ∙ done
    ∙ ap {B = Run Proxy}
        (λ log. ok (record s {
          ends = ends;
          connections = set s.connections p (remains c (holders p ends));
          sent = log;
        }))
        (logged-refusal k x.fd replies s.sent (k.send x.fd refusal) one refl)

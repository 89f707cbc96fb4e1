-- ===== src/Chat/Server/Invariant.antt =====
-- Every event of a client keeps the table of names in order.
use intern_status_update.Base.{
  after, deref-eq-ok, ℕ, ◌≡◌, refl, sym, ap, ◌∙◌, inl, inr, Bytes, Bool, true, false, List, ◌∷◌, [],
  ◌++◌, some, Run, ok, fault, ok-injective, if◌then◌else◌, leb, ◌==◌, Bool-cases, Option-cases,
  str_eq, not, ◌&&◌, ◌+◌, length, codes, live,
}
use intern_status_update.Base.Int.{ℤ}
use intern_status_update.Frame.{Frame, parse_frame}
use intern_status_update.HashMap.{Table, get}
use intern_status_update.TicTacToe.Server.{Received, received, closed, failed}
use intern_status_update.Chat.Message.{Message, parse_json_string, broadcast_text}
use intern_status_update.Chat.Server.{
  Client, Server, load, frame_bytes, send_chain, send_all, broadcast, relay, chat_message,
  client_event,
}
use intern_status_update.Chat.Server.Owners.{Inv}
use intern_status_update.Chat.Server.Registry.{Keeps, close_connection-Keeps, register-Keeps}

-- Code that only sends.
abbrev Quiet : (Server → Run Server) → Type 0
Quiet f = (s t : Server) → f s ≡ ok t → (t.table ≡ s.table) × (t.clients ≡ s.clients)

Quiet-Keeps : (f : Server → Run Server) → Quiet f → Keeps f
Quiet-Keeps f quiet s v t h =
    let (tables, clients) = quiet s t h in
    record {
      table = rw tables v.table;
      owner = λ key p listed. rw (clients) (v.owner key p (rw tables at listed));
    }

send_chain-Quiet :
    (fd : ℤ) (bytes : Bytes) (chain : List (Bytes × ℕ)) → Quiet (send_chain fd bytes chain)
unfolding send_chain
send_chain-Quiet fd bytes [] s t h =
    (ap (λ u. u.table) (sym (ok-injective h)), ap (λ u. u.clients) (sym (ok-injective h)))
send_chain-Quiet fd bytes ((k, p) ∷ chain) s t h =
    after (load p s) _ t h λ r e g. send_chain-Quiet fd bytes chain _ t g

send_all-Quiet : (fd : ℤ) (bytes : Bytes) (table : Table ℕ) → Quiet (send_all fd bytes table)
unfolding send_all
send_all-Quiet fd bytes [] s t h =
    (ap (λ u. u.table) (sym (ok-injective h)), ap (λ u. u.clients) (sym (ok-injective h)))
send_all-Quiet fd bytes (chain ∷ table) s t h = after (send_chain fd bytes chain s) _ t h λ s1 e g.
    let (a, b) = send_chain-Quiet fd bytes chain s s1 e in
    let (a', b') = send_all-Quiet fd bytes table s1 t g in (a' ∙ a, b' ∙ b)

broadcast-Quiet : (r : Client) (f : Frame) (m : Message) → Quiet (broadcast r f m)
unfolding broadcast
broadcast-Quiet r f m s t h =
    let text = broadcast_text m in
    after (if leb (length text + 1) (f.payload_len + 20) then ok text else fault) _ t h
      λ payload e g.
        after (frame_bytes (record f { payload_data = payload; payload_len = length payload })) _ t
          g λ bytes e2 g2. send_all-Quiet r.fd bytes s.table s t g2

relay-Quiet : (f : Frame) (m : Message) → Quiet (relay f m)
unfolding relay
relay-Quiet f m s t h = elim (Option-cases (get m.to s.table)) [
  | inl e ↦
      let same : s ≡ t = ok-injective (rw (e, relay) at h) in
      (ap (λ u. u.table) (sym same), ap (λ u. u.clients) (sym same))
  | inr (p, e) ↦ after (frame_bytes f) _ t (rw (e, relay) at h) λ bytes e1 g.
      after (load p s) _ t g λ r e2 g2.
        (ap (λ u. u.table) (sym (ok-injective g2)), ap (λ u. u.clients) (sym (ok-injective g2)))
]

not_added : (added b : Bool) → (not added && b) ≡ true → added ≡ false
not_added true b h = cc
not_added false b h = refl

chat_message-Keeps :
    (c : ℕ) (r : Client) (f : Frame) (m : Message) (s t : Server)
    → Inv s
    → live s.clients c ≡ some r
    → chat_message c r f m s ≡ ok t
    → Inv t
unfolding chat_message
chat_message-Keeps c r f m s t v at h =
    let create = not r.added && (str_eq (codes "client") m.from && str_eq (codes "server") m.to) in
    let all = r.added && (r.active && str_eq m.to (codes "broadcast")) in
    elim (Bool-cases create) [
      | inl e ↦ register-Keeps c r m s t v at (not_added r.added _ e) (rw (e, chat_message) at h)
      | inr e ↦ elim (Bool-cases all) [
        | inl e2 ↦
            Quiet-Keeps (broadcast r f m) (broadcast-Quiet r f m) s v t
              (rw (e, e2, chat_message) at h)
        | inr e2 ↦ Quiet-Keeps (relay f m) (relay-Quiet f m) s v t (rw (e, e2, chat_message) at h)
      ]
    ]

-- From a state in which the table is well formed and every name in it stands for a client that is
-- alive, registered and has this name, the handling of whatever a client sends, if it is without a
-- fault, leads to such a state.
pub client_event-Inv :
    (c : ℕ) (input : Received) (stale : Bytes) (s t : Server)
    → Inv s
    → client_event c input stale s ≡ ok t
    → Inv t
unfolding client_event
client_event-Inv c (received bytes) stale s t v h = after (load c s) _ t h λ r e1 h1.
    after (parse_frame (bytes ++ stale)) _ t h1 λ f e2 h2. elim (Bool-cases (f.opcode == 8)) [
      | inl e ↦ close_connection-Keeps c s v t (rw e at h2)
      | inr e ↦
          after (parse_json_string f.payload_data) _ t (rw e at h2)
            λ m e3 h3. chat_message-Keeps c r f m s t v (deref-eq-ok (live s.clients c) r e1) h3
    ]
client_event-Inv c closed stale s t v h = close_connection-Keeps c s v t h
client_event-Inv c failed stale s t v h = close_connection-Keeps c s v t h

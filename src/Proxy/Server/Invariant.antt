-- ===== src/Proxy/Server/Invariant.antt =====
-- Every event keeps the counts of references right.
use intern_status_update.Base.{
  if_after, ℕ, zero, suc, ◌≡◌, refl, ap, inl, inr, [], ◌∷◌, List, Bytes, not, ◌&&◌, Option-cases,
  none, some, ok, deref, after, deref-eq-ok, if◌then◌else◌, live, some-injective,
}
use intern_status_update.Base.Int.{ℤ, int_eq}
use intern_status_update.Proxy.State.{
  Connection, End, Proxy, load_end, load_connection, cleanup_connection,
}
use intern_status_update.Proxy.State.Holders.{Inv}
use intern_status_update.Proxy.Server.{
  Received, received, closed, would_block, failed, Sent, some_sent, none_sent, send_would_block,
  send_failed, Kernel, accept_client, client_input, remember, relay_bytes, relay, socket_event,
  handle_event, run, start,
}
use intern_status_update.Proxy.Server.Steps.{Keeps, same-Inv, cleanup-Keeps, accept_client-Keeps}
use intern_status_update.Proxy.Server.Requests.{client_input-Keeps}

-- What the cache keeps is no part of it.
pub remember-same :
    (c : Connection) (bytes : Bytes) (s : Proxy)
    → ((remember c bytes s).connections ≡ s.connections) × ((remember c bytes s).ends ≡ s.ends)
remember-same c bytes s = elim (Option-cases c.key) [
  | inl e ↦ rw e (refl, refl)
  | inr (key, e) ↦ rw e (refl, refl)
]

relay_bytes-Keeps :
    (k : Kernel) (d : ℕ) (to : ℤ) (bytes : Bytes) (answer : Sent)
    → Keeps (relay_bytes k d to bytes answer)
unfolding relay_bytes
relay_bytes-Keeps k d to bytes some_sent s t v h =
    same-Inv (record s { sent = (to, bytes) ∷ s.sent }) t v h
relay_bytes-Keeps k d to bytes send_would_block s t v h = same-Inv s t v h
relay_bytes-Keeps k d to bytes none_sent s t v h = cleanup-Keeps d s t v h
relay_bytes-Keeps k d to bytes send_failed s t v h = cleanup-Keeps d s t v h

relay-Keeps :
    (k : Kernel) (d : ℕ) (x : End) (c : Connection) (input : Received) → Keeps (relay k d x c input)
unfolding relay
relay-Keeps k d x c (received bytes) s t v h =
    let to = if int_eq c.fd1 x.fd then c.fd2 else c.fd1 in
    let (same_connections, same_ends) = remember-same c bytes s in
    let v1 : Inv (remember c bytes s) = rw (same_connections, same_ends) v in
    relay_bytes-Keeps k d to bytes (k.send to bytes) (remember c bytes s) t v1 h
relay-Keeps k d x c would_block s t v h = same-Inv s t v h
relay-Keeps k d x c closed s t v h = cleanup-Keeps d s t v h
relay-Keeps k d x c failed s t v h = cleanup-Keeps d s t v h

socket_event-Keeps :
    (k : Kernel) (d : ℕ) (x : End) (s t : Proxy)
    → Inv s
    → live s.ends d ≡ some x
    → socket_event k d x s ≡ ok t
    → Inv t
unfolding socket_event
socket_event-Keeps k d x s t v at h = after (deref x.connection) _ t h λ p e h1.
    after (load_connection p s) _ t h1 λ c e1 h2.
      if_after (int_eq x.fd c.fd1 && (not x.tunnel_mode && not c.authorized))
        (client_input k d p x k.input s) _ t h2 (client_input-Keeps k d p x k.input s t v at)
        λ h3.
          if_after c.authorized (relay k d x c k.input s) (ok s) t h3
            (relay-Keeps k d x c k.input s t v) (same-Inv s t v)

handle_event-Keeps : (listen_fd : ℤ) (k : Kernel) (d : ℕ) → Keeps (handle_event listen_fd k d)
unfolding handle_event
handle_event-Keeps listen_fd k d s t v h = after (load_end d s) _ t h λ x e h1.
    if_after k.broken (cleanup_connection d s) _ t h1 (cleanup-Keeps d s t v) λ h2.
      if_after (int_eq x.fd listen_fd) (accept_client k.accepted s) (socket_event k d x s) t h2
        (accept_client-Keeps k.accepted s t v)
        (socket_event-Keeps k d x s t v (deref-eq-ok (live s.ends d) x e))

run-Keeps : (listen_fd : ℤ) (events : List (Kernel × ℕ)) → Keeps (run listen_fd events)
unfolding run
run-Keeps listen_fd [] s t v h = same-Inv s t v h
run-Keeps listen_fd ((k, d) ∷ events) s t v h =
    after (handle_event listen_fd k d s) _ t h
      λ s1 e g. run-Keeps listen_fd events s1 t (handle_event-Keeps listen_fd k d s s1 v e) g

no_connection :
    (listen_fd : ℤ) (d : ℕ) (x : End) (p : ℕ)
    → live (start listen_fd).ends d ≡ some x
    → x.connection ≡ some p
    → ⊥
unfolding start
no_connection listen_fd zero x p at own =
    let none_held : none ≡ x.connection = ap (λ b. b.connection) (some-injective at) in cc
no_connection listen_fd (suc d) x p at own = cc

pub start-Inv : (listen_fd : ℤ) → Inv (start listen_fd)
unfolding start
start-Inv listen_fd = record {
  counted = λ p c at. cc;
  held = λ p c at. cc;
  valid = λ d x p at own. absurd (no_connection listen_fd d x p at own);
}

-- From the start of the proxy, after any sequence of events that is handled without a fault, whatever
-- the kernel, the resolver and the decoder answer: the references of every live connection are the live
-- ends that hold it, at least one, and every live end with a connection has a live one.
pub run-start-IsCounted :
    (listen_fd : ℤ) (events : List (Kernel × ℕ)) (t : Proxy)
    → run listen_fd events (start listen_fd) ≡ ok t
    → Inv t
run-start-IsCounted listen_fd events t h =
    run-Keeps listen_fd events (start listen_fd) t (start-Inv listen_fd) h

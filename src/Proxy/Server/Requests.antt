-- ===== src/Proxy/Server/Requests.antt =====
-- The handling of a client's first packet keeps the counts of references right.
use intern_status_update.Base.{
  ℕ, ◌≡◌, refl, inl, inr, ◌∷◌, ◌++◌, Bytes, true, ◌&&◌, Option, Option-cases, none, some, ok, after,
  Bool-cases, codes, str_eq, live,
}
use intern_status_update.Base.Int.{ℤ, pos}
use intern_status_update.Libc.{cstr}
use intern_status_update.HashMap.{get}
use intern_status_update.Proxy.Url.{Request, parse_request, get_key_from_request}
use intern_status_update.Proxy.Auth.{authorize}
use intern_status_update.Proxy.State.{End, Proxy, load_connection, store_connection, create_end}
use intern_status_update.Proxy.State.Holders.{Inv}
use intern_status_update.Proxy.Server.Counts.{weaken-IsCounted}
use intern_status_update.Proxy.Server.{
  Received, received, closed, would_block, failed, Kernel, is_sent, is_negative, transmit,
  established, open_tunnel, forward_packet, scheme_code, upstream, answer_cached, cached_request,
  serve, send_all, admit, first_request, client_input,
}
use intern_status_update.Proxy.Server.Steps.{
  Keeps, same-Inv, cleanup-Keeps, both-Keeps, store_connection-Keeps, store_end-Keeps,
  create_end-Keeps, store_connection-ends, create_end-ends,
}

open_tunnel-Keeps :
    (k : Kernel) (d d2 : ℕ) (x : End) (s t : Proxy)
    → Inv s
    → live s.ends d ≡ some x
    → open_tunnel k d d2 x s ≡ ok t
    → Inv t
unfolding open_tunnel
open_tunnel-Keeps k d d2 x s t v at h = elim (Bool-cases (is_sent (k.send x.fd established))) [
  | inl e ↦
      store_end-Keeps d x (record x { tunnel_mode = true })
        (record s { sent = (x.fd, established) ∷ s.sent }) t v at refl (rw (e, open_tunnel) at h)
  | inr e ↦ both-Keeps d d2 s t v (rw (e, open_tunnel) at h)
]

forward_packet-Keeps :
    (k : Kernel) (d d2 : ℕ) (fd : ℤ) (bytes : Bytes) → Keeps (forward_packet k d d2 fd bytes)
unfolding forward_packet
forward_packet-Keeps k d d2 fd bytes s t v h = elim (Bool-cases (is_negative (k.send fd bytes))) [
  | inl e ↦ both-Keeps d d2 s t v (rw (e, forward_packet) at h)
  | inr e ↦ same-Inv (transmit k fd bytes s) t v (rw (e, forward_packet) at h)
]

-- The end d stays where it is when another is added.
upstream-Keeps :
    (k : Kernel) (d p : ℕ) (x : End) (req : Request) (bytes : Bytes) (server : Option ℕ)
    (s t : Proxy)
    → Inv s
    → live s.ends d ≡ some x
    → upstream k d p x req bytes server s ≡ ok t
    → Inv t
unfolding upstream
upstream-Keeps k d p x req bytes none s t v at h = same-Inv s t v h
upstream-Keeps k d p x req bytes (some fd) s t v at h = after (load_connection p s) _ t h λ c e h1.
    let c' = record c { fd2 = pos fd; scheme = some (scheme_code req.url.scheme) } in
    after (store_connection p c' s) _ t h1 λ s1 e1 h2.
      let v1 = store_connection-Keeps p c c' s s1 v e refl e1 in
      let kept = store_connection-ends p c' s s1 e1 in
      after (create_end (pos fd) p s1) _ t h2 λ r e2 h3.
        let v2 =
          create_end-Keeps (pos fd) p s1 r.0 r.1 (weaken-IsCounted s1.connections s1.ends p v1)
            e2 in
        let at2 : live r.1.ends d ≡ some x =
          create_end-ends (pos fd) p s1 r.0 r.1 d x (rw kept at) e2 in
        elim (Bool-cases (str_eq req.url.scheme (codes "https"))) [
          | inl f ↦ open_tunnel-Keeps k d r.0 x r.1 t v2 at2 (rw f at h3)
          | inr f ↦ forward_packet-Keeps k d r.0 (pos fd) bytes r.1 t v2 (rw f at h3)
        ]

answer_cached-Keeps :
    (k : Kernel) (d p : ℕ) (x : End) (req : Request) (bytes value : Bytes) (s t : Proxy)
    → Inv s
    → live s.ends d ≡ some x
    → answer_cached k d p x req bytes value s ≡ ok t
    → Inv t
unfolding answer_cached
answer_cached-Keeps k d p x req bytes value s t v at h =
    elim (Bool-cases (is_sent (k.send x.fd value))) [
      | inl e ↦
          cleanup-Keeps d (record s { sent = (x.fd, value) ∷ s.sent }) t v
            (rw (e, answer_cached) at h)
      | inr e ↦
          upstream-Keeps k d p x req bytes (k.connect req.url.host req.url.port) s t v at
            (rw (e, answer_cached) at h)
    ]

cached_request-Keeps :
    (k : Kernel) (d p : ℕ) (x : End) (req : Request) (bytes : Bytes) (s t : Proxy)
    → Inv s
    → live s.ends d ≡ some x
    → cached_request k d p x req bytes s ≡ ok t
    → Inv t
unfolding cached_request
cached_request-Keeps k d p x req bytes s t v at h =
    after (get_key_from_request req) _ t h λ key e0 h0. after (load_connection p s) _ t h0 λ c e h1.
      after (store_connection p (record c { key = some key }) s) _ t h1 λ s1 e1 h2.
        let v1 = store_connection-Keeps p c (record c { key = some key }) s s1 v e refl e1 in
        let at1 : live s1.ends d ≡ some x =
          rw (store_connection-ends p (record c { key = some key }) s s1 e1) at in
        elim (Option-cases (get key s1.table)) [
          | inr (value, f) ↦ answer_cached-Keeps k d p x req bytes value s1 t v1 at1 (rw f at h2)
          | inl f ↦
              upstream-Keeps k d p x req bytes (k.connect req.url.host req.url.port) s1 t v1 at1
                (rw f at h2)
        ]

serve-Keeps :
    (k : Kernel) (d p : ℕ) (x : End) (bytes : Bytes) (s t : Proxy)
    → Inv s
    → live s.ends d ≡ some x
    → serve k d p x bytes s ≡ ok t
    → Inv t
unfolding serve
serve-Keeps k d p x bytes s t v at h = elim (Option-cases (parse_request (cstr bytes))) [
  | inl e ↦ same-Inv s t v (rw (e, serve) at h)
  | inr (req, e) ↦
      elim (Bool-cases (str_eq req.method (codes "GET") && str_eq req.url.scheme (codes "http"))) [
        | inl f ↦ cached_request-Keeps k d p x req bytes s t v at (rw (e, f, serve) at h)
        | inr f ↦
            upstream-Keeps k d p x req bytes (k.connect req.url.host req.url.port) s t v at
              (rw (e, f, serve) at h)
      ]
]

admit-Keeps :
    (k : Kernel) (d p : ℕ) (x : End) (bytes : Bytes) (s t : Proxy)
    → Inv s
    → live s.ends d ≡ some x
    → admit k d p x bytes s ≡ ok t
    → Inv t
unfolding admit
admit-Keeps k d p x bytes s t v at h = after (load_connection p s) _ t h λ c e h1.
    after (store_connection p (record c { authorized = true }) s) _ t h1 λ s1 e1 h2.
      serve-Keeps k d p x bytes s1 t
        (store_connection-Keeps p c (record c { authorized = true }) s s1 v e refl e1)
        (rw (store_connection-ends p (record c { authorized = true }) s s1 e1) at) h2

first_request-Keeps :
    (k : Kernel) (d p : ℕ) (x : End) (bytes : Bytes) (s t : Proxy)
    → Inv s
    → live s.ends d ≡ some x
    → first_request k d p x bytes s ≡ ok t
    → Inv t
unfolding first_request
first_request-Keeps k d p x bytes s t v at h =
    after (authorize k.decode_block (bytes ++ k.stale) k.decoded_stale s.users) _ t h
      λ (valid, replies) e h1.
        let v1 : Inv (send_all k x.fd replies s) = v in
        elim (Bool-cases valid) [
          | inl f ↦ admit-Keeps k d p x bytes (send_all k x.fd replies s) t v1 at (rw f at h1)
          | inr f ↦ cleanup-Keeps d (send_all k x.fd replies s) t v1 (rw f at h1)
        ]

pub client_input-Keeps :
    (k : Kernel) (d p : ℕ) (x : End) (input : Received) (s t : Proxy)
    → Inv s
    → live s.ends d ≡ some x
    → client_input k d p x input s ≡ ok t
    → Inv t
unfolding client_input
client_input-Keeps k d p x (received bytes) s t v at h =
    first_request-Keeps k d p x bytes s t v at h
client_input-Keeps k d p x closed s t v at h = cleanup-Keeps d s t v h
client_input-Keeps k d p x would_block s t v at h = cleanup-Keeps d s t v h
client_input-Keeps k d p x failed s t v at h = cleanup-Keeps d s t v h

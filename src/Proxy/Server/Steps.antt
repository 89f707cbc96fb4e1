-- ===== src/Proxy/Server/Steps.antt =====
-- The operations on the proxy's memory keep the counts of references right.
use intern_status_update.Base.{
  ℕ, ◌≡◌, refl, sym, ap, subst, ◌∙◌, [], ◌∷◌, ◌++◌, false, Option, none, some, Run, ok, deref,
  after, deref-eq-ok, ok-injective, length, live, live-append_old,
}
use intern_status_update.Base.Int.{ℤ, pos, no_fd}
use intern_status_update.Proxy.State.{
  Connection, End, Proxy, int_suc, load_end, load_connection, store_connection, store_end,
  create_connection, create_end, cleanup_connection,
}
use intern_status_update.Proxy.State.Holders.{Inv}
use intern_status_update.Proxy.State.Cleanup.{cleanup_connection-Inv}
use intern_status_update.Proxy.Server.Counts.{
  IsCountedBut, connection-IsCounted, end-IsCounted, attach-IsCounted, append-IsCountedBut,
}
use intern_status_update.Proxy.Server.{accept_client, cleanup_both}

-- From a state in order, whatever it returns is in order.
abbrev pub Keeps : (Proxy → Run Proxy) → Type 0
Keeps f = (s t : Proxy) → Inv s → f s ≡ ok t → Inv t

pub same-Inv : (s t : Proxy) → Inv s → ◌≡◌ {A = Run Proxy} (ok s) (ok t) → Inv t
same-Inv s t v h = subst Inv (ok-injective h) v

pub cleanup-Keeps : (d : ℕ) → Keeps (cleanup_connection d)
unfolding cleanup_connection
cleanup-Keeps d s t v h = after (load_end d s) _ t h λ x e1 h1.
    after (deref x.connection) _ t h1 λ p e2 h2. after (load_connection p s) _ t h2 λ c e3 h3.
      let (done, w) =
        cleanup_connection-Inv s d x p c v (deref-eq-ok (live s.ends d) x e1)
          (deref-eq-ok x.connection p e2) (deref-eq-ok (live s.connections p) c e3) in
      subst Inv (ok-injective (sym done ∙ h)) w

pub both-Keeps : (d d2 : ℕ) → Keeps (cleanup_both d d2)
unfolding cleanup_both
both-Keeps d d2 s t v h =
    after (cleanup_connection d s) _ t h
      λ s1 e h1. cleanup-Keeps d2 s1 t (cleanup-Keeps d s s1 v e) h1

-- A write to a loaded connection that keeps its references.
pub store_connection-Keeps :
    (p : ℕ) (c c' : Connection) (s t : Proxy)
    → Inv s
    → load_connection p s ≡ ok c
    → c'.refs ≡ c.refs
    → store_connection p c' s ≡ ok t
    → Inv t
unfolding store_connection
store_connection-Keeps p c c' s t v e same h =
    let at = deref-eq-ok (live s.connections p) c e in
    same-Inv _ t (connection-IsCounted s.connections s.ends p c c' v at same) (rw at at h)

pub store_end-Keeps :
    (d : ℕ) (x x' : End) (s t : Proxy)
    → Inv s
    → live s.ends d ≡ some x
    → x'.connection ≡ x.connection
    → store_end d x' s ≡ ok t
    → Inv t
unfolding store_end
store_end-Keeps d x x' s t v at same h =
    same-Inv _ t (end-IsCounted s.connections s.ends d x x' v at same) (rw at at h)

-- A new end.
pub create_end-Keeps :
    (fd : ℤ) (p : ℕ) (s : Proxy) (d : ℕ) (t : Proxy)
    → IsCountedBut s.connections s.ends p
    → create_end fd p s ≡ ok (d, t)
    → Inv t
unfolding create_end store_connection
create_end-Keeps fd p s d t v h =
    after (load_connection p s) _ (d, t) h
      λ c e h1.
        let at = deref-eq-ok (live s.connections p) c e in
        let x : End = record { fd = fd; tunnel_mode = false; connection = some p } in
        let made = attach-IsCounted s.connections s.ends p c x v at refl in
        subst Inv (ap (λ r. r.1) (ok-injective (rw at at h1))) made

pub accept_client-Keeps : (accepted : Option ℕ) → Keeps (accept_client accepted)
unfolding accept_client create_connection
accept_client-Keeps none s t v h = same-Inv s t v h
accept_client-Keeps (some fd) s t v h =
    let c = create_connection (pos fd) no_fd in
    let s1 = record s { connections = s.connections ++ some c ∷ [] } in
    after (create_end (pos fd) (length s.connections) s1) _ t h λ r e g.
      same-Inv r.1 t
        (create_end-Keeps (pos fd) (length s.connections) s1 r.0 r.1
          (append-IsCountedBut s.connections s.ends c v refl) e)
        g

-- The other ends stay where they are.
pub store_connection-ends :
    (p : ℕ) (c : Connection) (s t : Proxy) → store_connection p c s ≡ ok t → t.ends ≡ s.ends
unfolding store_connection
store_connection-ends p c s t h =
    after (load_connection p s) _ t h λ old e g. sym (ap (λ u. u.ends) (ok-injective g))

pub create_end-ends :
    (fd : ℤ) (p : ℕ) (s : Proxy) (e : ℕ) (t : Proxy) (d : ℕ) (x : End)
    → live s.ends d ≡ some x
    → create_end fd p s ≡ ok (e, t)
    → live t.ends d ≡ some x
unfolding create_end
create_end-ends fd p s e t d x at h =
    after (load_connection p s) _ (e, t) h
      λ c e1 h1.
        after (store_connection p (record c { refs = int_suc c.refs }) s) _ (e, t) h1
          λ s1 e2 h2.
            let same = store_connection-ends p (record c { refs = int_suc c.refs }) s s1 e2 in
            let new : End = record { fd = fd; tunnel_mode = false; connection = some p } in
            subst (λ ends. live ends d ≡ some x) (ap (λ r. r.1.ends) (ok-injective h2))
              (live-append_old s1.ends d new x (rw same at))

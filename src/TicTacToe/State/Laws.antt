-- ===== src/TicTacToe/State/Laws.antt =====
-- Rules for code over the server's memory: what a call that returned did, and code that leaves the
-- matches alone.
use intern_status_update.Base.{
  ℕ, ◌≡◌, refl, subst, ap, ◌∙◌, Bytes, Bool, true, false, Option, none, some, Run, ok, fault,
  ok-injective, get_elem?, set, live, live,
}
use intern_status_update.Base.Int.{ℤ}
use intern_status_update.TicTacToe.Board.{Match}
use intern_status_update.TicTacToe.State.{
  Server, Client, M, ◌>>=◌, return, lift, load_match, matches_at, load_client, store_client,
  free_client, new_client, transmit,
}

-- From `P`, if `m` returns, `Q` holds of its result and state.
abbrev pub Triple : {A : Type 0} → (Server → Type 0) → M A → (A → Server → Type 0) → Type 0
Triple {A} P m Q = (s : Server) → P s → (a : A) (s' : Server) → m s ≡ ok (a, s') → Q a s'

pub bind-eq-ok :
    {A B : Type 0} (m : M A) (f : A → M B) (s : Server) (b : B) (t : Server)
    → (m >>= f) s ≡ ok (b, t)
    → (a : A) × (s' : Server) × (m s ≡ ok (a, s')) × (f a s' ≡ ok (b, t))
bind-eq-ok {A} {B} m f s b t h = split (m s) refl h
  where
    split :
        (r : Run (A × Server))
        → m s ≡ r
        → elim r [ fault ↦ fault | ok (a, s') ↦ f a s' ] ≡ ok (b, t)
        → (a : A) × (s' : Server) × (m s ≡ ok (a, s')) × (f a s' ≡ ok (b, t))
    split fault e h = cc
    split (ok (a, s')) e h = (a, s', e, h)

-- One step of code whose outcome is known.
pub bind_step :
    {A B : Type 0} (m : M A) (f : A → M B) (s : Server) (a : A) (t : Server)
    → m s ≡ ok (a, t)
    → (m >>= f) s ≡ f a t
bind_step {B = B} m f s a t e =
    ap {B = Run (B × Server)} (λ r. elim r [ fault ↦ fault | ok (a, s') ↦ f a s' ]) e

pub bind_fault :
    {A B : Type 0} (m : M A) (f : A → M B) (s : Server)
    → m s ≡ fault
    → ◌≡◌ {A = Run (B × Server)} ((m >>= f) s) fault
bind_fault {B = B} m f s e =
    ap {B = Run (B × Server)} (λ r. elim r [ fault ↦ fault | ok (a, s') ↦ f a s' ]) e

pub bind-Triple :
    {A B : Type 0} {P : Server → Type 0} (Q : A → Server → Type 0) {R : B → Server → Type 0}
    (m : M A) (f : A → M B)
    → Triple P m Q
    → ((a : A) → Triple (Q a) (f a) R)
    → Triple P (m >>= f) R
bind-Triple Q m f first then_ s h b t e =
    let (a, s', e1, e2) = bind-eq-ok m f s b t e in then_ a s' (first s h a s' e1) b t e2

-- Matches, table and counter are as before.
pub record Same (s t : Server) : Type 0 where
  pub matches : t.matches ≡ s.matches
  pub match_heap : t.match_heap ≡ s.match_heap
  pub match_id : t.match_id ≡ s.match_id

-- Code that leaves the matches alone.
abbrev pub Calm : {A : Type 0} → M A → Type 0
Calm {A} m = (s : Server) (a : A) (t : Server) → m s ≡ ok (a, t) → Same s t

pub Same-refl : (s : Server) → Same s s
Same-refl s = record { matches = refl; match_heap = refl; match_id = refl }

pub bind-Calm :
    {A B : Type 0} (m : M A) (f : A → M B) → Calm m → ((a : A) → Calm (f a)) → Calm (m >>= f)
bind-Calm m f first rest s b u h =
    let (a, t, e1, e2) = bind-eq-ok m f s b u h in
    let one = first s a t e1 in
    let two = rest a t b u e2 in
    record {
      matches = two.matches ∙ one.matches;
      match_heap = two.match_heap ∙ one.match_heap;
      match_id = two.match_id ∙ one.match_id;
    }

Same-ok :
    {A : Type 0} (s t u : Server) (a b : A)
    → ◌≡◌ {A = Run (A × Server)} (ok (a, u)) (ok (b, t))
    → Same s u
    → Same s t
Same-ok s t u a b e h = subst (Same s) (ap (λ r. r.1) (ok-injective e)) h

pub return-Calm : {A : Type 0} (a : A) → Calm (return a)
return-Calm a s b t h = Same-ok s t s a b h (Same-refl s)

pub lift-Calm : {A : Type 0} (r : Run A) → Calm (lift r)
lift-Calm fault s b t h = cc
lift-Calm (ok a) s b t h = Same-ok s t s a b h (Same-refl s)

pub transmit-Calm : (accepted : Bool) (to : ℤ) (bytes : Bytes) → Calm (transmit accepted to bytes)
unfolding transmit
transmit-Calm true to bytes s b t h =
    Same-ok s t _ true b h (record { matches = refl; match_heap = refl; match_id = refl })
transmit-Calm false to bytes s b t h = Same-ok s t s false b h (Same-refl s)

-- A use of an optional object that returned.
pub some-ok :
    {X Y : Type 0} (o : Option X) (g : X → Y) (y : Y)
    → elim o [ none ↦ fault | some x ↦ ok (g x) ] ≡ ok y
    → (x : X) × (o ≡ some x) × (g x ≡ y)
some-ok none g y h = cc
some-ok (some x) g y h = (x, refl, ok-injective h)

pub load_match-eq-ok :
    (p : ℕ) (s : Server) (m : Match) (t : Server)
    → load_match p s ≡ ok (m, t)
    → (live s.match_heap p ≡ some m) × (s ≡ t)
unfolding load_match
load_match-eq-ok p s m t h =
    let (x, e, g) = some-ok (live s.match_heap p) (λ m. (m, s)) (m, t) h in
    (e ∙ ap some (ap (λ r. r.0) g), ap (λ r. r.1) g)

pub load_client-Calm : (c : ℕ) → Calm (load_client c)
unfolding load_client
load_client-Calm c s r t h =
    let (x, e, g) = some-ok (live s.client_heap c) (λ r. (r, s)) (r, t) h in
    subst (Same s) (ap (λ r. r.1) g) (Same-refl s)

pub matches_at-eq-ok :
    (i : ℕ) (s : Server) (o : Option ℕ) (t : Server)
    → matches_at i s ≡ ok (o, t)
    → (get_elem? s.matches i ≡ some o) × (s ≡ t)
unfolding matches_at
matches_at-eq-ok i s o t h =
    let (x, e, g) = some-ok (get_elem? s.matches i) (λ o. (o, s)) (o, t) h in
    (e ∙ ap some (ap (λ r. r.0) g), ap (λ r. r.1) g)

pub store_client-Calm : (c : ℕ) (r : Client) → Calm (store_client c r)
unfolding store_client
store_client-Calm c r s a t h =
    let (x, e, g) =
      some-ok (live s.client_heap c)
        (λ _. (tt, record s { client_heap = set s.client_heap c (some r) })) (a, t) h in
    subst (Same s) (ap (λ r. r.1) g) (record { matches = refl; match_heap = refl; match_id = refl })

pub free_client-Calm : (c : ℕ) → Calm (free_client c)
unfolding free_client
free_client-Calm c s a t h =
    let (x, e, g) =
      some-ok (live s.client_heap c)
        (λ _. (tt, record s { client_heap = set s.client_heap c none })) (a, t) h in
    subst (Same s) (ap (λ r. r.1) g) (record { matches = refl; match_heap = refl; match_id = refl })

pub new_client-Calm : (r : Client) → Calm (new_client r)
unfolding new_client
new_client-Calm r s c t h =
    Same-ok s t _ _ c h (record { matches = refl; match_heap = refl; match_id = refl })

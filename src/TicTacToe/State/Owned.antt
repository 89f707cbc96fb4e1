-- ===== src/TicTacToe/State/Owned.antt =====
-- Rules for code over the table of matches: the invariant, with a live match at hand.
use intern_status_update.Base.{
  ℕ, ◌+◌, ◌<◌, ◌≡◌, refl, subst, ap, inl, inr, [], ◌∷◌, ◌++◌, Option, none, some, ok, ok-injective,
  ltb, ==_refl, Bool-cases, length, set, arith, live, live-lt, live-set, live-append_new,
}
use intern_status_update.TicTacToe.Board.{Match}
use intern_status_update.TicTacToe.State.{
  Server, M, ◌>>=◌, load_match, store_match, free_match, set_matches, new_match, next_match_id,
}
use intern_status_update.TicTacToe.State.Laws.{
  Triple, Calm, Same, bind-eq-ok, bind-Triple, some-ok, load_match-eq-ok,
}
use intern_status_update.TicTacToe.State.Tidy.{
  Inv, update-IsTidy, remove-IsTidy, append-IsTidy, list-IsTidy,
}

pub record Owned (p : ℕ) (m : Match) (s : Server) : Type 0 where
  pub tidy : Inv s
  pub at : live s.match_heap p ≡ some m

-- Code that keeps the invariant, whatever it returns.
abbrev pub Keeps : {A : Type 0} → (Server → Type 0) → M A → Type 0
Keeps P m = Triple P m (λ _ s. Inv s)

pub Same-Inv : {s t : Server} → Same s t → Inv s → Inv t
Same-Inv {s} {t} e v = rw (e.matches, e.match_heap, e.match_id) v

pub Same-Owned : {s t : Server} (p : ℕ) (m : Match) → Same s t → Owned p m s → Owned p m t
Same-Owned p m e o = record { tidy = Same-Inv e o.tidy; at = rw e.match_heap o.at }

pub Calm-Keeps : {A : Type 0} (m : M A) → Calm m → Keeps Inv m
Calm-Keeps m calm s v a t h = Same-Inv (calm s a t h) v

pub Calm-Owned :
    {A : Type 0} (p : ℕ) (n : Match) (m : M A) → Calm m → Triple (Owned p n) m (λ _. Owned p n)
Calm-Owned p n m calm s o a t h = Same-Owned p n (calm s a t h) o

pub Owned-Keeps : {A : Type 0} (p : ℕ) (n : Match) (m : M A) → Calm m → Keeps (Owned p n) m
Owned-Keeps p n m calm s o a t h = (Same-Owned p n (calm s a t h) o).tidy

-- A calm step in front of code that needs the live match.
pub Calm-then_Owned :
    {A B : Type 0} (p : ℕ) (n : Match) (m : M A) (f : A → M B)
    → Calm m
    → ((a : A) → Keeps (Owned p n) (f a))
    → Keeps (Owned p n) (m >>= f)
Calm-then_Owned p n m f calm rest = bind-Triple (λ _. Owned p n) m f (Calm-Owned p n m calm) rest

pub Calm-then_Keeps :
    {A B : Type 0} (m : M A) (f : A → M B)
    → Calm m
    → ((a : A) → Keeps Inv (f a))
    → Keeps Inv (m >>= f)
Calm-then_Keeps m f calm rest = bind-Triple (λ _ s. Inv s) m f (Calm-Keeps m calm) rest

-- A load hands the live match to what follows.
pub load_then_Keeps :
    {B : Type 0} (p : ℕ) (f : Match → M B)
    → ((m : Match) → Keeps (Owned p m) (f m))
    → Keeps Inv (load_match p >>= f)
load_then_Keeps p f rest s v b u h =
    let (m, t, e1, e2) = bind-eq-ok (load_match p) f s b u h in
    let (at, same) = load_match-eq-ok p s m t e1 in
    rest m t (subst (Owned p m) same (record { tidy = v; at = at })) b u e2

-- A write to a live match that keeps its id.
pub store_match-Owned :
    (p : ℕ) (m m' : Match)
    → m'.match_id ≡ m.match_id
    → Triple (Owned p m) (store_match p m') (λ _. Owned p m')
unfolding store_match
store_match-Owned p m m' same s o a t h =
    let (x, e, g) =
      some-ok (live s.match_heap p)
        (λ _. (tt, record s { match_heap = set s.match_heap p (some m') })) (a, t) h in
    subst (Owned p m') (ap (λ r. r.1) g) (record {
      tidy = update-IsTidy s.matches s.match_heap s.match_id p m m' o.tidy o.at same;
      at = rw (live-set s.match_heap p p (some m') (live-lt s.match_heap p m o.at), ==_refl p) refl;
    })

set_matches-eq-ok :
    (i : ℕ) (o : Option ℕ) (s : Server) (a : Unit {0}) (t : Server)
    → set_matches i o s ≡ ok (a, t)
    → (i < length s.matches) × (record s { matches = set s.matches i o } ≡ t)
unfolding set_matches
set_matches-eq-ok i o s a t h = elim (Bool-cases (ltb i (length s.matches))) [
  | inl e ↦
      let done : ◌≡◌ {A = Unit {0} × Server} (tt, record s { matches = set s.matches i o }) (a, t) =
        ok-injective (rw e at h) in
      (ground arith, ap (λ r. r.1) done)
  | inr e ↦ cc (rw e at h)
]

-- The end of a match.
pub remove-Keeps :
    (p : ℕ) (m : Match) → Keeps (Owned p m) (set_matches m.match_id none >>= λ _. free_match p)
unfolding free_match
remove-Keeps p m s o a u h =
    let (_, t, e1, e2) = bind-eq-ok (set_matches m.match_id none) (λ _. free_match p) s a u h in
    let (inside, same) = set_matches-eq-ok m.match_id none s tt t e1 in
    let (x, e, g) =
      some-ok (live t.match_heap p) (λ _. (tt, record t { match_heap = set t.match_heap p none }))
        (a, u) e2 in
    subst Inv (ap (λ r. r.1) g) (
      subst (λ t. Inv (record t { match_heap = set t.match_heap p none })) same
        (remove-IsTidy s.matches s.match_heap s.match_id p m o.tidy o.at inside))

-- A live match is entered at its id.
pub list-Owned :
    (p : ℕ) (m : Match) (i : ℕ)
    → m.match_id ≡ i
    → Triple (Owned p m) (set_matches i (some p)) (λ _. Owned p m)
list-Owned p m i id s o a t h =
    let (inside, same) = set_matches-eq-ok i (some p) s a t h in
    subst (Owned p m) same (record {
      tidy =
          rw (← id) (list-IsTidy s.matches s.match_heap s.match_id p m o.tidy o.at (rw id inside));
      at = o.at;
    })

-- A new match with the next id.
pub create_then_Keeps :
    {B : Type 0} (make : ℕ → Match) (f : ℕ → ℕ → M B)
    → ((i : ℕ) → (make i).match_id ≡ i)
    → ((i p : ℕ) → Keeps (Owned p (make i)) (f i p))
    → Keeps Inv (next_match_id >>= λ i. new_match (make i) >>= λ p. f i p)
unfolding next_match_id new_match
create_then_Keeps make f id rest s v b u h =
    rest s.match_id (length s.match_heap)
      (record s {
        match_id = s.match_id + 1;
        match_heap = s.match_heap ++ some (make s.match_id) ∷ [];
      })
      (record {
        tidy = append-IsTidy s.matches s.match_heap s.match_id (make s.match_id) v (id s.match_id);
        at = live-append_new s.match_heap (make s.match_id);
      })
      b u h

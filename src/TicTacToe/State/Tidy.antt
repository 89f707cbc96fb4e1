-- ===== src/TicTacToe/State/Tidy.antt =====
-- The invariant of the table of matches, and the writes that keep it.
use intern_status_update.Base.{
  ℕ, ◌+◌, ◌<◌, ◌≡◌, sym, ap, ◌∙◌, inl, inr, [], ◌∷◌, ◌++◌, List, false, Option, none, some, ◌==◌,
  ==_iff, ne→==, Bool-cases, length, length-set, get_elem?, set, get_elem?-set, arith, live,
  live-lt, live-set, live-append, live-append_old,
}
use intern_status_update.TicTacToe.Board.{Match}
use intern_status_update.TicTacToe.State.{Server, max_matches}

-- Every entry of the table points to a live match whose id is its place; ids are given out once.
pub record IsTidy (matches : List (Option ℕ)) (heap : List (Option Match)) (match_id : ℕ)
    : Type 0 where
  pub width : length matches ≡ max_matches
  pub entry :
      (i p : ℕ)
      → get_elem? matches i ≡ some (some p)
      → (m : Match) × (live heap p ≡ some m) × (m.match_id ≡ i)
  pub fresh : (p : ℕ) (m : Match) → live heap p ≡ some m → m.match_id < match_id

abbrev pub Inv : Server → Type 0
Inv s = IsTidy s.matches s.match_heap s.match_id

-- The live match behind a pointer is one.
live_unique :
    (heap : List (Option Match)) (p : ℕ) (m n : Match)
    → live heap p ≡ some m
    → live heap p ≡ some n
    → m ≡ n
live_unique heap p m n a b = cc

distinct : (a b : ℕ) → (a == b) ≡ false → a ≡ b → ⊥
distinct a b e h = ground arith

module _ (matches : List (Option ℕ)) (heap : List (Option Match)) (next : ℕ) where
  -- A write to a live match that keeps its id.
  pub update-IsTidy :
      (p : ℕ) (m m' : Match)
      → IsTidy matches heap next
      → live heap p ≡ some m
      → m'.match_id ≡ m.match_id
      → IsTidy matches (set heap p (some m')) next
  update-IsTidy p m m' v at same = record {
    width = v.width;
    entry = λ i q listed. elim (Bool-cases (p == q)) [
      | inl e ↦
          let (x, found, id) = v.entry i q listed in
          let here : p ≡ q = (==_iff p q).0 e in
          (
            m',
            (rw (live-set heap p q (some m') (live-lt heap p m at), e)),
            same ∙ ap (λ n. n.match_id) (live_unique heap p m x at (rw here found)) ∙ id,
          )
      | inr e ↦
          let (x, found, id) = v.entry i q listed in
          (x, (rw (live-set heap p q (some m') (live-lt heap p m at), e) found), id)
    ];
    fresh = λ q n found. elim (Bool-cases (p == q)) [
      | inl e ↦
          let new : some m' ≡ some n =
            rw (live-set heap p q (some m') (live-lt heap p m at), e) at found in
          let small : m.match_id < next = v.fresh p m at in ground arith
      | inr e ↦ v.fresh q n (rw (live-set heap p q (some m') (live-lt heap p m at), e) at found)
    ];
  }

  -- The end of a match: its entry is cleared, then it is freed.
  pub remove-IsTidy :
      (p : ℕ) (m : Match)
      → IsTidy matches heap next
      → live heap p ≡ some m
      → m.match_id < length matches
      → IsTidy (set matches m.match_id none) (set heap p none) next
  remove-IsTidy p m v at inside = record {
    width = length-set matches m.match_id none ∙ v.width;
    entry = λ i q listed. elim (Bool-cases (m.match_id == i)) [
      | inl e ↦
          let gone : ◌≡◌ {A = Option (Option ℕ)} (some none) (some (some q)) =
            rw (get_elem?-set matches m.match_id i none inside, e) at listed in
          cc
      | inr e ↦
          let (x, found, id) =
            v.entry i q (rw (get_elem?-set matches m.match_id i none inside, e) at listed) in
          let other : (p == q) ≡ false = ne→== p q (λ same.
            let id' : m.match_id ≡ x.match_id =
              ap (λ n. n.match_id) (live_unique heap p m x at (rw same found)) in
            absurd (distinct m.match_id i e (id' ∙ id))) in
          (x, (rw (live-set heap p q none (live-lt heap p m at), other) found), id)
    ];
    fresh = λ q n found. elim (Bool-cases (p == q)) [
      | inl e ↦
          let gone : none ≡ some n =
            rw (live-set heap p q none (live-lt heap p m at), e) at found in
          cc
      | inr e ↦ v.fresh q n (rw (live-set heap p q none (live-lt heap p m at), e) at found)
    ];
  }

  -- A new match with a new id, not yet in the table.
  pub append-IsTidy :
      (m : Match)
      → IsTidy matches heap next
      → m.match_id ≡ next
      → IsTidy matches (heap ++ some m ∷ []) (next + 1)
  append-IsTidy m v id = record {
    width = v.width;
    entry = λ i q listed.
        let (x, found, at) = v.entry i q listed in (x, live-append_old heap q m x found, at);
    fresh = λ q n found. elim (live-append heap q m n found) [
      | inl (_, e) ↦ let same : n.match_id ≡ next = sym (ap (λ k. k.match_id) e) ∙ id in omega arith
      | inr old ↦ let small : n.match_id < next = v.fresh q n old in omega arith
    ];
  }

  -- A live match is entered at its id.
  pub list-IsTidy :
      (p : ℕ) (m : Match)
      → IsTidy matches heap next
      → live heap p ≡ some m
      → m.match_id < length matches
      → IsTidy (set matches m.match_id (some p)) heap next
  list-IsTidy p m v at inside = record {
    width = length-set matches m.match_id (some p) ∙ v.width;
    entry = λ i q listed. elim (Bool-cases (m.match_id == i)) [
      | inl e ↦
          let new : ◌≡◌ {A = Option (Option ℕ)} (some (some p)) (some (some q)) =
            rw (get_elem?-set matches m.match_id i (some p) inside, e) at listed in
          let same : p ≡ q = cc in (m, (rw (← same) at), (==_iff m.match_id i).0 e)
      | inr e ↦ v.entry i q (rw (get_elem?-set matches m.match_id i (some p) inside, e) at listed)
    ];
    fresh = v.fresh;
  }

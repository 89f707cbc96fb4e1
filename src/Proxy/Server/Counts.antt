-- ===== src/Proxy/Server/Counts.antt =====
-- The writes of the proxy's handlers keep the counts of references right.
use intern_status_update.Base.{
  ℕ, suc, ◌≤◌, ◌≡◌, refl, sym, ap, ◌∙◌, inl, inr, [], ◌∷◌, ◌++◌, List, false, Option, some, ◌==◌,
  ==_iff, Bool-cases, length, set, live, live-lt, live-set, live-set_other, some-injective,
  live-append, live-append_old, arith,
}
use intern_status_update.Base.Int.{pos}
use intern_status_update.Proxy.State.{Connection, End, int_suc}
use intern_status_update.Proxy.State.Holders.{
  weight, holders, holders-append, holders-set, holders-none, weight_other, weight_own, IsCounted,
}

distinct : (a b : ℕ) → (a == b) ≡ false → a ≡ b → ⊥
distinct a b e h = ground arith

module _ (connections : List (Option Connection)) (ends : List (Option End)) where
  -- A write to a connection that keeps its references.
  pub connection-IsCounted :
      (p : ℕ) (c c' : Connection)
      → IsCounted connections ends
      → live connections p ≡ some c
      → c'.refs ≡ c.refs
      → IsCounted (set connections p (some c')) ends
  connection-IsCounted p c c' v at same = record {
    counted = λ q b found. elim (Bool-cases (p == q)) [
      | inl e ↦
          let one : some c' ≡ some b =
            rw (live-set connections p q (some c') (live-lt connections p c at), e) at found in
          let here : p ≡ q = (==_iff p q).0 e in
          sym (ap (λ b. b.refs) (some-injective one))
          ∙ same
          ∙ v.counted p c at
          ∙ ap (λ q. pos (holders q ends)) here
      | inr e ↦ v.counted q b (rw (live-set_other connections p q c (some c') at e) at found)
    ];
    held = λ q b found. elim (Bool-cases (p == q)) [
      | inl e ↦ let here : p ≡ q = (==_iff p q).0 e in rw (← here) (v.held p c at)
      | inr e ↦ v.held q b (rw (live-set_other connections p q c (some c') at e) at found)
    ];
    valid = λ d x q found holds_q. elim (Bool-cases (p == q)) [
      | inl e ↦ (c', rw (live-set connections p q (some c') (live-lt connections p c at), e) refl)
      | inr e ↦
          let (b, alive) = v.valid d x q found holds_q in
          (b, rw (live-set_other connections p q c (some c') at e) alive)
    ];
  }

  -- A write to an end that keeps its connection.
  pub end-IsCounted :
      (d : ℕ) (x x' : End)
      → IsCounted connections ends
      → live ends d ≡ some x
      → x'.connection ≡ x.connection
      → IsCounted connections (set ends d (some x'))
  end-IsCounted d x x' v at same =
      let level : (p : ℕ) → holders p (set ends d (some x')) ≡ holders p ends = λ p.
        let even : weight p (some x') ≡ weight p (some x) = rw same refl in
        omega (arith, holders-set p ends d x (some x') at, even) in
      record {
        counted = λ p c found. rw (level p) (v.counted p c found);
        held = λ p c found. rw (level p) (v.held p c found);
        valid = λ e y p found holds_p. elim (Bool-cases (d == e)) [
          | inl f ↦
              let one : some x' ≡ some y =
                rw (live-set ends d e (some x') (live-lt ends d x at), f) at found in
              v.valid d x p at (sym same ∙ ap (λ b. b.connection) (some-injective one) ∙ holds_p)
          | inr f ↦ v.valid e y p (rw (live-set_other ends d e x (some x') at f) at found) holds_p
        ];
      }

  -- The counts right but for p, which may be held by no end yet.
  pub record IsCountedBut (p : ℕ) : Type 0 where
    pub counted :
        (q : ℕ) (c : Connection) → live connections q ≡ some c → c.refs ≡ pos (holders q ends)
    pub held :
        (q : ℕ) (c : Connection)
        → (p == q) ≡ false
        → live connections q ≡ some c
        → 1 ≤ holders q ends
    pub valid :
        (d : ℕ) (x : End) (q : ℕ)
        → live ends d ≡ some x
        → x.connection ≡ some q
        → (c : Connection) × (live connections q ≡ some c)

  pub weaken-IsCounted : (p : ℕ) → IsCounted connections ends → IsCountedBut p
  weaken-IsCounted p v = record {
    counted = v.counted;
    held = λ q c e found. v.held q c found;
    valid = v.valid;
  }

  -- A new end of the connection p.
  pub attach-IsCounted :
      (p : ℕ) (c : Connection) (x : End)
      → IsCountedBut p
      → live connections p ≡ some c
      → x.connection ≡ some p
      → IsCounted
          (set connections p (some (record c { refs = int_suc c.refs })))
          (ends ++ some x ∷ [])
  attach-IsCounted p c x v at own =
      let c' = record c { refs = int_suc c.refs } in
      let more : holders p (ends ++ some x ∷ []) ≡ suc (holders p ends) =
        omega (arith, holders-append p ends (some x), weight_own p x own) in
      let level : (q : ℕ) → (p == q) ≡ false → holders q (ends ++ some x ∷ []) ≡ holders q ends =
        λ q e. omega (arith, holders-append q ends (some x), weight_other q p x own e) in
      let up : c'.refs ≡ pos (holders p (ends ++ some x ∷ [])) = rw (v.counted p c at, more) refl in
      record {
        counted = λ q b found. elim (Bool-cases (p == q)) [
          | inl e ↦
              let one : some c' ≡ some b =
                rw (live-set connections p q (some c') (live-lt connections p c at), e) at found in
              let here : p ≡ q = (==_iff p q).0 e in
              sym (ap (λ b. b.refs) (some-injective one))
              ∙ up
              ∙ ap (λ q. pos (holders q (ends ++ some x ∷ []))) here
          | inr e ↦
              rw (level q e)
                (v.counted q b (rw (live-set_other connections p q c (some c') at e) at found))
        ];
        held = λ q b found. elim (Bool-cases (p == q)) [
          | inl e ↦ let here : p ≡ q = (==_iff p q).0 e in rw (← here, more) (omega arith)
          | inr e ↦
              rw (level q e)
                (v.held q b e (rw (live-set_other connections p q c (some c') at e) at found))
        ];
        valid = λ d y q found holds_q. elim (Bool-cases (p == q)) [
          | inl e ↦
              (c', rw (live-set connections p q (some c') (live-lt connections p c at), e) refl)
          | inr e ↦ elim (live-append ends d x y found) [
            | inl (_, same) ↦
                let both : some p ≡ some q = sym own ∙ ap (λ b. b.connection) same ∙ holds_q in
                absurd (distinct p q e (some-injective both))
            | inr old ↦
                let (b, alive) = v.valid d y q old holds_q in
                (b, rw (live-set_other connections p q c (some c') at e) alive)
          ]
        ];
      }

  -- A new connection, before its first end.
  fresh-IsCounted :
      (c : Connection)
      → IsCounted connections ends
      → c.refs ≡ pos 0
      → (q : ℕ) (b : Connection) → live (connections ++ some c ∷ []) q ≡ some b
      → b.refs ≡ pos (holders q ends)
  fresh-IsCounted c v zero_refs q b found = elim (live-append connections q c b found) [
    | inl (place, same) ↦
        let none_holds : holders (length connections) ends ≡ 0 =
          holders-none (length connections) ends λ d x at own.
            let (old, alive) = v.valid d x (length connections) at own in
            absurd (omega (arith, live-lt connections (length connections) old alive)) in
        rw (place, none_holds, ← same) zero_refs
    | inr old ↦ v.counted q b old
  ]

  newborn-held :
      (c : Connection)
      → IsCounted connections ends
      → c.refs ≡ pos 0
      → (q : ℕ) (b : Connection) → (length connections == q) ≡ false
      → live (connections ++ some c ∷ []) q ≡ some b
      → 1 ≤ holders q ends
  newborn-held c v zero_refs q b e found = elim (live-append connections q c b found) [
    | inl (place, same) ↦ absurd (distinct (length connections) q e (sym place))
    | inr old ↦ v.held q b old
  ]

-- A new connection without references, behind the others.
pub append-IsCountedBut :
    (connections : List (Option Connection)) (ends : List (Option End)) (c : Connection)
    → IsCounted connections ends
    → c.refs ≡ pos 0
    → IsCountedBut (connections ++ some c ∷ []) ends (length connections)
append-IsCountedBut connections ends c v zero_refs = record {
  counted = fresh-IsCounted connections ends c v zero_refs;
  held = newborn-held connections ends c v zero_refs;
  valid = λ d x q at own.
      let (b, alive) = v.valid d x q at own in (b, live-append_old connections q c b alive);
}

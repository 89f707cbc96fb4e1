-- ===== src/Proxy/State/Cleanup.antt =====
-- `cleanup_connection` on a state in order: the count goes down, and the connection goes with its last
-- end.
use intern_status_update.Base.{
  ℕ, suc, ◌+◌, ◌≤◌, ◌≡◌, refl, sym, ap, ◌∙◌, inl, inr, false, Option, none, some, ok, if◌then◌else◌,
  ◌==◌, ==_iff, Bool-cases, set, set-set, live, live-lt, live-set, live-set_same, live-set_other,
  arith,
}
use intern_status_update.Base.Int.{int_pred, ℤ, pos}
use intern_status_update.Proxy.State.{
  Connection, End, Proxy, store_connection, free_connection, free_end, release, cleanup_connection,
}
use intern_status_update.Proxy.State.Holders.{
  holders, holders-set, holders-live, weight_other, weight_own, Inv,
}

module _ (s : Proxy) (v : Inv s) where
  -- The connection behind two pointers of which one is live.
  other_end :
      (d : ℕ) (x : End) (e : ℕ) (y : End)
      → live s.ends d ≡ some x
      → live (set s.ends d none) e ≡ some y
      → live s.ends e ≡ some y
  other_end d x e y at found = elim (Bool-cases (d == e)) [
    | inl same ↦ cc (rw (live-set s.ends d e none (live-lt s.ends d x at), same) at found)
    | inr apart ↦ rw (live-set s.ends d e none (live-lt s.ends d x at), apart) at found
  ]

  module _ (d : ℕ) (x : End) (p : ℕ) (c : Connection) (at : live s.ends d ≡ some x)
      (held : x.connection ≡ some p) (open_ : live s.connections p ≡ some c) where
    left : holders p (set s.ends d none) + 1 ≡ holders p s.ends
    left = omega (arith, holders-set p s.ends d x none at, weight_own p x held)

    others : (q : ℕ) → (p == q) ≡ false → holders q (set s.ends d none) ≡ holders q s.ends
    others q e = omega (arith, holders-set q s.ends d x none at, weight_other q p x held e)

    -- The last end goes, and the connection with it.
    last-Inv :
        holders p (set s.ends d none) ≡ 0
        → Inv (record s { connections = set s.connections p none; ends = set s.ends d none })
    last-Inv empty = record {
      counted = λ q b found. elim (Bool-cases (p == q)) [
        | inl e ↦
            cc (rw (live-set s.connections p q none (live-lt s.connections p c open_), e) at found)
        | inr e ↦
            rw (others q e)
              (v.counted q b (rw (live-set_other s.connections p q c none open_ e) at found))
      ];
      held = λ q b found. elim (Bool-cases (p == q)) [
        | inl e ↦
            cc (rw (live-set s.connections p q none (live-lt s.connections p c open_), e) at found)
        | inr e ↦
            rw (others q e)
              (v.held q b (rw (live-set_other s.connections p q c none open_ e) at found))
      ];
      valid = λ e y q found holds_q. elim (Bool-cases (p == q)) [
        | inl same ↦
            let here : y.connection ≡ some p = holds_q ∙ ap some (sym ((==_iff p q).0 same)) in
            absurd (omega (arith, holders-live p (set s.ends d none) e y found here, empty))
        | inr apart ↦
            let (b, alive) = v.valid e y q (other_end d x e y at found) holds_q in
            (b, rw (live-set_other s.connections p q c none open_ apart) alive)
      ];
    }

    -- Another end stays.
    kept-Inv :
        (c' : Connection)
        → c'.refs ≡ pos (holders p (set s.ends d none))
        → 1 ≤ holders p (set s.ends d none)
        → Inv (record s { connections = set s.connections p (some c'); ends = set s.ends d none })
    kept-Inv c' refs more = record {
      counted = λ q b found. elim (Bool-cases (p == q)) [
        | inl e ↦
            let same : some c' ≡ some b =
              rw (live-set s.connections p q (some c') (live-lt s.connections p c open_), e) at
                found in
            let here : p ≡ q = (==_iff p q).0 e in let one : c' ≡ b = cc in rw (← one, ← here) refs
        | inr e ↦
            rw (others q e)
              (v.counted q b (rw (live-set_other s.connections p q c (some c') open_ e) at found))
      ];
      held = λ q b found. elim (Bool-cases (p == q)) [
        | inl e ↦ let here : p ≡ q = (==_iff p q).0 e in rw (← here) more
        | inr e ↦
            rw (others q e)
              (v.held q b (rw (live-set_other s.connections p q c (some c') open_ e) at found))
      ];
      valid = λ e y q found holds_q. elim (Bool-cases (p == q)) [
        | inl same ↦ (
          c',
          rw (live-set s.connections p q (some c') (live-lt s.connections p c open_), same) refl,
        )
        | inr apart ↦
            let (b, alive) = v.valid e y q (other_end d x e y at found) holds_q in
            (b, rw (live-set_other s.connections p q c (some c') open_ apart) alive)
      ];
    }

    -- What the decrement leaves.
    pred_refs : int_pred c.refs ≡ pos (holders p (set s.ends d none))
    unfolding int_pred
    pred_refs =
        let all : c.refs ≡ pos (holders p s.ends) = v.counted p c open_ in
        let next : holders p s.ends ≡ suc (holders p (set s.ends d none)) = omega (arith, left) in
        rw (all, next) refl

module _ (s : Proxy) (d : ℕ) (x : End) (p : ℕ) (c : Connection) (at : live s.ends d ≡ some x)
    (held : x.connection ≡ some p) (open_ : live s.connections p ≡ some c) where
  -- The run of the code, for either result of the test.
  cleanup_run :
      (s2 : Proxy)
      → release p (int_pred c.refs) (record s {
        connections = set s.connections p (some (record c { refs = int_pred c.refs }));
      })
        ≡ ok s2
      → s2.ends ≡ s.ends
      → cleanup_connection d s ≡ ok (record s2 { ends = set s.ends d none })
  unfolding cleanup_connection store_connection free_end
  cleanup_run s2 released same = rw (at, held, open_) (rw (released, same, at) refl)

release_last :
    (s : Proxy) (p : ℕ) (refs : ℤ) (b : Connection)
    → refs ≡ pos 0
    → live s.connections p ≡ some b
    → release p refs s ≡ ok (record s { connections = set s.connections p none })
unfolding release free_connection
release_last s p refs b e at = rw (e, at) refl

release_kept :
    (s : Proxy) (p : ℕ) (refs : ℤ) (n : ℕ)
    → refs ≡ pos n
    → (n == 0) ≡ false
    → release p refs s ≡ ok s
unfolding release
release_kept s p refs n e f = rw (e, f) refl

-- What stands in place of a connection that n ends hold.
abbrev pub remains : Connection → ℕ → Option Connection
remains c n = if n == 0 then none else some (record c { refs = pos n })

-- Where the references of every live connection are the ends that hold it, at least one, and every live
-- end with a connection has a live one: `cleanup_connection` of a live end with a connection returns in
-- a state of this kind. The end is freed and no other; its connection is freed if no other end holds
-- it, and has as many references as ends hold it otherwise; cache and messages are as before.
pub cleanup_connection-Inv :
    (s : Proxy) (d : ℕ) (x : End) (p : ℕ) (c : Connection)
    → Inv s
    → live s.ends d ≡ some x
    → x.connection ≡ some p
    → live s.connections p ≡ some c
    → let ends = set s.ends d none in
      let t = record s {
        ends = ends;
        connections = set s.connections p (remains c (holders p ends));
      } in
      (cleanup_connection d s ≡ ok t) × Inv t
cleanup_connection-Inv s d x p c v at held open_ =
    let n = holders p (set s.ends d none) in
    let down = pred_refs s v d x p c at held open_ in
    let c' = record c { refs = int_pred c.refs } in
    elim (Bool-cases (n == 0)) [
      | inl e ↦
          let empty : n ≡ 0 = (==_iff n 0).0 e in
          let freed : release p (int_pred c.refs)
                (record s { connections = set s.connections p (some c') })
              ≡ ok (record s { connections = set s.connections p none }) =
            rw set-set at (
              release_last (record s { connections = set s.connections p (some c') }) p
                (int_pred c.refs) c' (down ∙ ap pos empty)
                (live-set_same s.connections p c (some c') open_)) in
          (
            rw e (cleanup_run s d x p c at held open_ _ freed refl),
            rw e (last-Inv s v d x p c at held open_ empty),
          )
      | inr e ↦
          let same : release p (int_pred c.refs)
                (record s { connections = set s.connections p (some c') })
              ≡ ok (record s { connections = set s.connections p (some c') }) =
            release_kept (record s { connections = set s.connections p (some c') }) p
              (int_pred c.refs) n down e in
          (
            rw e (rw down at (cleanup_run s d x p c at held open_ _ same refl)),
            rw e (
                kept-Inv s v d x p c at held open_ (record c { refs = pos n }) refl (ground arith)),
          )
    ]

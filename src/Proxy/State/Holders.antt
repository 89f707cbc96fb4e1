-- ===== src/Proxy/State/Holders.antt =====
-- How many ends hold a connection.
use intern_status_update.Base.{
  ℕ, zero, suc, ◌+◌, ◌≤◌, ◌≡◌, refl, ap, ◌∙◌, inl, inr, [], ◌∷◌, ◌++◌, List, Bool, false, Option,
  none, some, if◌then◌else◌, ◌==◌, ==_iff, ==_refl, Bool-cases, Option-cases, set, live, arith,
}
use intern_status_update.Base.Int.{pos}
use intern_status_update.Proxy.State.{Connection, End, Proxy}

-- Whether the end holds the connection p.
abbrev pub holds : ℕ → Option ℕ → Bool
holds p none = false
holds p (some q) = q == p

abbrev pub weight : ℕ → Option End → ℕ
weight p none = 0
weight p (some x) = if holds p x.connection then 1 else 0

unfoldable pub holders : ℕ → List (Option End) → ℕ
holders p [] = 0
holders p (o ∷ ends) = weight p o + holders p ends

pub holders-append :
    (p : ℕ) (ends : List (Option End)) (o : Option End)
    → holders p (ends ++ o ∷ []) ≡ holders p ends + weight p o
unfolding holders
holders-append p [] o = omega arith
holders-append p (e ∷ ends) o = omega (arith, holders-append p ends o)

-- A write at a live end takes its weight away and adds that of the new one.
pub holders-set :
    (p : ℕ) (ends : List (Option End)) (d : ℕ) (x : End) (o : Option End)
    → live ends d ≡ some x
    → holders p (set ends d o) + weight p (some x) ≡ holders p ends + weight p o
unfolding holders
holders-set p [] d x o h = cc
holders-set p (e ∷ ends) zero x o h =
    let here : weight p e ≡ weight p (some x) = ap (weight p) h in omega (arith, here)
holders-set p (e ∷ ends) (suc d) x o h = omega (arith, holders-set p ends d x o h)

-- The references of every live connection are the ends that hold it, at least one; and every live end
-- that has a connection has a live one.
pub record IsCounted (connections : List (Option Connection)) (ends : List (Option End))
    : Type 0 where
  pub counted :
      (p : ℕ) (c : Connection) → live connections p ≡ some c → c.refs ≡ pos (holders p ends)
  pub held : (p : ℕ) (c : Connection) → live connections p ≡ some c → 1 ≤ holders p ends
  pub valid :
      (d : ℕ) (x : End) (p : ℕ)
      → live ends d ≡ some x
      → x.connection ≡ some p
      → (c : Connection) × (live connections p ≡ some c)

abbrev pub Inv : Proxy → Type 0
Inv s = IsCounted s.connections s.ends

-- A live end that holds p counts.
pub holders-live :
    (p : ℕ) (ends : List (Option End)) (d : ℕ) (x : End)
    → live ends d ≡ some x
    → x.connection ≡ some p
    → 1 ≤ holders p ends
unfolding holders
holders-live p [] d x h e = cc
holders-live p (o ∷ ends) zero x h e =
    let here : weight p o ≡ weight p (some x) = ap (weight p) h in
    let one : weight p (some x) ≡ 1 = rw (e, ==_refl p) refl in omega (arith, here, one)
holders-live p (o ∷ ends) (suc d) x h e = omega (arith, holders-live p ends d x h e)

-- What an end that does not hold p weighs.
pub weight_other :
    (p q : ℕ) (x : End) → x.connection ≡ some q → (q == p) ≡ false → weight p (some x) ≡ 0
weight_other p q x e f = rw (e, f) refl

pub weight_own : (p : ℕ) (x : End) → x.connection ≡ some p → weight p (some x) ≡ 1
weight_own p x e = rw (e, ==_refl p) refl

-- Without a live end that holds p the count is zero.
pub holders-none :
    (p : ℕ) (ends : List (Option End))
    → ((d : ℕ) (x : End) → live ends d ≡ some x → x.connection ≡ some p → ⊥)
    → holders p ends ≡ 0
unfolding holders
holders-none p [] h = refl
holders-none p (none ∷ ends) h = omega (arith, holders-none p ends λ d x. h (suc d) x)
holders-none p (some x ∷ ends) h =
    let rest = holders-none p ends λ d y. h (suc d) y in
    elim (Option-cases x.connection) [
      | inl e ↦ rw (e, rest) refl
      | inr (q, e) ↦ elim (Bool-cases (q == p)) [
        | inl f ↦ absurd (h zero x refl (e ∙ ap some ((==_iff q p).0 f)))
        | inr f ↦ omega (arith, weight_other p q x e f, rest)
      ]
    ]

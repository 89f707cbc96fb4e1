-- ===== src/Exercises/WordCount/Sort.antt =====
-- 7-1-26/6-4.c: sort_on_frequency sorts the entries by count, and by word where the counts agree.
pub mod Order
pub mod Rounds
use mathlib.Core.List.{Permᴰ}
use mathlib.Core.List.Permᴰ
use intern_status_update.Base.{
  ℕ, zero, suc, ◌+◌, ◌≡◌, refl, sym, ap, subst, ◌∙◌, inl, inr, [], ◌∷◌, ◌++◌, List, Bytes, Bool,
  true, false, ◌&&◌, ◌||◌, if◌then◌else◌, ltb, ◌==◌, length, length-append, All, All-append,
  All-split, Bool-cases, append_assoc, append-nil, arith,
}
use intern_status_update.Libc.Compare.{
  strcmp, strcmp_refl, is_after, is_after_trans, is_after-total,
}
use intern_status_update.Exercises.WordCount.{
  Entry, wrong, first_of, second_of, bubble, sort_rounds, sort_on_frequency,
}
use intern_status_update.Exercises.WordCount.Count.{counts_of}
use intern_status_update.Exercises.WordCount.Count.Tally.{as_counts}

-- The code leaves x in front of y.
abbrev pub Stays : Entry → Entry → Type 0
Stays x y = wrong x y ≡ false

abbrev pub IsSettled : List Entry → Type 0
IsSettled [] = Unit {0}
IsSettled (x ∷ entries) = All (Stays x) entries × IsSettled entries

Stays-refl : (x : Entry) → Stays x x
Stays-refl x = ground (arith, strcmp_refl x.word)

Stays-trans : (x y z : Entry) → Stays x y → Stays y z → Stays x z
Stays-trans x y z h k = ground (arith, is_after_trans x.word y.word z.word)

Stays-total : (x y : Entry) → wrong x y ≡ true → Stays y x
Stays-total x y h = ground (arith, is_after-total x.word y.word)

first-Stays : (x y : Entry) → Stays (first_of x y) (second_of x y)
first-Stays x y = elim (Bool-cases (wrong x y)) [
  | inl e ↦ rw e (Stays-total x y e)
  | inr e ↦ rw e e
]

pub All-perm : (P : Entry → Type 0) {xs ys : List Entry} → Permᴰ xs ys → All P xs → All P ys
All-perm P Permᴰ.nil a = a
All-perm P (Permᴰ.cons e p) a = (subst P e a.0, All-perm P p a.1)
All-perm P (Permᴰ.swap e f) a = (subst P f a.1.0, (subst P e a.0, a.1.1))
All-perm P (Permᴰ.trans p q) a = All-perm P q (All-perm P p a)

All-Stays-trans :
    (x y : Entry) (entries : List Entry) → Stays x y → All (Stays y) entries → All (Stays x) entries
All-Stays-trans x y [] h a = tt
All-Stays-trans x y (z ∷ entries) h a = (Stays-trans x y z h a.0, All-Stays-trans x y entries h a.1)

pair-perm :
    (x y : Entry) (rest : List Entry) → Permᴰ (x ∷ y ∷ rest) (first_of x y ∷ second_of x y ∷ rest)
pair-perm x y rest = elim (Bool-cases (wrong x y)) [
  | inl e ↦ rw e (Permᴰ.swap refl refl)
  | inr e ↦ rw e (Permᴰ.refl (x ∷ y ∷ rest))
]

-- What one pass over these entries leaves: one that all others may precede stands last.
abbrev pub Passed : List Entry → List Entry → ℕ → Type 0
Passed front result r =
    (init : List Entry) × (last : Entry) × (result ≡ init ++ last ∷ [])
    × (length init ≡ r)
    × All (λ y. Stays y last) init
    × Permᴰ front (init ++ last ∷ [])

pub bubble-Passed :
    (r : ℕ) (front : List Entry) → length front ≡ suc r → Passed front (bubble r front).1 r
unfolding bubble
bubble-Passed zero [] h = absurd (omega arith)
bubble-Passed zero (x ∷ []) h = ([], x, refl, refl, tt, Permᴰ.refl (x ∷ []))
bubble-Passed zero (x ∷ y ∷ rest) h = absurd (omega arith)
bubble-Passed (suc r) [] h = absurd (omega arith)
bubble-Passed (suc r) (x ∷ []) h = absurd (omega arith)
bubble-Passed (suc r) (x ∷ y ∷ rest) h =
    let (init, last, e, size, below, p) = bubble-Passed r (second_of x y ∷ rest) (omega arith) in
    let all = All-append (λ z. Stays z last) init (last ∷ []) below (Stays-refl last, tt) in
    let second = (All-perm (λ z. Stays z last) (Permᴰ.symm p) all).0 in
    (
      first_of x y ∷ init,
      last,
      ap (λ t. first_of x y ∷ t) e,
      omega arith,
      (Stays-trans (first_of x y) (second_of x y) last (first-Stays x y) second, below),
      Permᴰ.trans (pair-perm x y rest) (Permᴰ.cons refl p),
    )

not_or : (a b : Bool) → (a || b) ≡ false → (a ≡ false) × (b ≡ false)
not_or true b h = cc
not_or false b h = (refl, h)

-- A pass without a swap leaves the entries, and they are sorted.
pub bubble-IsSettled :
    (r : ℕ) (front : List Entry)
    → length front ≡ suc r
    → (bubble r front).0 ≡ false
    → ((bubble r front).1 ≡ front) × IsSettled front
unfolding bubble
bubble-IsSettled zero [] h e = absurd (omega arith)
bubble-IsSettled zero (x ∷ []) h e = (refl, (tt, tt))
bubble-IsSettled zero (x ∷ y ∷ rest) h e = absurd (omega arith)
bubble-IsSettled (suc r) [] h e = absurd (omega arith)
bubble-IsSettled (suc r) (x ∷ []) h e = absurd (omega arith)
bubble-IsSettled (suc r) (x ∷ y ∷ rest) h e =
    let (right, more) = not_or (wrong x y) _ e in
    let keep : (bubble r (y ∷ rest)).0 ≡ false = rw right at more in
    let (same, sorted) = bubble-IsSettled r (y ∷ rest) (omega arith) keep in
    ((rw right (ap (λ t. x ∷ t) same)), ((right, All-Stays-trans x y rest right sorted.0), sorted))

-- A pass over the first entries does not touch those behind.
pub bubble-append :
    (r : ℕ) (front back : List Entry)
    → length front ≡ suc r
    → bubble r (front ++ back) ≡ ((bubble r front).0, (bubble r front).1 ++ back)
unfolding bubble
bubble-append zero [] back h = absurd (omega arith)
bubble-append zero (x ∷ []) back h = refl
bubble-append zero (x ∷ y ∷ rest) back h = absurd (omega arith)
bubble-append (suc r) [] back h = absurd (omega arith)
bubble-append (suc r) (x ∷ []) back h = absurd (omega arith)
bubble-append (suc r) (x ∷ y ∷ rest) back h =
    rw (bubble-append r (second_of x y ∷ rest) back (omega arith)) refl

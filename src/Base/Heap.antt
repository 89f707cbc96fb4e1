-- ===== src/Base/Heap.antt =====
-- Heaps: the objects of one type in the order of their allocation; a freed one leaves `none`.
use Prim.Native.Nat.{ℕ, zero, suc, ◌<◌}
use mathlib.Core.Path.{◌≡◌, refl}
use mathlib.Core.Logic.{◌⊎◌, inl, inr}
use mathlib.Core.List.{List, [], ◌∷◌, ◌++◌}
use mathlib.Core.Bool.{false}
use mathlib.Core.Option.{Option, none, some}
use native.Mathlib.Omega.{arith}
use intern_status_update.Base.Tests.{◌==◌, if◌then◌else◌, ==_refl}
use intern_status_update.Base.Lists.{length, get_elem?, set}

-- The object at a place, if it is allocated and not freed.
abbrev pub live {ℓ} : {A : Type ℓ} → List (Option A) → ℕ → Option A
live heap p = elim (get_elem? heap p) [ none ↦ none | some o ↦ o ]

pub live-lt {ℓ} :
    {A : Type ℓ} (heap : List (Option A)) (p : ℕ) (a : A) → live heap p ≡ some a → p < length heap
live-lt [] p a h = cc
live-lt (o ∷ heap) zero a h = omega arith
live-lt (o ∷ heap) (suc p) a h = omega (arith, live-lt heap p a h)

pub live-set {ℓ} :
    {A : Type ℓ} (heap : List (Option A)) (p q : ℕ) (o : Option A)
    → p < length heap
    → live (set heap p o) q ≡ (if p == q then o else live heap q)
live-set [] p q o h = absurd (omega arith)
live-set (x ∷ heap) zero zero o h = ground arith
live-set (x ∷ heap) zero (suc q) o h = ground arith
live-set (x ∷ heap) (suc p) zero o h = ground arith
live-set (x ∷ heap) (suc p) (suc q) o h = ground (arith, live-set heap p q o)

pub live-append {ℓ} :
    {A : Type ℓ} (heap : List (Option A)) (q : ℕ) (a b : A)
    → live (heap ++ some a ∷ []) q ≡ some b
    → ((q ≡ length heap) × (a ≡ b)) ⊎ (live heap q ≡ some b)
live-append [] zero a b h = inl (refl, ground arith)
live-append [] (suc q) a b h = cc
live-append (o ∷ heap) zero a b h = inr h
live-append (o ∷ heap) (suc q) a b h = ground (arith, live-append heap q a b h)

pub live-append_old {ℓ} :
    {A : Type ℓ} (heap : List (Option A)) (q : ℕ) (a b : A)
    → live heap q ≡ some b
    → live (heap ++ some a ∷ []) q ≡ some b
live-append_old [] q a b h = cc
live-append_old (o ∷ heap) zero a b h = h
live-append_old (o ∷ heap) (suc q) a b h = live-append_old heap q a b h

pub live-append_new {ℓ} :
    {A : Type ℓ} (heap : List (Option A)) (a : A)
    → live (heap ++ some a ∷ []) (length heap) ≡ some a
live-append_new [] a = refl
live-append_new (o ∷ heap) a = live-append_new heap a

-- What a write at the place of an object leaves there.
pub live-set_same {ℓ} :
    {A : Type ℓ} (heap : List (Option A)) (p : ℕ) (a : A) (o : Option A)
    → live heap p ≡ some a
    → live (set heap p o) p ≡ o
live-set_same heap p a o at = rw (live-set heap p p o (live-lt heap p a at), ==_refl p) refl

pub live-set_other {ℓ} :
    {A : Type ℓ} (heap : List (Option A)) (p q : ℕ) (a : A) (o : Option A)
    → live heap p ≡ some a
    → (p == q) ≡ false
    → live (set heap p o) q ≡ live heap q
live-set_other heap p q a o at e = rw (live-set heap p q o (live-lt heap p a at), e) refl

pub some-injective {ℓ} : {A : Type ℓ} {a b : A} → some a ≡ some b → a ≡ b
some-injective h = cc

-- ===== src/Base/Memory.antt =====
-- Reads and writes through pointers into one object, a list of bytes; outside it they fault.
use Prim.Native.Nat.{ℕ, zero, suc, ◌+◌, ◌-◌, ◌≤◌, ◌<◌}
use mathlib.Core.Path.{◌≡◌, refl, ap, ◌∙◌}
use mathlib.Core.List.{[], ◌∷◌, ◌++◌, append_assoc}
use mathlib.Core.Logic.{inl, inr}
use mathlib.Core.Option.{some}
use native.Mathlib.Omega.{arith}
use intern_status_update.Base.Tests.{ltb, if◌then◌else◌, lt→ltb}
use intern_status_update.Base.Lists.{length, get_elem?, set, drop, length-append, length-set}
use intern_status_update.Base.Outcome.{Run, ok, fault, ◌>>=◌, deref, Run-cases, ok-injective}
use intern_status_update.Base.Text.{Bytes}

-- `buf[i]`
abbrev pub read_at : Bytes → ℕ → Run ℕ
read_at buf i = deref (get_elem? buf i)

unfoldable pub take_exact : Bytes → ℕ → Run Bytes
take_exact xs zero = ok []
take_exact [] (suc n) = fault
take_exact (x ∷ xs) (suc n) = do r ← take_exact xs n; ok (x ∷ r)

-- The `n` bytes that `memcpy` reads from `buf + i`.
abbrev pub copy_from : Bytes → ℕ → ℕ → Run Bytes
copy_from buf i n = take_exact (drop i buf) n

-- `buf[i] = v`
unfoldable pub store : Bytes → ℕ → ℕ → Run Bytes
store buf i v = if ltb i (length buf) then ok (set buf i v) else fault

-- The writes of `memcpy` to `buf + i`.
unfoldable pub store_all : Bytes → ℕ → Bytes → Run Bytes
store_all buf i [] = ok buf
store_all buf i (x ∷ xs) = do b ← store buf i x; store_all b (i + 1) xs

-- The bytes that are handed to `send`.
unfoldable pub take : ℕ → Bytes → Bytes
take zero xs = []
take (suc n) [] = []
take (suc n) (x ∷ xs) = x ∷ take n xs

pub take_exact-append : (xs rest : Bytes) → take_exact (xs ++ rest) (length xs) ≡ ok xs
unfolding take_exact
take_exact-append [] rest = refl
take_exact-append (x ∷ xs) rest = rw (take_exact-append xs rest)

pub take_exact_short : (xs : Bytes) (n : ℕ) → length xs < n → take_exact xs n ≡ fault
unfolding take_exact
take_exact_short xs zero h = absurd (omega arith)
take_exact_short [] (suc n) h = refl
take_exact_short (x ∷ xs) (suc n) h = rw (take_exact_short xs n (omega arith))

pub length-take_exact : (xs : Bytes) (n : ℕ) (ys : Bytes) → take_exact xs n ≡ ok ys → length ys ≡ n
unfolding take_exact
length-take_exact xs zero ys h = ground arith
length-take_exact [] (suc n) ys h = cc
length-take_exact (x ∷ xs) (suc n) ys h = elim (Run-cases (take_exact xs n)) [
  | inl e ↦ cc (rw e at h)
  | inr (r, e) ↦ rw (← ok-injective (rw e at h)) (ap suc (length-take_exact xs n r e))
]

pub drop-length : (pre xs : Bytes) → drop (length pre) (pre ++ xs) ≡ xs
drop-length [] xs = refl
drop-length (x ∷ pre) xs = drop-length pre xs

pub drop_next :
    (buf : Bytes) (i : ℕ) {b : ℕ} {bs : Bytes}
    → drop i buf ≡ b ∷ bs
    → (get_elem? buf i ≡ some b) × (drop (i + 1) buf ≡ bs)
drop_next [] zero h = cc
drop_next [] (suc i) h = cc
drop_next (x ∷ buf) zero h = (cc, ap (drop 1) h)
drop_next (x ∷ buf) (suc i) h =
    let (found, rest) = drop_next buf i h in
    (found, ap (λ k. drop k (x ∷ buf)) (let e : suc i + 1 ≡ suc (i + 1) = omega arith in e) ∙ rest)

pub length-drop : (n : ℕ) (xs : Bytes) → length (drop n xs) ≡ length xs - n
length-drop zero xs = omega arith
length-drop (suc n) [] = omega arith
length-drop (suc n) (x ∷ xs) = omega (arith, length-drop n xs)

set-append :
    (pre : Bytes) (x v : ℕ) (rest : Bytes) → set (pre ++ x ∷ rest) (length pre) v ≡ pre ++ v ∷ rest
set-append [] x v rest = refl
set-append (p ∷ pre) x v rest = ap (λ t. p ∷ t) (set-append pre x v rest)

pub store-append :
    (pre : Bytes) (x v : ℕ) (rest : Bytes)
    → store (pre ++ x ∷ rest) (length pre) v ≡ ok (pre ++ v ∷ rest)
unfolding store
store-append pre x v rest =
    rw
      (lt→ltb (length pre) (length (pre ++ x ∷ rest)) (omega (arith, length-append pre (x ∷ rest))))
      (ap ok (set-append pre x v rest))

-- `memcpy` into a buffer with room: what stood before and behind the copy stays.
pub store_all-append :
    (xs pre rest : Bytes)
    → length xs ≤ length rest
    → store_all (pre ++ rest) (length pre) xs ≡ ok (pre ++ (xs ++ drop (length xs) rest))
unfolding store_all
store_all-append [] pre rest h = refl
store_all-append (x ∷ xs) pre [] h = absurd (omega arith)
store_all-append (x ∷ xs) pre (r ∷ rest) h =
    rw (store-append pre r x rest)
      (subst-at (store_all-append xs (pre ++ x ∷ []) rest (omega arith)))
  where
    subst-at :
        store_all ((pre ++ x ∷ []) ++ rest) (length (pre ++ x ∷ [])) xs
          ≡ ok ((pre ++ x ∷ []) ++ (xs ++ drop (length xs) rest))
        → store_all (pre ++ x ∷ rest) (length pre + 1) xs
          ≡ ok (pre ++ (x ∷ (xs ++ drop (length xs) rest)))
    subst-at e = simp (length-append, append_assoc) at e

-- Without room it faults.
pub store_all_overflow :
    (xs buf : Bytes) (i : ℕ)
    → length buf < i + length xs
    → i ≤ length buf
    → store_all buf i xs ≡ fault
unfolding store_all store
store_all_overflow [] buf i h k = absurd (omega arith)
store_all_overflow (x ∷ xs) buf i h k =
    ground (arith, store_all_overflow xs (set buf i x) (i + 1), length-set buf i x)

pub take-append : (xs ys : Bytes) → take (length xs) (xs ++ ys) ≡ xs
unfolding take
take-append [] ys = refl
take-append (x ∷ xs) ys = ap (λ t. x ∷ t) (take-append xs ys)

-- Copying two pieces one behind the other is copying both at once.
pub store_all-split :
    (xs ys buf : Bytes) (i : ℕ)
    → store_all buf i (xs ++ ys) ≡ (store_all buf i xs >>= λ b. store_all b (i + length xs) ys)
unfolding store_all
store_all-split [] ys buf i = ap (λ k. store_all buf k ys) (let e : i ≡ i + 0 = omega arith in e)
store_all-split (x ∷ xs) ys buf i = elim (Run-cases (store buf i x)) [
  | inl e ↦ rw e
  | inr (b, e) ↦
      let shift : i + 1 + length xs ≡ i + suc (length xs) = omega arith in
      rw (e, store_all-split xs ys b (i + 1), shift)
]

-- ===== src/Packet/Pad.antt =====
-- Mini Project 27-1-26/datapack.h: padded texts and the parts of a packet.
use intern_status_update.Base.{
  ℕ, zero, suc, ◌+◌, ◌-◌, ◌≤◌, ◌<◌, ◌≡◌, refl, ap, subst, [], ◌∷◌, ◌++◌, Bytes, some, ok, length,
  set, take, drop, replicate, take_exact, take_exact-append, length-append, length-replicate,
  get_elem?, arith, drop-length,
}
use intern_status_update.Packet.{pad}

pub get_elem?-replicate : (n j a : ℕ) → j < n → get_elem? (replicate n a) j ≡ some a
unfolding replicate
get_elem?-replicate zero j a h = absurd (omega arith)
get_elem?-replicate (suc n) zero a h = refl
get_elem?-replicate (suc n) (suc j) a h = get_elem?-replicate n j a (omega arith)

pub get_elem?-padding :
    (xs : Bytes) (n j a : ℕ)
    → length xs ≤ j
    → j < length xs + n
    → get_elem? (xs ++ replicate n a) j ≡ some a
get_elem?-padding [] n j a low high = get_elem?-replicate n j a (omega arith)
get_elem?-padding (x ∷ xs) n zero a low high = absurd (omega arith)
get_elem?-padding (x ∷ xs) n (suc j) a low high =
    get_elem?-padding xs n j a (omega arith) (omega arith)

take-all : (w : ℕ) (s : Bytes) → length s ≤ w → take w s ≡ s
unfolding take
take-all zero [] h = refl
take-all zero (x ∷ s) h = absurd (omega arith)
take-all (suc w) [] h = refl
take-all (suc w) (x ∷ s) h = ap (λ t. x ∷ t) (take-all w s (omega arith))

pub pad-text : (w : ℕ) (s : Bytes) → length s ≤ w → pad w s ≡ s ++ replicate (w - length s) b' '
unfolding pad
pad-text w s h = rw (take-all w s h) refl

length-take : (w : ℕ) (s : Bytes) → length (take w s) ≤ w
unfolding take
length-take zero s = omega arith
length-take (suc w) [] = omega arith
length-take (suc w) (x ∷ s) = omega (arith, length-take w s)

pub length-pad : (w : ℕ) (s : Bytes) → length (pad w s) ≡ w
unfolding pad
length-pad w s = omega (
  arith,
  length-append (take w s) (replicate (w - length (take w s)) b' '),
  length-replicate {A = ℕ} (w - length (take w s)) b' ',
  length-take w s,
)

-- The first of two parts of a buffer.
pub copy_first : (w : ℕ) (xs rest : Bytes) → length xs ≡ w → take_exact (xs ++ rest) w ≡ ok xs
copy_first w xs rest h =
    subst (λ n. take_exact (xs ++ rest) n ≡ ok xs) h (take_exact-append xs rest)

-- The second.
pub drop_first : (w : ℕ) (xs rest : Bytes) → length xs ≡ w → drop w (xs ++ rest) ≡ rest
drop_first w xs rest h = subst (λ n. drop n (xs ++ rest) ≡ rest) h (drop-length xs rest)

pub take-set : (n i v : ℕ) (xs : Bytes) → n ≤ i → take n (set xs i v) ≡ take n xs
unfolding take
take-set zero i v xs h = refl
take-set (suc n) i v [] h = refl
take-set (suc n) zero v (x ∷ xs) h = absurd (omega arith)
take-set (suc n) (suc i) v (x ∷ xs) h = ap (λ t. x ∷ t) (take-set n i v xs (omega arith))

pub length-snoc : (m : Bytes) (x : ℕ) → length (m ++ x ∷ []) ≡ suc (length m)
length-snoc m x = omega (arith, length-append m (x ∷ []))

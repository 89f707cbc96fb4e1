-- ===== src/Proxy/Text.antt =====
-- Searches in C strings, which are their bytes without the terminator.
use intern_status_update.Base.{
  ℕ, ◌≡◌, refl, [], ◌∷◌, ◌++◌, Bytes, Bool, true, false, Option, none, some, if◌then◌else◌, ◌==◌,
  ==_refl, ne→==, All, arith, ◌≢◌, sym,
}

-- Whether `needle` stands at the start.
unfoldable pub is_prefix : Bytes → Bytes → Bool
is_prefix [] s = true
is_prefix (n ∷ ns) [] = false
is_prefix (n ∷ ns) (x ∷ s) = let rest = is_prefix ns s in if n == x then rest else false

-- `strstr(s, needle)`: the string from the first occurrence on.
unfoldable pub find_text : Bytes → Bytes → Option Bytes
unfolding is_prefix
find_text needle [] = if is_prefix needle [] then some [] else none
find_text needle (x ∷ s) =
    let rest = find_text needle s in if is_prefix needle (x ∷ s) then some (x ∷ s) else rest

-- A scan up to the first byte that `stop` accepts, or the end: what is passed, and the rest.
unfoldable pub scan : (ℕ → Bool) → Bytes → Bytes × Bytes
scan stop [] = ([], [])
scan stop (x ∷ s) =
    let (before, rest) = scan stop s in if stop x then ([], x ∷ s) else (x ∷ before, rest)

-- `strchr(s, c)`: what stands before the byte and behind it.
unfoldable pub split_at_byte : ℕ → Bytes → Option (Bytes × Bytes)
split_at_byte c [] = none
split_at_byte c (x ∷ s) =
    let rest = split_at_byte c s in
    if x == c
    then some ([], s)
    else elim rest [ none ↦ none | some (before, after) ↦ some (x ∷ before, after) ]

-- No byte of the text is c.
abbrev pub Lacks : ℕ → Bytes → Type 0
Lacks c = All (λ x. x ≢ c)

-- The scan passes what it does not stop at.
pub scan-append :
    (stop : ℕ → Bool) (s : Bytes) (x : ℕ) (t : Bytes)
    → All (λ c. stop c ≡ false) s
    → stop x ≡ true
    → scan stop (s ++ x ∷ t) ≡ (s, x ∷ t)
unfolding scan
scan-append stop [] x t h e = rw e refl
scan-append stop (y ∷ s) x t h e = rw (h.0, scan-append stop s x t h.1 e) refl

pub scan-All : (stop : ℕ → Bool) (s : Bytes) → All (λ c. stop c ≡ false) s → scan stop s ≡ (s, [])
unfolding scan
scan-All stop [] h = refl
scan-All stop (y ∷ s) h = rw (h.0, scan-All stop s h.1) refl

pub split_at_byte-append :
    (c : ℕ) (s t : Bytes) → Lacks c s → split_at_byte c (s ++ c ∷ t) ≡ some (s, t)
unfolding split_at_byte
split_at_byte-append c [] t h = ground arith
split_at_byte-append c (y ∷ s) t h = rw (ne→== y c h.0, split_at_byte-append c s t h.1) refl

is_prefix-append : (ns t : Bytes) → is_prefix ns (ns ++ t) ≡ true
unfolding is_prefix
is_prefix-append [] t = refl
is_prefix-append (n ∷ ns) t = rw (==_refl n, is_prefix-append ns t) refl

-- A text whose first byte does not occur before it is found where it stands.
pub find_text-append :
    (n : ℕ) (ns s t : Bytes)
    → Lacks n s
    → find_text (n ∷ ns) (s ++ n ∷ (ns ++ t)) ≡ some (n ∷ (ns ++ t))
unfolding find_text is_prefix
find_text-append n ns [] t h = rw (==_refl n, is_prefix-append ns t) refl
find_text-append n ns (y ∷ s) t h =
    rw (ne→== n y (λ e. h.0 (sym e)), find_text-append n ns s t h.1) refl

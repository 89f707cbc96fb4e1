-- ===== src/Packet/Trim.antt =====
-- Mini Project 27-1-26/datapack.h: what `trim` makes of a packet's text.
use intern_status_update.Base.{
  ℕ, zero, suc, ◌+◌, ◌-◌, ◌≤◌, ◌<◌, ◌≡◌, ◌≢◌, refl, sym, ap, subst, ◌∙◌, inl, inr, [], ◌∷◌, ◌++◌,
  Bytes, true, false, ◌||◌, some, ok, fault, ◌>>=◌, if◌then◌else◌, ◌==◌, length, set, take,
  replicate, length-append, length-replicate, get_elem?, get_elem?-set, get_elem?-append,
  get_elem?-append_last, arith, lt→ltb, ne→==, Bool-cases, take-append,
}
use intern_status_update.Libc.{cstr}
use intern_status_update.Packet.{
  ClientData, pad, pack_client_data, unpack_client_data, step_back, trim,
}
use intern_status_update.Packet.Pad.{
  get_elem?-replicate, get_elem?-padding, pad-text, length-pad, copy_first, drop_first, take-set,
  length-snoc,
}

-- A blank or a NUL stands there.
BlankAt : Bytes → ℕ → Type 0
BlankAt arr j = (c : ℕ) × (get_elem? arr j ≡ some c) × ((c == b' ' || c == 0) ≡ true)

step_back-blank : (arr : Bytes) (j : ℕ) → BlankAt arr j → step_back arr (suc j) ≡ step_back arr j
unfolding step_back BlankAt
step_back-blank arr j (c, at, blank) = rw (at, blank) refl

step_back-blanks :
    (arr : Bytes) (k i n : ℕ)
    → n ≡ i + k
    → ((j : ℕ) → i ≤ j → j < n → BlankAt arr j)
    → step_back arr n ≡ step_back arr i
step_back-blanks arr zero i n e blank = let same : n ≡ i = omega arith in ap (step_back arr) same
step_back-blanks arr (suc k) i zero e blank = absurd (omega arith)
step_back-blanks arr (suc k) i (suc n) e blank =
    step_back-blank arr n (blank n (omega arith) (omega arith))
    ∙ step_back-blanks arr k i n (omega arith) λ j low high. blank j low (omega arith)

-- The message of a packet whose text has at most 99 bytes.
abbrev arrived : Bytes → Bytes
arrived text = set (text ++ replicate (100 - length text) b' ') 99 0

unpack-pack :
    (d : ClientData) (text : Bytes)
    → cstr d.message ≡ text
    → length text ≤ 99
    → (unpack_client_data (pack_client_data d) >>= λ e. trim e.message) ≡ trim (arrived text)
unfolding unpack_client_data pack_client_data
unpack-pack d text named short =
    let first =
      copy_first 100 (pad 100 (cstr d.message)) (pad 32 (cstr d.time_str) ++ 0 ∷ [])
        (length-pad 100 _) in
    let behind =
      drop_first 100 (pad 100 (cstr d.message)) (pad 32 (cstr d.time_str) ++ 0 ∷ [])
        (length-pad 100 _) in
    let second = copy_first 32 (pad 32 (cstr d.time_str)) (0 ∷ []) (length-pad 32 _) in
    let it : pad 100 (cstr d.message) ≡ text ++ replicate (100 - length text) b' ' =
      ap (pad 100) named ∙ pad-text 100 text (omega arith) in
    rw (first, behind, second, it) refl

arrived-other :
    (text : Bytes) (j : ℕ)
    → length text ≤ 99
    → get_elem? (arrived text) j
      ≡ (if 99 == j then some 0 else get_elem? (text ++ replicate (100 - length text) b' ') j)
arrived-other text j short = get_elem?-set (text ++ replicate (100 - length text) b' ') 99 j 0 (
    omega (
      arith,
      length-append text (replicate (100 - length text) b' '),
      length-replicate {A = ℕ} (100 - length text) b' ',
    ))

arrived-BlankAt :
    (text : Bytes) (j : ℕ) → length text ≤ 99 → length text ≤ j → j < 100 → BlankAt (arrived text) j
unfolding BlankAt
arrived-BlankAt text j short low high = elim (Bool-cases (99 == j)) [
  | inl e ↦ (0, arrived-other text j short ∙ (rw e refl), refl)
  | inr e ↦ (
    b' ',
    arrived-other text j short
        ∙ (rw e (get_elem?-padding text (100 - length text) j b' ' low (omega arith))),
    refl,
  )
]

trim-arrived :
    (text : Bytes)
    → length text ≤ 99
    → step_back (arrived text) 100 ≡ step_back (arrived text) (length text)
trim-arrived text short =
    step_back-blanks (arrived text) (100 - length text) (length text) 100 (omega arith)
      λ j low high. arrived-BlankAt text j short low high

last_byte :
    (m : Bytes) (x : ℕ) → length m ≤ 98 → get_elem? (arrived (m ++ x ∷ [])) (length m) ≡ some x
last_byte m x short =
    let one = length-snoc m x in
    arrived-other (m ++ x ∷ []) (length m) (omega arith)
    ∙ rw (ne→== 99 (length m) (omega arith))
        (get_elem?-append (m ++ x ∷ []) _ (length m) (omega arith) ∙ get_elem?-append_last m x)

step_back-last :
    (arr : Bytes) (i x : ℕ)
    → get_elem? arr i ≡ some x
    → x ≢ b' '
    → x ≢ 0
    → step_back arr (suc i) ≡ ok (suc i)
unfolding step_back
step_back-last arr i x at no_blank no_nul = rw (at, ne→== x b' ' no_blank, ne→== x 0 no_nul) refl

trim-found : (arr : Bytes) (n : ℕ) → n < 100 → step_back arr 100 ≡ ok n → trim arr ≡ ok (take n arr)
unfolding trim
trim-found arr n few h = rw (h, lt→ltb n 100 few) refl

-- A text of 1 to 99 bytes that ends in neither a blank nor a NUL is what `trim` returns for the
-- packet that was packed with it, once unpacked.
pub trim-pack_client_data :
    (d : ClientData) (m : Bytes) (x : ℕ)
    → cstr d.message ≡ m ++ x ∷ []
    → length m ≤ 98
    → x ≢ b' '
    → x ≢ 0
    → (unpack_client_data (pack_client_data d) >>= λ e. trim e.message) ≡ ok (m ++ x ∷ [])
trim-pack_client_data d m x named short no_blank no_nul =
    let text = m ++ x ∷ [] in
    let one = length-snoc m x in
    let fits : length text ≤ 99 = omega arith in
    let last : step_back (arrived text) (length text) ≡ ok (length text) =
      subst (λ n. step_back (arrived text) n ≡ ok n) (sym one)
        (step_back-last (arrived text) (length m) x (last_byte m x short) no_blank no_nul) in
    unpack-pack d text named fits
    ∙ trim-found (arrived text) (length text) (omega arith) (trim-arrived text fits ∙ last)
    ∙ ap ok (take-set (length text) 99 0 _ fits ∙ take-append text _)

abbrev pub blanks : ℕ → Bytes
blanks n = replicate n b' '

-- Of a text of blanks every byte that arrives is blank.
blanks-BlankAt : (n j : ℕ) → n ≤ 99 → length (blanks n) ≡ n → j < n → BlankAt (arrived (blanks n)) j
unfolding BlankAt
blanks-BlankAt n j few size below =
    let early : (99 == j) ≡ false = ne→== 99 j (omega arith) in
    let inside : get_elem? (blanks n ++ replicate (100 - length (blanks n)) b' ') j ≡ some b' ' =
      get_elem?-append (blanks n) _ j (omega arith) ∙ get_elem?-replicate n j b' ' below in
    (b' ', arrived-other (blanks n) j (omega arith) ∙ (rw early inside), refl)

-- For a packet whose text is empty or has at most 99 blanks and nothing else, `trim` reads in front
-- of the array.
pub trim_blank :
    (d : ClientData) (n : ℕ)
    → cstr d.message ≡ blanks n
    → n ≤ 99
    → (unpack_client_data (pack_client_data d) >>= λ e. trim e.message) ≡ fault
unfolding trim step_back
trim_blank d n named few =
    let size : length (blanks n) ≡ n = length-replicate n b' ' in
    let fits : length (blanks n) ≤ 99 = omega arith in
    let front : step_back (arrived (blanks n)) (length (blanks n)) ≡ fault =
      step_back-blanks (arrived (blanks n)) n 0 (length (blanks n)) (omega arith)
        λ j low high. blanks-BlankAt n j few size (omega arith) in
    unpack-pack d (blanks n) named fits ∙ (rw (trim-arrived (blanks n) fits, front) refl)

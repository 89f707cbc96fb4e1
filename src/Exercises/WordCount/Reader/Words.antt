-- ===== src/Exercises/WordCount/Reader/Words.antt =====
-- 7-1-26/6-4.c: the texts whose words are counted, apart from the tests of the code.
use intern_status_update.Base.{ℕ, ◌≤◌, ◌≡◌, ◌⊎◌, [], ◌∷◌, List, Bytes, true, length, All, arith}
use intern_status_update.Libc.{is_digit}
use intern_status_update.Exercises.WordCount.Reader.{is_space, is_alpha, is_alnum}
use intern_status_update.Exercises.WordCount.Reader.Text.{IsReadWord, IsRead}

abbrev pub IsLetter : ℕ → Type 0
IsLetter c = ((b'A' ≤ c) × (c ≤ b'Z')) ⊎ ((b'a' ≤ c) × (c ≤ b'z'))

abbrev pub IsLetterOrDigit : ℕ → Type 0
IsLetterOrDigit c = IsLetter c ⊎ ((b'0' ≤ c) × (c ≤ b'9'))

-- A blank, or a tab, newline, vertical tab, form feed or carriage return.
abbrev pub IsGap : ℕ → Type 0
IsGap c = (c ≡ b' ') ⊎ ((9 ≤ c) × (c ≤ 13))

-- A letter, and letters or digits behind it, in less than 100 bytes.
abbrev pub IsWord : Bytes → Type 0
IsWord [] = ⊥
IsWord (c ∷ word) = IsLetter c × All IsLetterOrDigit word × (length word ≤ 98)

-- Words, each with the space or newline behind it.
abbrev pub IsText : List (Bytes × ℕ) → Type 0
IsText [] = Unit {0}
IsText ((word, gap) ∷ words) = IsWord word × IsGap gap × IsText words

letter-is_alpha : (c : ℕ) → IsLetter c → is_alpha c ≡ true
unfolding is_alpha
letter-is_alpha c h = ground (arith, h)

alnum-is_alnum : (c : ℕ) → IsLetterOrDigit c → is_alnum c ≡ true
unfolding is_alnum is_alpha is_digit
alnum-is_alnum c h = ground (arith, h)

gap-is_space : (c : ℕ) → IsGap c → is_space c ≡ true
unfolding is_space
gap-is_space c h = ground (arith, h)

All-alnum : (word : Bytes) → All IsLetterOrDigit word → All (λ x. is_alnum x ≡ true) word
All-alnum [] h = tt
All-alnum (c ∷ word) (h, more) = (alnum-is_alnum c h, All-alnum word more)

IsWord-IsReadWord : (word : Bytes) → IsWord word → IsReadWord word
IsWord-IsReadWord [] h = h
IsWord-IsReadWord (c ∷ word) (first, more, short) =
    (letter-is_alpha c first, All-alnum word more, short)

pub IsText-IsRead : (words : List (Bytes × ℕ)) → IsText words → IsRead words
IsText-IsRead [] h = tt
IsText-IsRead ((word, gap) ∷ words) (h, space, more) =
    (IsWord-IsReadWord word h, gap-is_space gap space, IsText-IsRead words more)

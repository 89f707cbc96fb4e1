-- ===== src/Exercises/WordCount/Reader/Text.antt =====
-- 7-1-26/6-4.c: from a text of words with a space or a newline behind each, `main` counts these words.
use intern_status_update.Base.{
  ℕ, zero, suc, ◌+◌, ◌-◌, ◌≤◌, ◌<◌, ◌≡◌, refl, sym, ap, ◌∙◌, ◌⊎◌, inl, inr, [], ◌∷◌, ◌++◌, List,
  Bytes, true, false, none, some, ok, ◌>>=◌, if◌then◌else◌, ltb, ◌==◌, length, length-append, All,
  arith, append_assoc, append-nil, Bool-cases, >>=-assoc, >>=-same,
}
use intern_status_update.Libc.{is_digit}
use intern_status_update.Exercises.WordCount.{
  Tree, leaf, addtree, add_words, sorted_tree, print_words,
}
use intern_status_update.Exercises.WordCount.Reader.{
  Reader, is_space, is_alpha, is_alnum, is_newline, getch, ungetch, left, skip_spaces, stored,
  read_word, getword_from, getword, is_word, count_words, print_frequencies,
}

-- What the tests of the code take for a word of less than 100 bytes.
abbrev pub IsReadWord : Bytes → Type 0
IsReadWord [] = ⊥
IsReadWord (c ∷ word) = (is_alpha c ≡ true) × All (λ x. is_alnum x ≡ true) word × (length word ≤ 98)

-- Words, each with a byte behind it that the code takes for a space.
abbrev pub IsRead : List (Bytes × ℕ) → Type 0
IsRead [] = Unit {0}
IsRead ((word, gap) ∷ words) = IsReadWord word × (is_space gap ≡ true) × IsRead words

unfoldable pub text_of : List (Bytes × ℕ) → Bytes
text_of [] = []
text_of ((word, gap) ∷ words) = word ++ gap ∷ text_of words

-- The words with their lines, of which the first one is given.
unfoldable pub with_lines : ℕ → List (Bytes × ℕ) → List (Bytes × ℕ)
with_lines line [] = []
with_lines line ((word, gap) ∷ words) =
    (word, line) ∷ with_lines (if is_newline gap then line + 1 else line) words

abbrev at : Bytes → ℕ → Reader
at input line = record { input = input; buffer = []; line = line }

-- The character behind a word has been put back.
abbrev behind : ℕ → Bytes → ℕ → Reader
behind gap input line = record { input = input; buffer = some gap ∷ []; line = line }

alpha_facts :
    (c : ℕ)
    → is_alpha c ≡ true
    → (is_space c ≡ false) × ((c == b'\n') ≡ false) × ((c == b'"') ≡ false) × (ltb c 128 ≡ true)
unfolding is_alpha is_space
alpha_facts c h = ground arith

alnum_facts : (c : ℕ) → is_alnum c ≡ true → ((c == b'\n') ≡ false) × (ltb c 128 ≡ true)
unfolding is_alnum is_alpha is_digit
alnum_facts c h = ground arith

space_facts : (c : ℕ) → is_space c ≡ true → (is_alnum c ≡ false) × (ltb c 128 ≡ true)
unfolding is_alnum is_alpha is_digit is_space
space_facts c h = ground arith

-- The letters and digits up to the gap are read, and the gap is put back.
read_word-gap :
    (n : ℕ) (start word rest : Bytes) (gap line : ℕ)
    → All (λ x. is_alnum x ≡ true) word
    → length word < n
    → is_space gap ≡ true
    → read_word n start (at (word ++ gap ∷ rest) line) ≡ ok (start ++ word, behind gap rest line)
unfolding read_word getch stored ungetch
read_word-gap zero start word rest gap line h room space = absurd (omega arith)
read_word-gap (suc n) start [] rest gap line h room space =
    let (other, small) = space_facts gap space in
    elim (Bool-cases (gap == b'\n')) [
      | inl e ↦
          let back : line + 1 - 1 ≡ line = omega arith in
          rw (small, other, e, back, append-nil) refl
      | inr e ↦ rw (small, other, e, append-nil) refl
    ]
read_word-gap (suc n) start (c ∷ word) rest gap line h room space =
    let (newline, small) = alnum_facts c h.0 in
    rw (small, h.0, newline)
      (read_word-gap n (start ++ c ∷ []) word rest gap line h.1 (omega arith) space
        ∙ ap (λ x. ok (x, behind gap rest line)) (append_assoc start (c ∷ []) word))

-- The first character of a word, behind no gap and behind one.
skip_spaces-first :
    (n c line : ℕ) (rest : Bytes)
    → is_alpha c ≡ true
    → skip_spaces (suc n) (at (c ∷ rest) line) ≡ (some c, at rest line)
unfolding skip_spaces getch
skip_spaces-first n c line rest h =
    let (space, newline, quote, small) = alpha_facts c h in rw (space, newline) refl

abbrev next_line : ℕ → ℕ → ℕ
next_line gap line = if is_newline gap then line + 1 else line

skip_spaces-gap :
    (n gap line : ℕ) (rest : Bytes)
    → is_space gap ≡ true
    → skip_spaces (suc n) (behind gap rest line) ≡ skip_spaces n (at rest (next_line gap line))
unfolding skip_spaces getch
skip_spaces-gap n gap line rest h = rw h refl

-- From this reader the input starts on this line, when the gap that was put back is skipped.
abbrev Stands : Reader → Bytes → ℕ → Type 0
Stands r input line =
    (r ≡ at input line)
    ⊎ ((gap : ℕ) × (l : ℕ) × (r ≡ behind gap input l)
        × (is_space gap ≡ true)
        × (next_line gap l ≡ line))

-- The gap takes a round, if one was put back.
skip_spaces-Stands :
    (n line : ℕ) (r : Reader) (input : Bytes)
    → left r ≤ n
    → Stands r input line
    → (m : ℕ) × (skip_spaces (suc n) r ≡ skip_spaces (suc m) (at input line))
skip_spaces-Stands n line r input room (inl e) = (n, ap (skip_spaces (suc n)) e)
skip_spaces-Stands zero line r input room (inr (gap, l, e, space, e1)) =
    let some_left : left r ≡ 1 + length input = ap left e in absurd (omega arith)
skip_spaces-Stands (suc n) line r input room (inr (gap, l, e, space, e1)) = (
  n,
  ap (skip_spaces (suc (suc n))) e
      ∙ skip_spaces-gap (suc n) gap l input space
      ∙ ap (λ l. skip_spaces (suc n) (at input l)) e1,
)

skip_spaces-word :
    (r : Reader) (c line : ℕ) (rest : Bytes)
    → is_alpha c ≡ true
    → Stands r (c ∷ rest) line
    → skip_spaces (suc (left r)) r ≡ (some c, at rest line)
skip_spaces-word r c line rest h stands =
    let (m, e) = skip_spaces-Stands (left r) line r (c ∷ rest) (omega arith) stands in
    e ∙ skip_spaces-first m c line rest h

skip_spaces-end :
    (r : Reader) (line : ℕ) → Stands r [] line → skip_spaces (suc (left r)) r ≡ (none, at [] line)
unfolding skip_spaces getch
skip_spaces-end r line stands =
    let (m, e) = skip_spaces-Stands (left r) line r [] (omega arith) stands in e ∙ refl

getword-word :
    (r : Reader) (c gap line : ℕ) (word rest : Bytes)
    → IsReadWord (c ∷ word)
    → is_space gap ≡ true
    → Stands r (c ∷ word ++ gap ∷ rest) line
    → getword r ≡ ok (some c, c ∷ word, behind gap rest line)
unfolding getword getword_from
getword-word r c gap line word rest (first, more, room) space h =
    let (a, b, quote, small) = alpha_facts c first in
    let skipped = skip_spaces-word r c line (word ++ gap ∷ rest) first h in
    let from : getword_from (some c) (at (word ++ gap ∷ rest) line)
        ≡ ok (some c, c ∷ word, behind gap rest line) =
      rw
        (
          quote,
          first,
          read_word-gap 99 (c ∷ []) word rest gap line more (omega arith) space,
          getword_from,
        )
        refl in
    ap (λ x. getword_from x.0 x.1) skipped ∙ from

getword-end : (r : Reader) (line : ℕ) → Stands r [] line → getword r ≡ ok (none, [], at [] line)
unfolding getword getword_from
getword-end r line h = ap (λ x. getword_from x.0 x.1) (skip_spaces-end r line h)

is_word-IsReadWord : (c : ℕ) (word : Bytes) → IsReadWord (c ∷ word) → is_word (c ∷ word) ≡ ok true
unfolding is_word stored
is_word-IsReadWord c word h = let (a, b, quote, small) = alpha_facts c h.0 in rw (small, h.0) refl

count_words-text_of :
    (n : ℕ) (words : List (Bytes × ℕ)) (r : Reader) (line : ℕ) (t : Tree)
    → length words < n
    → IsRead words
    → Stands r (text_of words) line
    → count_words n r t ≡ (add_words (with_lines line words) t >>= λ t1. ok (some t1))
unfolding count_words add_words with_lines getword text_of
count_words-text_of zero words r line t room text h = absurd (omega arith)
count_words-text_of (suc n) [] r line t room text h = rw (getword-end r line h, count_words) refl
count_words-text_of (suc n) (([], gap) ∷ words) r line t room text h = absurd text.0
count_words-text_of (suc n) ((c ∷ word, gap) ∷ words) r line t room (good, space, text) h =
    rw
      (
        getword-word r c gap line word (text_of words) good space h,
        is_word-IsReadWord c word good,
        count_words,
      )
      (>>=-same (addtree line (c ∷ word) t) _ _ (λ t1.
          count_words-text_of n words (behind gap (text_of words) line) (next_line gap line) t1
            (omega arith) text (inr (gap, line, refl, space, refl)))
        ∙ sym (>>=-assoc (addtree line (c ∷ word) t) _ _))

length-text_of : (words : List (Bytes × ℕ)) → length words ≤ length (text_of words)
unfolding text_of
length-text_of [] = omega arith
length-text_of ((word, gap) ∷ words) =
    let rest = length-text_of words in rw (length-append word (gap ∷ text_of words)) (omega arith)

-- On a text of words, each a letter with at most 98 letters and digits behind it and one space or
-- newline after that, the program counts just these words, each on its line.
pub print_frequencies-text_of :
    (words : List (Bytes × ℕ))
    → IsRead words
    → print_frequencies (text_of words)
      ≡ (print_words (with_lines 1 words) >>= λ printed. ok (some printed))
unfolding print_frequencies print_words
print_frequencies-text_of words h =
    let room = length-text_of words in
    let counted =
      count_words-text_of (suc (length (text_of words))) words (at (text_of words) 1) 1 leaf
        (omega arith) h (inl refl) in
    rw counted (
      >>=-assoc (add_words (with_lines 1 words) leaf) _ _
      ∙ >>=-same (add_words (with_lines 1 words) leaf) _ _
          (λ t. sym (>>=-assoc (sorted_tree t []) _ _))
      ∙ sym (>>=-assoc (add_words (with_lines 1 words) leaf) _ _))

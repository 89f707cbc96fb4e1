-- ===== src/Exercises/WordCount/Reader.antt =====
-- 7-1-26/6-4.c: getch, ungetch and getword, and the loop of `main` over the words. A character is none
-- for EOF.
pub mod Text
pub mod Words
use intern_status_update.Base.{
  ℕ, zero, suc, ◌+◌, ◌-◌, [], ◌∷◌, ◌++◌, List, Bytes, Bool, true, false, not, ◌&&◌, ◌||◌, Option,
  none, some, Run, ok, fault, ◌>>=◌, if◌then◌else◌, ltb, leb, ◌==◌, length,
}
use intern_status_update.Libc.{is_digit}
use intern_status_update.Exercises.WordCount.{
  Entry, Tree, leaf, addtree, sorted_tree, sort_on_frequency,
}

-- The input that is left, `buffer` with the last character first, and `line`.
pub record Reader : Type 0 where
  pub input : Bytes
  pub buffer : List (Option ℕ)
  pub line : ℕ

unfoldable pub is_space : ℕ → Bool
is_space c = (leb 9 c && leb c 13) || c == 32

unfoldable pub is_alpha : ℕ → Bool
is_alpha c = (leb 65 c && leb c 90) || (leb 97 c && leb c 122)

unfoldable pub is_alnum : ℕ → Bool
is_alnum c = is_alpha c || is_digit c

-- A character that is not EOF and passes a test.
abbrev pub passes : (ℕ → Bool) → Option ℕ → Bool
passes test none = false
passes test (some c) = test c

abbrev pub is_newline : ℕ → Bool
is_newline c = c == b'\n'

-- `getchar`
abbrev pub from_input : Bytes → Reader → Option ℕ × Reader
from_input [] r = (none, r)
from_input (c ∷ input) r = (some c, record r { input = input })

abbrev pub from_buffer : List (Option ℕ) → Reader → Option ℕ × Reader
from_buffer [] r = from_input r.input r
from_buffer (c ∷ buffer) r = (c, record r { buffer = buffer })

unfoldable pub getch : Reader → Option ℕ × Reader
getch r =
    let (c, r1) = from_buffer r.buffer r in
    (c, record r1 { line = if passes is_newline c then r1.line + 1 else r1.line })

-- A full buffer is only reported.
unfoldable pub ungetch : Option ℕ → Reader → Reader
ungetch c r = if leb 999 (length r.buffer) then r else record r {
  buffer = c ∷ r.buffer;
  line = if passes is_newline c then r.line - 1 else r.line;
}

-- The characters that are left.
abbrev pub left : Reader → ℕ
left r = length r.buffer + length r.input

-- `while (isspace(ch = getch()));`, for so many rounds.
unfoldable pub skip_spaces : ℕ → Reader → Option ℕ × Reader
skip_spaces zero r = (none, r)
skip_spaces (suc n) r =
    let (c, r1) = getch r in
    let rest = skip_spaces n r1 in if passes is_space c then rest else (c, r1)

-- The rest of a string constant, for so many rounds.
unfoldable pub skip_string : ℕ → Reader → Reader
skip_string zero r = r
skip_string (suc n) r =
    let (c, r1) = getch r in
    let rest = skip_string n r1 in if passes (λ x. x == b'"') c then r1 else rest

-- What a `char` keeps of a character, for `isalpha` and `isalnum`: 255 is EOF again, and the other
-- negative values are outside their tables.
unfoldable pub stored : Option ℕ → Run (Option ℕ)
stored none = ok none
stored (some c) = if ltb c 128 then ok (some c) else if c == 255 then ok none else fault

-- The loop over the letters and digits of a word, with so many rounds left: behind the last one the
-- terminator is written outside of the array.
unfoldable pub read_word : ℕ → Bytes → Reader → Run (Bytes × Reader)
read_word zero word r = fault
read_word (suc n) word r = do
  let (ch, r1) = getch r
  kept ← stored ch
  elim kept [
    | none ↦ ok (word, ungetch none r1)
    | some c ↦
        let more = read_word n (word ++ c ∷ []) r1 in
        if is_alnum c then more else ok (word, ungetch (some c) r1)
  ]

-- `getword` behind the spaces, from this character.
unfoldable pub getword_from : Option ℕ → Reader → Run (Option ℕ × Bytes × Reader)
getword_from none r = ok (none, [], r)
getword_from (some c) r =
    if c == b'"'
    then ok (some 0, [], skip_string 99 r)
    else if not (is_alpha c)
    then ok (some c, c ∷ [], r)
    else (do (word, r1) ← read_word 99 (c ∷ []) r; ok (some c, word, r1))

-- `getword(word, 100)`: what it returns, and the word.
unfoldable pub getword : Reader → Run (Option ℕ × Bytes × Reader)
getword r = let (ch, r1) = skip_spaces (suc (left r)) r in getword_from ch r1

-- `isalpha(word[0])`
unfoldable pub is_word : Bytes → Run Bool
is_word [] = ok false
is_word (c ∷ word) = do kept ← stored (some c); ok (passes is_alpha kept)

-- The loop of `main`, for so many rounds; none when they are not enough.
unfoldable pub count_words : ℕ → Reader → Tree → Run (Option Tree)
count_words zero r t = ok none
count_words (suc n) r t = do
  (ch, word, r1) ← getword r
  elim ch [
    | none ↦ ok (some t)
    | some c ↦ do
      adds ← is_word word
      t1 ← (if adds then addtree r1.line word t else ok t)
      count_words n r1 t1
  ]

-- `main`, on this input: what it prints.
unfoldable pub print_frequencies : Bytes → Run (Option (List Entry))
print_frequencies text = do
  counted ← count_words (suc (length text)) (record { input = text; buffer = []; line = 1 }) leaf
  elim counted [
    | none ↦ ok none
    | some t ↦ do found ← sorted_tree t []; ok (some (sort_on_frequency found))
  ]

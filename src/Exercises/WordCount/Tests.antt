-- ===== src/Exercises/WordCount/Tests.antt =====
-- 7-1-26/6-4.c: runs of the word count.
use intern_status_update.Base.{ℕ, ◌≡◌, refl, List, Bytes, [], ◌∷◌, some, ok, fault, arith}
use intern_status_update.Exercises.WordCount.{
  Entry, addtree, note_line, noted, sorted_tree, sort_on_frequency, sort_rounds, bubble,
}
use intern_status_update.Exercises.WordCount.Count.{counts_of, tally}
use intern_status_update.Exercises.WordCount.Count.Tally.{as_counts}
use intern_status_update.Exercises.WordCount.Sort.Order.{IsSorted}
use intern_status_update.Exercises.WordCount.Reader.{
  print_frequencies, count_words, getword, getword_from, skip_spaces, getch, ungetch, is_space,
  is_alpha, read_word, stored, is_alnum, is_word,
}
use intern_status_update.Libc.{is_digit}
use intern_status_update.Libc.Compare.{strcmp}
use intern_status_update.Exercises.WordCount.Reader.Text.{text_of, with_lines}
use intern_status_update.Exercises.WordCount.Printed.{print_frequencies-tally}

abbrev some_words : List (Bytes × ℕ)
some_words = (b'i' ∷ b'f' ∷ [], 32) ∷ (b'c' ∷ b'9' ∷ b'9' ∷ [], 10) ∷ (b'i' ∷ b'f' ∷ [], 32) ∷ []

print_frequencies-tally_example :
    (printed : List Entry) × (print_frequencies (text_of some_words) ≡ ok (some printed))
    × IsSorted printed
    × ((q : Bytes) → counts_of q printed ≡ as_counts (tally q (with_lines 1 some_words)))
print_frequencies-tally_example =
    print_frequencies-tally some_words
      (
        (omega arith, (omega arith, tt), omega arith),
        omega arith,
        (
          (omega arith, (omega arith, (omega arith, tt)), omega arith),
          omega arith,
          ((omega arith, (omega arith, tt), omega arith), omega arith, tt),
        ),
      )
      (omega arith)

-- A byte over 127 behind a letter is a negative index for isalnum.
print_frequencies_latin : print_frequencies (b'a' ∷ 233 ∷ []) ≡ fault
unfolding print_frequencies count_words getword getword_from skip_spaces getch ungetch is_space
    is_alpha read_word stored is_alnum is_digit is_word
print_frequencies_latin = refl

-- The second line of a word is noted in its node.
print_frequencies_lines :
    print_frequencies (b'b' ∷ 32 ∷ b'a' ∷ 10 ∷ b'b' ∷ [])
    ≡ ok (
        some (
          record { word = b'b' ∷ []; count = 2; lines = 2 ∷ 1 ∷ [] }
          ∷ record { word = b'a' ∷ []; count = 1; lines = 1 ∷ [] }
          ∷ []))
unfolding print_frequencies count_words getword getword_from skip_spaces getch ungetch is_space
    is_alpha read_word stored is_alnum is_digit is_word addtree note_line noted sorted_tree
    sort_on_frequency sort_rounds bubble strcmp
print_frequencies_lines = refl

-- ===== src/Exercises/WordCount/Printed.antt =====
-- 7-1-26/6-4.c: what `main` prints for a text.
use intern_status_update.Base.{
  ℕ, suc, ◌≤◌, ◌≡◌, refl, sym, subst, ◌∙◌, ap, List, Bytes, [], ◌∷◌, some, ok, ◌>>=◌, length,
}
use intern_status_update.Exercises.WordCount.{Entry}
use intern_status_update.Exercises.WordCount.Count.{counts_of, tally}
use intern_status_update.Exercises.WordCount.Count.Tally.{as_counts}
use intern_status_update.Exercises.WordCount.Sort.Order.{IsSorted}
use intern_status_update.Exercises.WordCount.Sort.Rounds.{print_words-tally}
use intern_status_update.Exercises.WordCount.Reader.{print_frequencies}
use intern_status_update.Exercises.WordCount.Reader.Words.{IsText, IsText-IsRead}
use intern_status_update.Exercises.WordCount.Reader.Text.{
  text_of, with_lines, print_frequencies-text_of,
}

length-with_lines :
    (words : List (Bytes × ℕ)) (line : ℕ) → length (with_lines line words) ≡ length words
unfolding with_lines
length-with_lines [] line = refl
length-with_lines ((word, gap) ∷ words) line = ap suc (length-with_lines words _)

-- On a text of at most 100 words, each a letter with at most 98 letters and digits behind it and one
-- space or newline after that, the program prints its words sorted by decreasing count, and by word
-- where the counts agree: exactly one entry for every word of the text, with the number of its
-- occurrences, and none for any other.
pub print_frequencies-tally :
    (words : List (Bytes × ℕ))
    → IsText words
    → length words ≤ 100
    → (printed : List Entry) × (print_frequencies (text_of words) ≡ ok (some printed))
      × IsSorted printed
      × ((q : Bytes) → counts_of q printed ≡ as_counts (tally q (with_lines 1 words)))
print_frequencies-tally words h room =
    let (right, returns) = print_words-tally (with_lines 1 words) in
    let (printed, e) = returns (subst (λ n. n ≤ 100) (sym (length-with_lines words 1)) room) in
    let (sorted, counts) = right printed e in
    (
      printed,
      print_frequencies-text_of words (IsText-IsRead words h)
          ∙ ap (λ x. x >>= λ printed. ok (some printed)) e,
      sorted,
      counts,
    )

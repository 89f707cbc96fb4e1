-- ===== src/Exercises/WordCount/Returns.antt =====
-- 7-1-26/6-4.c: a hundred words fit the arrays.
use intern_status_update.Base.{
  ℕ, suc, ◌+◌, ◌≤◌, ◌<◌, ◌≡◌, refl, inl, inr, [], ◌∷◌, ◌++◌, List, Bytes, Run, ok, lt→ltb, ◌==◌,
  length, length-append, Bool-cases, arith,
}
use intern_status_update.Libc.Compare.{strcmp}
use intern_status_update.Exercises.WordCount.{
  Entry, Tree, leaf, node, new_entry, noted, note_line, addtree, add_words, sorted_tree,
  print_words, sort_on_frequency,
}
use intern_status_update.Exercises.WordCount.Count.{Ordering-cases}

-- At most k lines in every node.
Small : ℕ → Tree → Type 0
Small k leaf = Unit {0}
Small k (node e left right) = (length e.lines ≤ k) × Small k left × Small k right

size : Tree → ℕ
size leaf = 0
size (node e left right) = size left + size right + 1

Small-suc : (k : ℕ) (t : Tree) → Small k t → Small (suc k) t
unfolding Small
Small-suc k leaf v = tt
Small-suc k (node e left right) (h, l, r) = (omega arith, Small-suc k left l, Small-suc k right r)

noted-ok :
    (line k : ℕ) (lines : List ℕ)
    → length lines ≤ k
    → k < 100
    → (more : List ℕ) × (noted line lines ≡ ok more) × (length more ≤ suc k)
unfolding noted
noted-ok line k [] few room = (line ∷ [], refl, omega arith)
noted-ok line k (l ∷ lines) few room = elim (Bool-cases (l == line)) [
  | inl e ↦ (l ∷ lines, (rw e refl), omega arith)
  | inr e ↦
      (line ∷ l ∷ lines, (rw (e, lt→ltb (length (l ∷ lines)) 100 (omega arith)) refl), omega arith)
]

note_line-ok :
    (line k : ℕ) (e : Entry)
    → length e.lines ≤ k
    → k < 100
    → (e1 : Entry) × (note_line line e ≡ ok e1) × (length e1.lines ≤ suc k)
unfolding note_line
note_line-ok line k e few room =
    let (more, run, small) = noted-ok line k e.lines few room in
    (record e { lines = more }, (rw run refl), small)

-- One word more.
Grown : ℕ → Tree → Run Tree → Type 0
Grown k t run = (t1 : Tree) × (run ≡ ok t1) × Small (suc k) t1 × (size t1 ≤ size t + 1)

addtree-Grown :
    (line k : ℕ) (word : Bytes) (t : Tree) → Small k t → k < 100 → Grown k t (addtree line word t)
unfolding addtree Grown Small size
addtree-Grown line k word leaf v room =
    let (e, run, small) = note_line-ok line k (new_entry word) (omega arith) room in
    (node e leaf leaf, (rw run refl), (small, tt, tt), omega arith)
addtree-Grown line k word (node e left right) (few, l, r) room =
    elim (Ordering-cases (strcmp e.word word)) [
      | inl c ↦
          let (right1, run, small, grown) = addtree-Grown line k word right r room in
          (
            node e left right1,
            (rw (c, run, addtree) refl),
            (omega arith, Small-suc k left l, small),
            omega arith,
          )
      | inr (inl c) ↦
          let (e1, run, small) = note_line-ok line k (record e { count = e.count + 1 }) few room in
          (
            node e1 left right,
            (rw (c, run, addtree) refl),
            (small, Small-suc k left l, Small-suc k right r),
            omega arith,
          )
      | inr (inr c) ↦
          let (left1, run, small, grown) = addtree-Grown line k word left l room in
          (
            node e left1 right,
            (rw (c, run, addtree) refl),
            (omega arith, small, Small-suc k right r),
            omega arith,
          )
    ]

add_words-ok :
    (words : List (Bytes × ℕ)) (k : ℕ) (t : Tree)
    → Small k t
    → size t ≤ k
    → k + length words ≤ 100
    → (t1 : Tree) × (add_words words t ≡ ok t1) × (size t1 ≤ 100)
unfolding add_words Grown
add_words-ok [] k t v fits room = (t, refl, omega arith)
add_words-ok ((word, line) ∷ words) k t v fits room =
    let (t1, run, small, grown) = addtree-Grown line k word t v (omega arith) in
    let (t2, rest, bound) = add_words-ok words (suc k) t1 small (omega arith) (omega arith) in
    (t2, (rw (run, rest) refl), bound)

sorted_tree-ok :
    (t : Tree) (found : List Entry)
    → length found + size t ≤ 1000
    → (entries : List Entry) × (sorted_tree t found ≡ ok entries)
      × (length entries ≡ length found + size t)
unfolding sorted_tree size
sorted_tree-ok leaf found h = (found, refl, omega arith)
sorted_tree-ok (node e left right) found h =
    let (before, run, long) = sorted_tree-ok left found (omega arith) in
    let more = length-append before (e ∷ []) in
    let (entries, rest, whole) = sorted_tree-ok right (before ++ e ∷ []) (omega arith) in
    (entries, (rw (run, lt→ltb (length before) 1000 (omega arith), rest) refl), omega arith)

pub print_words-ok :
    (words : List (Bytes × ℕ))
    → length words ≤ 100
    → (printed : List Entry) × (print_words words ≡ ok printed)
unfolding print_words Small size
print_words-ok words few =
    let (t, run, bound) = add_words-ok words 0 leaf tt (omega arith) (omega arith) in
    let (entries, found, long) = sorted_tree-ok t [] (omega arith) in
    (sort_on_frequency entries, (rw (run, found) refl))

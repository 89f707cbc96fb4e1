-- ===== src/Exercises/WordCount.antt =====
-- 7-1-26/6-4.c: the distinct words of the input, by decreasing frequency. The tree and the array of
-- its nodes; WordCount.Reader reads the words.
pub mod Count
pub mod Returns
pub mod Sort
pub mod Reader
pub mod Printed
mod Tests
use Prim.Native.Nat.{Ordering}
use intern_status_update.Base.{
  ℕ, zero, suc, ◌+◌, ◌-◌, [], ◌∷◌, ◌++◌, List, Bytes, Bool, true, false, ◌&&◌, ◌||◌, Run, ok, fault,
  ◌>>=◌, if◌then◌else◌, ltb, ◌==◌, length,
}
use intern_status_update.Libc.Compare.{strcmp, is_after}

-- `lines`, the last first; `ptr` is their number.
pub record Entry : Type 0 where
  pub word : Bytes
  pub count : ℕ
  pub lines : List ℕ

pub data Tree : Type 0 where
  leaf : Tree
  node : Entry → Tree → Tree → Tree

-- `alloc`, and the count that `addtree` sets.
abbrev pub new_entry : Bytes → Entry
new_entry word = record { word = word; count = 1; lines = [] }

-- The line of a word is noted once, in the `int lines[100]` of its node.
unfoldable pub noted : ℕ → List ℕ → Run (List ℕ)
noted line [] = ok (line ∷ [])
noted line (l ∷ lines) =
    if l == line
    then ok (l ∷ lines)
    else if ltb (length (l ∷ lines)) 100
    then ok (line ∷ l ∷ lines)
    else fault

unfoldable pub note_line : ℕ → Entry → Run Entry
note_line line e = do lines ← noted line e.lines; ok (record e { lines = lines })

-- `addtree`, and what `main` does to the node that it returns.
unfoldable pub addtree : ℕ → Bytes → Tree → Run Tree
addtree line word leaf = do e ← note_line line (new_entry word); ok (node e leaf leaf)
addtree line word (node e left right) =
    let here : Run Tree = (do
      e1 ← note_line line (record e { count = e.count + 1 })
      ok (node e1 left right)) in
    let in_left : Run Tree = (do l ← addtree line word left; ok (node e l right)) in
    let in_right : Run Tree = (do r ← addtree line word right; ok (node e left r)) in
    elim (strcmp e.word word) [
      | Ordering.eq ↦ here
      | Ordering.lt ↦ in_right
      | Ordering.gt ↦ in_left
    ]

-- The words that `main` adds, each with its line.
unfoldable pub add_words : List (Bytes × ℕ) → Tree → Run Tree
add_words [] t = ok t
add_words ((word, line) ∷ words) t = do t1 ← addtree line word t; add_words words t1

-- `sorted_tree`, behind what stands in `tree_sorted[1000]`.
unfoldable pub sorted_tree : Tree → List Entry → Run (List Entry)
sorted_tree leaf found = ok found
sorted_tree (node e left right) found = do
  before ← sorted_tree left found
  here ← (if ltb (length before) 1000 then ok (before ++ e ∷ []) else fault)
  sorted_tree right here

-- Whether two neighbours are swapped.
abbrev pub wrong : Entry → Entry → Bool
wrong x y = ltb x.count y.count || (x.count == y.count && is_after x.word y.word)

-- What two neighbours become.
abbrev pub first_of : Entry → Entry → Entry
first_of x y = if wrong x y then y else x

abbrev pub second_of : Entry → Entry → Entry
second_of x y = if wrong x y then x else y

-- The inner loop over so many neighbours: `swapped`, and the array.
unfoldable pub bubble : ℕ → List Entry → Bool × List Entry
bubble (suc rounds) (x ∷ y ∷ rest) =
    let (swapped, more) = bubble rounds (second_of x y ∷ rest) in
    (wrong x y || swapped, first_of x y ∷ more)
bubble _ entries = (false, entries)

-- The outer loop with so many rounds left, of which the last one has no neighbours.
unfoldable pub sort_rounds : ℕ → List Entry → List Entry
sort_rounds zero entries = entries
sort_rounds (suc rounds) entries =
    let (swapped, sorted) = bubble rounds entries in
    let next = sort_rounds rounds sorted in if swapped then next else sorted

unfoldable pub sort_on_frequency : List Entry → List Entry
sort_on_frequency entries = sort_rounds (length entries) entries

-- `main` over these words: the counting of them, and the sorting.
unfoldable pub print_words : List (Bytes × ℕ) → Run (List Entry)
print_words words = do
  tree ← add_words words leaf
  found ← sorted_tree tree []
  ok (sort_on_frequency found)

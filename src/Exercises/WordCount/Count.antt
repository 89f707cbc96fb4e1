-- ===== src/Exercises/WordCount/Count.antt =====
-- 7-1-26/6-4.c: the tree holds every word once, with the number of times it was added.
pub mod Tally
use Prim.Native.Nat.{Ordering}
use intern_status_update.Base.{
  ℕ, zero, suc, ◌+◌, ◌≡◌, refl, sym, ap, subst, ◌∙◌, inl, inr, ◌⊎◌, [], ◌∷◌, ◌++◌, List, Bytes,
  Bool, true, false, Run, ok, fault, ◌>>=◌, after, ok-injective, if◌then◌else◌, ltb, ◌==◌, length,
  str_eq, str_eq_iff, Bool-cases, append_assoc, append-nil, arith,
}
use intern_status_update.Libc.Compare.{
  strcmp, strcmp_refl, strcmp-eq, strcmp-lt-gt, strcmp-gt-lt, strcmp-str_eq, strcmp-str_ne_lt,
  strcmp-str_ne_gt,
}
use intern_status_update.Exercises.WordCount.{
  Entry, Tree, leaf, node, new_entry, noted, note_line, addtree, add_words, sorted_tree,
}

-- The counts of the entries of a word.
unfoldable pub counts_of : Bytes → List Entry → List ℕ
counts_of q [] = []
counts_of q (e ∷ entries) =
    let rest = counts_of q entries in if str_eq e.word q then e.count ∷ rest else rest

-- How often a word stands among the words.
unfoldable pub tally : Bytes → List (Bytes × ℕ) → ℕ
tally q [] = 0
tally q ((word, line) ∷ words) = (if str_eq word q then 1 else 0) + tally q words

-- The nodes from left to right.
unfoldable pub inorder : Tree → List Entry
inorder leaf = []
inorder (node e left right) = inorder left ++ e ∷ inorder right

-- Every word of the tree satisfies P.
abbrev pub AllWords : (Bytes → Type 0) → Tree → Type 0
AllWords P leaf = Unit {0}
AllWords P (node e left right) = AllWords P left × P e.word × AllWords P right

abbrev pub IsOrdered : Tree → Type 0
IsOrdered leaf = Unit {0}
IsOrdered (node e left right) =
    AllWords (λ x. strcmp e.word x ≡ Ordering.gt) left
    × AllWords (λ x. strcmp e.word x ≡ Ordering.lt) right
    × IsOrdered left
    × IsOrdered right

pub AllWords-imp :
    {P Q : Bytes → Type 0} → ((x : Bytes) → P x → Q x) → (t : Tree) → AllWords P t → AllWords Q t
AllWords-imp f leaf a = tt
AllWords-imp f (node e left right) (l, h, r) =
    (AllWords-imp f left l, f e.word h, AllWords-imp f right r)

pub counts_of-append :
    (q : Bytes) (xs ys : List Entry) → counts_of q (xs ++ ys) ≡ counts_of q xs ++ counts_of q ys
unfolding counts_of
counts_of-append q [] ys = refl
counts_of-append q (x ∷ xs) ys = elim (Bool-cases (str_eq x.word q)) [
  | inl e ↦ rw e (ap (λ t. x.count ∷ t) (counts_of-append q xs ys))
  | inr e ↦ rw e (counts_of-append q xs ys)
]

-- A word that is not in the tree has no counts.
pub counts_of-absent :
    (q : Bytes) (t : Tree) → AllWords (λ x. str_eq x q ≡ false) t → counts_of q (inorder t) ≡ []
unfolding counts_of inorder
counts_of-absent q leaf a = refl
counts_of-absent q (node e left right) (l, h, r) =
    rw (counts_of-append, counts_of-absent q left l, h, counts_of-absent q right r) refl

-- Noting the line leaves the rest of the entry.
note_line-Same :
    (line : ℕ) (e e1 : Entry) → note_line line e ≡ ok e1 → (e1.word ≡ e.word) × (e1.count ≡ e.count)
unfolding note_line
note_line-Same line e e1 h = after (noted line e.lines) _ e1 h λ lines found same.
    (ap (λ x. x.word) (sym (ok-injective same)), ap (λ x. x.count) (sym (ok-injective same)))

pub Ordering-cases : (o : Ordering) → (o ≡ Ordering.lt) ⊎ ((o ≡ Ordering.eq) ⊎ (o ≡ Ordering.gt))
Ordering-cases Ordering.lt = inl refl
Ordering-cases Ordering.eq = inr (inl refl)
Ordering-cases Ordering.gt = inr (inr refl)

-- What addtree did to a node, by the place of the word.
pub data Added (line : ℕ) (word : Bytes) : Tree → Tree → Type 0 where
  new : (e : Entry) → e.word ≡ word → e.count ≡ 1 → Added line word leaf (node e leaf leaf)
  again :
      (e e1 : Entry) (left right : Tree)
      → strcmp e.word word ≡ Ordering.eq
      → e1.word ≡ e.word
      → e1.count ≡ e.count + 1
      → Added line word (node e left right) (node e1 left right)
  in_left :
      (e : Entry) (left right left1 : Tree)
      → strcmp e.word word ≡ Ordering.gt
      → Added line word left left1
      → Added line word (node e left right) (node e left1 right)
  in_right :
      (e : Entry) (left right right1 : Tree)
      → strcmp e.word word ≡ Ordering.lt
      → Added line word right right1
      → Added line word (node e left right) (node e left right1)

pub addtree-Added :
    (line : ℕ) (word : Bytes) (t t1 : Tree) → addtree line word t ≡ ok t1 → Added line word t t1
unfolding addtree
addtree-Added line word leaf t1 h = after (note_line line (new_entry word)) _ t1 h λ e found same.
    let (named, counted) = note_line-Same line (new_entry word) e found in
    subst (Added line word leaf) (ok-injective same) (new e named counted)
addtree-Added line word (node e left right) t1 h = elim (Ordering-cases (strcmp e.word word)) [
  | inl e1 ↦ after (addtree line word right) _ t1 (rw (e1, addtree) at h) λ r found same.
      subst (Added line word (node e left right)) (ok-injective same)
        (in_right e left right r e1 (addtree-Added line word right r found))
  | inr (inl e1) ↦
      after (note_line line (record e { count = e.count + 1 })) _ t1 (rw (e1, addtree) at h)
        λ x found same.
          let (named, counted) = note_line-Same line (record e { count = e.count + 1 }) x found in
          subst (Added line word (node e left right)) (ok-injective same)
            (again e x left right e1 named counted)
  | inr (inr e1) ↦ after (addtree line word left) _ t1 (rw (e1, addtree) at h) λ l found same.
      subst (Added line word (node e left right)) (ok-injective same)
        (in_left e left right l e1 (addtree-Added line word left l found))
]

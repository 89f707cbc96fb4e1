-- ===== src/Exercises/WordCount/Sort/Rounds.antt =====
-- 7-1-26/6-4.c: the outer loop of sort_on_frequency, and what `main` prints.
use mathlib.Core.List.{Permᴰ}
use mathlib.Core.List.Permᴰ
use intern_status_update.Base.{
  ℕ, zero, suc, ◌≤◌, ◌≡◌, refl, subst, inl, inr, [], ◌∷◌, ◌++◌, List, Bytes, length, All,
  All-append, All-split, Bool-cases, append_assoc, append-nil, arith, ok, after, ok-injective,
  str_eq,
}
use intern_status_update.Exercises.WordCount.{
  Entry, leaf, bubble, sort_rounds, sort_on_frequency, add_words, sorted_tree, print_words,
}
use intern_status_update.Exercises.WordCount.Count.{counts_of, tally}
use intern_status_update.Exercises.WordCount.Count.Tally.{as_counts, counts_of-sorted_tree}
use intern_status_update.Exercises.WordCount.Returns.{print_words-ok}
use intern_status_update.Exercises.WordCount.Sort.Order.{IsSorted, IsSettled-IsSorted}
use intern_status_update.Exercises.WordCount.Sort.{
  Stays, IsSettled, All-perm, bubble-Passed, bubble-IsSettled, bubble-append,
}

-- Each of the first entries may precede each of the second.
abbrev Precede : List Entry → List Entry → Type 0
Precede front back = All (λ x. All (Stays x) back) front

Precede-cons :
    (init : List Entry) (last : Entry) (back : List Entry)
    → All (λ y. Stays y last) init
    → Precede init back
    → Precede init (last ∷ back)
Precede-cons [] last back a b = tt
Precede-cons (x ∷ init) last back a b = ((a.0, b.0), Precede-cons init last back a.1 b.1)

IsSettled-append :
    (front back : List Entry)
    → IsSettled front
    → IsSettled back
    → Precede front back
    → IsSettled (front ++ back)
IsSettled-append [] back a b c = b
IsSettled-append (x ∷ front) back a b c =
    (All-append (Stays x) front back a.0 c.0, IsSettled-append front back a.1 b c.1)

perm-append : {xs ys : List Entry} (zs : List Entry) → Permᴰ xs ys → Permᴰ (xs ++ zs) (ys ++ zs)
perm-append zs Permᴰ.nil = Permᴰ.refl zs
perm-append zs (Permᴰ.cons e p) = Permᴰ.cons e (perm-append zs p)
perm-append zs (Permᴰ.swap e f) = Permᴰ.swap e f
perm-append zs (Permᴰ.trans p q) = Permᴰ.trans (perm-append zs p) (perm-append zs q)

-- The same entries, in order.
Sorts : List Entry → List Entry → Type 0
Sorts entries sorted = IsSettled sorted × Permᴰ entries sorted

sort_rounds-Sorts :
    (r : ℕ) (front back : List Entry)
    → length front ≡ r
    → IsSettled back
    → Precede front back
    → Sorts (front ++ back) (sort_rounds r (front ++ back))
unfolding sort_rounds Sorts
sort_rounds-Sorts zero [] back h b c = (b, Permᴰ.refl back)
sort_rounds-Sorts zero (x ∷ front) back h b c = absurd (omega arith)
sort_rounds-Sorts (suc r) front back h b c = elim (Bool-cases (bubble r front).0) [
  | inl moved ↦
      let (init, last, e, size, below, p) = bubble-Passed r front h in
      let (before, final) = All-split (λ x. All (Stays x) back) init (last ∷ []) (All-perm _ p c) in
      let (sorted, q) =
        sort_rounds-Sorts r init (last ∷ back) size (final.0, b)
          (Precede-cons init last back below before) in
      let apart : (init ++ last ∷ []) ++ back ≡ init ++ last ∷ back =
        append_assoc init (last ∷ []) back in
      rw (bubble-append r front back h, moved, e, apart)
        (sorted, Permᴰ.trans (subst (λ x. Permᴰ (front ++ back) x) apart (perm-append back p)) q)
  | inr settled ↦
      let (same, sorted) = bubble-IsSettled r front h settled in
      rw (bubble-append r front back h, settled, same)
        (IsSettled-append front back sorted b c, Permᴰ.refl (front ++ back))
]

Precede-nil : (front : List Entry) → Precede front []
Precede-nil [] = tt
Precede-nil (x ∷ front) = (tt, Precede-nil front)

-- The array is sorted in place: by decreasing count, and by word where the counts agree.
sort_on_frequency-Sorts : (entries : List Entry) → Sorts entries (sort_on_frequency entries)
unfolding sort_on_frequency
sort_on_frequency-Sorts entries =
    subst (λ x. Sorts x (sort_rounds (length entries) x)) (append-nil entries)
      (sort_rounds-Sorts (length entries) entries [] refl tt (Precede-nil entries))

counts_of-cons :
    (q : Bytes) (x : Entry) (xs ys : List Entry)
    → Permᴰ (counts_of q xs) (counts_of q ys)
    → Permᴰ (counts_of q (x ∷ xs)) (counts_of q (x ∷ ys))
unfolding counts_of
counts_of-cons q x xs ys p = elim (Bool-cases (str_eq x.word q)) [
  | inl e ↦ rw e (Permᴰ.cons refl p)
  | inr e ↦ rw e p
]

counts_of-swap :
    (q : Bytes) (x y : Entry) (xs : List Entry)
    → Permᴰ (counts_of q (x ∷ y ∷ xs)) (counts_of q (y ∷ x ∷ xs))
unfolding counts_of
counts_of-swap q x y xs = elim (Bool-cases (str_eq x.word q)) [
  | inl e ↦ elim (Bool-cases (str_eq y.word q)) [
    | inl f ↦ rw (e, f) (Permᴰ.swap refl refl)
    | inr f ↦ rw (e, f) (Permᴰ.refl _)
  ]
  | inr e ↦ rw e (Permᴰ.refl _)
]

counts_of-perm :
    (q : Bytes) (xs ys : List Entry) → Permᴰ xs ys → Permᴰ (counts_of q xs) (counts_of q ys)
counts_of-perm q _ _ Permᴰ.nil = Permᴰ.refl (counts_of q [])
counts_of-perm q (x ∷ xs) (y ∷ ys) (Permᴰ.cons e p) =
    subst (λ z. Permᴰ (counts_of q (x ∷ xs)) (counts_of q (z ∷ ys))) e
      (counts_of-cons q x xs ys (counts_of-perm q xs ys p))
counts_of-perm q (x ∷ y ∷ xs) (y1 ∷ x1 ∷ _) (Permᴰ.swap e f) =
    subst (λ z. Permᴰ (counts_of q (x ∷ y ∷ xs)) (counts_of q (z ∷ x1 ∷ xs))) f
      (subst (λ z. Permᴰ (counts_of q (x ∷ y ∷ xs)) (counts_of q (y ∷ z ∷ xs))) e
        (counts_of-swap q x y xs))
counts_of-perm q xs ys (Permᴰ.trans p r) =
    Permᴰ.trans (counts_of-perm q _ _ p) (counts_of-perm q _ _ r)

perm-as_counts : (n : ℕ) (xs ys : List ℕ) → Permᴰ xs ys → xs ≡ as_counts n → ys ≡ as_counts n
perm-as_counts n _ _ Permᴰ.nil h = h
perm-as_counts zero (x ∷ xs) (y ∷ ys) (Permᴰ.cons e p) h = cc
perm-as_counts (suc n) (x ∷ xs) (y ∷ ys) (Permᴰ.cons e p) h =
    let rest = perm-as_counts zero xs ys p (cc) in cc
perm-as_counts zero (x ∷ y ∷ xs) _ (Permᴰ.swap e f) h = cc
perm-as_counts (suc n) (x ∷ y ∷ xs) _ (Permᴰ.swap e f) h = cc
perm-as_counts n _ _ (Permᴰ.trans p r) h = perm-as_counts n _ _ r (perm-as_counts n _ _ p h)

-- What is printed for a list of words, if their nodes fit the arrays, as they do for at most 100
-- words: sorted by decreasing count, and by word where the counts agree, exactly one entry for every
-- word of the list, with the number of its occurrences, and none for any other.
pub print_words-tally :
    (words : List (Bytes × ℕ))
    → ((printed : List Entry)
        → print_words words ≡ ok printed
        → IsSorted printed × ((q : Bytes) → counts_of q printed ≡ as_counts (tally q words)))
      × (length words ≤ 100 → (printed : List Entry) × (print_words words ≡ ok printed))
unfolding print_words Sorts
print_words-tally words = (
  λ printed h. after (add_words words leaf) _ printed h λ t added h1.
      after (sorted_tree t []) _ printed h1 λ entries found h2.
        let same : sort_on_frequency entries ≡ printed = ok-injective h2 in
        let (sorted, p) = sort_on_frequency-Sorts entries in
        let counts = λ (q : Bytes).
          perm-as_counts (tally q words) (counts_of q entries)
            (counts_of q (sort_on_frequency entries)) (counts_of-perm q entries _ p)
            (counts_of-sorted_tree words t entries q added found) in
        subst (λ x. IsSorted x × ((q : Bytes) → counts_of q x ≡ as_counts (tally q words))) same
          (IsSettled-IsSorted _ sorted, counts),
  print_words-ok words,
)

-- ===== src/Exercises/WordCount/Count/Tally.antt =====
-- 7-1-26/6-4.c: the counts in the tree are the numbers of occurrences.
use Prim.Native.Nat.{Ordering}
use intern_status_update.Base.{
  ℕ, zero, suc, ◌+◌, ◌≡◌, ◌≢◌, refl, sym, ap, subst, ◌∙◌, inl, inr, [], ◌∷◌, ◌++◌, List, Bytes, ok,
  fault, after, ok-injective, if◌then◌else◌, ltb, length, str_eq, str_eq_iff, Bool-cases,
  append_assoc, append-nil, arith, if_ok,
}
use intern_status_update.Libc.Compare.{strcmp, strcmp-eq, strcmp-str_ne_lt, strcmp-str_ne_gt}
use intern_status_update.Exercises.WordCount.{
  Entry, Tree, leaf, node, addtree, add_words, sorted_tree,
}
use intern_status_update.Exercises.WordCount.Count.{
  counts_of, tally, inorder, AllWords, IsOrdered, AllWords-imp, counts_of-append, counts_of-absent,
  Added, new, again, in_left, in_right, addtree-Added,
}

-- One occurrence more.
abbrev pub bump : List ℕ → List ℕ
bump [] = 1 ∷ []
bump (n ∷ ns) = (n + 1) ∷ ns

Added-AllWords :
    {line : ℕ} {word : Bytes} {t t1 : Tree} (P : Bytes → Type 0)
    → Added line word t t1
    → P word
    → AllWords P t
    → AllWords P t1
Added-AllWords P (new e named counted) p a = (tt, subst P (sym named) p, tt)
Added-AllWords P (again e e1 left right c named counted) p (l, h, r) = (l, subst P (sym named) h, r)
Added-AllWords P (in_left e left right left1 c d) p (l, h, r) = (Added-AllWords P d p l, h, r)
Added-AllWords P (in_right e left right right1 c d) p (l, h, r) = (l, h, Added-AllWords P d p r)

Added-IsOrdered :
    {line : ℕ} {word : Bytes} {t t1 : Tree} → Added line word t t1 → IsOrdered t → IsOrdered t1
Added-IsOrdered (new e named counted) v = (tt, tt, tt, tt)
Added-IsOrdered (again e e1 left right c named counted) v = rw named v
Added-IsOrdered (in_left e left right left1 c d) (l, r, vl, vr) =
    (Added-AllWords _ d c l, r, Added-IsOrdered d vl, vr)
Added-IsOrdered (in_right e left right right1 c d) (l, r, vl, vr) =
    (l, Added-AllWords _ d c r, vl, Added-IsOrdered d vr)

-- A side of a node does not hold a word that compares otherwise with the node's.
absent :
    (w q : Bytes) (o other : Ordering) (t : Tree)
    → AllWords (λ x. strcmp w x ≡ o) t
    → strcmp w q ≡ other
    → o ≢ other
    → counts_of q (inorder t) ≡ []
absent w q o other t a c apart = counts_of-absent q t (
    AllWords-imp
      (λ x h. elim (Bool-cases (str_eq x q)) [
        | inr e ↦ e
        | inl e ↦ absurd (apart (sym h ∙ ap (strcmp w) ((str_eq_iff x q).0 e) ∙ c))
      ])
      t a)

counts_of-node :
    (q : Bytes) (e : Entry) (left right : Tree)
    → counts_of q (inorder (node e left right))
      ≡ counts_of q (inorder left)
        ++ (if str_eq e.word q
            then e.count ∷ counts_of q (inorder right)
            else counts_of q (inorder right))
unfolding inorder counts_of
counts_of-node q e left right = counts_of-append q (inorder left) (e ∷ inorder right)

-- One word more: its count grows by one, or starts at one, and the others stay.
Counted : Bytes → Tree → Tree → Bytes → Type 0
Counted word t t1 q =
    counts_of q (inorder t1)
    ≡ (if str_eq word q then bump (counts_of q (inorder t)) else counts_of q (inorder t))

again-Counted :
    (word : Bytes) (e e1 : Entry) (left right : Tree) (q : Bytes)
    → strcmp e.word word ≡ Ordering.eq
    → e1.word ≡ e.word
    → e1.count ≡ e.count + 1
    → AllWords (λ x. strcmp e.word x ≡ Ordering.gt) left
    → Counted word (node e left right) (node e1 left right) q
unfolding Counted
again-Counted word e e1 left right q c named counted l =
    let here : e.word ≡ word = strcmp-eq e.word word c in
    elim (Bool-cases (str_eq word q)) [
      | inl f ↦
          let at : strcmp e.word q ≡ Ordering.eq =
            ap (strcmp e.word) (sym ((str_eq_iff word q).0 f)) ∙ c in
          rw
            (
              counts_of-node,
              counts_of-node,
              named,
              counted,
              here,
              f,
              absent e.word q Ordering.gt Ordering.eq left l at (λ h. cc),
            )
            refl
      | inr f ↦ rw (counts_of-node, counts_of-node, named, here, f) refl
    ]

in_left-Counted :
    (word : Bytes) (e : Entry) (left left1 right : Tree) (q : Bytes)
    → strcmp e.word word ≡ Ordering.gt
    → AllWords (λ x. strcmp e.word x ≡ Ordering.lt) right
    → Counted word left left1 q
    → Counted word (node e left right) (node e left1 right) q
unfolding Counted
in_left-Counted word e left left1 right q c r ih = elim (Bool-cases (str_eq word q)) [
  | inl f ↦
      let at : strcmp e.word q ≡ Ordering.gt =
        ap (strcmp e.word) (sym ((str_eq_iff word q).0 f)) ∙ c in
      let more : counts_of q (inorder left1) ≡ bump (counts_of q (inorder left)) = rw f at ih in
      rw
        (
          counts_of-node q e left1 right,
          counts_of-node q e left right,
          f,
          strcmp-str_ne_gt e.word q at,
          absent e.word q Ordering.lt Ordering.gt right r at (λ h. cc),
          more,
          append-nil,
          append-nil,
        )
        refl
  | inr f ↦
      let same : counts_of q (inorder left1) ≡ counts_of q (inorder left) = rw f at ih in
      rw (counts_of-node q e left1 right, counts_of-node q e left right, f, same) refl
]

in_right-Counted :
    (word : Bytes) (e : Entry) (left right right1 : Tree) (q : Bytes)
    → strcmp e.word word ≡ Ordering.lt
    → AllWords (λ x. strcmp e.word x ≡ Ordering.gt) left
    → Counted word right right1 q
    → Counted word (node e left right) (node e left right1) q
unfolding Counted
in_right-Counted word e left right right1 q c l ih = elim (Bool-cases (str_eq word q)) [
  | inl f ↦
      let at : strcmp e.word q ≡ Ordering.lt =
        ap (strcmp e.word) (sym ((str_eq_iff word q).0 f)) ∙ c in
      let more : counts_of q (inorder right1) ≡ bump (counts_of q (inorder right)) = rw f at ih in
      rw
        (
          counts_of-node q e left right1,
          counts_of-node q e left right,
          f,
          strcmp-str_ne_lt e.word q at,
          absent e.word q Ordering.gt Ordering.lt left l at (λ h. cc),
          more,
        )
        refl
  | inr f ↦
      let same : counts_of q (inorder right1) ≡ counts_of q (inorder right) = rw f at ih in
      rw (counts_of-node q e left right1, counts_of-node q e left right, f, same) refl
]

Added-Counted :
    {line : ℕ} {word : Bytes} {t t1 : Tree}
    → Added line word t t1
    → IsOrdered t
    → (q : Bytes) → Counted word t t1 q
unfolding Counted counts_of inorder
Added-Counted {word} (new e named counted) v q = elim (Bool-cases (str_eq word q)) [
  | inl f ↦ rw (named, counted, f) refl
  | inr f ↦ rw (named, f) refl
]
Added-Counted (again e e1 left right c named counted) v q =
    again-Counted _ e e1 left right q c named counted v.0
Added-Counted (in_left e left right left1 c d) v q =
    in_left-Counted _ e left left1 right q c v.1 (Added-Counted d v.2 q)
Added-Counted (in_right e left right right1 c d) v q =
    in_right-Counted _ e left right right1 q c v.0 (Added-Counted d v.3 q)

-- What a number of occurrences looks like as the counts of a word.
abbrev pub as_counts : ℕ → List ℕ
as_counts zero = []
as_counts (suc n) = suc n ∷ []

bump-as_counts : (n : ℕ) → bump (as_counts n) ≡ as_counts (suc n)
bump-as_counts zero = refl
bump-as_counts (suc n) = ap (λ x. x ∷ []) (let e : suc n + 1 ≡ suc (suc n) = omega arith in e)

-- Words added to a tree in order.
add_words-tally :
    (words : List (Bytes × ℕ)) (t t1 : Tree) (q : Bytes) (n : ℕ)
    → IsOrdered t
    → counts_of q (inorder t) ≡ as_counts n
    → add_words words t ≡ ok t1
    → counts_of q (inorder t1) ≡ as_counts (n + tally q words)
unfolding add_words tally Counted
add_words-tally [] t t1 q n v have h =
    let sum : n + 0 ≡ n = omega arith in rw (sum, ← ok-injective h) have
add_words-tally ((word, line) ∷ words) t t1 q n v have h =
    after (addtree line word t) _ t1 h λ t2 found rest.
      let d = addtree-Added line word t t2 found in
      let counted = Added-Counted d v q in
      elim (Bool-cases (str_eq word q)) [
        | inl f ↦
            let one_more = (rw f at counted) ∙ ap bump have ∙ bump-as_counts n in
            let sum : suc n + tally q words ≡ n + (1 + tally q words) = omega arith in
            rw (f, ← sum)
              (add_words-tally words t2 t1 q (suc n) (Added-IsOrdered d v) one_more rest)
        | inr f ↦
            let sum : n + tally q words ≡ n + (0 + tally q words) = omega arith in
            rw (f, ← sum)
              (add_words-tally words t2 t1 q n (Added-IsOrdered d v) ((rw f at counted) ∙ have)
                rest)
      ]

pub sorted_tree-inorder :
    (t : Tree) (found entries : List Entry)
    → sorted_tree t found ≡ ok entries
    → entries ≡ found ++ inorder t
unfolding sorted_tree inorder
sorted_tree-inorder leaf found entries h = sym (ok-injective h) ∙ sym (append-nil found)
sorted_tree-inorder (node e left right) found entries h =
    after (sorted_tree left found) _ entries h λ before first h1.
      after (if ltb (length before) 1000 then ok (before ++ e ∷ []) else fault) _ entries h1
        λ here second h2.
          let placed : before ++ e ∷ [] ≡ here = if_ok (ltb (length before) 1000) _ here second in
          sorted_tree-inorder right here entries h2
          ∙ ap (λ x. x ++ inorder right)
              (sym placed ∙ ap (λ x. x ++ e ∷ []) (sorted_tree-inorder left found before first))
          ∙ append_assoc (found ++ inorder left) (e ∷ []) (inorder right)
          ∙ append_assoc found (inorder left) (e ∷ inorder right)

-- The words that are added to the empty tree: its nodes, from left to right, have exactly one entry
-- for every word among them, with the number of its occurrences.
pub counts_of-sorted_tree :
    (words : List (Bytes × ℕ)) (t : Tree) (entries : List Entry) (q : Bytes)
    → add_words words leaf ≡ ok t
    → sorted_tree t [] ≡ ok entries
    → counts_of q entries ≡ as_counts (tally q words)
unfolding inorder counts_of
counts_of-sorted_tree words t entries q added found =
    let sum : 0 + tally q words ≡ tally q words = omega arith in
    ap (counts_of q) (sorted_tree-inorder t [] entries found)
    ∙ add_words-tally words leaf t q 0 tt refl added
    ∙ ap as_counts sum

-- ===== src/TicTacToe/Board/Lines.antt =====
-- `evaluate_board` against the eight lines of the board.
use intern_status_update.Base.{
  ℕ, zero, suc, ◌+◌, ◌-◌, ◌≤◌, ◌<◌, ◌≡◌, ◌≢◌, refl, ◌⊎◌, inl, inr, Bool, true, false, none, some,
  Bool-cases, Option-cases, arith,
}
use intern_status_update.TicTacToe.Board.{
  Board, find_line, row_wins, column_wins, falling_wins, rising_wins, evaluate_board,
}

pub data Line : Type 0 where
  row : ℕ → Line
  column : ℕ → Line
  falling : Line
  rising : Line

-- The three cells of a line, from k = 0 to 2.
abbrev pub cell : Board → Line → ℕ → ℕ
cell mat (row i) k = mat i k
cell mat (column j) k = mat k j
cell mat falling k = mat k k
cell mat rising k = mat k (2 - k)

abbrev pub IsLine : Line → Type 0
IsLine (row i) = i < 3
IsLine (column j) = j < 3
IsLine _ = Unit

-- All three cells of the line hold the mark p.
abbrev pub Full : Board → ℕ → Line → Type 0
Full mat p l = (cell mat l 0 ≡ p) × (cell mat l 1 ≡ p) × (cell mat l 2 ≡ p)

find_line-some :
    (n i : ℕ) (test : ℕ → Bool) (k : ℕ)
    → find_line n i test ≡ some k
    → (test k ≡ true) × (i ≤ k) × (k < i + n)
unfolding find_line
find_line-some zero i test k h = cc
find_line-some (suc n) i test k h = elim (Bool-cases (test i)) [
  | inl e ↦ let here : some i ≡ some k = rw e at h in ground arith
  | inr e ↦
      let (passed, low, high) = find_line-some n (i + 1) test k (rw e at h) in
      (passed, omega arith, omega arith)
]

find_line-none :
    (n i : ℕ) (test : ℕ → Bool) (k : ℕ)
    → find_line n i test ≡ none
    → i ≤ k
    → k < i + n
    → test k ≡ false
unfolding find_line
find_line-none zero i test k h low high = absurd (omega arith)
find_line-none (suc n) i test k h low high = ground (arith, find_line-none n (i + 1) test k)

-- What a caller may know of the result r.
abbrev pub Verdict : Board → ℕ → Type 0
Verdict mat r =
    ((l : Line) × IsLine l × Full mat r l × (r ≢ b' '))
    ⊎ ((r ≡ b'*') × ((l : Line) (p : ℕ) → IsLine l → Full mat p l → p ≡ b' '))

no_line :
    (mat : Board)
    → find_line 3 0 (row_wins mat) ≡ none
    → find_line 3 0 (column_wins mat) ≡ none
    → falling_wins mat ≡ false
    → rising_wins mat ≡ false
    → (l : Line) (p : ℕ) → IsLine l
    → Full mat p l
    → p ≡ b' '
no_line mat r c f s (row i) p h full = ground (arith, find_line-none 3 0 (row_wins mat) i r)
no_line mat r c f s (column j) p h full = ground (arith, find_line-none 3 0 (column_wins mat) j c)
no_line mat r c f s falling p h full = ground arith
no_line mat r c f s rising p h full = ground arith

-- `evaluate_board` either returns a mark other than the space that fills one of the eight lines,
-- or returns `*`, and then no line is filled by one mark other than the space.
pub evaluate_board-Verdict : (mat : Board) → Verdict mat (evaluate_board mat)
unfolding evaluate_board
evaluate_board-Verdict mat = elim (Option-cases (find_line 3 0 (row_wins mat))) [
  | inr (i, e) ↦
      let (wins, _, high) = find_line-some 3 0 (row_wins mat) i e in
      rw (e, evaluate_board) (inl (row i, omega arith, ground arith, ground arith))
  | inl r ↦ elim (Option-cases (find_line 3 0 (column_wins mat))) [
    | inr (j, e) ↦
        let (wins, _, high) = find_line-some 3 0 (column_wins mat) j e in
        rw (r, e, evaluate_board) (inl (column j, omega arith, ground arith, ground arith))
    | inl c ↦ elim (Bool-cases (falling_wins mat)) [
      | inl e ↦ rw (r, c, e, evaluate_board) (inl (falling, tt, ground arith, ground arith))
      | inr f ↦ elim (Bool-cases (rising_wins mat)) [
        | inl e ↦ rw (r, c, f, e, evaluate_board) (inl (rising, tt, ground arith, ground arith))
        | inr s ↦ rw (r, c, f, s, evaluate_board) (inr (refl, no_line mat r c f s))
      ]
    ]
  ]
]

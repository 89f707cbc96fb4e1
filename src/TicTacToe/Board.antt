-- ===== src/TicTacToe/Board.antt =====
-- TicTacToe/Server/client.c, `Match` and `createMatch`, and `evaluate_board` of server.c. A board
-- is its cells by row and column, of which the code uses those below 3.
pub mod Lines
use intern_status_update.Base.{
  ℕ, zero, suc, ◌+◌, Bool, not, ◌&&◌, Option, none, some, if◌then◌else◌, ◌==◌,
}
use intern_status_update.Base.Int.{ℤ}

abbrev pub Board : Type 0
Board = ℕ → ℕ → ℕ

pub record Match : Type 0 where
  pub match_id : ℕ
  pub player_x : ℤ
  pub player_o : ℤ
  pub board : Board
  pub moves : ℕ
  pub players : ℕ

unfoldable pub create_match : ℤ → ℤ → ℕ → Match
create_match player_x player_o mid = record {
  match_id = mid;
  player_x = player_x;
  player_o = player_o;
  board = λ i j. b' ';
  moves = 0;
  players = 0;
}

-- `board[i][j] = v`
unfoldable pub set_cell : Board → ℕ → ℕ → ℕ → Board
set_cell board i j v = λ r c. if r == i && c == j then v else board r c

-- A loop that returns at the first index that passes, `n` rounds left.
unfoldable pub find_line : ℕ → ℕ → (ℕ → Bool) → Option ℕ
find_line zero i test = none
find_line (suc n) i test = let rest = find_line n (i + 1) test in if test i then some i else rest

abbrev pub row_wins : Board → ℕ → Bool
row_wins mat i = not (mat i 0 == b' ') && (mat i 0 == mat i 1 && mat i 1 == mat i 2)

abbrev pub column_wins : Board → ℕ → Bool
column_wins mat j = not (mat 0 j == b' ') && (mat 0 j == mat 1 j && mat 1 j == mat 2 j)

abbrev pub falling_wins : Board → Bool
falling_wins mat = not (mat 0 0 == b' ') && (mat 0 0 == mat 1 1 && mat 1 1 == mat 2 2)

abbrev pub rising_wins : Board → Bool
rising_wins mat = not (mat 0 2 == b' ') && (mat 0 2 == mat 1 1 && mat 1 1 == mat 2 0)

-- `*` when there is no winner.
unfoldable pub evaluate_board : Board → ℕ
evaluate_board mat = elim (find_line 3 0 (row_wins mat)) [
  | some i ↦ mat i 0
  | none ↦ elim (find_line 3 0 (column_wins mat)) [
    | some j ↦ mat 0 j
    | none ↦ if falling_wins mat then mat 0 0 else if rising_wins mat then mat 0 2 else b'*'
  ]
]

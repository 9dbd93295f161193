-- ===== src/Life.antt =====
-- stage0/life/main.c: the board of the Game of Life and its update.
-- A board is the list of its `SIZE` cells; a read or write outside an array is the fault `none`.
pub mod Rule
pub mod Neighbors
pub mod Update
pub mod Screen
pub mod Program
mod Tests
use stage.Base.{
  ℕ, zero, suc, ◌+◌, ◌*◌, ◌==◌, ltb, ◌||◌, ◌&&◌, if◌then◌else◌, Option, some, List, get_elem?, set?,
  ◌>>=◌,
}
use stage.Base.Int.{ℤ, pos, ◌+ℤ◌, ◌-ℤ◌, ◌*ℤ◌, ltb_ℤ, leb_ℤ, eq_ℤ, get_int?}

abbrev pub board_cols : ℕ
board_cols = 180

abbrev pub board_rows : ℕ
board_rows = 45

abbrev pub size : ℕ
size = board_rows * board_cols

abbrev pub Board : Type 0
Board = List ℕ

-- The loop of `init_board`, with the rounds left and the index.
pub init_from : ℕ → ℕ → Board → Option Board
init_from zero i board = some board
init_from (suc n) i board = set? board i 0 >>= init_from n (i + 1)

pub init_board : Board → Option Board
init_board board = init_from size 0 board

pub set_cell : Board → ℕ → ℕ → Option Board
set_cell board row col = set? board (row * board_cols + col) 1

pub populate_board : Board → Option Board
unfolding set_cell
populate_board board = do
  board ← set_cell board 21 90
  board ← set_cell board 21 91
  board ← set_cell board 22 89
  board ← set_cell board 22 90
  set_cell board 23 90

-- The body of the inner loop of `count_neighbors`: the `continue`, or the addition.
pub visit : Board → ℤ → ℤ → ℤ → ℕ → Option ℕ
visit board idx0 row col count =
    let idx = row *ℤ pos board_cols +ℤ col in
    if ltb_ℤ col (pos 0)
      || leb_ℤ (pos board_cols) col
      || ltb_ℤ row (pos 0)
      || leb_ℤ (pos board_rows) row
      || eq_ℤ idx idx0
    then some count
    else get_int? board idx >>= λ v. some (count + v)

-- The two loops of `count_neighbors`, with the rounds left and the loop's variable.
pub visit_cols : Board → ℤ → ℕ → ℤ → ℤ → ℕ → Option ℕ
visit_cols board idx0 zero row col count = some count
visit_cols board idx0 (suc n) row col count =
    visit board idx0 row col count >>= visit_cols board idx0 n row (col +ℤ pos 1)

pub visit_rows : Board → ℤ → ℤ → ℕ → ℤ → ℕ → Option ℕ
visit_rows board idx0 col0 zero row count = some count
visit_rows board idx0 col0 (suc n) row count =
    visit_cols board idx0 3 row (col0 -ℤ pos 1) count
    >>= visit_rows board idx0 col0 n (row +ℤ pos 1)

-- Three rounds each: from `row0 - 1` to below `row0 + 2`, and so for the columns.
pub count_neighbors : Board → ℤ → ℤ → Option ℕ
count_neighbors board row0 col0 =
    visit_rows board (row0 *ℤ pos board_cols +ℤ col0) col0 3 (row0 -ℤ pos 1) 0

-- The value that the body of `update` stores for a cell with `count` neighbours.
pub next_value : ℕ → ℕ → ℕ
next_value cell count =
    if cell == 0
    then (if count == 3 then 1 else 0)
    else (if ltb 1 count && ltb count 4 then 1 else 0)

-- `next_board` and `living_cells` while `update` runs.
abbrev pub Progress : Type 0
Progress = Board × ℕ

pub update_cell : Board → ℕ → ℕ → Progress → Option Progress
update_cell board row col (next_board, living_cells) = do
  count ← count_neighbors board (pos row) (pos col)
  cell ← get_elem? board (row * board_cols + col)
  next_board ← set? next_board (row * board_cols + col) (next_value cell count)
  some (next_board, living_cells + next_value cell count)

pub update_cols : Board → ℕ → ℕ → ℕ → Progress → Option Progress
update_cols board zero row col p = some p
update_cols board (suc n) row col p =
    update_cell board row col p >>= update_cols board n row (col + 1)

pub update_rows : Board → ℕ → ℕ → Progress → Option Progress
update_rows board zero row p = some p
update_rows board (suc n) row p =
    update_cols board board_cols row 0 p >>= update_rows board n (row + 1)

-- The new board, copied back over the old one, and the new `living_cells`.
pub update : Board → Option Progress
update board = update_rows board board_rows 0 (board, 0)

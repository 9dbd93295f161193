-- ===== src/Life/Rule.antt =====
-- The rules of README.md in stage0/life, said of a grid, with no loop and no index arithmetic.
use stage.Base.{ℕ, zero, suc, ◌+◌, ◌*◌, ◌==◌, ltb, ◌&&◌, ◌||◌, if◌then◌else◌, get_or}
use stage.Life.{Board, board_cols, board_rows}

-- The board with a border of dead cells: the cell of row `r` and column `c` is at `r + 1`, `c + 1`.
abbrev pub padded : Board → ℕ → ℕ → ℕ
padded b zero c = 0
padded b (suc r) zero = 0
padded b (suc r) (suc c) =
    if ltb r board_rows && ltb c board_cols then get_or b (r * board_cols + c) 0 else 0

-- The eight cells around the cell of row `r` and column `c`.
unfoldable pub around : Board → ℕ → ℕ → ℕ
around b r c =
    padded b r c
    + padded b r (suc c)
    + padded b r (suc (suc c))
    + padded b (suc r) c
    + padded b (suc r) (suc (suc c))
    + padded b (suc (suc r)) c
    + padded b (suc (suc r)) (suc c)
    + padded b (suc (suc r)) (suc (suc c))

-- A living cell survives with two or three living neighbours; a dead one comes to life with three.
unfoldable pub rule : ℕ → ℕ → ℕ
rule zero n = if n == 3 then 1 else 0
rule (suc v) n = if n == 2 || n == 3 then 1 else 0

-- The cell of row `r` and column `c` in the next generation.
unfoldable pub next_cell : Board → ℕ → ℕ → ℕ
next_cell b r c = rule (padded b (suc r) (suc c)) (around b r c)

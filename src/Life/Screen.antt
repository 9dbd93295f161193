-- ===== src/Life/Screen.antt =====
-- stage0/life/main.c: `draw_board`, the drawing of what changed, and the loop of `main`.
-- What `printf` sends to the terminal is a list of commands; a byte is its code.
pub mod Draw
pub mod Paint
pub mod Session
pub mod Play
pub mod Start
use stage.Base.{
  ℕ, zero, suc, ◌+◌, ◌/◌, ◌%◌, ◌==◌, if◌then◌else◌, Bool, true, false, Option, none, some, List, [],
  ◌∷◌, ◌++◌, get_elem?, set?, ◌>>=◌, memset, ltb,
}
use stage.Base.Text.{Bytes, codes, print_nat}
use stage.Life.{Board, board_cols, size, update, init_board, populate_board}

abbrev pub Buffer : Type 0
Buffer = List ℕ

-- The glyph of a cell: 'X' for any number but 0.
pub glyph : ℕ → ℕ
glyph cell = if cell == 0 then b'.' else b'X'

-- The loop of `draw_board`, with the rounds left and the index.
pub draw_from : ℕ → ℕ → Board → Buffer → Option Buffer
draw_from zero idx board back = some back
draw_from (suc n) idx board back =
    get_elem? board idx >>= λ cell. set? back idx (glyph cell) >>= draw_from n (idx + 1) board

pub draw_board : Board → Buffer → Option Buffer
draw_board board back = draw_from size 0 board back

-- `plot` is "\033[%d;%dH%c", `clear` is "\033[2J\033[?25l", `status` is "\033[999;1H" with the
-- line that follows it, and `restore` is what is printed after the loop.
pub data Command : Type 0 where
  clear : Command
  plot : (row col ch : ℕ) → Command
  status : (generation living : ℕ) → Command
  restore : Command

-- The loop over the buffers that prints each character that changed.
pub diff_from : ℕ → ℕ → Buffer → Buffer → Option (List Command)
diff_from zero i front back = some []
diff_from (suc n) i front back = do
  b ← get_elem? back i
  f ← get_elem? front i
  rest ← diff_from n (i + 1) front back
  some (if b == f then rest else plot (i / board_cols + 1) (i % board_cols + 1) b ∷ rest)

-- The text of the status line.
unfoldable pub status_line : ℕ → ℕ → Bytes
status_line generation living =
    codes "generation: " ++ (print_nat generation ++ (codes "\tliving cells: " ++ print_nat living))

-- The variables of `main` and of the file.
pub record Game : Type 0 where
  pub board : Board
  pub living_cells : ℕ
  pub front : Buffer
  pub back : Buffer
  pub ch : ℕ
  pub generation : ℕ

-- What one round of `while (true)` printed, and whether it left the loop.
pub record Round : Type 0 where
  pub game : Game
  pub printed : List Command
  pub left : Bool

-- `ch == 27`
unfoldable pub is_escape : ℕ → Bool
is_escape ch = ch == 27

-- `read(STDIN_FILENO, &ch, 1)` on the non-blocking terminal: `none` where no byte is there,
-- which leaves `ch` as it was.
pub read_ch : Option ℕ → ℕ → ℕ
read_ch (some c) ch = c
read_ch none ch = ch

-- `generation++` on an `int`, a fault where the sum is too large.
pub next_generation : ℕ → Option ℕ
next_generation n = if ltb n 0x7fff_ffff then some (n + 1) else none

-- The round after `read`: leave, or swap the buffers and compute the next generation.
pub finish_round : Game → List Command → Buffer → ℕ → Option Round
unfolding next_generation
finish_round g drawn back ch =
    if is_escape ch
    then some (record { game = record g { back = back; ch = ch }; printed = drawn; left = true })
    else (do
      (board, living) ← update g.board
      generation ← next_generation g.generation
      some (record {
        game = record {
          board = board;
          living_cells = living;
          front = back;
          back = g.front;
          ch = ch;
          generation = generation;
        };
        printed = drawn ++ (status generation living ∷ []);
        left = false;
      }))

-- One round of the loop, where `input` is what `read` finds.
pub round : Game → Option ℕ → Option Round
unfolding finish_round
round g input = do
  back ← draw_board g.board (memset g.back b'.' size)
  drawn ← diff_from size 0 g.front back
  finish_round g drawn back (read_ch input g.ch)

-- The variables of `main` at the start of the loop; `memory`, `buffer` and `ch`
-- are what memory held before, since `ch` has no value of its own until a byte is read.
pub start : Board → Buffer → ℕ → Option Game
start memory buffer ch = do
  board ← init_board memory
  board ← populate_board board
  some (record {
    board = board;
    living_cells = 0;
    front = memset buffer b'.' size;
    back = memset buffer b'.' size;
    ch = ch;
    generation = 1;
  })

-- The loop over what `read` finds in each round, up to the end of that list or of the loop.
pub play : Game → List (Option ℕ) → Option Round
play g [] = some (record { game = g; printed = []; left = false })
play g (input ∷ inputs) = round g input >>= λ r. elim r.left [
  | true ↦ some r
  | false ↦ play r.game inputs >>= λ s. some (record s { printed = r.printed ++ s.printed })
]

-- `main` without options: what it printed, and the last round.
pub session : Board → Buffer → ℕ → List (Option ℕ) → Option Round
session memory buffer ch inputs = do
  g ← start memory buffer ch
  r ← play g inputs
  some (record r { printed = clear ∷ (r.printed ++ (if r.left then restore ∷ [] else [])) })

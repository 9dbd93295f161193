-- ===== src/Life/Program.antt =====
-- stage0/life/main.c: `test`, the options, and `main` with the settings of the terminal.
pub mod SelfTest
pub mod Settings
mod Tests
use Prim.Native.Nat.{bit_or}
use stage.Base.{
  ℕ, zero, suc, ◌==◌, ◌&&◌, ◌||◌, if◌then◌else◌, Bool, true, false, Option, some, none, List, [],
  ◌∷◌, ◌>>=◌,
}
use stage.Base.Int.{pos}
use stage.Base.Text.{Bytes, codes}
use stage.Base.Text.Equal.{bytes_eq}
use stage.Life.{Board, init_board, set_cell, count_neighbors}
use stage.Life.Screen.{Buffer, Round, session}
use stage.Tty.{Termios, Platform, clear_flags, set_cc, Action, now, Driver}

-- The cells that `test` sets.
unfoldable pub test_cells : Board → Option Board
test_cells board = do
  b ← set_cell board 0 1
  b ← set_cell b 1 0
  b ← set_cell b 1 1
  b ← set_cell b 1 2
  b ← set_cell b 2 0
  b ← set_cell b 2 2
  b ← set_cell b 3 0
  b ← set_cell b 3 1
  set_cell b 3 2

-- `assert(count_neighbors(board, row, col) == n)`
unfoldable pub asserts : Board → ℕ → ℕ → ℕ → Option Bool
asserts board row col n = count_neighbors board (pos row) (pos col) >>= λ count. some (count == n)

-- `test`: whether it comes to its last line; `some false` is an assertion that fails.
unfoldable pub test : Board → Option Bool
unfolding test_cells asserts
test memory = do
  b ← init_board memory
  b ← test_cells b
  first ← asserts b 0 0 3
  second ← asserts b 2 0 4
  third ← asserts b 2 1 8
  fourth ← asserts b 0 9 0
  some (first && second && third && fourth)

-- The test on `argc` and `argv[1]`, for the arguments behind the program's name.
unfoldable pub wants_test : List Bytes → Bool
wants_test [] = false
wants_test (arg ∷ args) = bytes_eq arg (codes "-t") || bytes_eq arg (codes "--test")

-- `newt`
unfoldable pub new_settings : Platform → Termios → Termios
new_settings p oldt = record oldt {
  c_lflag = clear_flags oldt.c_lflag (bit_or p.icanon p.echo);
  c_cc = set_cc (set_cc oldt.c_cc p.vmin 1) p.vtime 0;
}

-- `fcntl` with F_GETFL and F_SETFL on the standard input; an `int` is its word of 32 bits.
pub record FileFlags (S : Type 0) : Type 0 where
  pub getfl : S → ℕ
  pub setfl : ℕ → S → S
  pub o_nonblock : ℕ

-- What `main` keeps to put back at its end.
pub record Saved : Type 0 where
  pub oldt : Termios
  pub flags : ℕ

-- How `main` ends, or that it has not left its loop.
pub data LifeEnd (S : Type 0) : Type 0 where
  tested : Bool → LifeEnd S
  played : Round → S → LifeEnd S

-- `tcgetattr(STDIN_FILENO, &oldt)`, where `memory` is what `oldt` holds before it.
unfoldable pub stored : Termios → Option Termios → Termios
stored memory none = memory
stored memory (some t) = t

module _ {S : Type 0} (d : Driver S) (f : FileFlags S) where
  -- Behind the loop.
  unfoldable pub restore_terminal : Saved → S → S
  restore_terminal saved s = (d.tcsetattr now saved.oldt (f.setfl saved.flags s)).1

  -- The end of `main`: the settings are put back once the loop is left.
  unfoldable pub leave : Saved → S → Round → LifeEnd S
  unfolding restore_terminal
  leave saved s r = played r (if r.left then restore_terminal saved s else s)

module _ {S : Type 0} (d : Driver S) (f : FileFlags S) (p : Platform) where
  -- The settings in front of the loop.
  unfoldable pub set_terminal : Termios → S → Saved × S
  unfolding stored new_settings
  set_terminal memory s =
      let oldt = stored memory (d.tcgetattr s) in
      let flags = f.getfl s in
      let s' = f.setfl (bit_or flags f.o_nonblock) s in
      (record { oldt = oldt; flags = flags }, (d.tcsetattr now (new_settings p oldt) s').1)

  -- `main`, with the arguments behind the program's name, what memory holds, and what `read` finds.
  unfoldable pub life :
      List Bytes → Termios → Board → Buffer → ℕ → List (Option ℕ) → S → Option (LifeEnd S)
  unfolding test wants_test set_terminal leave
  life args memory board buffer ch inputs s =
      if wants_test args
      then (test board >>= λ passed. some (tested passed))
      else (let (saved, s') = set_terminal memory s in
          session board buffer ch inputs >>= λ r. some (leave d f saved s' r))

-- ===== src/Kilo.antt =====
-- stage0/kilo/kilo.c: the editor's state, its escape sequences and its key codes.
-- What `read` does is a list of results, in order; bytes are their codes and `char` is signed.
pub mod Input
pub mod Output
pub mod Window
pub mod Program
pub mod RawMode
mod Tests
use Prim.Native.Nat.{bit_and}
use stage.Base.{ℕ, ◌-◌, ltb, if◌then◌else◌, List, ◌∷◌, ◌++◌}
use stage.Base.Int.{ℤ, pos, negsuc}
use stage.Base.Text.{Bytes, codes}

abbrev pub escseq : ℕ
escseq = 0x1b

abbrev pub clear_screen : Bytes
clear_screen = escseq ∷ codes "[2J"

abbrev pub clear_line : Bytes
clear_line = escseq ∷ codes "[K"

abbrev pub cursor_topleft : Bytes
cursor_topleft = escseq ∷ codes "[H"

abbrev pub cursor_bottomright : Bytes
cursor_bottomright = escseq ∷ (codes "[999C" ++ (escseq ∷ codes "[999B"))

abbrev pub cursor_pos : Bytes
cursor_pos = escseq ∷ codes "[6n"

abbrev pub cursor_hide : Bytes
cursor_hide = escseq ∷ codes "[?25l"

abbrev pub cursor_show : Bytes
cursor_show = escseq ∷ codes "[?25h"

-- CTRL_KEY
abbrev pub ctrl_key : ℕ → ℕ
ctrl_key k = bit_and k 0x1f

-- enum editorKey
abbrev pub arrow_left : ℤ
arrow_left = pos 1000

abbrev pub arrow_right : ℤ
arrow_right = pos 1001

abbrev pub arrow_up : ℤ
arrow_up = pos 1002

abbrev pub arrow_down : ℤ
arrow_down = pos 1003

-- `editorConfig E`, without `orig_termios`, which Kilo/RawMode.antt keeps.
pub record EditorConfig : Type 0 where
  pub cx : ℤ
  pub cy : ℤ
  pub screenrows : ℤ
  pub screencols : ℤ

-- One call of `read` for one byte: the byte, no byte (the 100 ms passed), EAGAIN, another error.
pub data Read : Type 0 where
  byte : ℕ → Read
  nothing : Read
  again : Read
  failed : Read

-- The `int` that a `char` becomes.
unfoldable pub char_int : ℕ → ℤ
char_int c = if ltb c 128 then pos c else negsuc (255 - c)

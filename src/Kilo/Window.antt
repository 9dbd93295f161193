-- ===== src/Kilo/Window.antt =====
-- stage0/kilo/kilo.c: finding the size of the window, and `initEditor`.
pub mod Reply
use stage.Base.{
  ℕ, zero, suc, ◌==◌, ◌&&◌, not, if◌then◌else◌, Option, some, none, ◌>>=◌, List, [], ◌∷◌, length,
}
use stage.Base.Int.{ℤ, pos, eq_ℤ}
use stage.Base.Text.{Bytes, scan_int}
use stage.Kilo.{EditorConfig, Read, byte, escseq, cursor_bottomright, cursor_pos}

-- The bytes that `getCursorPosition` puts in `buf`: up to 'R', to a read without a byte, or to
-- `room` bytes. Where the list ends no more bytes come.
unfoldable pub read_reply : ℕ → List Read → Bytes × List Read
read_reply zero reads = ([], reads)
read_reply (suc room) [] = ([], [])
read_reply (suc room) (byte c ∷ reads) =
    let (buf, rest) = read_reply room reads in if c == b'R' then ([], reads) else (c ∷ buf, rest)
read_reply (suc room) (_ ∷ reads) = ([], reads)

unfoldable pub skip_semicolon : Bytes → Option Bytes
skip_semicolon [] = none
skip_semicolon (c ∷ s) = if c == b';' then some s else none

-- `sscanf(s, "%d;%d", rows, cols) == 2`, with the two numbers. A NUL byte ends a conversion.
unfoldable pub scan_pair : Bytes → Option (ℤ × ℤ)
unfolding skip_semicolon
scan_pair s = do
  (rows, s) ← scan_int s
  s ← skip_semicolon s
  (cols, _) ← scan_int s
  some (rows, cols)

-- The tests on `buf`; a missing byte is the NUL that ends it.
unfoldable pub parse_reply : Bytes → Option (ℤ × ℤ)
parse_reply [] = none
parse_reply (a ∷ []) = none
parse_reply (a ∷ b ∷ s) = if a == escseq && b == b'[' then scan_pair s else none

-- What the terminal answers: the `ws_row` and `ws_col` of `ioctl` (`none` where it fails), and
-- what the two calls of `write` return.
pub record Terminal : Type 0 where
  pub winsize : Option (ℕ × ℕ)
  pub wrote_corner : ℤ
  pub wrote_query : ℤ

-- Rows and columns, with the reads that are left.
abbrev pub Size : Type 0
Size = (ℤ × ℤ) × List Read

-- `getCursorPosition`; 31 is `sizeof(buf) - 1`.
unfoldable pub get_cursor_position : Terminal → List Read → Option Size
get_cursor_position t reads =
    let (buf, rest) = read_reply 31 reads in
    if not (eq_ℤ t.wrote_query (pos (length cursor_pos)))
    then none
    else (parse_reply buf >>= λ rc. some (rc, rest))

unfoldable pub ask_cursor : Terminal → List Read → Option Size
ask_cursor t reads =
    if not (eq_ℤ t.wrote_corner (pos (length cursor_bottomright)))
    then none
    else get_cursor_position t reads

-- `getWindowSize`
unfoldable pub get_window_size : Terminal → List Read → Option Size
get_window_size t reads = elim t.winsize [
  | none ↦ ask_cursor t reads
  | some (ws_row, ws_col) ↦
      if ws_col == 0 then ask_cursor t reads else some ((pos ws_row, pos ws_col), reads)
]

-- What `getWindowSize` writes, a list for each call of `write`.
unfoldable pub size_queries : Terminal → List Bytes
size_queries t =
    let ask =
      (if not (eq_ℤ t.wrote_corner (pos (length cursor_bottomright)))
        then cursor_bottomright ∷ []
        else cursor_bottomright ∷ cursor_pos ∷ []) in
    elim t.winsize [ none ↦ ask | some (ws_row, ws_col) ↦ if ws_col == 0 then ask else [] ]

-- `initEditor`; `none` is `die("getWindowSize")`.
unfoldable pub init_editor : Terminal → List Read → Option (EditorConfig × List Read)
init_editor t reads = do
  ((rows, cols), rest) ← get_window_size t reads
  some (record { cx = pos 0; cy = pos 0; screenrows = rows; screencols = cols }, rest)

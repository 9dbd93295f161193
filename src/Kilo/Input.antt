-- ===== src/Kilo/Input.antt =====
-- stage0/kilo/kilo.c: reading keys and moving the cursor.
pub mod Keys
pub mod Cursor
use stage.Base.{ℕ, ◌==◌, not, if◌then◌else◌, List, [], ◌∷◌, some, none, Option}
use stage.Base.Int.{ℤ, pos, ◌+ℤ◌, ◌-ℤ◌, eq_ℤ}
use stage.Kilo.{
  EditorConfig, Read, byte, nothing, again, failed, escseq, char_int, arrow_left, arrow_right,
  arrow_up, arrow_down,
}

-- A key and the reads that are left; `die`; or a wait that the list does not end.
pub data KeyRead : Type 0 where
  key : ℤ → List Read → KeyRead
  died : KeyRead
  waiting : KeyRead

-- The `switch (seq[1])`.
unfoldable pub arrow : ℕ → ℤ
arrow c =
    if c == b'A'
    then arrow_up
    else if c == b'B'
    then arrow_down
    else if c == b'C'
    then arrow_right
    else if c == b'D'
    then arrow_left
    else pos escseq

-- After ESC and the byte `seq0`.
unfoldable pub read_final : ℕ → List Read → KeyRead
read_final seq0 [] = waiting
read_final seq0 (byte c ∷ rest) = key (if seq0 == b'[' then arrow c else pos escseq) rest
read_final seq0 (_ ∷ rest) = key (pos escseq) rest

-- After ESC: any result of `read` but a byte gives the key ESC.
unfoldable pub read_sequence : List Read → KeyRead
read_sequence [] = waiting
read_sequence (byte c ∷ rest) = read_final c rest
read_sequence (_ ∷ rest) = key (pos escseq) rest

-- `editorReadKey`
unfoldable pub editor_read_key : List Read → KeyRead
editor_read_key [] = waiting
editor_read_key (byte c ∷ rest) = if c == escseq then read_sequence rest else key (char_int c) rest
editor_read_key (nothing ∷ rest) = editor_read_key rest
editor_read_key (again ∷ rest) = editor_read_key rest
editor_read_key (failed ∷ rest) = died

-- `editorMoveCursor`
unfoldable pub editor_move_cursor : EditorConfig → ℤ → EditorConfig
editor_move_cursor e k =
    if eq_ℤ k arrow_left
    then (if not (eq_ℤ e.cx (pos 0)) then record e { cx = e.cx -ℤ pos 1 } else e)
    else if eq_ℤ k arrow_right
    then (if not (eq_ℤ e.cx (e.screencols -ℤ pos 1)) then record e { cx = e.cx +ℤ pos 1 } else e)
    else if eq_ℤ k arrow_up
    then (if not (eq_ℤ e.cy (pos 0)) then record e { cy = e.cy -ℤ pos 1 } else e)
    else if eq_ℤ k arrow_down
    then (if not (eq_ℤ e.cy (e.screenrows -ℤ pos 1)) then record e { cy = e.cy +ℤ pos 1 } else e)
    else e

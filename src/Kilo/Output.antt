-- ===== src/Kilo/Output.antt =====
-- stage0/kilo/kilo.c: the append buffer and the frame that is written at each refresh.
pub mod Buffer
pub mod Frame
use stage.Base.{
  ℕ, zero, suc, ◌+◌, ◌-◌, ◌/◌, ◌==◌, not, ltb, if◌then◌else◌, Bool, List, [], ◌∷◌, ◌++◌, length,
}
use stage.Base.Int.{ℤ, pos, negsuc, pos_part, sub_ℕ, ◌+ℤ◌, ◌-ℤ◌, ltb_ℤ, eq_ℤ}
use stage.Base.Text.{Bytes, codes, print_int}
use stage.Kilo.{EditorConfig, escseq, clear_line, cursor_topleft, cursor_hide, cursor_show}

-- `abuf`
pub record Abuf : Type 0 where
  pub b : Bytes
  pub len : ℕ

abbrev pub abuf_init : Abuf
abuf_init = record { b = []; len = 0 }

-- C's `/` by a positive number, which rounds towards 0.
unfoldable pub quot_int : ℤ → ℕ → ℤ
quot_int (pos n) d = pos (n / d)
quot_int (negsuc n) d = sub_ℕ 0 (suc n / d)

-- "Kilo editor -- version %s" with KILO_VERSION; it fits the 80 bytes of `welcome`.
abbrev pub welcome : Bytes
welcome = codes "Kilo editor -- version 0.0.1"

-- `welcomelen` and `padding`
unfoldable pub welcome_len : ℤ → ℤ
welcome_len screencols = if ltb_ℤ screencols (pos 28) then screencols else pos 28

unfoldable pub padding : ℤ → ℤ
unfolding welcome_len quot_int
padding screencols = quot_int (screencols -ℤ welcome_len screencols) 2

-- CURSOR_MOVE for the cursor; for `int` numbers it fits the 32 bytes of `buf`.
unfoldable pub cursor_move : EditorConfig → Bytes
cursor_move e =
    escseq
    ∷ b'['
    ∷ (print_int (e.cy +ℤ pos 1) ++ (b';' ∷ (print_int (e.cx +ℤ pos 1) ++ (b'H' ∷ []))))

-- `alloc n` tells whether `realloc` to `n` bytes succeeds.
module _ (alloc : ℕ → Bool) where
  -- `abAppend` of the whole of `s`
  unfoldable pub ab_append : Abuf → Bytes → Abuf
  ab_append ab s =
      if alloc (ab.len + length s) then record { b = ab.b ++ s; len = ab.len + length s } else ab

  -- `while (padding--) APPEND_LIT(ab, " ")`, for a padding that is not negative.
  unfoldable pub append_spaces : ℕ → Abuf → Abuf
  append_spaces zero ab = ab
  append_spaces (suc n) ab = append_spaces n (ab_append ab (32 ∷ []))

  unfoldable pub draw_welcome : ℤ → Abuf → Abuf
  draw_welcome screencols ab =
      let pad = padding screencols in
      let tilde = if not (eq_ℤ pad (pos 0)) then ab_append ab (b'~' ∷ []) else ab in
      let left = if not (eq_ℤ pad (pos 0)) then pos_part pad - 1 else 0 in
      ab_append (append_spaces left tilde) welcome

  -- The body of the loop of `editorDrawRows`.
  unfoldable pub draw_row : EditorConfig → ℕ → Abuf → Abuf
  draw_row e y ab =
      let text =
        (if eq_ℤ (pos y) (quot_int e.screenrows 3)
          then draw_welcome e.screencols ab
          else ab_append ab (b'~' ∷ [])) in
      let cleared = ab_append text clear_line in
      if ltb_ℤ (pos y) (e.screenrows -ℤ pos 1) then ab_append cleared (13 ∷ 10 ∷ []) else cleared

  -- Its rounds that are left, and `y`.
  unfoldable pub draw_rows_from : EditorConfig → ℕ → ℕ → Abuf → Abuf
  draw_rows_from e zero y ab = ab
  draw_rows_from e (suc n) y ab = draw_rows_from e n (y + 1) (draw_row e y ab)

  -- `editorDrawRows`; there is no round where `screenrows` is not positive.
  unfoldable pub editor_draw_rows : EditorConfig → Abuf → Abuf
  editor_draw_rows e ab = draw_rows_from e (pos_part e.screenrows) 0 ab

  -- `editorRefreshScreen`: the bytes that it writes.
  unfoldable pub editor_refresh_screen : EditorConfig → Bytes
  editor_refresh_screen e =
      let hidden = ab_append abuf_init cursor_hide in
      let home = ab_append hidden cursor_topleft in
      let rows = editor_draw_rows e home in
      let moved = ab_append rows (cursor_move e) in (ab_append moved cursor_show).b

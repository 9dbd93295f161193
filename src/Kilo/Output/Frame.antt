-- ===== src/Kilo/Output/Frame.antt =====
-- The frame that `editorRefreshScreen` of stage0/kilo/kilo.c writes, line by line.
use mathlib.Core.List.{append_assoc, append-nil}
use stage.Base.{
  ℕ, zero, suc, ◌+◌, ◌-◌, ◌/◌, ◌<◌, ◌≤◌, ◌≡◌, ◌↔◌, refl, sym, ap, ◌∙◌, Bool, true, false, not, ◌==◌,
  if◌then◌else◌, Bool-cases, inl, inr, [], ◌∷◌, ◌++◌, arith, length, length-append, replicate,
  length-replicate,
}
use stage.Base.Int.{ℤ, pos, pos_part, ◌-ℤ◌, ltb_ℤ, eq_ℤ}
use stage.Base.Text.{Bytes}
use stage.Kilo.{EditorConfig, clear_line, cursor_topleft, cursor_hide, cursor_show}
use stage.Kilo.Output.{
  Abuf, abuf_init, welcome, padding, ab_append, append_spaces, draw_welcome, draw_row,
  draw_rows_from, quot_int, editor_draw_rows, cursor_move, editor_refresh_screen,
}

-- `n` columns before the welcome message: a '~', and blanks.
abbrev pub margin : ℕ → Bytes
margin zero = []
margin (suc n) = b'~' ∷ replicate n 32

-- The welcome message in the middle of `cols` columns.
abbrev pub centred : ℤ → Bytes
centred cols = margin ((pos_part cols - 28) / 2) ++ welcome

-- Line `y` of a window of `rows` rows and `cols` columns.
abbrev pub line : ℕ → ℤ → ℕ → Bytes
line rows cols y = if y == rows / 3 then centred cols else b'~' ∷ []

-- `n` lines from `y` on, each cleared to its end, with a line break between two.
unfoldable pub lines_from : ℕ → ℤ → ℕ → ℕ → Bytes
lines_from rows cols zero y = []
lines_from rows cols (suc zero) y = line rows cols y ++ clear_line
lines_from rows cols (suc (suc n)) y =
    line rows cols y ++ (clear_line ++ (13 ∷ 10 ∷ lines_from rows cols (suc n) (y + 1)))

padding_lem : (cols : ℤ) → padding cols ≡ pos ((pos_part cols - 28) / 2)
unfolding padding ◌-ℤ◌
padding_lem cols = ground arith

last_test : (y rows : ℕ) → suc y ≡ rows → ltb_ℤ (pos y) (pos rows -ℤ pos 1) ≡ false
unfolding ◌-ℤ◌
last_test y rows h = ground arith

more_test : (y rows : ℕ) → suc y < rows → ltb_ℤ (pos y) (pos rows -ℤ pos 1) ≡ true
unfolding ◌-ℤ◌
more_test y rows h = ground arith

module _ (alloc : ℕ → Bool) (enough : (n : ℕ) → alloc n ≡ true) where
  ab_append-b : (ab : Abuf) (s : Bytes) → (ab_append alloc ab s).b ≡ ab.b ++ s
  unfolding ab_append
  ab_append-b ab s = rw (enough (ab.len + length s))

  append_spaces-b : (n : ℕ) (ab : Abuf) → (append_spaces alloc n ab).b ≡ ab.b ++ replicate n 32
  unfolding append_spaces
  append_spaces-b zero ab = sym (append-nil ab.b)
  append_spaces-b (suc n) ab =
      append_spaces-b n (ab_append alloc ab (32 ∷ []))
      ∙ rw (ab_append-b ab (32 ∷ [])) (append_assoc ab.b (32 ∷ []) (replicate n 32))

  draw_welcome-centred :
      (cols : ℤ) (ab : Abuf) → (draw_welcome alloc cols ab).b ≡ ab.b ++ centred cols
  unfolding draw_welcome
  draw_welcome-centred cols ab = rw (padding_lem cols) (centre ((pos_part cols - 28) / 2))
    where
      centre :
          (n : ℕ)
          → (ab_append alloc
              (append_spaces alloc
                (if not (eq_ℤ (pos n) (pos 0)) then n - 1 else 0)
                (if not (eq_ℤ (pos n) (pos 0)) then ab_append alloc ab (b'~' ∷ []) else ab))
              welcome).b
            ≡ ab.b ++ (margin n ++ welcome)
      centre zero =
          ab_append-b (append_spaces alloc 0 ab) welcome ∙ rw (append_spaces-b 0 ab, append-nil)
      centre (suc n) =
          let some_pad : not (eq_ℤ (pos (suc n)) (pos 0)) ≡ true = ground arith in
          let less : suc n - 1 ≡ n = omega arith in
          rw (some_pad, less)
            (ab_append-b (append_spaces alloc n (ab_append alloc ab (b'~' ∷ []))) welcome
              ∙ rw
                  (
                    append_spaces-b n (ab_append alloc ab (b'~' ∷ [])),
                    ab_append-b ab (b'~' ∷ []),
                    append_assoc (ab.b ++ (b'~' ∷ [])) (replicate n 32) welcome,
                  )
                  (append_assoc ab.b (b'~' ∷ []) (replicate n 32 ++ welcome)))

  module _ (e : EditorConfig) (rows : ℕ) (tall : e.screenrows ≡ pos rows) where
    text_lem :
        (y : ℕ) (ab : Abuf)
        → (if eq_ℤ (pos y) (quot_int e.screenrows 3)
            then draw_welcome alloc e.screencols ab
            else ab_append alloc ab (b'~' ∷ [])).b
          ≡ ab.b ++ line rows e.screencols y
    unfolding quot_int
    text_lem y ab = rw tall (elim (Bool-cases (y == rows / 3)) [
      | inl here ↦ ground (arith, draw_welcome-centred e.screencols ab)
      | inr other ↦ ground (arith, ab_append-b ab (b'~' ∷ []))
    ])

    draw_row-last :
        (y : ℕ) (ab : Abuf)
        → suc y ≡ rows
        → (draw_row alloc e y ab).b ≡ ab.b ++ (line rows e.screencols y ++ clear_line)
    unfolding draw_row
    draw_row-last y ab h =
        let stop : ltb_ℤ (pos y) (e.screenrows -ℤ pos 1) ≡ false = rw tall (last_test y rows h) in
        rw stop (
          ab_append-b _ clear_line
          ∙ rw (text_lem y ab) (append_assoc ab.b (line rows e.screencols y) clear_line))

    draw_row-more :
        (y : ℕ) (ab : Abuf)
        → suc y < rows
        → (draw_row alloc e y ab).b
          ≡ ab.b ++ (line rows e.screencols y ++ (clear_line ++ (13 ∷ 10 ∷ [])))
    unfolding draw_row
    draw_row-more y ab h =
        let more : ltb_ℤ (pos y) (e.screenrows -ℤ pos 1) ≡ true = rw tall (more_test y rows h) in
        rw more (
          ab_append-b _ (13 ∷ 10 ∷ [])
          ∙ rw (ab_append-b _ clear_line, text_lem y ab) (simp append_assoc))

    draw_rows_from-lines :
        (n y : ℕ) (ab : Abuf)
        → y + n ≡ rows
        → (draw_rows_from alloc e n y ab).b ≡ ab.b ++ lines_from rows e.screencols n y
    unfolding draw_rows_from lines_from
    draw_rows_from-lines zero y ab h = sym (append-nil ab.b)
    draw_rows_from-lines (suc zero) y ab h = draw_row-last y ab (omega arith)
    draw_rows_from-lines (suc (suc n)) y ab h =
        draw_rows_from-lines (suc n) (y + 1) (draw_row alloc e y ab) (omega arith)
        ∙ rw (draw_row-more y ab (omega arith)) (simp append_assoc)

    editor_draw_rows-lines :
        (ab : Abuf) → (editor_draw_rows alloc e ab).b ≡ ab.b ++ lines_from rows e.screencols rows 0
    unfolding editor_draw_rows
    editor_draw_rows-lines ab =
        let count : pos_part e.screenrows ≡ rows = ap pos_part tall in
        rw count (draw_rows_from-lines rows 0 ab (omega arith))

    -- If no `realloc` fails, a refresh of a window of `rows` rows writes: the code that hides the
    -- cursor, the code that sends it to the top left, the lines of the window, the code that
    -- puts the cursor at its place, and the code that shows it.
    pub editor_refresh_screen-lines :
        editor_refresh_screen alloc e
        ≡ cursor_hide
          ++ (cursor_topleft
              ++ (lines_from rows e.screencols rows 0 ++ (cursor_move e ++ cursor_show)))
    unfolding editor_refresh_screen
    editor_refresh_screen-lines =
        ab_append-b _ cursor_show
        ∙ rw
            (
              ab_append-b _ (cursor_move e),
              editor_draw_rows-lines _,
              ab_append-b _ cursor_topleft,
              ab_append-b abuf_init cursor_hide,
            )
            (simp append_assoc)

length-margin : (n : ℕ) → length (margin n) ≡ n
length-margin zero = refl
length-margin (suc n) = ap suc (length-replicate n 32)

-- Where memory can be allocated, the welcome line has 28 columns and half of what is left of the
-- window's, so `editorDrawRows` gives it a window's width or less exactly if the window has 28
-- columns or more.
pub length-draw_welcome :
    (alloc : ℕ → Bool) (cols : ℕ) (ab : Abuf)
    → ((n : ℕ) → alloc n ≡ true)
    → (length (draw_welcome alloc (pos cols) ab).b ≡ length ab.b + ((cols - 28) / 2 + 28))
      × ((length (draw_welcome alloc (pos cols) ab).b ≤ length ab.b + cols) ↔ (28 ≤ cols))
length-draw_welcome alloc cols ab enough =
    let n = (cols - 28) / 2 in
    let whole : length (margin n ++ welcome) ≡ n + 28 =
      omega (arith, length-append (margin n) welcome, length-margin n) in
    let e : length (draw_welcome alloc (pos cols) ab).b ≡ length ab.b + (n + 28) =
      ap length (draw_welcome-centred alloc enough (pos cols) ab)
      ∙ length-append ab.b (margin n ++ welcome)
      ∙ ap (λ k. length ab.b + k) whole in
    (e, (λ h. omega arith, λ h. omega arith))

-- ===== src/Kilo/Output/Buffer.antt =====
-- The append buffer of stage0/kilo/kilo.c.
use stage.Base.{ℕ, zero, suc, ◌+◌, ◌≡◌, Bool, [], ◌∷◌, arith, length, length-append}
use stage.Base.Text.{Bytes}
use stage.Kilo.{EditorConfig}
use stage.Kilo.Output.{
  Abuf, ab_append, append_spaces, draw_welcome, draw_row, draw_rows_from, editor_draw_rows,
}

-- `len` counts the bytes of `b`.
pub record IsValid (ab : Abuf) : Type 0 where
  pub counts : ab.len ≡ length ab.b

module _ (alloc : ℕ → Bool) where
  pub ab_append-IsValid : (ab : Abuf) (s : Bytes) → IsValid ab → IsValid (ab_append alloc ab s)
  unfolding ab_append
  ab_append-IsValid ab s v = ground (arith, length-append ab.b s)

  append_spaces-IsValid : (n : ℕ) (ab : Abuf) → IsValid ab → IsValid (append_spaces alloc n ab)
  unfolding append_spaces
  append_spaces-IsValid zero ab v = v
  append_spaces-IsValid (suc n) ab v =
      append_spaces-IsValid n (ab_append alloc ab (32 ∷ [])) (ab_append-IsValid ab (32 ∷ []) v)

  draw_welcome-IsValid :
      (e : EditorConfig) (ab : Abuf) → IsValid ab → IsValid (draw_welcome alloc e.screencols ab)
  unfolding draw_welcome
  draw_welcome-IsValid e ab v = grind (arith, ab_append-IsValid, append_spaces-IsValid)

  draw_row-IsValid :
      (e : EditorConfig) (y : ℕ) (ab : Abuf) → IsValid ab → IsValid (draw_row alloc e y ab)
  unfolding draw_row
  draw_row-IsValid e y ab v = grind (arith, ab_append-IsValid, draw_welcome-IsValid)

  draw_rows_from-IsValid :
      (e : EditorConfig) (n y : ℕ) (ab : Abuf)
      → IsValid ab
      → IsValid (draw_rows_from alloc e n y ab)
  unfolding draw_rows_from
  draw_rows_from-IsValid e zero y ab v = v
  draw_rows_from-IsValid e (suc n) y ab v =
      draw_rows_from-IsValid e n (y + 1) (draw_row alloc e y ab) (draw_row-IsValid e y ab v)

  -- Whichever calls of `realloc` fail, drawing the rows keeps `len` equal to the number of bytes.
  pub editor_draw_rows-IsValid :
      (e : EditorConfig) (ab : Abuf) → IsValid ab → IsValid (editor_draw_rows alloc e ab)
  unfolding editor_draw_rows
  editor_draw_rows-IsValid e ab v = draw_rows_from-IsValid e _ 0 ab v

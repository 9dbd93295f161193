-- ===== src/Kilo/Input/Cursor.antt =====
-- `editorMoveCursor` of stage0/kilo/kilo.c.
use stage.Base.{◌≡◌, ◌≢◌, ◌⊎◌, inl, inr, true, Bool-cases, if◌then◌else◌, arith}
use stage.Base.Int.{ℤ, pos, ◌+ℤ◌, ◌-ℤ◌, ◌≤ℤ◌, ltb_ℤ, eq_ℤ}
use stage.Kilo.{EditorConfig, arrow_left, arrow_right, arrow_up, arrow_down}
use stage.Kilo.Input.{editor_move_cursor}
use stage.Kilo.Input.Keys.{Direction, up, down, left, right, key_code}

-- The cursor is on the screen.
pub record IsOnScreen (e : EditorConfig) : Type 0 where
  pub cx_low : pos 0 ≤ℤ e.cx
  pub cx_high : ltb_ℤ e.cx e.screencols ≡ true
  pub cy_low : pos 0 ≤ℤ e.cy
  pub cy_high : ltb_ℤ e.cy e.screenrows ≡ true

-- The number nearest to `x` from 0 to below `n`.
abbrev pub clamp : ℤ → ℤ → ℤ
clamp n x = if ltb_ℤ x (pos 0) then pos 0 else if ltb_ℤ x n then x else n -ℤ pos 1

-- One step in a direction, kept on the screen.
abbrev pub moved : Direction → EditorConfig → EditorConfig
moved up e = record e { cy = clamp e.screenrows (e.cy -ℤ pos 1) }
moved down e = record e { cy = clamp e.screenrows (e.cy +ℤ pos 1) }
moved right e = record e { cx = clamp e.screencols (e.cx +ℤ pos 1) }
moved left e = record e { cx = clamp e.screencols (e.cx -ℤ pos 1) }

-- On the screen an arrow key moves the cursor one step and stops at the edge.
pub editor_move_cursor-moved :
    (d : Direction) (e : EditorConfig)
    → IsOnScreen e
    → editor_move_cursor e (key_code d) ≡ moved d e
unfolding editor_move_cursor ◌+ℤ◌ ◌-ℤ◌
editor_move_cursor-moved up e h = ground arith
editor_move_cursor-moved down e h = ground arith
editor_move_cursor-moved right e h = ground arith
editor_move_cursor-moved left e h = ground arith

moved-IsOnScreen : (d : Direction) (e : EditorConfig) → IsOnScreen e → IsOnScreen (moved d e)
unfolding ◌+ℤ◌ ◌-ℤ◌
moved-IsOnScreen up e h = ground arith
moved-IsOnScreen down e h = ground arith
moved-IsOnScreen right e h = ground arith
moved-IsOnScreen left e h = ground arith

-- A key that is no arrow leaves the cursor where it is.
editor_move_cursor-other :
    (e : EditorConfig) (k : ℤ) → ((d : Direction) → k ≢ key_code d) → editor_move_cursor e k ≡ e
unfolding editor_move_cursor
editor_move_cursor-other e k h = ground (arith, h up, h down, h left, h right)

key-cases : (k : ℤ) → ((d : Direction) × (k ≡ key_code d)) ⊎ ((d : Direction) → k ≢ key_code d)
key-cases k = elim (Bool-cases (eq_ℤ k arrow_up)) [
  | inl u ↦ inl (up, ground arith)
  | inr nu ↦ elim (Bool-cases (eq_ℤ k arrow_down)) [
    | inl d ↦ inl (down, ground arith)
    | inr nd ↦ elim (Bool-cases (eq_ℤ k arrow_left)) [
      | inl l ↦ inl (left, ground arith)
      | inr nl ↦ elim (Bool-cases (eq_ℤ k arrow_right)) [
        | inl r ↦ inl (right, ground arith)
        | inr nr ↦ inr (elim [
          | up ↦ ground arith
          | down ↦ ground arith
          | right ↦ ground arith
          | left ↦ ground arith
        ])
      ]
    ]
  ]
]

-- No key moves the cursor off the screen.
pub editor_move_cursor-IsOnScreen :
    (e : EditorConfig) (k : ℤ) → IsOnScreen e → IsOnScreen (editor_move_cursor e k)
editor_move_cursor-IsOnScreen e k h = elim (key-cases k) [
  | inl (d, code) ↦ rw (code, editor_move_cursor-moved d e h) (moved-IsOnScreen d e h)
  | inr other ↦ rw (editor_move_cursor-other e k other) h
]

-- Where a window has no rows, each arrow down moves the cursor one row further down.
pub editor_move_cursor-no_rows :
    (e : EditorConfig)
    → e.screenrows ≤ℤ pos 0
    → pos 0 ≤ℤ e.cy
    → (editor_move_cursor e (key_code down)).cy ≡ e.cy +ℤ pos 1
unfolding editor_move_cursor ◌+ℤ◌ ◌-ℤ◌
editor_move_cursor-no_rows e h k = ground arith

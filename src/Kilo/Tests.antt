-- ===== src/Kilo/Tests.antt =====
-- The theorems about stage0/kilo/kilo.c at concrete inputs, and runs of its functions.
use stage.Base.{
  ◌+◌, ℕ, ◌≡◌, ◌≢◌, ◌↔◌, refl, true, Bool, some, none, List, [], ◌∷◌, ◌++◌, map, length, ◌≤◌, arith,
}
use stage.Base.Int.{pos, ◌+ℤ◌}
use stage.Base.Text.{print_nat, scan_int, scan_digits}
use stage.Kilo.{
  EditorConfig, Read, byte, nothing, again, ctrl_key, clear_screen, cursor_topleft, cursor_hide,
  cursor_show,
}
use stage.Kilo.Input.{key, editor_read_key, editor_move_cursor}
use stage.Kilo.Input.Keys.{up, down, key_code, sequence, Idle, editor_read_key-arrow}
use stage.Kilo.Input.Cursor.{
  IsOnScreen, moved, editor_move_cursor-moved, editor_move_cursor-IsOnScreen,
  editor_move_cursor-no_rows,
}
use stage.Kilo.Output.{
  draw_welcome, abuf_init, editor_draw_rows, cursor_move, editor_refresh_screen,
}
use stage.Kilo.Output.Buffer.{IsValid, editor_draw_rows-IsValid}
use stage.Kilo.Output.Frame.{lines_from, editor_refresh_screen-lines, length-draw_welcome}
use stage.Kilo.Window.{
  Terminal, size_queries, read_reply, scan_pair, parse_reply, get_cursor_position, ask_cursor,
  get_window_size,
}
use stage.Kilo.Window.Reply.{report, NoColumn, get_cursor_position-report, get_window_size_lem}
use stage.Kilo.Program.{exited, main_loop, program}
use stage.Kilo.Program.Runs.{IsProper, main_loop-quit, program-IsProper, program-die}

-- A window of 24 rows and 80 columns with the cursor in its top right corner.
abbrev corner : EditorConfig
corner = record { cx = pos 79; cy = pos 0; screenrows = pos 24; screencols = pos 80 }

abbrev no_rows : EditorConfig
no_rows = record { cx = pos 0; cy = pos 7; screenrows = pos 0; screencols = pos 80 }

corner-IsOnScreen : IsOnScreen corner
corner-IsOnScreen = record {
  cx_low = omega arith;
  cx_high = refl;
  cy_low = omega arith;
  cy_high = refl;
}

-- A `realloc` that never fails.
abbrev always : ℕ → Bool
always = λ n. true

abbrev terminal : Terminal
terminal = record { winsize = none; wrote_corner = pos 12; wrote_query = pos 4 }

abbrev sized : Terminal
sized = record { winsize = some (24, 80); wrote_corner = pos 12; wrote_query = pos 4 }

abbrev broken : Terminal
broken = record { winsize = none; wrote_corner = pos 0; wrote_query = pos 4 }

editor_read_key-arrow_example :
    (editor_read_key (nothing ∷ sequence down []) ≡ key (key_code down) [])
    ↔ ((idle : List Read) × Idle idle × (nothing ∷ sequence down [] ≡ idle ++ sequence down []))
editor_read_key-arrow_example = editor_read_key-arrow down (nothing ∷ sequence down []) []

editor_move_cursor-moved_example : editor_move_cursor corner (key_code down) ≡ moved down corner
editor_move_cursor-moved_example = editor_move_cursor-moved down corner corner-IsOnScreen

editor_move_cursor-IsOnScreen_test : IsOnScreen (editor_move_cursor corner (key_code up))
editor_move_cursor-IsOnScreen_test =
    editor_move_cursor-IsOnScreen corner (key_code up) corner-IsOnScreen

editor_move_cursor-no_rows_test :
    (editor_move_cursor no_rows (key_code down)).cy ≡ no_rows.cy +ℤ pos 1
editor_move_cursor-no_rows_test = editor_move_cursor-no_rows no_rows (omega arith) (omega arith)

editor_draw_rows-IsValid_test : IsValid (editor_draw_rows always corner abuf_init)
editor_draw_rows-IsValid_test =
    editor_draw_rows-IsValid always corner abuf_init (record { counts = refl })

editor_refresh_screen-lines_example :
    editor_refresh_screen always corner
    ≡ cursor_hide
      ++ (cursor_topleft ++ (lines_from 24 (pos 80) 24 0 ++ (cursor_move corner ++ cursor_show)))
editor_refresh_screen-lines_example = editor_refresh_screen-lines always (λ n. refl) corner 24 refl

length-draw_welcome_example :
    (length (draw_welcome always (pos 20) abuf_init).b ≡ 0 + 28)
    × ((length (draw_welcome always (pos 20) abuf_init).b ≤ 0 + 20) ↔ (28 ≤ 20))
length-draw_welcome_example = length-draw_welcome always 20 abuf_init (λ n. refl)

get_cursor_position-report_example :
    get_cursor_position terminal (map byte (report 24 80) ++ (byte b'R' ∷ nothing ∷ []))
    ≡ some ((pos 24, pos 80), nothing ∷ [])
get_cursor_position-report_example =
    get_cursor_position-report terminal 24 80 (nothing ∷ []) refl (omega arith) (omega arith)

quit_test :
    main_loop always 1 corner (again ∷ byte (ctrl_key b'q') ∷ [])
    ≡ (editor_refresh_screen always corner ∷ clear_screen ∷ cursor_topleft ∷ [], exited 0)
quit_test = main_loop-quit always 0 corner (again ∷ []) [] tt

program-IsProper_test : IsProper (program always sized (byte 17 ∷ [])).1
unfolding get_window_size
program-IsProper_test =
    program-IsProper always sized (byte 17 ∷ []) (byte 17 ∷ []) (pos 24) (pos 80) refl refl refl

die_test :
    program always broken []
    ≡ (size_queries broken ++ (clear_screen ∷ cursor_topleft ∷ []), exited 1)
unfolding get_window_size ask_cursor
die_test = program-die always broken [] refl

get_window_size_lem_test :
    let reads = map byte (report 24 80) ++ (byte b'R' ∷ []) in
    (NoColumn terminal → get_window_size terminal reads ≡ some ((pos 24, pos 80), []))
    × ((ws_row ws_col : ℕ)
        → ws_col ≢ 0
        → terminal.winsize ≡ some (ws_row, ws_col)
        → get_window_size terminal reads ≡ some ((pos ws_row, pos ws_col), reads))
get_window_size_lem_test =
    get_window_size_lem terminal 24 80 [] refl refl (omega arith) (omega arith)

-- A reply that is read back.
reads_reply :
    get_cursor_position terminal (map byte (report 24 80) ++ (byte b'R' ∷ []))
    ≡ some ((pos 24, pos 80), [])
unfolding get_cursor_position read_reply parse_reply scan_pair print_nat scan_int scan_digits
reads_reply = refl

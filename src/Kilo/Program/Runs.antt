-- ===== src/Kilo/Program/Runs.antt =====
-- Whole runs of stage0/kilo/kilo.c.
use mathlib.Core.Path.{subst}
use stage.Base.{
  ℕ, zero, suc, ◌<◌, ◌≡◌, ◌⊎◌, inl, inr, refl, true, Bool, some, none, List, [], ◌∷◌, ◌++◌, arith,
  length, ◌||◌,
}
use stage.Base.Int.{ℤ, pos, eq_ℤ, ltb_ℤ}
use stage.Kilo.{
  EditorConfig, Read, byte, char_int, ctrl_key, arrow_up, arrow_down, arrow_left, arrow_right,
  clear_screen, cursor_topleft,
}
use stage.Kilo.Input.{key, died, waiting, KeyRead, editor_read_key, editor_move_cursor}
use stage.Kilo.Input.Keys.{Idle, editor_read_key-char, length-editor_read_key}
use stage.Kilo.Input.Cursor.{IsOnScreen, editor_move_cursor-IsOnScreen}
use stage.Kilo.Output.{editor_refresh_screen}
use stage.Kilo.Window.{Terminal, init_editor, get_window_size, size_queries}
use stage.Kilo.Window.Reply.{init_editor-size, init_editor-none}
use stage.Kilo.Program.Fuel.{either, main_loop-round}
use stage.Kilo.Program.{
  Step, quit, die, blocked, next, dispatch, editor_process_keypress, End, exited, waits,
  out_of_fuel, main_loop, program,
}

-- What may follow a key: the editor stops, or goes on with the cursor on the screen and fewer
-- reads.
abbrev GoesOn : List Read → Step → Type 0
GoesOn reads quit = Unit {0}
GoesOn reads die = Unit {0}
GoesOn reads blocked = Unit {0}
GoesOn reads (next e rest) = IsOnScreen e × (length rest < length reads)

dispatch-GoesOn :
    (e : EditorConfig) (c : ℤ) (reads rest : List Read)
    → IsOnScreen e
    → length rest < length reads
    → GoesOn reads (dispatch e c rest)
unfolding dispatch
dispatch-GoesOn e c reads rest h k = either (GoesOn reads) (eq_ℤ c (pos (ctrl_key b'q'))) tt (
    either (GoesOn reads)
      (eq_ℤ c arrow_up || eq_ℤ c arrow_down || eq_ℤ c arrow_left || eq_ℤ c arrow_right)
      {x = next (editor_move_cursor e c) rest} {y = next e rest}
      (editor_move_cursor-IsOnScreen e c h, k) (h, k))

keypress-GoesOn :
    (e : EditorConfig) (reads : List Read)
    → IsOnScreen e
    → GoesOn reads (editor_process_keypress e reads)
unfolding editor_process_keypress
keypress-GoesOn e reads h = go (editor_read_key reads) refl
  where
    go :
        (m : KeyRead)
        → editor_read_key reads ≡ m
        → GoesOn reads (elim m [ key c rest ↦ dispatch e c rest | died ↦ die | waiting ↦ blocked ])
    go (key c rest) f = dispatch-GoesOn e c reads rest h (length-editor_read_key reads rest c f)
    go died f = tt
    go waiting f = tt

-- An end that a run may have: exit status 0 or 1, or a wait with the cursor on the screen.
abbrev pub IsProper : End → Type 0
IsProper (exited n) = (n ≡ 0) ⊎ (n ≡ 1)
IsProper (waits e) = IsOnScreen e
IsProper out_of_fuel = ⊥

module _ (alloc : ℕ → Bool) where
  pub main_loop-IsProper :
      (fuel : ℕ) (e : EditorConfig) (reads : List Read)
      → IsOnScreen e
      → length reads < fuel
      → IsProper (main_loop alloc fuel e reads).1
  main_loop-IsProper zero e reads h k = absurd (omega arith)
  main_loop-IsProper (suc fuel) e reads h k =
      main_loop-round alloc IsProper fuel e reads (inl refl) (inr refl) h (λ e' rest f.
        let g : IsOnScreen e' × (length rest < length reads) =
          subst (GoesOn reads) f (keypress-GoesOn e reads h) in
        main_loop-IsProper fuel e' rest g.0 (omega arith))

  -- Ctrl-Q, after any wait, ends the program: it writes the frame, clears the screen and exits
  -- with status 0, whatever else would follow.
  pub main_loop-quit :
      (fuel : ℕ) (e : EditorConfig) (idle rest : List Read)
      → Idle idle
      → main_loop alloc (suc fuel) e (idle ++ (byte (ctrl_key b'q') ∷ rest))
        ≡ (editor_refresh_screen alloc e ∷ clear_screen ∷ cursor_topleft ∷ [], exited 0)
  unfolding main_loop editor_process_keypress dispatch char_int
  main_loop-quit fuel e idle rest h = rw (
    editor_read_key-char idle rest (ctrl_key b'q') h (omega arith),
    main_loop,
    editor_process_keypress,
    dispatch,
  )

  program-main_loop :
      (t : Terminal) (reads rest : List Read) (e : EditorConfig)
      → init_editor t reads ≡ some (e, rest)
      → (program alloc t reads).1 ≡ (main_loop alloc (suc (length rest)) e rest).1
  unfolding program
  program-main_loop t reads rest e found = rw (found, program)

  -- Where the window that is found has a row and a column, a run of `main` ends by an exit with
  -- status 0 or 1 or waits for input with the cursor on the screen.
  pub program-IsProper :
      (t : Terminal) (reads rest : List Read) (rows cols : ℤ)
      → get_window_size t reads ≡ some ((rows, cols), rest)
      → ltb_ℤ (pos 0) rows ≡ true
      → ltb_ℤ (pos 0) cols ≡ true
      → IsProper (program alloc t reads).1
  program-IsProper t reads rest rows cols e hr hc =
      rw (program-main_loop t reads rest _ (init_editor-size t reads rest rows cols e)) (
        main_loop-IsProper (suc (length rest))
          (record { cx = pos 0; cy = pos 0; screenrows = rows; screencols = cols }) rest
          (record { cx_low = omega arith; cx_high = hc; cy_low = omega arith; cy_high = hr })
          (omega arith))

  -- Where the size of the window cannot be found, `main` clears the screen and exits with
  -- status 1.
  pub program-die :
      (t : Terminal) (reads : List Read)
      → get_window_size t reads ≡ none
      → program alloc t reads ≡ (size_queries t ++ (clear_screen ∷ cursor_topleft ∷ []), exited 1)
  unfolding program
  program-die t reads e = rw (init_editor-none t reads e, program)

-- ===== src/Kilo/Program.antt =====
-- stage0/kilo/kilo.c: `editorProcessKyepress` and `main`.
pub mod Fuel
pub mod Runs
use stage.Base.{
  ℕ, zero, suc, ◌||◌, if◌then◌else◌, Bool, Option, some, none, List, [], ◌∷◌, ◌++◌, length,
}
use stage.Base.Int.{ℤ, pos, eq_ℤ}
use stage.Base.Text.{Bytes}
use stage.Kilo.{
  EditorConfig, Read, clear_screen, cursor_topleft, ctrl_key, arrow_left, arrow_right, arrow_up,
  arrow_down,
}
use stage.Kilo.Input.{KeyRead, key, died, waiting, editor_read_key, editor_move_cursor}
use stage.Kilo.Output.{editor_refresh_screen}
use stage.Kilo.Window.{Terminal, size_queries, init_editor}

-- `exit(0)`, `die`, a wait for input that is not in the list, or the next round.
pub data Step : Type 0 where
  quit : Step
  die : Step
  blocked : Step
  next : EditorConfig → List Read → Step

-- The `switch (c)`; other keys do nothing.
unfoldable pub dispatch : EditorConfig → ℤ → List Read → Step
dispatch e c rest =
    if eq_ℤ c (pos (ctrl_key b'q'))
    then quit
    else if eq_ℤ c arrow_up || eq_ℤ c arrow_down || eq_ℤ c arrow_left || eq_ℤ c arrow_right
    then next (editor_move_cursor e c) rest
    else next e rest

-- `editorProcessKyepress`
unfoldable pub editor_process_keypress : EditorConfig → List Read → Step
unfolding dispatch
editor_process_keypress e reads = elim (editor_read_key reads) [
  | key c rest ↦ dispatch e c rest
  | died ↦ die
  | waiting ↦ blocked
]

-- How a run ends: `exit(n)`, or a wait for input in the editor's state; or the fuel is used up.
pub data End : Type 0 where
  exited : ℕ → End
  waits : EditorConfig → End
  out_of_fuel : End

-- What a run has written, a list for each call of `write`, and how it ended.
abbrev pub Trace : Type 0
Trace = List Bytes × End

module _ (alloc : ℕ → Bool) where
  -- `while (1)` of `main`; each round takes at least one read.
  unfoldable pub main_loop : ℕ → EditorConfig → List Read → Trace
  main_loop zero e reads = ([], out_of_fuel)
  main_loop (suc fuel) e reads =
      let frame = editor_refresh_screen alloc e in
      elim (editor_process_keypress e reads) [
        | quit ↦ (frame ∷ clear_screen ∷ cursor_topleft ∷ [], exited 0)
        | die ↦ (frame ∷ clear_screen ∷ cursor_topleft ∷ [], exited 1)
        | blocked ↦ (frame ∷ [], waits e)
        | next e' rest ↦ let (out, end) = main_loop fuel e' rest in (frame ∷ out, end)
      ]

  -- `main`, with enough fuel for the reads.
  unfoldable pub program : Terminal → List Read → Trace
  program t reads = elim (init_editor t reads) [
    | none ↦ (size_queries t ++ (clear_screen ∷ cursor_topleft ∷ []), exited 1)
    | some (e, rest) ↦
        let (out, end) = main_loop (suc (length rest)) e rest in (size_queries t ++ out, end)
  ]

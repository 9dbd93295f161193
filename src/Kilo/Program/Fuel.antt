-- ===== src/Kilo/Program/Fuel.antt =====
-- stage0/kilo/kilo.c: the loop of `main` takes at least one read in each round.
use mathlib.Core.Path.{subst}
use stage.Base.{
  ℕ, zero, suc, ◌<◌, ◌≡◌, ◌≢◌, refl, Bool, true, false, Option, some, none, List, length, ◌||◌,
  if◌then◌else◌, ◌∷◌, [], ◌++◌, arith,
}
use stage.Base.Int.{ℤ, pos, eq_ℤ}
use stage.Kilo.{
  EditorConfig, Read, ctrl_key, arrow_up, arrow_down, arrow_left, arrow_right, clear_screen,
  cursor_topleft,
}
use stage.Kilo.Input.{key, died, waiting, KeyRead, editor_read_key, editor_move_cursor}
use stage.Kilo.Input.Keys.{length-editor_read_key}
use stage.Kilo.Output.{editor_refresh_screen}
use stage.Kilo.Window.{Terminal, init_editor, size_queries}
use stage.Kilo.Program.{
  Step, quit, die, blocked, next, dispatch, editor_process_keypress, End, exited, waits,
  out_of_fuel, Trace, main_loop, program,
}

-- Where the loop goes on, fewer reads are left.
abbrev Fewer : List Read → Step → Type 0
Fewer reads (next e rest) = length rest < length reads
Fewer reads _ = Unit {0}

pub either : (P : Step → Type 0) (b : Bool) {x y : Step} → P x → P y → P (if b then x else y)
either P true p q = p
either P false p q = q

dispatch-Fewer :
    (e : EditorConfig) (c : ℤ) (reads rest : List Read)
    → length rest < length reads
    → Fewer reads (dispatch e c rest)
unfolding dispatch
dispatch-Fewer e c reads rest k = either (Fewer reads) (eq_ℤ c (pos (ctrl_key b'q'))) tt (
    either (Fewer reads)
      (eq_ℤ c arrow_up || eq_ℤ c arrow_down || eq_ℤ c arrow_left || eq_ℤ c arrow_right)
      {x = next (editor_move_cursor e c) rest} {y = next e rest} k k)

keypress-Fewer :
    (e : EditorConfig) (reads : List Read) → Fewer reads (editor_process_keypress e reads)
unfolding editor_process_keypress
keypress-Fewer e reads = go (editor_read_key reads) refl
  where
    go :
        (m : KeyRead)
        → editor_read_key reads ≡ m
        → Fewer reads (elim m [ key c rest ↦ dispatch e c rest | died ↦ die | waiting ↦ blocked ])
    go (key c rest) f = dispatch-Fewer e c reads rest (length-editor_read_key reads rest c f)
    go died f = tt
    go waiting f = tt

module _ (alloc : ℕ → Bool) where
  -- How a round ends the run, or what the later rounds come to.
  pub main_loop-round :
      (P : End → Type 0) (fuel : ℕ) (e : EditorConfig) (reads : List Read)
      → P (exited 0)
      → P (exited 1)
      → P (waits e)
      → ((e' : EditorConfig) (rest : List Read)
          → editor_process_keypress e reads ≡ next e' rest
          → P (main_loop alloc fuel e' rest).1)
      → P (main_loop alloc (suc fuel) e reads).1
  unfolding main_loop
  main_loop-round P fuel e reads quits dies stays goes = go (editor_process_keypress e reads) goes
    where
      go :
          (s : Step)
          → ((e' : EditorConfig) (rest : List Read)
              → s ≡ next e' rest
              → P (main_loop alloc fuel e' rest).1)
          → P (
              let r : Trace = elim s [
                | quit ↦
                    (editor_refresh_screen alloc e ∷ clear_screen ∷ cursor_topleft ∷ [], exited 0)
                | die ↦
                    (editor_refresh_screen alloc e ∷ clear_screen ∷ cursor_topleft ∷ [], exited 1)
                | blocked ↦ (editor_refresh_screen alloc e ∷ [], waits e)
                | next e' rest ↦
                    let (out, end) = main_loop alloc fuel e' rest in
                    (editor_refresh_screen alloc e ∷ out, end)
              ] in
              r.1)
      go quit rec = quits
      go die rec = dies
      go blocked rec = stays
      go (next e' rest) rec = rec e' rest refl

  main_loop-ne-out_of_fuel :
      (fuel : ℕ) (e : EditorConfig) (reads : List Read)
      → length reads < fuel
      → (main_loop alloc fuel e reads).1 ≢ out_of_fuel
  main_loop-ne-out_of_fuel zero e reads k = absurd (omega arith)
  main_loop-ne-out_of_fuel (suc fuel) e reads k =
      main_loop-round (λ end. end ≢ out_of_fuel) fuel e reads (cc) (cc) (cc)
        (λ e' rest f.
          let fewer : length rest < length reads = subst (Fewer reads) f (keypress-Fewer e reads) in
          main_loop-ne-out_of_fuel fuel e' rest (omega arith))

  -- The fuel of `program` is enough.
  pub program-ne-out_of_fuel :
      (t : Terminal) (reads : List Read) → (program alloc t reads).1 ≢ out_of_fuel
  unfolding program
  program-ne-out_of_fuel t reads = go (init_editor t reads)
    where
      go :
          (m : Option (EditorConfig × List Read))
          → (let r : Trace = elim m [
            | none ↦ (size_queries t ++ (clear_screen ∷ cursor_topleft ∷ []), exited 1)
            | some (e, rest) ↦
                let (out, end) = main_loop alloc (suc (length rest)) e rest in
                (size_queries t ++ out, end)
          ] in
              r.1)
            ≢ out_of_fuel
      go none = cc
      go (some (e, rest)) = main_loop-ne-out_of_fuel (suc (length rest)) e rest (omega arith)

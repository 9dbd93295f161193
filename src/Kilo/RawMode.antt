-- ===== src/Kilo/RawMode.antt =====
-- stage0/kilo/kilo.c: `enableRawMode`, `disableRawMode`, `die`, and the whole of `main` with the
-- exit handler.
pub mod Flags
pub mod Restore
mod Tests
use Prim.Native.Nat.{bit_or}
use stage.Base.{ℕ, Bool, true, false, Option, some, none, List, [], ◌∷◌, ◌++◌}
use stage.Base.Text.{Bytes}
use stage.Kilo.{EditorConfig, Read, clear_screen, cursor_topleft}
use stage.Kilo.Window.{Terminal}
use stage.Kilo.Program.{End, exited, waits, out_of_fuel, Trace, program}
use stage.Tty.{Termios, Platform, clear_flags, set_cc, Action, flush, Driver}

-- `struct termios raw` of `enableRawMode`
unfoldable pub raw : Platform → Termios → Termios
raw p t = record {
  c_iflag =
      clear_flags t.c_iflag
        (bit_or (bit_or (bit_or (bit_or p.brkint p.icrnl) p.inpck) p.istrip) p.ixon);
  c_oflag = clear_flags t.c_oflag p.opost;
  c_cflag = bit_or t.c_cflag p.cs8;
  c_lflag = clear_flags t.c_lflag (bit_or (bit_or (bit_or p.echo p.icanon) p.iexten) p.isig);
  c_cc = set_cc (set_cc t.c_cc p.vmin 0) p.vtime 1;
}

-- What `die` writes to the screen before it exits.
abbrev pub died : List Bytes
died = clear_screen ∷ cursor_topleft ∷ []

-- How a run ends: with an exit status; by `exit` in the exit handler, which C leaves undefined; or
-- in a wait for input; or the fuel is used up.
pub data KiloEnd : Type 0 where
  status : ℕ → KiloEnd
  exits_twice : KiloEnd
  reading : EditorConfig → KiloEnd
  no_fuel : KiloEnd

-- What has been written, a list for each call of `write`, the terminal, and how the run ended.
pub record KiloRun (S : Type 0) : Type 0 where
  pub written : List Bytes
  pub tty : S
  pub ending : KiloEnd

module _ {S : Type 0} (d : Driver S) where
  -- `disableRawMode`, with `E.orig_termios`: whether it returns, and the terminal.
  unfoldable pub disable_raw_mode : Termios → S → Bool × S
  disable_raw_mode orig_termios s = d.tcsetattr flush orig_termios s

  after_handler : ℕ → List Bytes → Bool × S → KiloRun S
  after_handler n out (true, s) = record { written = out; tty = s; ending = status n }
  after_handler n out (false, s) = record { written = out ++ died; tty = s; ending = exits_twice }

  -- `exit(n)` once `atexit(disableRawMode)` is done
  unfoldable pub exit_raw : ℕ → List Bytes → Termios → S → KiloRun S
  unfolding after_handler disable_raw_mode
  exit_raw n out orig_termios s = after_handler n out (disable_raw_mode orig_termios s)

  -- The rest of `main` in raw mode, from what the editor does there.
  unfoldable pub after_editor : Trace → Termios → S → KiloRun S
  after_editor (out, exited n) orig_termios s = exit_raw n out orig_termios s
  after_editor (out, waits e) orig_termios s = record { written = out; tty = s; ending = reading e }
  after_editor (out, out_of_fuel) orig_termios s = record {
    written = out;
    tty = s;
    ending = no_fuel;
  }

  -- After `tcsetattr` of `enableRawMode`: `die`, or the editor.
  unfoldable pub enabled : Trace → Termios → Bool × S → KiloRun S
  unfolding after_editor
  enabled edited orig_termios (true, s) = after_editor edited orig_termios s
  enabled edited orig_termios (false, s) = exit_raw 1 died orig_termios s

  -- `main`, from what `tcgetattr` stores: `enableRawMode`, then `initEditor` and the loop.
  unfoldable pub enable_raw_mode : Platform → Trace → S → Option Termios → KiloRun S
  unfolding enabled
  enable_raw_mode p edited s none = record { written = died; tty = s; ending = status 1 }
  enable_raw_mode p edited s (some orig_termios) =
      enabled edited orig_termios (d.tcsetattr flush (raw p orig_termios) s)

  unfoldable pub kilo : Platform → (ℕ → Bool) → S → Terminal → List Read → KiloRun S
  unfolding enable_raw_mode
  kilo p alloc s t reads = enable_raw_mode p (program alloc t reads) s (d.tcgetattr s)

-- ===== src/Kilo/RawMode/Restore.antt =====
-- stage0/kilo/kilo.c: the terminal while the editor runs and after it has ended.
use mathlib.Core.Path.{subst}
use stage.Base.{ℕ, ◌≡◌, sym, ◌≢◌, refl, ◌⊎◌, inl, inr, Bool, true, false, some, List, ◌++◌}
use stage.Base.Text.{Bytes}
use stage.Kilo.{Read}
use stage.Kilo.Window.{Terminal}
use stage.Kilo.Program.{exited, waits, out_of_fuel, Trace, program}
use stage.Kilo.Program.Fuel.{program-ne-out_of_fuel}
use stage.Kilo.RawMode.{
  raw, died, KiloEnd, status, exits_twice, reading, no_fuel, KiloRun, disable_raw_mode,
  after_handler, exit_raw, after_editor, enabled, enable_raw_mode, kilo,
}
use stage.Tty.{Termios, Platform, flush, Driver, Sets, Documented}

module _ {S : Type 0} (d : Driver S) (p : Platform) (orig : Termios) where
  -- After an exit the terminal has its first attributes. While the editor reads it is in raw mode.
  -- Where the exit handler fails it has the one or the other.
  abbrev pub Leaves : KiloEnd → S → Type 0
  Leaves (status n) s = d.tcgetattr s ≡ some orig
  Leaves (reading e) s = d.tcgetattr s ≡ some (raw p orig)
  Leaves exits_twice s = (d.tcgetattr s ≡ some orig) ⊎ (d.tcgetattr s ≡ some (raw p orig))
  Leaves no_fuel s = ⊥

  after_handler-Leaves :
      (n : ℕ) (out : List Bytes) (s : S) (r : Bool × S)
      → (d.tcgetattr s ≡ some orig) ⊎ (d.tcgetattr s ≡ some (raw p orig))
      → Sets d orig s r
      → Leaves (after_handler d n out r).ending (after_handler d n out r).tty
  unfolding after_handler Sets
  after_handler-Leaves n out s (true, s') before (inl (done, now)) = now
  after_handler-Leaves n out s (true, s') before (inr (fails, same)) = cc
  after_handler-Leaves n out s (false, s') before (inl (done, now)) = cc
  after_handler-Leaves n out s (false, s') before (inr (fails, same)) = rw same before

  module _ (l : Documented d) where
    exit_raw-Leaves :
        (n : ℕ) (out : List Bytes) (s : S)
        → (d.tcgetattr s ≡ some orig) ⊎ (d.tcgetattr s ≡ some (raw p orig))
        → Leaves (exit_raw d n out orig s).ending (exit_raw d n out orig s).tty
    unfolding exit_raw
    exit_raw-Leaves n out s before =
        after_handler-Leaves n out s (disable_raw_mode d orig s) before
          (l.tcsetattr_lem flush orig s)

    after_editor-Leaves :
        (edited : Trace) (s : S)
        → edited.1 ≢ out_of_fuel
        → d.tcgetattr s ≡ some (raw p orig)
        → Leaves (after_editor d edited orig s).ending (after_editor d edited orig s).tty
    unfolding after_editor
    after_editor-Leaves (out, exited n) s enough now = exit_raw-Leaves n out s (inr now)
    after_editor-Leaves (out, waits e) s enough now = now
    after_editor-Leaves (out, out_of_fuel) s enough now = absurd (enough refl)

    enabled-Leaves :
        (edited : Trace) (s : S) (r : Bool × S)
        → edited.1 ≢ out_of_fuel
        → d.tcgetattr s ≡ some orig
        → Sets d (raw p orig) s r
        → Leaves (enabled d edited orig r).ending (enabled d edited orig r).tty
    unfolding enabled Sets
    enabled-Leaves edited s (true, s') enough before (inl (done, now)) =
        after_editor-Leaves edited s' enough now
    enabled-Leaves edited s (true, s') enough before (inr (fails, same)) = cc
    enabled-Leaves edited s (false, s') enough before (inl (done, now)) = cc
    enabled-Leaves edited s (false, s') enough before (inr (fails, same)) =
        exit_raw-Leaves 1 died s' (inl (rw same before))

    -- Whatever is typed, and whether or not raw mode could be set, an exit leaves the terminal as
    -- `tcgetattr` first found it, and while the editor waits for input the terminal is in raw
    -- mode; only where putting the attributes back fails is one of the two left, not known which.
    pub kilo-Leaves :
        (alloc : ℕ → Bool) (s : S) (t : Terminal) (reads : List Read)
        → d.tcgetattr s ≡ some orig
        → Leaves (kilo d p alloc s t reads).ending (kilo d p alloc s t reads).tty
    unfolding kilo
    kilo-Leaves alloc s t reads before =
        subst
          (λ o. Leaves (enable_raw_mode d p edited s o).ending (enable_raw_mode d p edited s o).tty)
          (sym before)
          (enabled-Leaves edited s (d.tcsetattr flush (raw p orig) s)
            (program-ne-out_of_fuel alloc t reads) before (l.tcsetattr_lem flush (raw p orig) s))
      where
        edited : Trace
        edited = program alloc t reads

-- The handler's `tcsetattr` succeeds, or `die` clears the screen and exits again.
abbrev Exits : {S : Type 0} → ℕ → List Bytes → KiloRun S → Type 0
Exits n out r =
    (r.written ≡ out) × (r.ending ≡ status n) ⊎ (r.written ≡ out ++ died) × (r.ending ≡ exits_twice)

module _ {S : Type 0} (d : Driver S) where
  after_handler-Exits :
      (n : ℕ) (out : List Bytes) (r : Bool × S) → Exits n out (after_handler d n out r)
  unfolding after_handler
  after_handler-Exits n out (true, s) = inl (refl, refl)
  after_handler-Exits n out (false, s) = inr (refl, refl)

  enabled-Exits :
      (edited : Trace) (orig : Termios) (r : Bool × S)
      → r.0 ≡ false
      → Exits 1 died (enabled d edited orig r)
  unfolding enabled exit_raw
  enabled-Exits edited orig (true, s) fails = cc
  enabled-Exits edited orig (false, s) fails =
      after_handler-Exits 1 died (disable_raw_mode d orig s)

-- Where raw mode cannot be set nothing of the editor is written: the screen is cleared and the
-- status is 1, or the handler fails as well, clears it once more and exits a second time.
pub kilo-no_raw :
    {S : Type 0} (d : Driver S) (p : Platform) (alloc : ℕ → Bool) (s : S) (t : Terminal)
    (reads : List Read) (orig : Termios)
    → d.tcgetattr s ≡ some orig
    → (d.tcsetattr flush (raw p orig) s).0 ≡ false
    → ((kilo d p alloc s t reads).written ≡ died) × ((kilo d p alloc s t reads).ending ≡ status 1)
      ⊎ ((kilo d p alloc s t reads).written ≡ died ++ died)
        × ((kilo d p alloc s t reads).ending ≡ exits_twice)
unfolding kilo
kilo-no_raw d p alloc s t reads orig before fails =
    rw (before, enable_raw_mode)
      (enabled-Exits d (program alloc t reads) orig (d.tcsetattr flush (raw p orig) s) fails)

-- ===== src/FileIo/Console.antt =====
-- The state of a system together with what was printed on the standard output, for the programs of
-- stage0/tlpi/fileio that print.
use stage.Base.{Bool, true, false, Option, none, some, ◌++◌}
use stage.Base.Text.{Bytes}
use stage.FileIo.{Result, ok, exits, M}

abbrev pub Console : Type 0 → Type 0
Console W = W × Bytes

module _ {W : Type 0} where
  unfoldable pub called : {A : Type 0} → Option A × W → Bytes → Result (Console W) A
  called (none, w) out = exits 1 (w, out)
  called (some a, w) out = ok a (w, out)

  -- `if (... == -1) errExit(...)`
  abbrev pub call : {A : Type 0} → (W → Option A × W) → M (Console W) A
  call f = λ s. called (f s.0) s.1

  unfoldable pub done : Bool × W → Bytes → Result (Console W) (Unit {0})
  done (false, w) out = exits 1 (w, out)
  done (true, w) out = ok tt (w, out)

  abbrev pub call_done : (W → Bool × W) → M (Console W) (Unit {0})
  call_done f = λ s. done (f s.0) s.1

  -- A value, or an exit with status 1.
  unfoldable pub require : {A : Type 0} → Option A → M (Console W) A
  require none = λ s. exits 1 s
  require (some a) = λ s. ok a s

  abbrev pub print : Bytes → M (Console W) (Unit {0})
  print text = λ s. ok tt (s.0, s.1 ++ text)

-- ===== src/FileIo/AtomicAppend.antt =====
-- stage0/tlpi/fileio/atomic_append.c: a process that appends zero bytes, as a machine that makes one
-- system call in a step, and two such processes over one system.
pub mod Progress
pub mod Inv
pub mod Runs
pub mod Lost
use stage.Base.{
  ℕ, zero, suc, ◌+◌, ◌==◌, if◌then◌else◌, Bool, true, false, Option, none, some, List, [], ◌∷◌,
}
use stage.Base.Int.{ℤ, pos, ltb_ℤ}
use stage.Base.Text.{Bytes, codes}
use stage.FileIo.{Flags, Kernel, seek_end, bytes_eq}

-- What `strtol` makes of its argument: ERANGE, no digits, or a value.
pub data Number : Type 0 where
  out_of_range : Number
  no_digits : Number
  value : ℤ → Number

-- The variables that the arguments set.
pub record Process : Type 0 where
  pub file : Bytes
  pub number : Number
  pub is_seek : Bool

-- The arguments behind the program's name; `none` where the usage is printed.
module _ (strtol : Bytes → Number) where
  unfoldable pub atomic_args : List Bytes → Option Process
  atomic_args [] = none
  atomic_args (file ∷ []) = none
  atomic_args (file ∷ num ∷ []) =
      some (record { file = file; number = strtol num; is_seek = false })
  atomic_args (file ∷ num ∷ x ∷ []) =
      some (record { file = file; number = strtol num; is_seek = bytes_eq x (codes "x") })
  atomic_args (file ∷ num ∷ x ∷ more ∷ args) = none

-- The call that comes next: `open`, `lseek` or `write` in round `i`, or `close`; or the end.
pub data Pc : Type 0 where
  opening : Pc
  seeking : (fd i : ℕ) → Pc
  writing : (fd i : ℕ) → Pc
  closing : (fd : ℕ) → Pc
  exited : ℕ → Pc

abbrev pub append_flags : Bool → Flags
append_flags is_seek = record {
  create = true;
  trunc = false;
  append = if is_seek then false else true;
}

-- The test of the loop, and the call of round `i`.
unfoldable pub enter_round : Bool → ℤ → ℕ → ℕ → Pc
enter_round is_seek val fd i =
    if ltb_ℤ (pos i) val then (if is_seek then seeking fd i else writing fd i) else closing fd

-- Between `open` and the loop.
unfoldable pub after_open : Process → ℕ → Number → Pc
unfolding enter_round
after_open p fd out_of_range = exited 1
after_open p fd no_digits = exited 1
after_open p fd (value val) = enter_round p.is_seek val fd 0

unfoldable pub next_round : Process → ℕ → ℕ → Number → Pc
unfolding enter_round
next_round p fd i out_of_range = exited 1
next_round p fd i no_digits = exited 1
next_round p fd i (value val) = enter_round p.is_seek val fd (suc i)

unfoldable pub opened_pc : {W : Type 0} → Process → Option ℕ × W → Pc × W
opened_pc p (none, w) = (exited 1, w)
opened_pc p (some fd, w) = (after_open p fd p.number, w)

unfoldable pub sought_pc : {W : Type 0} → ℕ → ℕ → Option ℕ × W → Pc × W
sought_pc fd i (none, w) = (exited 1, w)
sought_pc fd i (some offset, w) = (writing fd i, w)

unfoldable pub wrote_pc : {W : Type 0} → Process → ℕ → ℕ → Option ℕ × W → Pc × W
wrote_pc p fd i (none, w) = (exited 1, w)
wrote_pc p fd i (some written, w) =
    (if written == 1 then next_round p fd i p.number else exited 1, w)

unfoldable pub closed_pc : {W : Type 0} → Bool × W → Pc × W
closed_pc (false, w) = (exited 1, w)
closed_pc (true, w) = (exited 0, w)

module _ {W : Type 0} (k : Kernel W) where
  unfoldable pub step : Process → Pc → W → Pc × W
  unfolding opened_pc sought_pc wrote_pc closed_pc
  step p opening w = opened_pc p (k.sys_open (append_flags p.is_seek) p.file w)
  step p (seeking fd i) w = sought_pc fd i (k.sys_lseek fd (pos 0) seek_end w)
  step p (writing fd i) w = wrote_pc p fd i (k.sys_write fd (0 ∷ []) w)
  step p (closing fd) w = closed_pc (k.sys_close fd w)
  step p (exited n) w = (exited n, w)

  -- Two processes, and whose turn it is at each step.
  unfoldable pub interleave : Process → Process → List Bool → Pc × Pc × W → Pc × Pc × W
  interleave p q [] s = s
  interleave p q (true ∷ turns) (a, b, w) =
      let (a', w') = step p a w in interleave p q turns (a', b, w')
  interleave p q (false ∷ turns) (a, b, w) =
      let (b', w') = step q b w in interleave p q turns (a, b', w')

-- ===== src/FileIo/BadExclusiveOpen.antt =====
-- stage0/tlpi/fileio/bad_exclusive_open.c: a process that checks for a file and then creates it, as a
-- machine that makes one system call in a step, and two such processes over one system. The sleep
-- between the calls only makes room for the steps of the other.
pub mod Claims
pub mod Present
use stage.Base.{ℕ, if◌then◌else◌, Bool, true, false, Option, none, some, List, [], ◌∷◌}
use stage.Base.Text.{Bytes, codes}
use stage.FileIo.{Flags, Kernel, bytes_eq}

-- The file in the arguments behind the program's name; `none` where the usage is printed.
unfoldable pub exclusive_args : List Bytes → Option Bytes
exclusive_args [] = none
exclusive_args (file ∷ args) = if bytes_eq file (codes "--help") then none else some file

-- O_WRONLY, and O_WRONLY | O_CREAT
abbrev pub check_flags : Flags
check_flags = record { create = false; trunc = false; append = false }

abbrev pub create_flags : Flags
create_flags = record { create = true; trunc = false; append = false }

-- The call that comes next, or the end: `found` has said that the file exists, `claimed` that it has
-- created the file exclusively, and `failed` has left by errExit.
pub data Pc : Type 0 where
  checking : Pc
  closing : (fd : ℕ) → Pc
  creating : Pc
  found : Pc
  claimed : Pc
  failed : Pc

module _ {W : Type 0} (k : Kernel W) where
  unfoldable pub checked_pc : Option ℕ × W → Pc × W
  checked_pc (some fd, w) = (closing fd, w)
  checked_pc (none, w) = (if k.is_enoent w then creating else failed, w)

  unfoldable pub created_pc : Option ℕ × W → Pc × W
  created_pc (some fd, w) = (claimed, w)
  created_pc (none, w) = (failed, w)

  -- A step of a process for a file; the result of `close` is not looked at.
  unfoldable pub step : Bytes → Pc → W → Pc × W
  step file checking w = checked_pc (k.sys_open check_flags file w)
  step file (closing fd) w = let (done, w') = k.sys_close fd w in (found, w')
  step file creating w = created_pc (k.sys_open create_flags file w)
  step file found w = (found, w)
  step file claimed w = (claimed, w)
  step file failed w = (failed, w)

  -- Two processes for one file, and whose turn it is at each step.
  unfoldable pub interleave : Bytes → List Bool → Pc × Pc × W → Pc × Pc × W
  interleave file [] s = s
  interleave file (true ∷ turns) (a, b, w) =
      let (a', w') = step file a w in interleave file turns (a', b, w')
  interleave file (false ∷ turns) (a, b, w) =
      let (b', w') = step file b w in interleave file turns (a, b', w')

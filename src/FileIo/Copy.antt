-- ===== src/FileIo/Copy.antt =====
-- stage0/tlpi/fileio/copy.c
pub mod Transfer
pub mod Files
use stage.Base.{ℕ, zero, suc, ◌+◌, ◌==◌, if◌then◌else◌, Bool, true, false, List, [], ◌∷◌, length}
use stage.Base.Text.{Bytes, codes}
use stage.FileIo.{
  Flags, Kernel, M, out_of_fuel, exit, pure, ◌>>=◌, ◌>>◌, or_exit, or_exit_if_not, bytes_eq,
}

-- BUF_SIZE
abbrev pub buf_size : ℕ
buf_size = 1024

-- O_RDONLY, and `openFlags`
abbrev pub read_flags : Flags
read_flags = record { create = false; trunc = false; append = false }

abbrev pub open_flags : Flags
open_flags = record { create = true; trunc = true; append = false }

module _ {W : Type 0} (k : Kernel W) where
  -- The body of the loop behind `write`.
  unfoldable pub go_on : M W (Unit {0}) → ℕ → ℕ → M W (Unit {0})
  go_on rest num_read written = if written == num_read then rest else exit 1

  -- The body of the loop behind `read`.
  unfoldable pub body : M W (Unit {0}) → ℕ → Bytes → M W (Unit {0})
  body rest output [] = pure tt
  body rest output (c ∷ s) =
      (λ w. or_exit (k.sys_write output (c ∷ s) w)) >>= go_on rest (length (c ∷ s))

  -- The transfer loop.
  unfoldable pub transfer : ℕ → ℕ → ℕ → M W (Unit {0})
  transfer zero input output = λ w. out_of_fuel
  transfer (suc fuel) input output =
      let rest = transfer fuel input output in
      (λ w. or_exit (k.sys_read input buf_size w)) >>= body rest output

  -- `main` behind the loop.
  unfoldable pub finish : ℕ → ℕ → M W ℕ
  finish input output = do
    (λ w. or_exit_if_not (k.sys_close input w))
    (λ w. or_exit_if_not (k.sys_close output w))
    exit 0

  -- `main` behind the test of its arguments.
  unfoldable pub copy_files : ℕ → Bytes → Bytes → M W ℕ
  copy_files fuel old_file new_file = do
    input ← (λ w. or_exit (k.sys_open read_flags old_file w))
    output ← (λ w. or_exit (k.sys_open open_flags new_file w))
    transfer fuel input output
    finish input output

  -- `main` on the arguments behind the program's name.
  unfoldable pub copy : ℕ → List Bytes → M W ℕ
  copy fuel [] = exit 1
  copy fuel (old_file ∷ []) = exit 1
  copy fuel (old_file ∷ new_file ∷ []) =
      if bytes_eq old_file (codes "--help") then exit 1 else copy_files fuel old_file new_file
  copy fuel (old_file ∷ new_file ∷ more ∷ args) = exit 1

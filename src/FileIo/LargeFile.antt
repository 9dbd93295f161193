-- ===== src/FileIo/LargeFile.antt =====
-- stage0/tlpi/fileio/large_file.c and large_file2.c: write four bytes at an offset of a file.
pub mod Runs
use stage.Base.{
  ℕ, ◌+◌, ◌-◌, ◌%◌, ◌^◌, ltb, suc, if◌then◌else◌, Bool, true, false, Option, none, some, List, [],
  ◌∷◌,
}
use stage.Base.Int.{ℤ, pos, negsuc}
use stage.Base.Text.{Bytes, codes}
use stage.FileIo.{Flags, Kernel, seek_set, M, exit, ◌>>=◌, ◌>>◌, or_exit, bytes_eq}

-- O_RDWR | O_CREAT
abbrev pub large_flags : Flags
large_flags = record { create = true; trunc = false; append = false }

-- A number modulo 2 ^ bits, and as a signed number of that many bits.
unfoldable pub residue : ℕ → ℤ → ℕ
residue bits (pos n) = n % 2 ^ bits
residue bits (negsuc n) = 2 ^ bits - suc (n % 2 ^ bits)

unfoldable pub to_signed : ℕ → ℤ → ℤ
unfolding residue
to_signed bits n =
    if ltb (residue bits n) (2 ^ (bits - 1))
    then pos (residue bits n)
    else negsuc (2 ^ bits - suc (residue bits n))

module _ (atoll : Bytes → ℤ) {W : Type 0} (k : Kernel W) where
  -- `main` behind the test of its arguments: `lseek` to an offset, and `write`, without a `close`.
  unfoldable pub write_test : Bytes → ℤ → M W ℕ
  write_test file off = do
    fd ← (λ w. or_exit (k.sys_open large_flags file w))
    _ ← (λ w. or_exit (k.sys_lseek fd off seek_set w))
    _ ← (λ w. or_exit (k.sys_write fd (codes "test") w))
    exit 0

  -- With `open64`, `lseek64` and an offset of the type `off64_t`, which is as wide as `long long`.
  unfoldable pub large_file : List Bytes → M W ℕ
  large_file [] = exit 1
  large_file (file ∷ []) = exit 1
  large_file (file ∷ offset ∷ []) =
      if bytes_eq file (codes "--help") then exit 1 else write_test file (atoll offset)
  large_file (file ∷ offset ∷ more ∷ args) = exit 1

  -- With an offset of the type `off_t`, which has as many bits as the system says.
  unfoldable pub large_file2 : ℕ → List Bytes → M W ℕ
  large_file2 off_bits [] = exit 1
  large_file2 off_bits (file ∷ []) = exit 1
  large_file2 off_bits (file ∷ offset ∷ []) =
      if bytes_eq file (codes "--help")
      then exit 1
      else write_test file (to_signed off_bits (atoll offset))
  large_file2 off_bits (file ∷ offset ∷ more ∷ args) = exit 1

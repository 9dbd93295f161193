-- ===== src/FileIo/Tee.antt =====
-- stage0/tlpi/fileio/tee.c: `tee [-a] file`, which copies a byte at a time.
pub mod Round
pub mod Loop
pub mod Files
use stage.Base.{
  ℕ, zero, suc, ◌&&◌, ◌||◌, not, if◌then◌else◌, Bool, true, false, Option, none, some, List, [],
  ◌∷◌,
}
use stage.Base.Text.{Bytes, codes}
use stage.FileIo.{
  Flags, Kernel, M, out_of_fuel, exit, pure, ◌>>=◌, ◌>>◌, or_exit, or_exit_if_not, bytes_eq,
}

-- The flags besides O_RDWR.
abbrev pub tee_flags : Bool → Flags
tee_flags append = record { create = true; trunc = false; append = append }

-- Whether -a is given, and the file, from the arguments behind the program's name; `none` where
-- the usage is printed. A file that is named -a, and nothing else, is appended to.
unfoldable pub tee_args : List Bytes → Option (Bool × Bytes)
tee_args [] = none
tee_args (file ∷ []) =
    if bytes_eq file (codes "--help") then none else some (bytes_eq file (codes "-a"), file)
tee_args (option ∷ file ∷ []) =
    if not (bytes_eq option (codes "-a")) || bytes_eq option (codes "--help")
    then none
    else some (bytes_eq option (codes "-a"), file)
tee_args (option ∷ file ∷ more ∷ args) = none

module _ {W : Type 0} (k : Kernel W) where
  -- The body of the loop behind `read`; a count of bytes that is not -1 passes.
  unfoldable pub tee_body : M W (Unit {0}) → ℕ → Bytes → M W (Unit {0})
  tee_body rest fd [] = pure tt
  tee_body rest fd (c ∷ s) = (λ w. or_exit (k.sys_write 1 (c ∷ []) w)) >>= λ _.
      (λ w. or_exit (k.sys_write fd (c ∷ []) w)) >>= λ _. rest

  unfoldable pub tee_loop : ℕ → ℕ → M W (Unit {0})
  tee_loop zero fd = λ w. out_of_fuel
  tee_loop (suc fuel) fd =
      let rest = tee_loop fuel fd in (λ w. or_exit (k.sys_read 0 1 w)) >>= tee_body rest fd

  -- `main` behind the loop.
  unfoldable pub tee_close : ℕ → M W ℕ
  tee_close fd = (λ w. or_exit_if_not (k.sys_close fd w)) >>= λ _. exit 0

  -- `main` behind the test of its arguments.
  unfoldable pub tee_file : ℕ → Bool → Bytes → M W ℕ
  tee_file fuel append file = do
    fd ← (λ w. or_exit (k.sys_open (tee_flags append) file w))
    tee_loop fuel fd
    tee_close fd

  unfoldable pub tee : ℕ → List Bytes → M W ℕ
  tee fuel args = elim (tee_args args) [
    | none ↦ exit 1
    | some (append, file) ↦ tee_file fuel append file
  ]

-- ===== src/FileIo/Append.antt =====
-- stage0/tlpi/fileio/append.c: appends its arguments to a file, opened with O_APPEND.
pub mod Runs
use stage.Base.{ℕ, if◌then◌else◌, Bool, true, false, Option, none, some, List, [], ◌∷◌, ◌++◌, drop}
use stage.Base.Int.{ℤ, pos, negsuc}
use stage.Base.Text.{Bytes, codes, print_int}
use stage.FileIo.{Flags, Kernel, Result, exits, ok, seek_set, M, exit, pure, ◌>>=◌, ◌>>◌, bytes_eq}
use stage.FileIo.Console.{Console, call, call_done, print}

-- O_WRONLY | O_APPEND
abbrev pub append_flags : Flags
append_flags = record { create = false; trunc = false; append = true }

-- What the calls of `getopt` with the options "h" leave: whether one of them was -h, the arguments
-- behind the program's name, which it may reorder, and `optind`.
pub record Options : Type 0 where
  pub help : Bool
  pub args : List Bytes
  pub optind : ℕ

unfoldable pub report_written : ℤ → Bytes
report_written n = print_int n ++ codes " bytes written\n"

unfoldable pub usage : Bytes → Bytes
usage name = codes "Usage: " ++ name ++ codes " filename [stuff to be written]\n"

-- `usageError`
unfoldable pub usage_error : {W A : Type 0} → Bytes → M (Console W) A
usage_error name = print (usage name) >>= λ _. exit 1

module _ {W : Type 0} (k : Kernel W) (fd : ℕ) where
  -- The result of `write` is printed before it is tested.
  unfoldable pub written : Option ℕ × W → Bytes → Result (Console W) (Unit {0})
  written (none, w) out = exits 1 (w, out ++ report_written (negsuc 0))
  written (some n, w) out = ok tt (w, out ++ report_written (pos n))

  -- The loop over the arguments behind the file.
  unfoldable pub write_all : List Bytes → M (Console W) (Unit {0})
  write_all [] = pure tt
  write_all (text ∷ texts) = (λ s. written (k.sys_write fd text s.0) s.1) >>= λ _. write_all texts

module _ (getopt : List Bytes → Options) {W : Type 0} (k : Kernel W) where
  -- `main` behind the options.
  unfoldable pub append_file : Bytes → List Bytes → M (Console W) ℕ
  append_file file texts = do
    fd ← call (k.sys_open append_flags file)
    _ ← call (k.sys_lseek fd (pos 0) seek_set)
    write_all k fd texts
    call_done (k.sys_close fd)
    exit 0

  -- The file is the first argument as `getopt` has left them.
  unfoldable pub append_opened : Bytes → Options → M (Console W) ℕ
  append_opened name o = elim o.args [
    | [] ↦ usage_error name
    | file ∷ args ↦
        if o.help then usage_error name else append_file file (drop o.optind (file ∷ args))
  ]

  unfoldable pub append : Bytes → List Bytes → M (Console W) ℕ
  append name [] = usage_error name
  append name (arg ∷ args) =
      if bytes_eq arg (codes "--help")
      then usage_error name
      else append_opened name (getopt (arg ∷ args))

-- ===== src/FileIo/SeekIo.antt =====
-- stage0/tlpi/fileio/seek_io.c: reads, writes and seeks in a file by the commands of the arguments.
pub mod Session
pub mod Commands
pub mod Runs
use stage.Base.{
  ℕ, zero, suc, ◌+◌, ◌-◌, ◌/◌, ◌%◌, ◌^◌, ◌==◌, ltb, ◌||◌, if◌then◌else◌, Bool, true, false, Option,
  none, some, List, [], ◌∷◌, ◌++◌,
}
use stage.Base.Int.{ℤ, pos, negsuc}
use stage.Base.Text.{Bytes, codes, print_nat}
use stage.FileIo.{Flags, Kernel, seek_set, M, exit, pure, ◌>>=◌, ◌>>◌, bytes_eq}
use stage.FileIo.Console.{Console, call, call_done, require, print}

-- O_RDWR | O_CREAT
abbrev pub seek_flags : Flags
seek_flags = record { create = true; trunc = false; append = false }

-- A `long` as a `size_t`.
unfoldable pub to_size : ℤ → ℕ
to_size (pos n) = n % 2 ^ 64
to_size (negsuc n) = 2 ^ 64 - suc n % 2 ^ 64

unfoldable pub hex_digit : ℕ → ℕ
hex_digit n = if ltb n 10 then 48 + n else 87 + n

-- `%02x ` of a byte
unfoldable pub hex_byte : ℕ → Bytes
unfolding hex_digit
hex_byte c = hex_digit (c / 16) ∷ hex_digit (c % 16) ∷ b' ' ∷ []

unfoldable pub report_write : Bytes → ℕ → Bytes
report_write arg written = arg ++ codes ": wrote " ++ print_nat written ++ codes " bytes\n"

unfoldable pub report_seek : Bytes → Bytes
report_seek arg = arg ++ codes ": seek succeeded\n"

module _ (isprint : ℕ → Bool) where
  -- `%c` of a byte, or of a question mark
  unfoldable pub text_byte : ℕ → Bytes
  text_byte c = (if isprint c then c else b'?') ∷ []

  -- The loop over the bytes that were read.
  unfoldable pub print_bytes : Bool → Bytes → Bytes
  print_bytes as_text [] = []
  print_bytes as_text (c ∷ s) =
      (if as_text then text_byte c else hex_byte c) ++ print_bytes as_text s

  -- What is printed behind a `read`.
  unfoldable pub report_read : Bytes → Bool → Bytes → Bytes
  report_read arg as_text [] = arg ++ codes ": end-of-file\n"
  report_read arg as_text (c ∷ s) = arg ++ codes ": " ++ print_bytes as_text (c ∷ s) ++ codes "\n"

-- `main` behind the loop.
unfoldable pub seek_close : {W : Type 0} → Kernel W → ℕ → M (Console W) ℕ
seek_close k fd = call_done (k.sys_close fd) >>= λ _. exit 0

-- What the system's library does: `getLong`, which may end the program, whether `malloc` gives a
-- block of a size, and `isprint`.
module _ (get_long : Bytes → Option ℤ) (malloc : ℕ → Bool) (isprint : ℕ → Bool) where
  module _ {W : Type 0} (k : Kernel W) (fd : ℕ) where
    unfoldable pub read_command : Bytes → Bool → Bytes → M (Console W) (Unit {0})
    read_command arg as_text length_text = require (get_long length_text) >>= λ len.
        (if malloc (to_size len)
          then (call (k.sys_read fd (to_size len)) >>= λ buf.
              print (report_read isprint arg as_text buf))
          else exit 1)

    unfoldable pub write_command : Bytes → Bytes → M (Console W) (Unit {0})
    write_command arg text =
        call (k.sys_write fd text) >>= λ num_written. print (report_write arg num_written)

    unfoldable pub seek_command : Bytes → Bytes → M (Console W) (Unit {0})
    seek_command arg offset_text = require (get_long offset_text) >>= λ offset.
        call (k.sys_lseek fd offset seek_set) >>= λ _. print (report_seek arg)

    -- The body of the loop; an argument of no bytes begins with the byte 0.
    unfoldable pub command : Bytes → M (Console W) (Unit {0})
    command [] = exit 1
    command (c ∷ rest) =
        if c == b'r' || c == b'R'
        then read_command (c ∷ rest) (c == b'r') rest
        else if c == b'w'
        then write_command (c ∷ rest) rest
        else if c == b's'
        then seek_command (c ∷ rest) rest
        else exit 1

    unfoldable pub commands : List Bytes → M (Console W) (Unit {0})
    commands [] = pure tt
    commands (arg ∷ args) = command arg >>= λ _. commands args

  module _ {W : Type 0} (k : Kernel W) where
    -- `main` behind the test of its arguments.
    unfoldable pub seek_file : Bytes → List Bytes → M (Console W) ℕ
    seek_file file args =
        call (k.sys_open seek_flags file) >>= λ fd. commands k fd args >>= λ _. seek_close k fd

    unfoldable pub seek_io : List Bytes → M (Console W) ℕ
    seek_io [] = exit 1
    seek_io (file ∷ []) = exit 1
    seek_io (file ∷ arg ∷ args) =
        if bytes_eq file (codes "--help") then exit 1 else seek_file file (arg ∷ args)

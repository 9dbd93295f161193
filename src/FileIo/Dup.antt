-- ===== src/FileIo/Dup.antt =====
-- stage0/tlpi/fileio/dup.c and verify_dup.c: descriptors that share what they refer to. The calls that
-- make such descriptors have an interface of their own, `Duplicates`, beside the calls of `Kernel`.
pub mod Spec
pub mod Entries
pub mod MyDup
pub mod Verify
pub mod Table
use stage.Base.{
  ℕ, zero, suc, ◌+◌, ◌/◌, ◌%◌, ◌==◌, ◌≡◌, ◌≤◌, ◌<◌, ltb, not, if◌then◌else◌, Bool, true, false,
  Option, none, some, List, [], ◌∷◌, ◌++◌, length,
}
use stage.Base.Int.{ℤ, pos}
use stage.Base.Text.{Bytes, codes, print_nat}
use stage.FileIo.{Flags, Kernel, Result, ok, exits, seek_cur, M, exit, pure, ◌>>=◌, ◌>>◌}
use stage.FileIo.Console.{Console, call, call_done, print}

-- fcntl with F_GETFL and with F_DUPFD, dup, and an assignment of EBADF to `errno`.
pub record Duplicates (W : Type 0) : Type 0 where
  pub kernel : Kernel W
  pub f_getfl : ℕ → W → Option ℕ × W
  pub f_dupfd : ℕ → ℕ → W → Option ℕ × W
  pub sys_dup : ℕ → W → Option ℕ × W
  pub set_ebadf : W → W

-- O_RDWR | O_APPEND, and O_RDWR | O_CREAT
abbrev pub tfile_flags : Flags
tfile_flags = record { create = false; trunc = false; append = true }

abbrev pub verify_flags : Flags
verify_flags = record { create = true; trunc = false; append = false }

-- `%x`, with a bound on the number of digits.
unfoldable pub hex_onto : ℕ → ℕ → Bytes → Bytes
hex_onto zero n acc = acc
hex_onto (suc f) n acc =
    let digit = n % 16 in
    let byte = if ltb digit 10 then 48 + digit else 87 + digit in
    let more = hex_onto f (n / 16) (byte ∷ acc) in if ltb n 16 then byte ∷ acc else more

unfoldable pub print_hex : ℕ → Bytes
unfolding hex_onto
print_hex n = hex_onto (suc n) n []

module _ {W : Type 0} (k : Duplicates W) where
  unfoldable pub my_dup : ℕ → W → Option ℕ × W
  my_dup oldfd w = k.f_dupfd oldfd oldfd w

  -- The branch of two equal descriptors, behind F_GETFL.
  unfoldable pub same_fd : ℕ → Option ℕ × W → Option ℕ × W
  same_fd newfd (none, w) = (none, k.set_ebadf w)
  same_fd newfd (some flags, w) = (some newfd, w)

  abbrev pub closing_line : ℕ → Bytes
  closing_line newfd = codes "closing exising fd: " ++ print_nat newfd ++ codes "\n"

  -- A descriptor that F_GETFL has found open is closed, whatever `close` returns.
  unfoldable pub make_room : ℕ → Option ℕ × W → Bytes → Console W
  make_room newfd (none, w) out = (w, out)
  make_room newfd (some flags, w) out =
      let (done, w') = k.kernel.sys_close newfd w in (w', out ++ closing_line newfd)

  unfoldable pub other_fd : ℕ → ℕ → Console W → Option ℕ × Console W
  other_fd oldfd newfd (w, out) = let (fd, w') = k.f_dupfd oldfd newfd w in (fd, (w', out))

  unfoldable pub my_dup2 : ℕ → ℕ → Console W → Option ℕ × Console W
  my_dup2 oldfd newfd (w, out) =
      if oldfd == newfd
      then (let (fd, w') = same_fd newfd (k.f_getfl oldfd w) in (fd, (w', out)))
      else other_fd oldfd newfd (make_room newfd (k.f_getfl newfd w) out)

  -- A result of `my_dup2`, and exit where it is -1.
  unfoldable pub duplicated : Option ℕ × Console W → Result (Console W) ℕ
  duplicated (none, s) = exits 1 s
  duplicated (some fd, s) = ok fd s

  -- `main` of dup.c, behind `my_dup2`.
  unfoldable pub dup_close : ℕ → ℕ → M (Console W) ℕ
  dup_close fd newfd = call_done (k.kernel.sys_close fd) >>= λ _.
      (if fd == newfd then pure tt else call_done (k.kernel.sys_close newfd)) >>= λ _. exit 0

  -- `main` of dup.c.
  unfoldable pub dup_main : M (Console W) ℕ
  dup_main = call (k.kernel.sys_open tfile_flags (codes "tfile")) >>= λ fd.
      (λ s. duplicated (my_dup2 fd 10 s)) >>= λ newfd.
      print (codes "oldfd: " ++ print_nat fd ++ codes ", newfd: " ++ print_nat newfd ++ codes "\n")
      >>= λ _. call (k.kernel.sys_write newfd (codes "the text")) >>= λ _. dup_close fd newfd

  -- `main` of verify_dup.c behind `dup`: the offsets and the flags are compared and printed; the
  -- flags are asked of the first descriptor twice.
  unfoldable pub verify_flags_of : ℕ → M (Console W) (Unit {0})
  verify_flags_of fd = call (k.f_getfl fd) >>= λ flags. call (k.f_getfl fd) >>= λ new_flags.
      print (codes "access mode: " ++ print_hex (flags % 4) ++ codes "\n") >>= λ _.
      print (codes "flags: " ++ print_hex flags ++ codes "\n") >>= λ _.
      (if flags == new_flags
        then pure tt
        else print
            (codes "file status flags of duplicated file descriptor differs from the original.\n"))

  unfoldable pub verify_offsets : ℕ → ℕ → M (Console W) (Unit {0})
  verify_offsets fd newfd = call (k.kernel.sys_lseek fd (pos 0) seek_cur) >>= λ offset.
      call (k.kernel.sys_lseek newfd (pos 0) seek_cur) >>= λ new_offset.
      print (codes "offest: " ++ print_nat offset ++ codes "\n") >>= λ _.
      (if offset == new_offset
        then pure tt
        else print (codes "file offset of duplicated file descriptor differs from the original.\n"))

  unfoldable pub verify_close : ℕ → ℕ → M (Console W) ℕ
  verify_close fd newfd = do
    call_done (k.kernel.sys_close fd)
    call_done (k.kernel.sys_close newfd)
    exit 0

  unfoldable pub verify_dup : M (Console W) ℕ
  verify_dup = call (k.kernel.sys_open verify_flags (codes "tfile")) >>= λ fd.
      call (k.sys_dup fd) >>= λ newfd.
      call (k.kernel.sys_write fd (codes "test input")) >>= λ num_written.
      (if num_written == 10
        then (verify_offsets fd newfd >>= λ _. verify_flags_of fd >>= λ _. verify_close fd newfd)
        else exit 1)

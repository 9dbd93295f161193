-- ===== src/FileIo/Cp.antt =====
-- stage0/tlpi/fileio/cp.c: `cp`, which leaves holes where the source has zeros.
pub mod Holes
pub mod State
pub mod Byte
pub mod Loop
pub mod Files
use stage.Base.{ℕ, zero, suc, ◌==◌, if◌then◌else◌, Bool, true, false, List, [], ◌∷◌}
use stage.Base.Int.{ℤ, pos, ◌-ℤ◌}
use stage.Base.Text.{Bytes, codes}
use stage.FileIo.{
  Flags, Kernel, seek_set, seek_cur, M, out_of_fuel, exit, pure, ◌>>=◌, ◌>>◌, or_exit,
  or_exit_if_not, bytes_eq,
}

-- O_RDONLY, and O_RDWR | O_CREAT
abbrev pub src_flags : Flags
src_flags = record { create = false; trunc = false; append = false }

abbrev pub dst_flags : Flags
dst_flags = record { create = true; trunc = false; append = false }

module _ {W : Type 0} (k : Kernel W) (src_fd dst_fd : ℕ) where
  -- The `write` of a round, and the next round.
  unfoldable pub put_byte : M W (Unit {0}) → ℕ → M W (Unit {0})
  put_byte rest c = (λ w. or_exit (k.sys_write dst_fd (c ∷ []) w)) >>= λ num_written.
      if num_written == 1 then rest else exit 1

  -- The two offsets are compared, and the target moves; `still` and `left` are the rest of the loop
  -- with `inHole` true and false.
  unfoldable pub leave_hole : M W (Unit {0}) → M W (Unit {0}) → ℕ → M W (Unit {0})
  unfolding put_byte
  leave_hole still left c = (λ w. or_exit (k.sys_lseek src_fd (pos 0) seek_cur w)) >>= λ curr_src.
      (λ w. or_exit (k.sys_lseek dst_fd (pos 0) seek_cur w)) >>= λ curr_dst.
      if curr_src == curr_dst
      then put_byte still c
      else ((λ w. or_exit (k.sys_lseek dst_fd (pos curr_src -ℤ pos 1) seek_set w)) >>= λ _.
          put_byte left c)

  -- The body of the loop behind `read`.
  unfoldable pub cp_body : M W (Unit {0}) → M W (Unit {0}) → Bool → Bytes → M W (Unit {0})
  cp_body still left in_hole [] = pure tt
  cp_body still left in_hole (c ∷ s) =
      if c == 0 then still else if in_hole then leave_hole still left c else put_byte left c

  -- The loop, with `inHole`.
  unfoldable pub cp_loop : ℕ → Bool → M W (Unit {0})
  cp_loop zero in_hole = λ w. out_of_fuel
  cp_loop (suc fuel) in_hole =
      let still = cp_loop fuel true in
      let left = cp_loop fuel false in
      (λ w. or_exit (k.sys_read src_fd 1 w)) >>= cp_body still left in_hole

  -- `main` behind the loop.
  unfoldable pub cp_close : M W ℕ
  cp_close = do
    (λ w. or_exit_if_not (k.sys_close src_fd w))
    (λ w. or_exit_if_not (k.sys_close dst_fd w))
    exit 0

module _ {W : Type 0} (k : Kernel W) where
  -- `main` behind the test of its arguments.
  unfoldable pub cp_files : ℕ → Bytes → Bytes → M W ℕ
  cp_files fuel source_file dest_file = do
    src_fd ← (λ w. or_exit (k.sys_open src_flags source_file w))
    dst_fd ← (λ w. or_exit (k.sys_open dst_flags dest_file w))
    cp_loop k src_fd dst_fd fuel false
    cp_close k src_fd dst_fd

  unfoldable pub cp : ℕ → List Bytes → M W ℕ
  cp fuel [] = exit 1
  cp fuel (source_file ∷ []) = exit 1
  cp fuel (source_file ∷ dest_file ∷ []) =
      if bytes_eq source_file (codes "--help") then exit 1 else cp_files fuel source_file dest_file
  cp fuel (source_file ∷ dest_file ∷ more ∷ args) = exit 1

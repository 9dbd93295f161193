-- ===== src/FileIo.antt =====
-- The system calls that the programs of stage0/tlpi/fileio use, as an interface: `Kernel` has the
-- calls, `Documented` what their manual pages say of the files and the open descriptors. A
-- program is a function on the state of the system; errExit, fatal and usageErr end it with
-- status 1. A descriptor is only used as the access mode of its `open` allows, so that mode is not
-- part of the model.
pub mod Steps
pub mod Calls
pub mod Copy
pub mod Tee
pub mod Cp
pub mod AtomicAppend
pub mod BadExclusiveOpen
pub mod Console
pub mod SeekIo
pub mod Readv
pub mod Dup
pub mod Append
pub mod LargeFile
pub mod System
mod Tests
use stage.Base.{
  ℕ, zero, suc, ◌+◌, ◌==◌, ◌≡◌, ◌≤◌, ◌⊎◌, ◌&&◌, ◌||◌, if◌then◌else◌, Bool, true, false, Option,
  none, some, List, [], ◌∷◌, ◌++◌, length, drop,
}
use stage.Base.Int.{ℤ, pos, negsuc, ◌+ℤ◌}
use stage.Base.Text.{Bytes}
unfoldable pub use stage.Base.Text.Equal.{bytes_eq}

-- The flags O_CREAT, O_TRUNC and O_APPEND.
pub record Flags : Type 0 where
  pub create : Bool
  pub trunc : Bool
  pub append : Bool

-- An open descriptor: the name of the file, the offset, and O_APPEND.
pub record Desc : Type 0 where
  pub path : Bytes
  pub offset : ℕ
  pub append : Bool

-- SEEK_SET, SEEK_CUR and SEEK_END
pub data Whence : Type 0 where
  seek_set : Whence
  seek_cur : Whence
  seek_end : Whence

-- The calls on a state; `none` and `false` are the result -1. `is_enoent` tells whether `errno` is
-- ENOENT after an `open` that has failed.
pub record Kernel (W : Type 0) : Type 0 where
  pub sys_open : Flags → Bytes → W → Option ℕ × W
  pub sys_read : ℕ → ℕ → W → Option Bytes × W
  pub sys_write : ℕ → Bytes → W → Option ℕ × W
  pub sys_close : ℕ → W → Bool × W
  pub sys_lseek : ℕ → ℤ → Whence → W → Option ℕ × W
  pub is_enoent : W → Bool

-- How a program ends: it goes on with a value, or exits with a status.
pub data Result (W A : Type 0) : Type 0 where
  ok : A → W → Result W A
  exits : ℕ → W → Result W A
  out_of_fuel : Result W A

abbrev pub M : Type 0 → Type 0 → Type 0
M W A = W → Result W A

module _ {W : Type 0} where
  abbrev pub exit : {A : Type 0} → ℕ → M W A
  exit = exits

  abbrev pub pure : {A : Type 0} → A → M W A
  pure = ok

  unfoldable pub and_then : {A B : Type 0} → Result W A → (A → M W B) → Result W B
  and_then (ok a w) k = k a w
  and_then (exits n w) k = exits n w
  and_then out_of_fuel k = out_of_fuel

  infixl 5 ◌>>=◌ ◌>>◌
  abbrev pub ◌>>=◌ : {A B : Type 0} → M W A → (A → M W B) → M W B
  m >>= k = λ w. and_then (m w) k

  abbrev pub ◌>>◌ : {A B : Type 0} → M W A → M W B → M W B
  m >> n = m >>= λ _. n

  -- `if (... == -1) errExit(...)`
  unfoldable pub or_exit : {A : Type 0} → Option A × W → Result W A
  or_exit (none, w) = exits 1 w
  or_exit (some a, w) = ok a w

  unfoldable pub or_exit_if_not : Bool × W → Result W (Unit {0})
  or_exit_if_not (false, w) = exits 1 w
  or_exit_if_not (true, w) = ok tt w

-- The files by name, with one replaced; the descriptors, with one replaced.
unfoldable pub store : (Bytes → Option Bytes) → Bytes → Bytes → Bytes → Option Bytes
store files path content p = if bytes_eq path p then some content else files p

unfoldable pub assign : (ℕ → Option Desc) → ℕ → Desc → ℕ → Option Desc
assign descs fd d x = if fd == x then some d else descs x

-- The content after `open`.
unfoldable pub opened : Flags → Option Bytes → Bytes
opened f none = []
opened f (some c) = if f.trunc then [] else c

-- A content with `s` written at an offset; what lies between its end and the offset reads as zeros.
unfoldable pub overwrite : Bytes → ℕ → Bytes → Bytes
overwrite c zero s = s ++ drop (length s) c
overwrite [] (suc n) s = 0 ∷ overwrite [] n s
overwrite (x ∷ c) (suc n) s = x ∷ overwrite c n s

-- Where `write` starts.
unfoldable pub write_offset : Desc → Bytes → ℕ
write_offset d c = if d.append then length c else d.offset

-- Where `lseek` goes.
unfoldable pub seek_target : Desc → Bytes → ℤ → Whence → ℤ
seek_target d c offset seek_set = offset
seek_target d c offset seek_cur = pos d.offset +ℤ offset
seek_target d c offset seek_end = pos (length c) +ℤ offset

module _ {W : Type 0} (MayFail : Type 0) where
  -- A call has failed only if calls may fail; otherwise `P` holds of its result.
  abbrev pub Returns : {A : Type 0} → (A → W → Type 0) → Option A × W → Type 0
  Returns P (none, w) = MayFail
  Returns P (some a, w) = P a w

  abbrev pub Succeeds : (W → Type 0) → Bool × W → Type 0
  Succeeds P (false, w) = MayFail
  Succeeds P (true, w) = P w

-- What the manual pages say: `file` and `desc` show the files and the open descriptors of a state.
pub record Documented {W : Type 0} (k : Kernel W) (MayFail : Type 0) : Type 0 where
  pub file : W → Bytes → Option Bytes
  pub desc : W → ℕ → Option Desc
  -- A file that is there, or that may be made, is opened on a descriptor that was free.
  pub open_lem :
      (f : Flags) (p : Bytes) (w : W)
      → ((c : Bytes) × (file w p ≡ some c)) ⊎ (f.create ≡ true)
      → Returns MayFail
          (λ fd w'.
            (desc w fd ≡ none)
            × ((q : Bytes) → file w' q ≡ store (file w) p (opened f (file w p)) q)
            × ((x : ℕ)
                → desc w' x
                  ≡ assign (desc w) fd (record { path = p; offset = 0; append = f.append }) x))
          (k.sys_open f p w)
  -- Without O_CREAT there is no descriptor for a file that is not there.
  pub open_missing :
      (f : Flags) (p : Bytes) (w : W)
      → file w p ≡ none
      → f.create ≡ false
      → ((k.sys_open f p w).0 ≡ none)
        × ((q : Bytes) → file (k.sys_open f p w).1 q ≡ file w q)
        × ((x : ℕ) → desc (k.sys_open f p w).1 x ≡ desc w x)
        × (k.is_enoent (k.sys_open f p w).1 ≡ true)
  -- `read` gives a part of the bytes behind the offset, and none only where there are none.
  pub read_lem :
      (fd n : ℕ) (d : Desc) (c : Bytes) (w : W)
      → desc w fd ≡ some d
      → file w d.path ≡ some c
      → Returns MayFail
          (λ s w'.
            ((u : Bytes) × (drop d.offset c ≡ s ++ u))
            × (length s ≤ suc n)
            × (s ≡ [] → drop d.offset c ≡ [])
            × ((q : Bytes) → file w' q ≡ file w q)
            × ((x : ℕ)
                → desc w' x ≡ assign (desc w) fd (record d { offset = d.offset + length s }) x))
          (k.sys_read fd (suc n) w)
  -- `write` of at least a byte puts a part of the bytes at the offset, or at the end with
  -- O_APPEND; the part is the whole, or calls may fail.
  pub write_lem :
      (fd b : ℕ) (d : Desc) (c s : Bytes) (w : W)
      → desc w fd ≡ some d
      → file w d.path ≡ some c
      → Returns MayFail
          (λ n w'.
            (n ≤ length (b ∷ s))
            × ((n ≡ length (b ∷ s)) ⊎ MayFail)
            × (n ≡ length (b ∷ s)
                → ((q : Bytes)
                    → file w' q ≡ store (file w) d.path (overwrite c (write_offset d c) (b ∷ s)) q)
                  × ((x : ℕ)
                      → desc w' x
                        ≡ assign (desc w) fd (record d { offset = write_offset d c + n }) x)))
          (k.sys_write fd (b ∷ s) w)
  -- `write` of no bytes has no effect on a file.
  pub write_none :
      (fd : ℕ) (d : Desc) (w : W)
      → desc w fd ≡ some d
      → Returns MayFail
          (λ n w'.
            (n ≡ 0) × ((q : Bytes) → file w' q ≡ file w q) × ((x : ℕ) → desc w' x ≡ desc w x))
          (k.sys_write fd [] w)
  -- `lseek` moves the offset to the target, which may lie behind the end.
  pub seek_lem :
      (fd t : ℕ) (d : Desc) (c : Bytes) (offset : ℤ) (whence : Whence) (w : W)
      → desc w fd ≡ some d
      → file w d.path ≡ some c
      → seek_target d c offset whence ≡ pos t
      → Returns MayFail
          (λ r w'.
            (r ≡ t)
            × ((q : Bytes) → file w' q ≡ file w q)
            × ((x : ℕ) → desc w' x ≡ assign (desc w) fd (record d { offset = t }) x))
          (k.sys_lseek fd offset whence w)
  -- `read` of no bytes gives none.
  pub read_none :
      (fd : ℕ) (d : Desc) (w : W)
      → desc w fd ≡ some d
      → Returns MayFail
          (λ s w'.
            (s ≡ []) × ((q : Bytes) → file w' q ≡ file w q) × ((x : ℕ) → desc w' x ≡ desc w x))
          (k.sys_read fd 0 w)
  -- A target before the start is an error.
  pub seek_negative :
      (fd t : ℕ) (d : Desc) (c : Bytes) (offset : ℤ) (whence : Whence) (w : W)
      → desc w fd ≡ some d
      → file w d.path ≡ some c
      → seek_target d c offset whence ≡ negsuc t
      → ((k.sys_lseek fd offset whence w).0 ≡ none)
        × ((q : Bytes) → file (k.sys_lseek fd offset whence w).1 q ≡ file w q)
  -- `close` frees the descriptor.
  pub close_lem :
      (fd : ℕ) (d : Desc) (w : W)
      → desc w fd ≡ some d
      → Succeeds MayFail
          (λ w'.
            ((q : Bytes) → file w' q ≡ file w q)
            × ((x : ℕ) → desc w' x ≡ (if fd == x then none else desc w x)))
          (k.sys_close fd w)

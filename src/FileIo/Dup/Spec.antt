-- ===== src/FileIo/Dup/Spec.antt =====
-- What the manual pages say of the calls that stage0/tlpi/fileio/dup.c and verify_dup.c make, and of dup2.
use stage.Base.{
  ℕ, ◌+◌, ◌==◌, ◌≡◌, ◌≤◌, ◌<◌, ◌⊎◌, if◌then◌else◌, true, false, Option, none, some, ◌∷◌, length,
  refl, arith,
}
use stage.Base.Int.{pos}
use stage.Base.Text.{Bytes}
use stage.FileIo.{Flags, Desc, Returns, Succeeds, seek_cur, opened, overwrite, write_offset}
use stage.FileIo.Dup.{Duplicates}

-- A table with one place replaced.
unfoldable pub connect : {A : Type 0} → (ℕ → Option A) → ℕ → Option A → ℕ → Option A
connect t fd a x = if fd == x then a else t x

pub connect_hit : {A : Type 0} (t : ℕ → Option A) (fd : ℕ) (a : Option A) → connect t fd a fd ≡ a
unfolding connect
connect_hit t fd a = let same : (fd == fd) ≡ true = ground arith in rw same refl

pub connect-other :
    {A : Type 0} (t : ℕ → Option A) (fd : ℕ) (a : Option A) (x : ℕ)
    → (fd == x) ≡ false
    → connect t fd a x ≡ t x
unfolding connect
connect-other t fd a x miss = rw miss refl

-- `entry` shows to which open file description a descriptor refers, and `description` its file,
-- offset and O_APPEND; `flags` are the status flags.
pub record Shared {W : Type 0} (k : Duplicates W) (MayFail : Type 0) : Type 0 where
  pub file : W → Bytes → Option Bytes
  pub entry : W → ℕ → Option ℕ
  pub description : W → ℕ → Option Desc
  pub flags : W → ℕ → ℕ
  pub getfl_lem :
      (fd i : ℕ) (w : W)
      → entry w fd ≡ some i
      → ((k.f_getfl fd w).0 ≡ some (flags w i))
        × ((q : Bytes) → file (k.f_getfl fd w).1 q ≡ file w q)
        × ((x : ℕ) → entry (k.f_getfl fd w).1 x ≡ entry w x)
        × ((j : ℕ) → description (k.f_getfl fd w).1 j ≡ description w j)
        × ((j : ℕ) → flags (k.f_getfl fd w).1 j ≡ flags w j)
  pub getfl_closed :
      (fd : ℕ) (w : W)
      → entry w fd ≡ none
      → ((k.f_getfl fd w).0 ≡ none) × ((x : ℕ) → entry (k.f_getfl fd w).1 x ≡ entry w x)
  -- F_DUPFD takes the lowest free descriptor that is not below its argument.
  pub dupfd_lem :
      (fd n i : ℕ) (w : W)
      → entry w fd ≡ some i
      → Returns MayFail
          (λ new w'.
            (n ≤ new)
            × (entry w new ≡ none)
            × ((m : ℕ) → n ≤ m → m < new → (j : ℕ) × (entry w m ≡ some j))
            × ((x : ℕ) → entry w' x ≡ connect (entry w) new (some i) x))
          (k.f_dupfd fd n w)
  pub dupfd_closed :
      (fd n : ℕ) (w : W)
      → entry w fd ≡ none
      → ((k.f_dupfd fd n w).0 ≡ none) × ((x : ℕ) → entry (k.f_dupfd fd n w).1 x ≡ entry w x)
  pub dup_lem :
      (fd i : ℕ) (w : W)
      → entry w fd ≡ some i
      → Returns MayFail
          (λ new w'.
            (entry w new ≡ none)
            × ((x : ℕ) → entry w' x ≡ connect (entry w) new (some i) x)
            × ((q : Bytes) → file w' q ≡ file w q)
            × ((j : ℕ) → description w' j ≡ description w j))
          (k.sys_dup fd w)
  -- With O_CREAT a file is opened on a free descriptor, with a description of its own.
  pub open_lem :
      (f : Flags) (p : Bytes) (w : W)
      → f.create ≡ true
      → Returns MayFail
          (λ fd w'.
            (i : ℕ) × (entry w fd ≡ none)
            × (entry w' fd ≡ some i)
            × (description w' i ≡ some (record { path = p; offset = 0; append = f.append }))
            × (file w' p ≡ some (opened f (file w p))))
          (k.kernel.sys_open f p w)
  -- `write` moves the offset of the description, whichever descriptor it is called with.
  pub write_lem :
      (fd i b : ℕ) (d : Desc) (c s : Bytes) (w : W)
      → entry w fd ≡ some i
      → description w i ≡ some d
      → file w d.path ≡ some c
      → Returns MayFail
          (λ n w'.
            ((n ≡ length (b ∷ s)) ⊎ MayFail)
            × (file w' d.path ≡ some (overwrite c (write_offset d c) (b ∷ s)))
            × ((x : ℕ) → entry w' x ≡ entry w x)
            × (description w' i ≡ some (record d { offset = write_offset d c + n })))
          (k.kernel.sys_write fd (b ∷ s) w)
  pub tell_lem :
      (fd i : ℕ) (d : Desc) (c : Bytes) (w : W)
      → entry w fd ≡ some i
      → description w i ≡ some d
      → file w d.path ≡ some c
      → Returns MayFail
          (λ r w'.
            (r ≡ d.offset)
            × ((q : Bytes) → file w' q ≡ file w q)
            × ((x : ℕ) → entry w' x ≡ entry w x)
            × ((j : ℕ) → description w' j ≡ description w j))
          (k.kernel.sys_lseek fd (pos 0) seek_cur w)
  pub close_fails :
      (fd i : ℕ) (w : W)
      → entry w fd ≡ some i
      → Succeeds MayFail (λ w'. Unit {0}) (k.kernel.sys_close fd w)
  pub ebadf_lem : (w : W) (x : ℕ) → entry (k.set_ebadf w) x ≡ entry w x
  pub close_lem :
      (fd i : ℕ) (w : W)
      → entry w fd ≡ some i
      → (x : ℕ) → entry (k.kernel.sys_close fd w).1 x ≡ connect (entry w) fd none x

-- What dup2 promises of the table: where the old descriptor is open, it returns the new one, which
-- refers to the same as the old one, and no other descriptor differs; where it is not, it returns
-- -1, and no descriptor differs.
pub data Dup2 (oldfd newfd : ℕ) (t t' : ℕ → Option ℕ) (result : Option ℕ) : Type 0 where
  shares :
      (i : ℕ)
      → t oldfd ≡ some i
      → result ≡ some newfd
      → ((x : ℕ) → t' x ≡ connect t newfd (some i) x)
      → Dup2 oldfd newfd t t' result
  fails : t oldfd ≡ none → result ≡ none → ((x : ℕ) → t' x ≡ t x) → Dup2 oldfd newfd t t' result

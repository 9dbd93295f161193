-- ===== src/FileIo/Dup/Table.antt =====
-- A concrete system with the calls of stage0/tlpi/fileio/dup.c and verify_dup.c, where no call fails that
-- need not: a table of descriptors that refer to open file descriptions.
use stage.Base.{
  ℕ, zero, suc, ◌+◌, ◌≡◌, refl, sym, ◌∙◌, inl, if◌then◌else◌, Bool, true, false, Option, none, some,
  ◌>>=◌, List, [], ◌∷◌, ◌++◌, length, take, drop, set, get_elem?, arith,
}
use stage.Base.Int.{ℤ, pos, negsuc, ◌+ℤ◌}
use stage.Base.Text.{Bytes}
use stage.FileIo.{
  Flags, Desc, Whence, Returns, seek_cur, store, opened, overwrite, write_offset, seek_target,
}
use stage.FileIo.Steps.{store_self}
use stage.FileIo.Dup.{Duplicates}
use stage.FileIo.Dup.Entries.{place, put, free_from, place-put, free_from-IsLowest}
use stage.FileIo.Dup.Spec.{Shared, connect_hit}

pub record Table : Type 0 where
  pub files : Bytes → Option Bytes
  pub entries : List (Option ℕ)
  pub descriptions : List Desc

get_elem?-end : {A : Type 0} (xs : List A) (a : A) → get_elem? (xs ++ (a ∷ [])) (length xs) ≡ some a
get_elem?-end [] a = refl
get_elem?-end (x ∷ xs) a = get_elem?-end xs a

set_there :
    {A : Type 0} (xs : List A) (i : ℕ) (a b : A)
    → get_elem? xs i ≡ some a
    → get_elem? (set xs i b) i ≡ some b
set_there [] i a b e = cc
set_there (x ∷ xs) zero a b e = refl
set_there (x ∷ xs) (suc i) a b e = set_there xs i a b e

-- The description of a descriptor, with its number.
unfoldable pub described : Table → ℕ → Option (ℕ × Desc)
described w fd = place w.entries fd >>= λ i. get_elem? w.descriptions i >>= λ d. some (i, d)

unfoldable pub open_new : Flags → Bytes → Table → Option ℕ × Table
open_new f p w =
    let fd = free_from w.entries 0 in
    (
      some fd,
      record {
        files = store w.files p (opened f (w.files p));
        entries = put w.entries fd (some (length w.descriptions));
        descriptions = w.descriptions ++ (record { path = p; offset = 0; append = f.append } ∷ []);
      },
    )

unfoldable pub open_file : Flags → Bytes → Table → Option Bytes → Option ℕ × Table
unfolding open_new
open_file f p w none = if f.create then open_new f p w else (none, w)
open_file f p w (some c) = open_new f p w

unfoldable pub move : ℕ → Desc → ℕ → Table → Table
move i d offset w = record w { descriptions = set w.descriptions i (record d { offset = offset }) }

unfoldable pub read_at : ℕ → Table → Option (ℕ × Desc) → Option Bytes × Table
read_at n w none = (none, w)
read_at n w (some (i, d)) =
    let s = take n (
      drop d.offset
        (opened (record { create = false; trunc = false; append = false }) (w.files d.path))) in
    (some s, move i d (d.offset + length s) w)

unfoldable pub write_to : Bytes → Table → ℕ → Desc → Option Bytes → Option ℕ × Table
write_to s w i d none = (none, w)
write_to s w i d (some c) = (
  some (length s),
  record (move i d (write_offset d c + length s) w) {
    files = store w.files d.path (overwrite c (write_offset d c) s);
  },
)

unfoldable pub write_at : Bytes → Table → Option (ℕ × Desc) → Option ℕ × Table
write_at s w none = (none, w)
write_at s w (some (i, d)) = write_to s w i d (w.files d.path)

unfoldable pub seek_to : Table → ℕ → Desc → ℤ → Option ℕ × Table
seek_to w i d (pos t) = (some t, move i d t w)
seek_to w i d (negsuc t) = (none, w)

unfoldable pub seek_at : ℤ → Whence → Table → Option (ℕ × Desc) → Option ℕ × Table
seek_at offset whence w none = (none, w)
seek_at offset whence w (some (i, d)) = seek_to w i d (
    seek_target d
      (opened (record { create = false; trunc = false; append = false }) (w.files d.path)) offset
      whence)

unfoldable pub close_at : ℕ → Table → Option ℕ → Bool × Table
close_at fd w none = (false, w)
close_at fd w (some i) = (true, record w { entries = put w.entries fd none })

unfoldable pub duplicate : ℕ → Table → Option ℕ → Option ℕ × Table
duplicate n w none = (none, w)
duplicate n w (some i) =
    let fd = free_from w.entries n in (some fd, record w { entries = put w.entries fd (some i) })

unfoldable pub flags_at : Table → Option ℕ → Option ℕ × Table
flags_at w none = (none, w)
flags_at w (some i) = (some 2, w)

abbrev pub table : Duplicates Table
table = record {
  kernel = record {
    sys_open = λ f p w. open_file f p w (w.files p);
    sys_read = λ fd n w. read_at n w (described w fd);
    sys_write = λ fd s w. write_at s w (described w fd);
    sys_close = λ fd w. close_at fd w (place w.entries fd);
    sys_lseek = λ fd offset whence w. seek_at offset whence w (described w fd);
    is_enoent = λ w. true;
  };
  f_getfl = λ fd w. flags_at w (place w.entries fd);
  f_dupfd = λ fd n w. duplicate n w (place w.entries fd);
  sys_dup = λ fd w. duplicate 0 w (place w.entries fd);
  set_ebadf = λ w. w;
}

set_back :
    {A : Type 0} (xs : List A) (i : ℕ) (a : A) (j : ℕ)
    → get_elem? xs i ≡ some a
    → get_elem? (set xs i a) j ≡ get_elem? xs j
set_back [] i a j e = refl
set_back (x ∷ xs) zero a zero e = sym e
set_back (x ∷ xs) zero a (suc j) e = refl
set_back (x ∷ xs) (suc i) a zero e = refl
set_back (x ∷ xs) (suc i) a (suc j) e = set_back xs i a j e

described_there :
    (w : Table) (fd i : ℕ) (d : Desc)
    → place w.entries fd ≡ some i
    → get_elem? w.descriptions i ≡ some d
    → described w fd ≡ some (i, d)
unfolding described
described_there w fd i d e at = rw (e, at)

tell_target : (d : Desc) (c : Bytes) → seek_target d c (pos 0) seek_cur ≡ pos d.offset
unfolding seek_target ◌+ℤ◌
tell_target d c = ground arith

abbrev IsOpened : Flags → Bytes → Table → ℕ → Table → Type 0
IsOpened f p w fd w' =
    (i : ℕ) × (place w.entries fd ≡ none)
    × (place w'.entries fd ≡ some i)
    × (get_elem? w'.descriptions i ≡ some (record { path = p; offset = 0; append = f.append }))
    × (w'.files p ≡ some (opened f (w.files p)))

open_new-IsOpened :
    (f : Flags) (p : Bytes) (w : Table) → Returns ⊥ (IsOpened f p w) (open_new f p w)
unfolding open_new
open_new-IsOpened f p w = (
  length w.descriptions,
  (free_from-IsLowest w.entries 0).1,
  place-put w.entries _ _ _ ∙ connect_hit (place w.entries) _ _,
  get_elem?-end w.descriptions _,
  store_self w.files p _,
)

open_file-IsOpened :
    (f : Flags) (p : Bytes) (w : Table) (o : Option Bytes)
    → f.create ≡ true
    → Returns ⊥ (IsOpened f p w) (open_file f p w o)
unfolding open_file opened
open_file-IsOpened f p w none create = rw create (open_new-IsOpened f p w)
open_file-IsOpened f p w (some c) create = open_new-IsOpened f p w

pub table-Shared : Shared table ⊥
unfolding flags_at duplicate close_at write_at write_to seek_at seek_to move
table-Shared = record {
  file = λ w. w.files;
  entry = λ w. place w.entries;
  description = λ w. get_elem? w.descriptions;
  flags = λ w i. 2;
  getfl_lem = λ fd i w e. rw e (refl, λ q. refl, λ x. refl, λ j. refl, λ j. refl);
  getfl_closed = λ fd w e. rw e (refl, λ x. refl);
  dupfd_lem = λ fd n i w e. rw e (
    (free_from-IsLowest w.entries n).0,
    (free_from-IsLowest w.entries n).1,
    (free_from-IsLowest w.entries n).2,
    λ x. place-put w.entries _ (some i) x,
  );
  dupfd_closed = λ fd n w e. rw e (refl, λ x. refl);
  dup_lem = λ fd i w e. rw e (
    (free_from-IsLowest w.entries 0).1,
    λ x. place-put w.entries _ (some i) x,
    λ q. refl,
    λ j. refl,
  );
  open_lem = λ f p w create. open_file-IsOpened f p w (w.files p) create;
  write_lem = λ fd i b d c s w e at there.
      rw (described_there w fd i d e at, there)
        (inl refl, store_self w.files d.path _, λ x. refl, set_there w.descriptions i d _ at);
  tell_lem = λ fd i d c w e at there.
      rw (described_there w fd i d e at, tell_target d _)
        (refl, λ q. refl, λ x. refl, λ j. set_back w.descriptions i d j at);
  close_fails = λ fd i w e. rw e tt;
  ebadf_lem = λ w x. refl;
  close_lem = λ fd i w e x. rw e (place-put w.entries fd none x);
}

pub table-Shared-entry : (w : Table) (x : ℕ) → table-Shared.entry w x ≡ place w.entries x
unfolding table-Shared
table-Shared-entry w x = refl

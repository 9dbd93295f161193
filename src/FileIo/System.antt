-- ===== src/FileIo/System.antt =====
-- A concrete system with the calls of the interface, whose `read` gives one byte at a time and whose
-- calls fail only where they must.
pub mod Laws
use stage.Base.{
  ℕ, zero, suc, ◌+◌, ◌==◌, if◌then◌else◌, Bool, true, false, Option, none, some, List, [], ◌∷◌,
  ◌++◌, length, take, drop, set,
}
use stage.Base.Int.{ℤ, pos, negsuc}
use stage.Base.Text.{Bytes}
use stage.FileIo.{Flags, Desc, Kernel, Whence, store, opened, overwrite, write_offset, seek_target}

-- A descriptor is a place in the list, where it is open; `enoent` is what `errno` says.
pub record System : Type 0 where
  pub files : Bytes → Option Bytes
  pub descs : List (Option Desc)
  pub enoent : Bool

unfoldable pub slot : List (Option Desc) → ℕ → Option Desc
slot [] x = none
slot (d ∷ ds) zero = d
slot (d ∷ ds) (suc x) = slot ds x

unfoldable pub open_as : Flags → Bytes → System → Option ℕ × System
open_as f p w = (
  some (length w.descs),
  record w {
    files = store w.files p (opened f (w.files p));
    descs = w.descs ++ (some (record { path = p; offset = 0; append = f.append }) ∷ []);
  },
)

unfoldable pub open_found : Flags → Bytes → System → Option Bytes → Option ℕ × System
unfolding open_as
open_found f p w none = if f.create then open_as f p w else (none, record w { enoent = true })
open_found f p w (some c) = open_as f p w

unfoldable pub move : ℕ → Desc → System → ℕ → System
move fd d w offset = record w { descs = set w.descs fd (some (record d { offset = offset })) }

unfoldable pub read_from : ℕ → ℕ → System → Desc → Option Bytes → Option Bytes × System
read_from fd zero w d c = (some [], w)
read_from fd (suc n) w d none = (none, w)
read_from fd (suc n) w d (some c) =
    let s = take 1 (take (suc n) (drop d.offset c)) in (some s, move fd d w (d.offset + length s))

unfoldable pub read_at : ℕ → ℕ → System → Option Desc → Option Bytes × System
read_at fd n w none = (none, w)
read_at fd n w (some d) = read_from fd n w d (w.files d.path)

unfoldable pub write_to : ℕ → Bytes → System → Desc → Option Bytes → Option ℕ × System
write_to fd [] w d c = (some 0, w)
write_to fd (b ∷ s) w d none = (none, w)
write_to fd (b ∷ s) w d (some c) = (
  some (length (b ∷ s)),
  record (move fd d w (write_offset d c + length (b ∷ s))) {
    files = store w.files d.path (overwrite c (write_offset d c) (b ∷ s));
  },
)

unfoldable pub write_at : ℕ → Bytes → System → Option Desc → Option ℕ × System
write_at fd s w none = (none, w)
write_at fd s w (some d) = write_to fd s w d (w.files d.path)

unfoldable pub seek_to : ℕ → System → Desc → ℤ → Option ℕ × System
seek_to fd w d (pos t) = (some t, move fd d w t)
seek_to fd w d (negsuc t) = (none, w)

unfoldable pub seek_in : ℕ → ℤ → Whence → System → Desc → Option Bytes → Option ℕ × System
seek_in fd offset whence w d none = (none, w)
seek_in fd offset whence w d (some c) = seek_to fd w d (seek_target d c offset whence)

unfoldable pub seek_at : ℕ → ℤ → Whence → System → Option Desc → Option ℕ × System
seek_at fd offset whence w none = (none, w)
seek_at fd offset whence w (some d) = seek_in fd offset whence w d (w.files d.path)

unfoldable pub close_at : ℕ → System → Option Desc → Bool × System
close_at fd w none = (false, w)
close_at fd w (some d) = (true, record w { descs = set w.descs fd none })

abbrev pub system : Kernel System
system = record {
  sys_open = λ f p w. open_found f p w (w.files p);
  sys_read = λ fd n w. read_at fd n w (slot w.descs fd);
  sys_write = λ fd s w. write_at fd s w (slot w.descs fd);
  sys_close = λ fd w. close_at fd w (slot w.descs fd);
  sys_lseek = λ fd offset whence w. seek_at fd offset whence w (slot w.descs fd);
  is_enoent = λ w. w.enoent;
}

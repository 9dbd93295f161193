-- ===== src/Users.antt =====
-- stage0/tlpi/user_groups: names and numbers of users and groups. The databases and `strtol` are
-- parameters.
pub mod Names
pub mod Lookup
pub mod Password
mod Tests
use stage.Base.{
  ℕ, zero, suc, ◌-◌, ◌%◌, ◌^◌, ◌==◌, if◌then◌else◌, Bool, true, false, Option, none, some, List, [],
  ◌∷◌, ◌++◌,
}
use stage.Base.Int.{ℤ, pos, negsuc}
use stage.Base.Text.{Bytes}

-- struct passwd and struct group
pub record Passwd : Type 0 where
  pub pw_name : Bytes
  pub pw_passwd : Bytes
  pub pw_uid : ℕ
  pub pw_gid : ℕ
  pub pw_gecos : Bytes
  pub pw_dir : Bytes
  pub pw_shell : Bytes

pub record Group : Type 0 where
  pub gr_name : Bytes
  pub gr_gid : ℕ

-- A `long` as a `uid_t` or a `gid_t`, which have 32 bits; -1 is the largest of them.
unfoldable pub to_id : ℤ → ℕ
to_id (pos n) = n % 2 ^ 32
to_id (negsuc n) = 2 ^ 32 - suc (n % 2 ^ 32)

-- The lookups, and `strtol` with base 10: the number, and what stands at `endptr`.
pub record Lookups : Type 0 where
  pub getpwuid : ℕ → Option Passwd
  pub getpwnam : Bytes → Option Passwd
  pub getgrgid : ℕ → Option Group
  pub getgrnam : Bytes → Option Group
  pub strtol : Bytes → ℤ × Bytes

module _ (l : Lookups) where
  unfoldable pub name_of : Option Passwd → Option Bytes
  name_of none = none
  name_of (some pwd) = some pwd.pw_name

  -- NULL is `none`.
  unfoldable pub user_name_from_id : ℕ → Option Bytes
  user_name_from_id uid = name_of (l.getpwuid uid)

  unfoldable pub uid_of : Option Passwd → ℕ
  uid_of none = to_id (negsuc 0)
  uid_of (some pwd) = pwd.pw_uid

  -- What the text behind the number decides.
  unfoldable pub user_id_parsed : Bytes → ℤ × Bytes → ℕ
  user_id_parsed name (u, []) = to_id u
  user_id_parsed name (u, c ∷ rest) = uid_of (l.getpwnam name)

  unfoldable pub user_id_from_name : Option Bytes → ℕ
  user_id_from_name none = to_id (negsuc 0)
  user_id_from_name (some []) = to_id (negsuc 0)
  user_id_from_name (some (c ∷ name)) = user_id_parsed (c ∷ name) (l.strtol (c ∷ name))

  unfoldable pub group_of : Option Group → Option Bytes
  group_of none = none
  group_of (some grp) = some grp.gr_name

  unfoldable pub group_name_from_id : ℕ → Option Bytes
  group_name_from_id gid = group_of (l.getgrgid gid)

  unfoldable pub gid_of : Option Group → ℕ
  gid_of none = to_id (negsuc 0)
  gid_of (some grp) = grp.gr_gid

  unfoldable pub group_id_parsed : Bytes → ℤ × Bytes → ℕ
  group_id_parsed name (g, []) = to_id g
  group_id_parsed name (g, c ∷ rest) = gid_of (l.getgrnam name)

  unfoldable pub group_id_from_name : Option Bytes → ℕ
  group_id_from_name none = to_id (negsuc 0)
  group_id_from_name (some []) = to_id (negsuc 0)
  group_id_from_name (some (c ∷ name)) = group_id_parsed (c ∷ name) (l.strtol (c ∷ name))

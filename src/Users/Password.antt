-- ===== src/Users/Password.antt =====
-- stage0/tlpi/user_groups/check_password.c: whether a user is authenticated.
pub mod Sound
use stage.Base.{
  ℕ, ◌==◌, ◌≡◌, ◌⊎◌, refl, sym, ap, ◌∙◌, inl, inr, not, if◌then◌else◌, Bool, true, false,
  Bool-cases, Option, none, some, Option-cases, List, [], ◌∷◌, ◌++◌, length, replicate, take,
}
use stage.Base.Text.{Bytes, codes, print_nat}
use stage.FileIo.{bytes_eq}
use stage.FileIo.Steps.{bytes_eq_sound, bytes_eq_refl}
use stage.Users.{Passwd}

-- What the calls of the program give: `none` is -1, NULL or end of file; `fgets` gives the bytes
-- in front of the 0 that it adds, and `is_eacces` tells whether `errno` is EACCES after `getspnam`.
pub record Calls : Type 0 where
  pub login_name_max : Option ℕ
  pub malloc : ℕ → Bool
  pub fgets : ℕ → Option Bytes
  pub getpwnam : Bytes → Option Passwd
  pub getspnam : Bytes → Option Bytes
  pub is_eacces : Bool
  pub getpass : Option Bytes
  pub crypt : Bytes → Bytes → Option Bytes

-- How a run ends: by an access outside an array, or with a status, what was printed, and the bytes
-- of the password as they are left in memory, where it was asked for.
pub data Login : Type 0 where
  fault : Login
  ends : ℕ → Bytes → Option Bytes → Login

-- The bytes in front of the first 0.
unfoldable pub c_string : Bytes → Bytes
c_string [] = []
c_string (c ∷ s) = let rest = c_string s in if c == 0 then [] else c ∷ rest

-- The newline at the end is removed; the string of no bytes has no last byte to look at.
unfoldable pub chomp : Bytes → Option Bytes
chomp [] = none
chomp (c ∷ []) = some (if c == 10 then [] else c ∷ [])
chomp (c ∷ d ∷ s) = elim (chomp (d ∷ s)) [ none ↦ none | some t ↦ some (c ∷ t) ]

-- The loop that overwrites the password.
unfoldable pub erase : Bytes → Bytes
erase [] = []
erase (c ∷ s) = let rest = erase s in if c == 0 then c ∷ s else 0 ∷ rest

abbrev pub prompt : Bytes
prompt = codes "Username: "

abbrev pub success : Passwd → Bytes
success pwd =
    prompt ++ codes "Successfully authenticated: UID=" ++ print_nat pwd.pw_uid ++ codes "\n"

-- Behind `crypt`.
unfoldable pub encrypted_login : Passwd → Bytes → Bytes → Option Bytes → Login
encrypted_login pwd hash password none = ends 1 prompt (some (erase password))
encrypted_login pwd hash password (some encrypted) =
    if bytes_eq encrypted hash
    then ends 0 (success pwd) (some (erase password))
    else ends 1 (prompt ++ codes "Incorrect password\n") (some (erase password))

module _ (c : Calls) where
  -- From `getpass` on, with the password's hash.
  unfoldable pub asked_login : Passwd → Bytes → Option Bytes → Login
  asked_login pwd hash none = fault
  asked_login pwd hash (some password) = encrypted_login pwd hash password (c.crypt password hash)

  unfoldable pub shadow_login : Passwd → Option Bytes → Login
  shadow_login pwd none =
      if c.is_eacces then ends 1 prompt none else asked_login pwd pwd.pw_passwd c.getpass
  shadow_login pwd (some hash) = asked_login pwd hash c.getpass

  unfoldable pub user_login : Bytes → Option Passwd → Login
  user_login username none = ends 1 prompt none
  user_login username (some pwd) = shadow_login pwd (c.getspnam username)

  unfoldable pub named_login : Option Bytes → Login
  named_login none = fault
  named_login (some username) = user_login username (c.getpwnam username)

  unfoldable pub line_login : Option Bytes → Login
  line_login none = ends 1 prompt none
  line_login (some line) = named_login (chomp (c_string line))

  unfoldable pub name_max : Option ℕ → ℕ
  name_max none = 256
  name_max (some n) = n

  unfoldable pub check_password : Login
  check_password =
      if c.malloc (name_max c.login_name_max)
      then line_login (c.fgets (name_max c.login_name_max))
      else ends 1 [] none

  -- The hash that counts: of the shadow file where it has an entry.
  unfoldable pub Hash : Passwd → Bytes → Bytes → Type 0
  Hash pwd username hash =
      ((h : Bytes) × (c.getspnam username ≡ some h) × (hash ≡ h))
      ⊎ ((c.getspnam username ≡ none) × (c.is_eacces ≡ false) × (hash ≡ pwd.pw_passwd))

  -- The user that was named exists, and the password that was given has the hash of that user.
  pub record Authentic (out : Bytes) (memory : Option Bytes) : Type 0 where
    pub line : Bytes
    pub username : Bytes
    pub pwd : Passwd
    pub hash : Bytes
    pub password : Bytes
    pub read : c.fgets (name_max c.login_name_max) ≡ some line
    pub named : chomp (c_string line) ≡ some username
    pub known : c.getpwnam username ≡ some pwd
    pub hashed : Hash pwd username hash
    pub given : c.getpass ≡ some password
    pub matches : c.crypt password hash ≡ some hash
    pub erased : memory ≡ some (erase password)
    pub cleared :
        take (length (c_string password)) (erase password)
        ≡ replicate (length (c_string password)) 0

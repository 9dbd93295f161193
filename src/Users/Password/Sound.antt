-- ===== src/Users/Password/Sound.antt =====
-- stage0/tlpi/user_groups/check_password.c: who is authenticated.
use stage.Base.{
  ◌==◌, ◌≡◌, refl, sym, ap, inl, inr, if◌then◌else◌, Bool, true, false, Bool-cases, Option, none,
  some, [], ◌∷◌, length, replicate, take,
}
use stage.Base.Text.{Bytes}
use stage.FileIo.{bytes_eq}
use stage.FileIo.Steps.{bytes_eq_sound, bytes_eq_refl}
use stage.Users.{Passwd}
use stage.Users.Password.{
  Calls, Login, fault, ends, c_string, chomp, erase, prompt, success, encrypted_login, asked_login,
  shadow_login, user_login, named_login, line_login, name_max, check_password, Hash, Authentic,
}

decided :
    (b : Bool) (n m : Bytes) (x y out memory : Option Bytes) (text : Bytes)
    → (if b then ends 0 n x else ends 1 m y) ≡ ends 0 text memory
    → (b ≡ true) × (memory ≡ x)
decided true n m x y out memory text e = (refl, cc)
decided false n m x y out memory text e = cc

-- What the loop leaves of the bytes in front of the first 0.
erase-c_string :
    (s : Bytes) → take (length (c_string s)) (erase s) ≡ replicate (length (c_string s)) 0
unfolding erase c_string
erase-c_string [] = refl
erase-c_string (c ∷ s) = elim (Bool-cases (c == 0)) [
  | inl hit ↦ rw hit refl
  | inr miss ↦ rw miss (ap (λ t. 0 ∷ t) (erase-c_string s))
]

module _ (c : Calls) (out : Bytes) (memory : Option Bytes) where
  -- The program ends with status 0.
  abbrev IsIn : Login → Type 0
  IsIn r = r ≡ ends 0 out memory

  abbrev Given : Bytes → Type 0
  Given hash =
      (password : Bytes) × (c.getpass ≡ some password)
      × (c.crypt password hash ≡ some hash)
      × (memory ≡ some (erase password))

  then-IsIn :
      (b : Bool) (x : Login) (text : Bytes)
      → IsIn (if b then x else ends 1 text none)
      → (b ≡ true) × IsIn x
  then-IsIn true x text e = (refl, e)
  then-IsIn false x text e = cc

  else-IsIn :
      (b : Bool) (x : Login) (text : Bytes)
      → IsIn (if b then ends 1 text none else x)
      → (b ≡ false) × IsIn x
  else-IsIn true x text e = cc
  else-IsIn false x text e = (refl, e)

  encrypted-Given :
      (pwd : Passwd) (hash password : Bytes) (o : Option Bytes)
      → IsIn (encrypted_login pwd hash password o)
      → (o ≡ some hash) × (memory ≡ some (erase password))
  unfolding encrypted_login
  encrypted-Given pwd hash password none e = cc
  encrypted-Given pwd hash password (some encrypted) e =
      let (same, erased) = decided (bytes_eq encrypted hash) _ _ _ _ memory memory out e in
      (ap some (bytes_eq_sound encrypted hash same), erased)

  asked-Given :
      (pwd : Passwd) (hash : Bytes) (o : Option Bytes)
      → c.getpass ≡ o
      → IsIn (asked_login c pwd hash o)
      → Given hash
  unfolding asked_login
  asked-Given pwd hash none given e = cc
  asked-Given pwd hash (some password) given e =
      let (matches, erased) = encrypted-Given pwd hash password (c.crypt password hash) e in
      (password, given, matches, erased)

  shadow-Given :
      (pwd : Passwd) (username : Bytes) (o : Option Bytes)
      → c.getspnam username ≡ o
      → IsIn (shadow_login c pwd o)
      → (hash : Bytes) × Hash c pwd username hash × Given hash
  unfolding shadow_login Hash
  shadow-Given pwd username none found e =
      let (free, asked) =
        else-IsIn c.is_eacces (asked_login c pwd pwd.pw_passwd c.getpass) prompt e in
      (pwd.pw_passwd, inr (found, free, refl), asked-Given pwd pwd.pw_passwd c.getpass refl asked)
  shadow-Given pwd username (some hash) found e =
      (hash, inl (hash, found, refl), asked-Given pwd hash c.getpass refl e)

  user-Authentic :
      (line username : Bytes) (o : Option Passwd)
      → c.fgets (name_max c c.login_name_max) ≡ some line
      → chomp (c_string line) ≡ some username
      → c.getpwnam username ≡ o
      → IsIn (user_login c username o)
      → Authentic c out memory
  unfolding user_login
  user-Authentic line username none read named known e = cc
  user-Authentic line username (some pwd) read named known e =
      let (hash, hashed, (password, given, matches, erased)) =
        shadow-Given pwd username (c.getspnam username) refl e in
      record {
        line = line;
        username = username;
        pwd = pwd;
        hash = hash;
        password = password;
        read = read;
        named = named;
        known = known;
        hashed = hashed;
        given = given;
        matches = matches;
        erased = erased;
        cleared = erase-c_string password;
      }

  named-Authentic :
      (line : Bytes) (o : Option Bytes)
      → c.fgets (name_max c c.login_name_max) ≡ some line
      → chomp (c_string line) ≡ o
      → IsIn (named_login c o)
      → Authentic c out memory
  unfolding named_login
  named-Authentic line none read named e = cc
  named-Authentic line (some username) read named e =
      user-Authentic line username (c.getpwnam username) read named refl e

  line-Authentic :
      (o : Option Bytes)
      → c.fgets (name_max c c.login_name_max) ≡ o
      → IsIn (line_login c o)
      → Authentic c out memory
  unfolding line_login
  line-Authentic none read e = cc
  line-Authentic (some line) read e = named-Authentic line (chomp (c_string line)) read refl e

  -- The program ends with status 0 only where the line that was read names a user that is known,
  -- and the password that was given has the hash of that user, of the shadow file where it has an
  -- entry; and then no byte of the password is left in memory in front of its first 0.
  pub check_password-Authentic : check_password c ≡ ends 0 out memory → Authentic c out memory
  unfolding check_password
  check_password-Authentic e =
      let (block, read) =
        then-IsIn (c.malloc (name_max c c.login_name_max))
          (line_login c (c.fgets (name_max c c.login_name_max))) [] e in
      line-Authentic (c.fgets (name_max c c.login_name_max)) refl read

  -- Conversely, where `malloc` has a block for the name, the program then ends with status 0.
  shadow-success :
      (a : Authentic c out memory)
      → shadow_login c a.pwd (c.getspnam a.username) ≡ ends 0 (success a.pwd) memory
  unfolding shadow_login Hash asked_login encrypted_login
  shadow-success a = elim a.hashed [
    | inl (h, found, same) ↦
        rw (found, sym same, a.given, a.matches, bytes_eq_refl a.hash, a.erased) refl
    | inr (found, free, same) ↦
        rw (found, free, sym same, a.given, a.matches, bytes_eq_refl a.hash, a.erased) refl
  ]

  pub Authentic-check_password :
      c.malloc (name_max c c.login_name_max) ≡ true
      → (a : Authentic c out memory) → check_password c ≡ ends 0 (success a.pwd) memory
  unfolding check_password line_login named_login user_login
  Authentic-check_password block a = rw (block, a.read, a.named, a.known) (shadow-success a)

-- A line that begins with the byte 0 is a name of no bytes, and the byte in front of it is looked at.
pub check_password_fault :
    (c : Calls) (s : Bytes)
    → c.malloc (name_max c c.login_name_max) ≡ true
    → c.fgets (name_max c c.login_name_max) ≡ some (0 ∷ s)
    → check_password c ≡ fault
unfolding check_password line_login named_login c_string chomp
check_password_fault c s block read = rw (block, read) refl

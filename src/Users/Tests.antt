-- ===== src/Users/Tests.antt =====
-- The theorems about stage0/tlpi/user_groups on concrete databases.
use stage.Base.{
  ◌≡◌, ◌==◌, refl, if◌then◌else◌, true, false, Option, none, some, List, [], ◌∷◌, arith, ℕ, Bool,
  sym, ap, ◌∙◌,
}
use stage.Base.Int.{pos}
use stage.Base.Text.{codes}
use stage.FileIo.{bytes_eq}
use stage.Users.{
  Passwd, Group, Lookups, user_name_from_id, user_id_from_name, group_name_from_id,
  group_id_from_name,
}
use stage.Users.Names
use stage.Users.Names.{IsWord, id_from_name-name_from_id}
use stage.Users.Lookup
use stage.Users.Lookup.{Stream, Search, first_named, getpwnam2, Found, getpwnam2-Found}
use stage.Users.Password.{
  line_login, named_login, user_login, shadow_login, asked_login, encrypted_login, Calls,
  check_password, success, erase, Authentic, c_string, chomp,
}
use stage.Users.Password.Sound.{check_password-Authentic}

abbrev root : Passwd
root = record {
  pw_name = codes "root";
  pw_passwd = codes "x";
  pw_uid = 0;
  pw_gid = 0;
  pw_gecos = [];
  pw_dir = codes "/root";
  pw_shell = codes "/bin/sh";
}

abbrev wheel : Group
wheel = record { gr_name = codes "wheel"; gr_gid = 10 }

-- No text is a number.
abbrev lookups : Lookups
lookups = record {
  getpwuid = λ uid. if uid == 0 then some root else none;
  getpwnam = λ name. if bytes_eq name (codes "root") then some root else none;
  getgrgid = λ gid. if gid == 10 then some wheel else none;
  getgrnam = λ name. if bytes_eq name (codes "wheel") then some wheel else none;
  strtol = λ s. (pos 0, s);
}

number_of : Option Passwd → ℕ
number_of none = 0
number_of (some p) = p.pw_uid

number_of_group : Option Group → ℕ
number_of_group none = 0
number_of_group (some g) = g.gr_gid

only_root :
    (uid : ℕ) (p : Passwd) (b : Bool)
    → (uid == 0) ≡ b
    → (if b then some root else none) ≡ some p
    → p.pw_uid ≡ uid
unfolding number_of
only_root uid p true hit e =
    let zero_uid : 0 ≡ uid = ground arith in sym (ap number_of e) ∙ zero_uid
only_root uid p false miss e = cc

only_wheel :
    (gid : ℕ) (g : Group) (b : Bool)
    → (gid == 10) ≡ b
    → (if b then some wheel else none) ≡ some g
    → g.gr_gid ≡ gid
unfolding number_of_group
only_wheel gid g true hit e = let ten : 10 ≡ gid = ground arith in sym (ap number_of_group e) ∙ ten
only_wheel gid g false miss e = cc

lookups-Documented : Names.Documented lookups
lookups-Documented = record {
  getpwuid_lem = λ uid p e. only_root uid p (uid == 0) refl e;
  getgrgid_lem = λ gid g e. only_wheel gid g (gid == 10) refl e;
}

id_from_name-name_from_id_test :
    (user_id_from_name lookups (user_name_from_id lookups 0) ≡ 0)
    × (group_id_from_name lookups (group_name_from_id lookups 10) ≡ 10)
unfolding bytes_eq
id_from_name-name_from_id_test =
    id_from_name-name_from_id lookups lookups-Documented 0 10 root wheel refl refl
      (λ e. cc, λ e. cc) refl refl (λ e. cc, λ e. cc)

-- The state of the stream is the list of the entries that are left.
abbrev head_of : List Passwd → Option Passwd × List Passwd
head_of [] = (none, [])
head_of (p ∷ ps) = (some p, ps)

abbrev all_users : List Passwd
all_users = root ∷ record root { pw_name = codes "guest"; pw_uid = 1000 } ∷ []

abbrev stream : Stream (List Passwd)
stream = record { getpwent = head_of; setpwent = λ ps. all_users; endpwent = λ ps. all_users }

stream-Documented : Lookup.Documented stream
stream-Documented = record {
  left = λ ps. ps;
  whole = all_users;
  getpwent_none = λ ps e. rw e (refl, refl);
  getpwent_some = λ ps p qs e. rw e (refl, refl);
  setpwent_lem = λ ps. refl;
  endpwent_lem = λ ps. refl;
}

stream-left : (ps : List Passwd) → stream-Documented.left ps ≡ ps
unfolding stream-Documented
stream-left ps = refl

getpwnam2-Found_example :
    Found stream stream-Documented
      (codes "guest")
      (first_named (codes "guest") all_users)
      (getpwnam2 stream 3 (codes "guest") all_users)
getpwnam2-Found_example =
    getpwnam2-Found stream stream-Documented (codes "guest") 3 all_users all_users
      (stream-left all_users) (omega arith)

-- A password is its own hash.
abbrev calls : Calls
calls = record {
  login_name_max = none;
  malloc = λ n. true;
  fgets = λ n. some (codes "root\n");
  getpwnam = λ name. if bytes_eq name (codes "root") then some root else none;
  getspnam = λ name. some (codes "secret");
  is_eacces = false;
  getpass = some (codes "secret");
  crypt = λ password hash. some password;
}

check_password-Authentic_example : Authentic calls (success root) (some (erase (codes "secret")))
unfolding check_password bytes_eq c_string chomp line_login named_login user_login shadow_login
    asked_login encrypted_login
check_password-Authentic_example =
    check_password-Authentic calls (success root) (some (erase (codes "secret"))) refl

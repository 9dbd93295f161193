-- ===== src/Users/Lookup.antt =====
-- stage0/tlpi/user_groups/getpwnam.c: `getpwnam2`, a search by `getpwent`.
use stage.Base.{
  some-injective, ℕ, zero, suc, ◌≡◌, ◌<◌, refl, inl, inr, if◌then◌else◌, Bool-cases, Option, none,
  some, List, [], ◌∷◌, ◌++◌, length, ltb, ◌-◌, ◌^◌, arith,
}
use stage.Base.Int.{ℤ, pos, negsuc}
use stage.Base.Text.{Bytes, codes, print_int}
use stage.FileIo.{bytes_eq}
use stage.Users.{Passwd}

-- The password file as a stream.
pub record Stream (W : Type 0) : Type 0 where
  pub getpwent : W → Option Passwd × W
  pub setpwent : W → W
  pub endpwent : W → W

-- A search that ends with a result, or that ran out of fuel.
pub data Search (W : Type 0) : Type 0 where
  result : Option Passwd → W → Search W
  out_of_fuel : Search W

module _ {W : Type 0} (s : Stream W) where
  -- The body of the loop behind `getpwent`, and the two calls behind it.
  unfoldable pub search_round : Search W → Bytes → Option Passwd × W → Search W
  search_round rest name (none, w) = result none (s.endpwent w)
  search_round rest name (some pwd, w) =
      if bytes_eq pwd.pw_name name then result (some pwd) (s.setpwent w) else rest

  unfoldable pub getpwnam2 : ℕ → Bytes → W → Search W
  getpwnam2 zero name w = out_of_fuel
  getpwnam2 (suc fuel) name w =
      let rest = getpwnam2 fuel name (s.getpwent w).1 in search_round rest name (s.getpwent w)

-- A number of 32 bits that is passed for an `int`.
unfoldable pub as_int : ℕ → ℤ
as_int n = if ltb n (2 ^ 31) then pos n else negsuc (2 ^ 32 - suc n)

-- What `main` prints of an entry.
unfoldable pub print_entry : Option Passwd → Bytes
print_entry none = []
print_entry (some pwd) =
    pwd.pw_name
    ++ codes ":"
    ++ pwd.pw_passwd
    ++ codes ":"
    ++ print_int (as_int pwd.pw_uid)
    ++ codes ":"
    ++ print_int (as_int pwd.pw_gid)
    ++ codes ":"
    ++ pwd.pw_gecos
    ++ codes ":"
    ++ pwd.pw_dir
    ++ codes ":"
    ++ pwd.pw_shell
    ++ codes "\n"

-- What `main` prints for the user that it searches, and its status; `none` where it ran out of fuel.
unfoldable pub getpwnam_main : {W : Type 0} → Stream W → ℕ → W → Option (Bytes × ℕ)
getpwnam_main s fuel w = elim (getpwnam2 s fuel (codes "bakhtik") w) [
  | result pwd w' ↦ some (print_entry pwd, 0)
  | out_of_fuel ↦ none
]

-- The first entry with a name.
unfoldable pub first_named : Bytes → List Passwd → Option Passwd
first_named name [] = none
first_named name (p ∷ ps) =
    let rest = first_named name ps in if bytes_eq p.pw_name name then some p else rest

-- What the manual pages say, by the entries that are still to be read and all of them.
pub record Documented {W : Type 0} (s : Stream W) : Type 0 where
  pub left : W → List Passwd
  pub whole : List Passwd
  pub getpwent_none :
      (w : W) → left w ≡ [] → ((s.getpwent w).0 ≡ none) × (left (s.getpwent w).1 ≡ [])
  pub getpwent_some :
      (w : W) (p : Passwd) (ps : List Passwd)
      → left w ≡ p ∷ ps
      → ((s.getpwent w).0 ≡ some p) × (left (s.getpwent w).1 ≡ ps)
  pub setpwent_lem : (w : W) → left (s.setpwent w) ≡ whole
  pub endpwent_lem : (w : W) → left (s.endpwent w) ≡ whole

module _ {W : Type 0} (s : Stream W) (d : Documented s) (name : Bytes) where
  -- The result, and the stream back at its start.
  abbrev pub Found : Option Passwd → Search W → Type 0
  Found o (result r w) = (r ≡ o) × (d.left w ≡ d.whole)
  Found o out_of_fuel = ⊥

  search_end :
      (rest : Search W) (r : Option Passwd × W)
      → r.0 ≡ none
      → Found none (search_round s rest name r)
  unfolding search_round
  search_end rest (none, w) e = (refl, d.endpwent_lem w)
  search_end rest (some p, w) e = cc

  search_on :
      (rest : Search W) (p : Passwd) (o : Option Passwd) (r : Option Passwd × W)
      → r.0 ≡ some p
      → Found o rest
      → Found (if bytes_eq p.pw_name name then some p else o) (search_round s rest name r)
  unfolding search_round
  search_on rest p o (none, w) e found = cc
  search_on rest p o (some q, w) e found =
      same_entry (some-injective q p e) (elim (Bool-cases (bytes_eq p.pw_name name)) [
        | inl hit ↦ rw hit (refl, d.setpwent_lem w)
        | inr miss ↦ rw miss found
      ])
    where
      same_entry :
          q ≡ p
          → Found
              (if bytes_eq p.pw_name name then some p else o)
              (if bytes_eq p.pw_name name then result (some p) (s.setpwent w) else rest)
          → Found
              (if bytes_eq p.pw_name name then some p else o)
              (if bytes_eq q.pw_name name then result (some q) (s.setpwent w) else rest)
      same_entry same h = rw same h

  -- With more fuel than there are entries left to be read, `getpwnam2` finds the first of them with
  -- the name, or none where there is none, and leaves the stream at its start; entries that were
  -- read before the call are passed over.
  pub getpwnam2-Found :
      (fuel : ℕ) (w : W) (ps : List Passwd)
      → d.left w ≡ ps
      → length ps < fuel
      → Found (first_named name ps) (getpwnam2 s fuel name w)
  unfolding getpwnam2 first_named
  getpwnam2-Found zero w ps left lt = absurd (omega arith)
  getpwnam2-Found (suc fuel) w [] left lt =
      search_end (getpwnam2 s fuel name (s.getpwent w).1) (s.getpwent w) (d.getpwent_none w left).0
  getpwnam2-Found (suc fuel) w (p ∷ ps) left lt =
      let r = d.getpwent_some w p ps left in
      search_on (getpwnam2 s fuel name (s.getpwent w).1) p (first_named name ps) (s.getpwent w) r.0
        (getpwnam2-Found fuel (s.getpwent w).1 ps r.1 (omega arith))

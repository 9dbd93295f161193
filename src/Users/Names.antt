-- ===== src/Users/Names.antt =====
-- stage0/tlpi/user_groups/ugid_functions.c: names and numbers there and back.
use stage.Base.{ℕ, ◌≡◌, ◌≢◌, refl, ap, ◌∙◌, some, [], ◌∷◌}
use stage.Base.Int.{ℤ}
use stage.Base.Text.{Bytes}
use stage.Users.{
  Passwd, Group, Lookups, name_of, user_name_from_id, uid_of, user_id_parsed, user_id_from_name,
  group_of, group_name_from_id, gid_of, group_id_parsed, group_id_from_name,
}

-- What the manual pages say: a lookup gives an entry with the key that was looked up.
pub record Documented (l : Lookups) : Type 0 where
  pub getpwuid_lem : (uid : ℕ) (p : Passwd) → l.getpwuid uid ≡ some p → p.pw_uid ≡ uid
  pub getgrgid_lem : (gid : ℕ) (g : Group) → l.getgrgid gid ≡ some g → g.gr_gid ≡ gid

-- `strtol` does not read the whole of the name.
abbrev pub IsWord : Lookups → Bytes → Type 0
IsWord l name = (name ≢ []) × ((l.strtol name).1 ≢ [])

module _ (l : Lookups) where
  user_id_parsed-word :
      (name : Bytes) (r : ℤ × Bytes)
      → r.1 ≢ []
      → user_id_parsed l name r ≡ uid_of l (l.getpwnam name)
  unfolding user_id_parsed
  user_id_parsed-word name (u, []) word = absurd (word refl)
  user_id_parsed-word name (u, c ∷ rest) word = refl

  -- A name that is no number is looked up.
  pub user_id_from_name-word :
      (name : Bytes) → IsWord l name → user_id_from_name l (some name) ≡ uid_of l (l.getpwnam name)
  unfolding user_id_from_name
  user_id_from_name-word [] word = absurd (word.0 refl)
  user_id_from_name-word (c ∷ name) word =
      user_id_parsed-word (c ∷ name) (l.strtol (c ∷ name)) word.1

  group_id_parsed-word :
      (name : Bytes) (r : ℤ × Bytes)
      → r.1 ≢ []
      → group_id_parsed l name r ≡ gid_of l (l.getgrnam name)
  unfolding group_id_parsed
  group_id_parsed-word name (g, []) word = absurd (word refl)
  group_id_parsed-word name (g, c ∷ rest) word = refl

  pub group_id_from_name-word :
      (name : Bytes) → IsWord l name → group_id_from_name l (some name) ≡ gid_of l (l.getgrnam name)
  unfolding group_id_from_name
  group_id_from_name-word [] word = absurd (word.0 refl)
  group_id_from_name-word (c ∷ name) word =
      group_id_parsed-word (c ∷ name) (l.strtol (c ∷ name)) word.1

  -- The number of a user and of a group come back from their names, where the name is found again
  -- and is no number for `strtol`.
  pub id_from_name-name_from_id :
      Documented l
      → (uid gid : ℕ) (p : Passwd) (g : Group) → l.getpwuid uid ≡ some p
      → l.getpwnam p.pw_name ≡ some p
      → IsWord l p.pw_name
      → l.getgrgid gid ≡ some g
      → l.getgrnam g.gr_name ≡ some g
      → IsWord l g.gr_name
      → (user_id_from_name l (user_name_from_id l uid) ≡ uid)
        × (group_id_from_name l (group_name_from_id l gid) ≡ gid)
  unfolding user_name_from_id name_of group_name_from_id group_of uid_of gid_of
  id_from_name-name_from_id d uid gid p g user again word group group_again group_word = (
    ap (λ o. user_id_from_name l (name_of l o)) user
        ∙ user_id_from_name-word p.pw_name word
        ∙ ap (uid_of l) again
        ∙ d.getpwuid_lem uid p user,
    ap (λ o. group_id_from_name l (group_of l o)) group
        ∙ group_id_from_name-word g.gr_name group_word
        ∙ ap (gid_of l) group_again
        ∙ d.getgrgid_lem gid g group,
  )

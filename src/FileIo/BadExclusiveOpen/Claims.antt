-- ===== src/FileIo/BadExclusiveOpen/Claims.antt =====
-- stage0/tlpi/fileio/bad_exclusive_open.c: when the claim to have created the file is true.
use stage.Base.{ℕ, ◌≡◌, refl, ap, ◌∙◌, inl, inr, true, false, Option, none, some, [], ◌∷◌}
use stage.Base.Text.{Bytes}
use stage.FileIo.{Kernel, Documented, opened}
use stage.FileIo.Calls.{returned}
use stage.FileIo.Calls.Single.{open-Holds}
use stage.FileIo.BadExclusiveOpen.{
  checking, closing, creating, claimed, check_flags, create_flags, checked_pc, created_pc, step,
  interleave,
}

module _ {W : Type 0} (k : Kernel W) (l : Documented k ⊥) (p : Bytes) where
  -- A check of a file that is not there.
  check_missing :
      (w : W)
      → l.file w p ≡ none
      → (w' : W) × (step k p checking w ≡ (creating, w')) × ((q : Bytes) → l.file w' q ≡ l.file w q)
  unfolding step checked_pc
  check_missing w missing =
      let (no_fd, same, descs, enoent) = l.open_missing check_flags p w missing refl in
      ((k.sys_open check_flags p w).1, missed (k.sys_open check_flags p w) no_fd enoent, same)
    where
      missed :
          (r : Option ℕ × W)
          → r.0 ≡ none
          → k.is_enoent r.1 ≡ true
          → checked_pc k r ≡ (creating, r.1)
      missed (none, w') no_fd enoent = rw enoent refl
      missed (some fd, w') no_fd enoent = cc

  check_there :
      (w : W) (c : Bytes)
      → l.file w p ≡ some c
      → (fd : ℕ) × (w' : W) × (step k p checking w ≡ (closing fd, w')) × (l.file w' p ≡ some c)
  unfolding step checked_pc opened
  check_there w c there =
      let (fd, w', ran, (free, held, frame)) =
        returned _ (k.sys_open check_flags p w)
          (open-Holds k ⊥ l check_flags p w (inl (c, there))) in
      (fd, w', ap (checked_pc k) ran, held.1 ∙ (rw there refl))

  create :
      (w : W)
      → (w' : W) × (step k p creating w ≡ (claimed, w'))
        × (l.file w' p ≡ some (opened create_flags (l.file w p)))
  unfolding step created_pc
  create w =
      let r =
        returned _ (k.sys_open create_flags p w) (open-Holds k ⊥ l create_flags p w (inr refl)) in
      (r.1, ap (created_pc k) r.2, r.3.1.1)

  -- Where no call fails and the file is not there: when both processes check for it before either
  -- creates it, both say that they have created it exclusively, and it is there, empty.
  pub both_claim :
      (w : W)
      → l.file w p ≡ none
      → (w' : W) × (interleave k p (true ∷ false ∷ true ∷ false ∷ []) (checking, checking, w)
          ≡ (claimed, claimed, w'))
        × (l.file w' p ≡ some [])
  unfolding interleave opened
  both_claim w missing =
      let (w1, e1, f1) = check_missing w missing in
      let (w2, e2, f2) = check_missing w1 (f1 p ∙ missing) in
      let (w3, e3, f3) = create w2 in
      let (w4, e4, f4) = create w3 in
      let empty = f3 ∙ ap (λ o. some (opened create_flags o)) (f2 p ∙ f1 p ∙ missing) in
      (w4, rw (e1, e2, e3, e4) refl, f4 ∙ ap (λ o. some (opened create_flags o)) empty)

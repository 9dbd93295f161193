-- ===== src/FileIo/BadExclusiveOpen/Present.antt =====
-- stage0/tlpi/fileio/bad_exclusive_open.c: two processes and a file that is there.
use stage.Base.{
  some-injective, ℕ, ◌==◌, ◌≡◌, inl, refl, sym, ap, ◌∙◌, if◌then◌else◌, Bool, true, false, Option,
  none, some, List, [], ◌∷◌, ==-swap,
}
use stage.Base.Text.{Bytes}
use stage.FileIo.{Kernel, Documented, Desc, Returns, Succeeds, opened}
use stage.FileIo.Steps.{apart_if}
use stage.FileIo.Calls.Single.{Holds, Frame, open-Holds}
use stage.FileIo.BadExclusiveOpen.{
  Pc, checking, closing, creating, found, claimed, failed, check_flags, checked_pc, step,
  interleave,
}

-- The process has not begun, or it has seen the file.
unfoldable pub IsModest : Pc → Type 0
IsModest checking = Unit
IsModest (closing fd) = Unit
IsModest creating = ⊥
IsModest found = Unit
IsModest claimed = ⊥
IsModest failed = ⊥

unfoldable pub fd_of : Pc → Option ℕ
fd_of checking = none
fd_of (closing fd) = some fd
fd_of creating = none
fd_of found = none
fd_of claimed = none
fd_of failed = none

module _ {W : Type 0} (k : Kernel W) (l : Documented k ⊥) (p c : Bytes) where
  -- The descriptor of a process is open, and not the one of the other.
  abbrev pub Owns : Pc → W → Type 0
  Owns a w = (fd : ℕ) → fd_of a ≡ some fd → (d : Desc) × (l.desc w fd ≡ some d)

  abbrev pub IsApart : Pc → ℕ → Type 0
  IsApart a x = (fd : ℕ) → fd_of a ≡ some fd → (fd == x) ≡ false

  pub record Seen (a : Pc) (w : W) : Type 0 where
    pub modest : IsModest a
    pub owns : Owns a w
    pub there : l.file w p ≡ some c

  -- What a step does, also to a descriptor of the other.
  pub record Effect (a a' : Pc) (w w' : W) : Type 0 where
    pub seen : Seen a' w'
    pub others :
        (x : ℕ) (d : Desc)
        → l.desc w x ≡ some d
        → IsApart a x
        → (l.desc w' x ≡ some d) × IsApart a' x

  check-Effect :
      (w : W) (b : Bytes) (r : Option ℕ × W)
      → b ≡ c
      → Returns ⊥
          (λ fd w'.
            (l.desc w fd ≡ none)
            × Holds k ⊥ l fd (record { path = p; offset = 0; append = false }) b w'
            × Frame k ⊥ l fd p w w')
          r
      → Effect checking (checked_pc k r).0 w (checked_pc k r).1
  unfolding checked_pc IsModest fd_of
  check-Effect w b (none, w') same h = absurd h
  check-Effect w b (some fd, w') same h = record {
    seen = record {
      modest = tt;
      owns = λ y e. (_, ap (l.desc w') (sym (some-injective fd y e)) ∙ h.1.0);
      there = h.1.1 ∙ ap some same;
    };
    others = λ x d open_x apart.
        let other = ==-swap x fd (apart_if (l.desc w) d x fd open_x h.0) in
        (h.2.0 x other ∙ open_x, λ y e. ap (λ z. z == x) (sym (some-injective fd y e)) ∙ other);
  }

  close-Effect :
      (fd : ℕ) (w : W) (r : Bool × W)
      → l.file w p ≡ some c
      → Succeeds ⊥
          (λ w'.
            ((q : Bytes) → l.file w' q ≡ l.file w q)
            × ((x : ℕ) → l.desc w' x ≡ (if fd == x then none else l.desc w x)))
          r
      → Effect (closing fd) found w r.1
  unfolding IsModest fd_of
  close-Effect fd w (false, w') there h = absurd h
  close-Effect fd w (true, w') there h = record {
    seen = record { modest = tt; owns = λ y e. cc; there = h.0 p ∙ there };
    others = λ x d open_x apart. (h.1 x ∙ rw (apart fd refl) open_x, λ y e. cc);
  }

  step-Effect : (a : Pc) (w : W) → Seen a w → Effect a (step k p a w).0 w (step k p a w).1
  unfolding step IsModest fd_of opened
  step-Effect checking w s =
      check-Effect w (opened check_flags (l.file w p)) (k.sys_open check_flags p w)
        (rw s.there refl) (open-Holds k ⊥ l check_flags p w (inl (c, s.there)))
  step-Effect (closing fd) w s =
      close-Effect fd w (k.sys_close fd w) s.there (l.close_lem fd _ w (s.owns fd refl).1)
  step-Effect creating w s = absurd s.modest
  step-Effect found w s = record { seen = s; others = λ x d open_x apart. (open_x, apart) }
  step-Effect claimed w s = absurd s.modest
  step-Effect failed w s = absurd s.modest

  -- Both processes, with a descriptor each.
  pub record Both (s : Pc × Pc × W) : Type 0 where
    pub one : Seen s.0 s.2
    pub other : Seen s.1 s.2
    pub apart : (x : ℕ) → fd_of s.1 ≡ some x → IsApart s.0 x

  interleave-Both : (turns : List Bool) (s : Pc × Pc × W) → Both s → Both (interleave k p turns s)
  unfolding interleave
  interleave-Both [] s both = both
  interleave-Both (true ∷ turns) (a, b, w) both =
      let e = step-Effect a w both.one in
      let kept = λ (x : ℕ) (fd_x : fd_of b ≡ some x).
        e.others x _ (both.other.owns x fd_x).1 (both.apart x fd_x) in
      interleave-Both turns _ (record {
        one = e.seen;
        other = record {
          modest = both.other.modest;
          owns = λ x fd_x. (_, (kept x fd_x).0);
          there = e.seen.there;
        };
        apart = λ x fd_x. (kept x fd_x).1;
      })
  interleave-Both (false ∷ turns) (a, b, w) both =
      let e = step-Effect b w both.other in
      let kept = λ (x : ℕ) (fd_x : fd_of a ≡ some x).
        e.others x _ (both.one.owns x fd_x).1 (λ y fd_y. ==-swap x y (both.apart y fd_y x fd_x)) in
      interleave-Both turns _ (record {
        one = record {
          modest = both.one.modest;
          owns = λ x fd_x. (_, (kept x fd_x).0);
          there = e.seen.there;
        };
        other = e.seen;
        apart = λ x fd_x y fd_y. ==-swap x y ((kept y fd_y).1 x fd_x);
      })

  abbrev pub Unclaimed : Pc × Pc × W → Type 0
  Unclaimed (a, b, w) = IsModest a × IsModest b × (l.file w p ≡ some c)

  Both-Unclaimed : (s : Pc × Pc × W) → Both s → Unclaimed s
  Both-Unclaimed (a, b, w) both = (both.one.modest, both.other.modest, both.one.there)

  -- Where no call fails and the file is there, neither of two processes creates it or says so, in
  -- any interleaving of their calls, and the file keeps its content.
  pub interleave-Unclaimed :
      (turns : List Bool) (w : W)
      → l.file w p ≡ some c
      → Unclaimed (interleave k p turns (checking, checking, w))
  unfolding IsModest fd_of
  interleave-Unclaimed turns w there =
      let seen : Seen checking w = record { modest = tt; owns = λ x e. cc; there = there } in
      Both-Unclaimed (interleave k p turns (checking, checking, w)) (
        interleave-Both turns (checking, checking, w)
          (record { one = seen; other = seen; apart = λ x e. cc }))

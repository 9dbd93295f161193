-- ===== src/FileIo/Calls/Single.antt =====
-- The calls on one descriptor, and what they leave alone.
use stage.Base.{
  ℕ, suc, ◌+◌, ◌==◌, ◌≡◌, ◌≤◌, ◌⊎◌, sym, ap, ◌∙◌, true, false, some, none, [], ◌∷◌, ◌++◌, length,
  drop, Bool-cases, inl, inr,
}
use stage.Base.Int.{ℤ, pos}
use stage.Base.Text.{Bytes}
use stage.FileIo.{
  Kernel, Documented, Desc, Flags, Whence, Returns, bytes_eq, overwrite, write_offset, seek_target,
  opened,
}
use stage.FileIo.Steps.{store_self, store-other, assign_self, assign-other, bytes_eq_sound}
use stage.FileIo.Calls.{Returns-weaken}

module _ {W : Type 0} (k : Kernel W) (F : Type 0) (l : Documented k F) where
  -- The descriptor `fd` is `d`, and the content of its file is `c`.
  abbrev pub Holds : ℕ → Desc → Bytes → W → Type 0
  Holds fd d c w = (l.desc w fd ≡ some d) × (l.file w d.path ≡ some c)

  -- Other descriptors of other files stay as they are, and so do the other files.
  abbrev pub Frame : ℕ → Bytes → W → W → Type 0
  Frame fd p w w' =
      ((x : ℕ) → (fd == x) ≡ false → l.desc w' x ≡ l.desc w x)
      × ((q : Bytes) → bytes_eq p q ≡ false → l.file w' q ≡ l.file w q)

  -- Other descriptors stay as they are, and so do all files.
  abbrev pub Still : ℕ → W → W → Type 0
  Still fd w w' =
      ((x : ℕ) → (fd == x) ≡ false → l.desc w' x ≡ l.desc w x)
      × ((q : Bytes) → l.file w' q ≡ l.file w q)

  pub Still-Holds :
      (fd x : ℕ) (d : Desc) (c : Bytes) (w w' : W)
      → Still fd w w'
      → (fd == x) ≡ false
      → Holds x d c w
      → Holds x d c w'
  Still-Holds fd x d c w w' f apart h = (f.0 x apart ∙ h.0, f.1 d.path ∙ h.1)

  pub Frame-Holds :
      (fd x : ℕ) (p : Bytes) (d : Desc) (c : Bytes) (w w' : W)
      → Frame fd p w w'
      → (fd == x) ≡ false
      → bytes_eq p d.path ≡ false
      → Holds x d c w
      → Holds x d c w'
  Frame-Holds fd x p d c w w' f apart differ h = (f.0 x apart ∙ h.0, f.1 d.path differ ∙ h.1)

  -- Where the file has the same content too, no file differs.
  pub Frame-same :
      (fd : ℕ) (p c : Bytes) (w w' : W)
      → Frame fd p w w'
      → l.file w p ≡ some c
      → l.file w' p ≡ some c
      → (q : Bytes) → l.file w' q ≡ l.file w q
  Frame-same fd p c w w' f before after q = elim (Bool-cases (bytes_eq p q)) [
    | inl hit ↦
        ap (l.file w') (sym (bytes_eq_sound p q hit))
        ∙ after
        ∙ sym before
        ∙ ap (l.file w) (bytes_eq_sound p q hit)
    | inr miss ↦ f.1 q miss
  ]

  module _ (fd : ℕ) (d : Desc) (c : Bytes) (w : W) (h : Holds fd d c w) where
    pub read-Holds :
        (n : ℕ)
        → Returns F
            (λ s w'.
              ((u : Bytes) × (drop d.offset c ≡ s ++ u))
              × (length s ≤ suc n)
              × (s ≡ [] → drop d.offset c ≡ [])
              × Holds fd (record d { offset = d.offset + length s }) c w'
              × Still fd w w')
            (k.sys_read fd (suc n) w)
    read-Holds n =
        Returns-weaken k F l _ _ (k.sys_read fd (suc n) w) (l.read_lem fd n d c w h.0 h.1)
          (λ s w' r. (
            r.0,
            r.1,
            r.2,
            (r.4 fd ∙ assign_self (l.desc w) fd _, r.3 d.path ∙ h.1),
            (λ x apart. r.4 x ∙ assign-other (l.desc w) fd _ x apart, λ q. r.3 q),
          ))

    pub write-Holds :
        (b : ℕ) (s : Bytes)
        → Returns F
            (λ n w'.
              (n ≤ length (b ∷ s))
              × ((n ≡ length (b ∷ s)) ⊎ F)
              × (n ≡ length (b ∷ s)
                  → Holds fd
                      (record d { offset = write_offset d c + n })
                      (overwrite c (write_offset d c) (b ∷ s))
                      w'
                    × Frame fd d.path w w'))
            (k.sys_write fd (b ∷ s) w)
    write-Holds b s =
        Returns-weaken k F l _ _ (k.sys_write fd (b ∷ s) w) (l.write_lem fd b d c s w h.0 h.1)
          (λ n w' r. (
            r.0,
            r.1,
            λ e. (
              (
                (r.2 e).1 fd ∙ assign_self (l.desc w) fd _,
                (r.2 e).0 d.path ∙ store_self (l.file w) d.path _,
              ),
              (
                λ x apart. (r.2 e).1 x ∙ assign-other (l.desc w) fd _ x apart,
                λ q differ. (r.2 e).0 q ∙ store-other (l.file w) d.path _ q differ,
              ),
            ),
          ))

    pub seek-Holds :
        (t : ℕ) (offset : ℤ) (whence : Whence)
        → seek_target d c offset whence ≡ pos t
        → Returns F
            (λ r w'. (r ≡ t) × Holds fd (record d { offset = t }) c w' × Still fd w w')
            (k.sys_lseek fd offset whence w)
    seek-Holds t offset whence e =
        Returns-weaken k F l _ _ (k.sys_lseek fd offset whence w)
          (l.seek_lem fd t d c offset whence w h.0 h.1 e)
          (λ r w' g. (
            g.0,
            (g.2 fd ∙ assign_self (l.desc w) fd _, g.1 d.path ∙ h.1),
            (λ x apart. g.2 x ∙ assign-other (l.desc w) fd _ x apart, λ q. g.1 q),
          ))

    pub read_none-Holds :
        Returns F (λ s w'. (s ≡ []) × Holds fd d c w' × Still fd w w') (k.sys_read fd 0 w)
    read_none-Holds =
        Returns-weaken k F l _ _ (k.sys_read fd 0 w) (l.read_none fd d w h.0)
          (λ s w' r. (r.0, (r.2 fd ∙ h.0, r.1 d.path ∙ h.1), (λ x apart. r.2 x, λ q. r.1 q)))

    pub write_none-Holds :
        Returns F (λ n w'. (n ≡ 0) × Holds fd d c w' × Still fd w w') (k.sys_write fd [] w)
    write_none-Holds =
        Returns-weaken k F l _ _ (k.sys_write fd [] w) (l.write_none fd d w h.0)
          (λ n w' r. (r.0, (r.2 fd ∙ h.0, r.1 d.path ∙ h.1), (λ x apart. r.2 x, λ q. r.1 q)))

  -- A file that is opened stands at its start.
  pub open-Holds :
      (f : Flags) (p : Bytes) (w : W)
      → ((c : Bytes) × (l.file w p ≡ some c)) ⊎ (f.create ≡ true)
      → Returns F
          (λ fd w'.
            (l.desc w fd ≡ none)
            × Holds fd
                (record { path = p; offset = 0; append = f.append })
                (opened f (l.file w p))
                w'
            × Frame fd p w w')
          (k.sys_open f p w)
  open-Holds f p w may =
      Returns-weaken k F l _ _ (k.sys_open f p w) (l.open_lem f p w may) (λ fd w' r. (
        r.0,
        (r.2 fd ∙ assign_self (l.desc w) fd _, r.1 p ∙ store_self (l.file w) p _),
        (
          λ x apart. r.2 x ∙ assign-other (l.desc w) fd _ x apart,
          λ q differ. r.1 q ∙ store-other (l.file w) p _ q differ,
        ),
      ))

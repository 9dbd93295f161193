-- ===== src/FileIo/Calls.antt =====
-- `read` and `write` of a file that is cut in two at the offset.
pub mod Single
use stage.Base.{
  ℕ, zero, suc, ◌+◌, ◌≡◌, ◌≤◌, ◌⊎◌, refl, sym, ap, ◌∙◌, true, false, some, none, Option, Bool, [],
  ◌∷◌, ◌++◌, length, drop, length-append, arith,
}
use stage.Base.Text.{Bytes}
use stage.FileIo.{
  Kernel, Documented, Desc, Returns, Succeeds, overwrite, write_offset, store, assign,
}

pub drop-append : (before rest : Bytes) → drop (length before) (before ++ rest) ≡ rest
drop-append [] rest = refl
drop-append (x ∷ before) rest = drop-append before rest

pub overwrite-append :
    (before rest s : Bytes)
    → overwrite (before ++ rest) (length before) s ≡ (before ++ s) ++ drop (length s) rest
unfolding overwrite
overwrite-append [] rest s = refl
overwrite-append (x ∷ before) rest s = ap (λ t. x ∷ t) (overwrite-append before rest s)

-- A descriptor without O_APPEND, behind `before`.
abbrev pub behind : Bytes → Bytes → Desc
behind p before = record { path = p; offset = length before; append = false }

-- A call that cannot fail returns.
pub returned :
    {W A : Type 0} (P : A → W → Type 0) (r : Option A × W)
    → Returns ⊥ P r
    → (a : A) × (w : W) × (r ≡ (some a, w)) × P a w
returned P (none, w) h = absurd h
returned P (some a, w) h = (a, w, refl, h)

pub Succeeds-weaken :
    {W : Type 0} (P Q : W → Type 0) (r : Bool × W)
    → Succeeds ⊥ P r
    → ((w : W) → P w → Q w)
    → Succeeds ⊥ Q r
Succeeds-weaken P Q (false, w) h next = h
Succeeds-weaken P Q (true, w) h next = next w h

module _ {W : Type 0} (k : Kernel W) (F : Type 0) (l : Documented k F) where
  pub Returns-weaken :
      {A : Type 0} (P Q : A → W → Type 0) (r : Option A × W)
      → Returns F P r
      → ((a : A) (w : W) → P a w → Q a w)
      → Returns F Q r
  Returns-weaken P Q (none, w) h next = h
  Returns-weaken P Q (some a, w) h next = next a w h

  pub read_behind :
      (fd n : ℕ) (p before rest : Bytes) (w : W)
      → l.desc w fd ≡ some (behind p before)
      → l.file w p ≡ some (before ++ rest)
      → Returns F
          (λ s w'.
            ((u : Bytes) × (rest ≡ s ++ u))
            × (length s ≤ suc n)
            × (s ≡ [] → rest ≡ [])
            × ((q : Bytes) → l.file w' q ≡ l.file w q)
            × ((x : ℕ) → l.desc w' x ≡ assign (l.desc w) fd (behind p (before ++ s)) x))
          (k.sys_read fd (suc n) w)
  read_behind fd n p before rest w at there =
      Returns-weaken _ _ (k.sys_read fd (suc n) w) (l.read_lem fd n _ (before ++ rest) w at there)
        (λ s w' h. (
          (h.0.0, sym (drop-append before rest) ∙ h.0.1),
          h.1,
          λ e. sym (drop-append before rest) ∙ h.2 e,
          h.3,
          λ x.
              h.4 x
              ∙ ap (λ i. assign (l.desc w) fd (record { path = p; offset = i; append = false }) x)
                  (sym (length-append before s)),
        ))

  pub write_behind :
      (fd b : ℕ) (p before rest s : Bytes) (w : W)
      → l.desc w fd ≡ some (behind p before)
      → l.file w p ≡ some (before ++ rest)
      → Returns F
          (λ n w'.
            (n ≤ length (b ∷ s))
            × ((n ≡ length (b ∷ s)) ⊎ F)
            × (n ≡ length (b ∷ s)
                → ((q : Bytes)
                    → l.file w' q ≡ store (l.file w) p ((before ++ (b ∷ s)) ++ drop n rest) q)
                  × ((x : ℕ)
                      → l.desc w' x ≡ assign (l.desc w) fd (behind p (before ++ (b ∷ s))) x)))
          (k.sys_write fd (b ∷ s) w)
  unfolding write_offset
  write_behind fd b p before rest s w at there =
      Returns-weaken _ _ (k.sys_write fd (b ∷ s) w)
        (l.write_lem fd b _ (before ++ rest) s w at there)
        (λ n w' h. (
          h.0,
          h.1,
          λ e. (
            λ q.
                (h.2 e).0 q
                ∙ ap (λ t. store (l.file w) p t q)
                    (overwrite-append before rest (b ∷ s)
                      ∙ ap (λ m. (before ++ (b ∷ s)) ++ drop m rest) (sym e)),
            λ x.
                (h.2 e).1 x
                ∙ ap (λ i. assign (l.desc w) fd (record { path = p; offset = i; append = false }) x)
                    (ap (λ m. length before + m) e ∙ sym (length-append before (b ∷ s))),
          ),
        ))

-- ===== src/Env/Assign.antt =====
-- stage0/tlpi/proc/setenv.c: what `setenv2` does to the environment.
use mathlib.Core.List.{append_assoc}
use stage.Base.{◌≡◌, ◌⊎◌, inl, inr, refl, ◌&&◌, ◌++◌, ◌∷◌, not, if◌then◌else◌, Bool, true, false}
use stage.Base.Int.{ℤ, pos, negsuc, ltb_ℤ, eq_ℤ}
use stage.Base.Text.{Bytes}
use stage.FileIo.{store}
use stage.Env.{Environ, Documented, Calls, Puts, is_name, is_set, put_result, setenv2}

-- A test with what holds in both of its branches.
choose :
    {A : Type 0} (P : A → Type 0) (b : Bool) (x y : A)
    → (b ≡ true → P x)
    → (b ≡ false → P y)
    → P (if b then x else y)
choose P true x y yes_x no_y = yes_x refl
choose P false x y yes_x no_y = no_y refl

-- One of the calls has failed; `kept` says that `putenv` is not called, and `r` is its result.
abbrev pub Failed : Calls → Bool → ℤ → Type 0
Failed c kept r =
    (ltb_ℤ c.measured (pos 0) ≡ true)
    ⊎ (not c.allocated ≡ true)
    ⊎ (not (eq_ℤ c.printed c.measured) ≡ true)
    ⊎ (kept ≡ false) × (eq_ℤ r (pos 0) ≡ false)

module _ {E : Type 0} (n : Environ E) (c : Calls) (name value : Bytes) (overwrite : Bool)
    (e : E) where
  -- `name` is set and not to be overwritten.
  abbrev pub kept : Bool
  kept = not overwrite && is_set (n.getenv e name)

  -- Status 0, and `key` has become `text`, or nothing has changed where `name` was set and is not
  -- to be overwritten; or status -1, a call that has failed, and the same environment.
  abbrev pub Assigns : Bytes → Bytes → ℤ × E → Type 0
  Assigns key text (r, e') =
      ((r ≡ pos 0)
        × ((q : Bytes)
            → is_name q ≡ true
            → n.getenv e' q ≡ (if kept then n.getenv e q else store (n.getenv e) key text q)))
      ⊎ ((r ≡ negsuc 0) × (e' ≡ e) × Failed c kept (n.putenv (name ++ (b'=' ∷ value)) e).0)

  put_result-Assigns :
      (key text : Bytes) (p : ℤ × E)
      → (eq_ℤ p.0 (pos 0) ≡ false → Failed c kept (n.putenv (name ++ (b'=' ∷ value)) e).0)
      → kept ≡ false
      → Puts n key text e p
      → Assigns key text (put_result n p)
  unfolding put_result Puts
  put_result-Assigns key text (r, e') fails free (inl (done, set)) =
      rw done (inl (refl, λ q named. rw free (set q named)))
  put_result-Assigns key text (r, e') fails free (inr (miss, same)) =
      rw miss (inr (refl, same, fails miss))

  setenv2-Assigns_if :
      (key text : Bytes)
      → Puts n key text e (n.putenv (name ++ (b'=' ∷ value)) e)
      → Assigns key text (setenv2 n c name value overwrite e)
  unfolding setenv2
  setenv2-Assigns_if key text puts =
      choose (Assigns key text) (ltb_ℤ c.measured (pos 0)) _ _
        (λ below. inr (refl, refl, inl below))
        (λ _.
          choose (Assigns key text) (not c.allocated) _ _ (λ full. inr (refl, refl, inr (inl full)))
            (λ _.
              choose (Assigns key text) (not (eq_ℤ c.printed c.measured)) _ _
                (λ short. inr (refl, refl, inr (inr (inl short))))
                (λ _.
                  choose (Assigns key text) kept _ _ (λ set. inl (refl, λ q _. rw set refl))
                    (λ free.
                      put_result-Assigns key text (n.putenv (name ++ (b'=' ∷ value)) e)
                        (λ miss. inr (inr (inr (free, miss)))) free puts))))

  -- For a name that is not empty and has no '=', `setenv2` returns 0 and the variable has the value,
  -- or keeps the one it had where `overwrite` is 0, and no other variable changes; or it returns -1
  -- because a call has failed, and the environment stays as it was.
  pub setenv2-Assigns :
      Documented n → is_name name ≡ true → Assigns name value (setenv2 n c name value overwrite e)
  setenv2-Assigns l plain = setenv2-Assigns_if name value (l.putenv_lem name value e plain)

-- A name with '=' in it, but not at its start, is not refused: `setenv2` returns 0 and the variable
-- in front of the first '=' has become the rest of the name, '=' and the value, or nothing has changed where `getenv`
-- finds the whole name and `overwrite` is 0; or it returns -1 because a call has failed, and the
-- environment stays as it was.
pub setenv2-Assigns_equals :
    {E : Type 0} (n : Environ E) (c : Calls) (front back value : Bytes) (overwrite : Bool) (e : E)
    → Documented n
    → is_name front ≡ true
    → Assigns n c
        (front ++ (b'=' ∷ back))
        value
        overwrite
        e
        front
        (back ++ (b'=' ∷ value))
        (setenv2 n c (front ++ (b'=' ∷ back)) value overwrite e)
setenv2-Assigns_equals n c front back value overwrite e l plain =
    setenv2-Assigns_if n c (front ++ (b'=' ∷ back)) value overwrite e front (back ++ (b'=' ∷ value))
      (rw (append_assoc front (b'=' ∷ back) (b'=' ∷ value))
        (l.putenv_lem front (back ++ (b'=' ∷ value)) e plain))

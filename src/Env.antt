-- ===== src/Env.antt =====
-- stage0/tlpi/proc/setenv.c: `setenv2`, over an interface of getenv and putenv. What is there of
-- `unsetenv2` is in Env/Spider.antt.
pub mod Assign
pub mod Spider
pub mod Programs
mod Tests
use stage.Base.{
  ◌≡◌, ◌⊎◌, ◌==◌, ◌&&◌, ◌++◌, ◌∷◌, List, [], not, if◌then◌else◌, Bool, true, false, Option, none,
  some,
}
use stage.Base.Int.{ℤ, pos, negsuc, ltb_ℤ, eq_ℤ}
use stage.Base.Text.{Bytes}
use stage.FileIo.{store}

unfoldable pub has_equals : Bytes → Bool
has_equals [] = false
has_equals (c ∷ s) = if c == b'=' then true else has_equals s

-- The two calls, on an environment; `putenv` gives its result too.
pub record Environ (E : Type 0) : Type 0 where
  pub getenv : E → Bytes → Option Bytes
  pub putenv : Bytes → E → ℤ × E

-- A name that a variable can have: not empty, and without '='.
unfoldable pub is_name : Bytes → Bool
unfolding has_equals
is_name [] = false
is_name (c ∷ s) = not (has_equals (c ∷ s))

-- The result of `putenv` of "name=value", where the name ends at the first '=': what `getenv` then
-- finds for each name that a variable can have, or a failure.
unfoldable pub Puts : {E : Type 0} → Environ E → Bytes → Bytes → E → ℤ × E → Type 0
Puts n name value e (r, e') =
    ((r ≡ pos 0)
      × ((q : Bytes) → is_name q ≡ true → n.getenv e' q ≡ store (n.getenv e) name value q))
    ⊎ ((eq_ℤ r (pos 0) ≡ false) × (e' ≡ e))

pub record Documented {E : Type 0} (n : Environ E) : Type 0 where
  pub putenv_lem :
      (name value : Bytes) (e : E)
      → is_name name ≡ true
      → Puts n name value e (n.putenv (name ++ (b'=' ∷ value)) e)

-- What the other calls of `setenv2` return: the two of `snprintf`, and whether `malloc` succeeds.
pub record Calls : Type 0 where
  pub measured : ℤ
  pub allocated : Bool
  pub printed : ℤ

unfoldable pub is_set : Option Bytes → Bool
is_set none = false
is_set (some v) = true

module _ {E : Type 0} (n : Environ E) where
  -- The test of `putenv`.
  unfoldable pub put_result : ℤ × E → ℤ × E
  put_result (r, e) = if eq_ℤ r (pos 0) then (pos 0, e) else (negsuc 0, e)

  unfoldable pub setenv2 : Calls → Bytes → Bytes → Bool → E → ℤ × E
  setenv2 c name value overwrite e =
      if ltb_ℤ c.measured (pos 0)
      then (negsuc 0, e)
      else if not c.allocated
      then (negsuc 0, e)
      else if not (eq_ℤ c.printed c.measured)
      then (negsuc 0, e)
      else if not overwrite && is_set (n.getenv e name)
      then (pos 0, e)
      else put_result (n.putenv (name ++ (b'=' ∷ value)) e)

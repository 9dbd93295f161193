-- ===== src/Env/Programs.antt =====
-- stage0/tlpi/proc/modify_env.c, display_env.c and necho.c: programs that show the environment and the
-- arguments.
use stage.Base.{
  ℕ, suc, ◌≡◌, refl, if◌then◌else◌, Bool, true, false, Option, none, List, [], ◌∷◌, ◌++◌,
}
use stage.Base.Int.{ℤ, pos, negsuc, eq_ℤ}
use stage.Base.Text.{Bytes, codes, print_nat, print_int}

-- The calls on an environment, and its strings.
pub record Strings (E : Type 0) : Type 0 where
  pub environ : E → List Bytes
  pub getenv : E → Bytes → Option Bytes
  pub clearenv : E → E
  pub putenv : Bytes → E → ℤ × E
  pub setenv : Bytes → Bytes → Bool → E → ℤ × E
  pub unsetenv : Bytes → E → E

-- The loop over the strings of the environment, each with `puts`.
unfoldable pub put_strings : List Bytes → Bytes
put_strings [] = []
put_strings (s ∷ strings) = s ++ codes "\n" ++ put_strings strings

module _ {E : Type 0} (n : Strings E) where
  -- `main` of display_env.c: its status and what it prints.
  unfoldable pub display_env : E → ℕ × Bytes
  display_env e = (0, put_strings (n.environ e))

  -- The loop over the arguments; `false` is a call that has failed.
  unfoldable pub put_all : List Bytes → E → Bool × E
  put_all [] e = (true, e)
  put_all (arg ∷ args) e =
      let (r, e') = n.putenv arg e in
      let rest = put_all args e' in if eq_ℤ r (pos 0) then rest else (false, e')

  -- Behind `setenv`; `true` is its result -1.
  unfoldable pub show_env : Bool → E → ℕ × Bytes × E
  show_env true e = (1, [], e)
  show_env false e = let e' = n.unsetenv (codes "BYE") e in (0, put_strings (n.environ e'), e')

  unfoldable pub greet : Bool × E → ℕ × Bytes × E
  greet (false, e) = (1, [], e)
  greet (true, e) =
      let (r, e') = n.setenv (codes "GREET") (codes "Hello world") false e in
      show_env (eq_ℤ r (negsuc 0)) e'

  -- `main` of modify_env.c: its status, what it prints, and the environment.
  unfoldable pub modify_env : List Bytes → E → ℕ × Bytes × E
  modify_env args e = greet (put_all args (n.clearenv e))

  -- Status 0 goes with an environment without BYE, whose strings are what was printed.
  abbrev pub IsShown : ℕ × Bytes × E → Type 0
  IsShown (status, out, e) =
      status ≡ 0 → (n.getenv e (codes "BYE") ≡ none) × (out ≡ put_strings (n.environ e))

  module _ (unset : (name : Bytes) (e : E) → n.getenv (n.unsetenv name e) name ≡ none) where
    show_env-IsShown : (failed : Bool) (e : E) → IsShown (show_env failed e)
    unfolding show_env
    show_env-IsShown true e = λ done. cc
    show_env-IsShown false e = λ done. (unset (codes "BYE") e, refl)

    greet-IsShown : (r : Bool × E) → IsShown (greet r)
    unfolding greet
    greet-IsShown (false, e) = λ done. cc
    greet-IsShown (true, e) =
        show_env-IsShown
          (eq_ℤ (n.setenv (codes "GREET") (codes "Hello world") false e).0 (negsuc 0))
          (n.setenv (codes "GREET") (codes "Hello world") false e).1

    -- Where `unsetenv` removes a variable, and `modify_env` ends with status 0, BYE is not set,
    -- whatever the arguments define, and it has printed the strings of the environment that is left.
    pub modify_env-IsShown : (args : List Bytes) (e : E) → IsShown (modify_env args e)
    unfolding modify_env
    modify_env-IsShown args e = greet-IsShown (put_all args (n.clearenv e))

-- The loop over the arguments of necho.c, from a number on.
unfoldable pub echo_args : ℕ → List Bytes → Bytes
echo_args j [] = []
echo_args j (arg ∷ args) =
    codes "argv[" ++ print_nat j ++ codes "] = " ++ arg ++ codes "\n" ++ echo_args (suc j) args

-- `main` of necho.c: what it prints, by the limit that `sysconf` gives and all arguments.
unfoldable pub necho : ℤ → List Bytes → Bytes
necho arg_max args = codes "ARG_MAX: " ++ print_int arg_max ++ codes " bytes.\n" ++ echo_args 0 args

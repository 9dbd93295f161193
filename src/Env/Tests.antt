-- ===== src/Env/Tests.antt =====
-- The theorems about stage0/tlpi/proc/setenv.c on a concrete environment, which is a function.
use stage.Base.{
  ◌≡◌, refl, ◌==◌, ◌++◌, ◌∷◌, [], inl, arith, if◌then◌else◌, true, false, Bool-cases, Option, none,
  some, ap, sym, ◌∙◌, inr,
}
use stage.Base.Int.{ℤ, pos}
use stage.Base.Text.{Bytes, codes}
use stage.Base.Text.Equal.{bytes_eq}
use stage.FileIo.{store}
use stage.Env.{Environ, Documented, Calls, Puts, has_equals, is_name, setenv2}
use stage.Env.Spider.{
  invalid, unsetenv2_start, setenv_main, HoldsAll, third, SomeFails, setenv_main-HoldsAll,
}
use stage.Env.Assign.{Assigns, setenv2-Assigns, setenv2-Assigns_equals}

unfoldable split : Bytes → Bytes × Bytes
split [] = ([], [])
split (c ∷ s) = let (name, value) = split s in if c == b'=' then ([], s) else (c ∷ name, value)

split-equals :
    (name value : Bytes) → has_equals name ≡ false → split (name ++ (b'=' ∷ value)) ≡ (name, value)
unfolding split has_equals
split-equals [] value plain = refl
split-equals (c ∷ name) value plain = elim (Bool-cases (c == b'=')) [
  | inl hit ↦ absurd (differ (sym (ap (λ b. if b then true else has_equals name) hit) ∙ plain))
  | inr miss ↦
      rw
        (
          miss,
          split-equals name value
              (sym (ap (λ b. if b then true else has_equals name) miss) ∙ plain),
        )
        refl
]
  where
    differ : true ≡ false → ⊥
    differ e = cc

abbrev variables : Environ (Bytes → Option Bytes)
variables = record { getenv = λ e. e; putenv = λ s e. (pos 0, store e (split s).0 (split s).1) }

name-plain : (name : Bytes) → is_name name ≡ true → has_equals name ≡ false
unfolding is_name has_equals
name-plain [] e = cc
name-plain (c ∷ s) e = ground arith

variables-Documented : Documented variables
unfolding Puts
variables-Documented = record {
  putenv_lem = λ name value e named.
      inl (refl, λ q _. rw (split-equals name value (name-plain name named)) refl);
}

abbrev empty : Bytes → Option Bytes
empty name = none

-- Every call succeeds on a string of ten bytes.
abbrev calls : Calls
calls = record { measured = pos 10; allocated = true; printed = pos 10 }

setenv2-Assigns_example :
    Assigns variables calls
      (codes "SPIDER")
      (codes "MAN")
      false
      empty
      (codes "SPIDER")
      (codes "MAN")
      (setenv2 variables calls (codes "SPIDER") (codes "MAN") false empty)
unfolding is_name
setenv2-Assigns_example =
    setenv2-Assigns variables calls (codes "SPIDER") (codes "MAN") false empty variables-Documented
      refl

setenv2-Assigns_equals_example :
    Assigns variables calls
      (codes "SPI=DER")
      (codes "MA")
      true
      empty
      (codes "SPI")
      (codes "DER=MA")
      (setenv2 variables calls (codes "SPI=DER") (codes "MA") true empty)
unfolding is_name
setenv2-Assigns_equals_example =
    setenv2-Assigns_equals variables calls (codes "SPI") (codes "DER") (codes "MA") true empty
      variables-Documented refl

-- An `unsetenv2` that removes the variable.
abbrev removes : Bytes → (Bytes → Option Bytes) → ℤ × (Bytes → Option Bytes)
removes = λ name e. (pos 0, λ q. if bytes_eq name q then none else e q)

setenv_main-HoldsAll_example :
    HoldsAll variables removes
      (SomeFails variables removes calls calls calls empty)
      (third variables removes calls calls calls empty)
      (setenv_main variables removes calls calls calls empty)
setenv_main-HoldsAll_example =
    setenv_main-HoldsAll variables removes calls calls calls empty variables-Documented refl

refuses_equals : unsetenv2_start calls (some (codes "A=B")) ≡ invalid
unfolding unsetenv2_start has_equals
refuses_equals = refl

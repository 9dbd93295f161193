-- ===== src/Heron.antt =====
-- stage0/modern_c/control/heron.c: the reciprocal of a number by Heron's approximation.
-- The type `double`, its arithmetic, `strtod` and the formats of `printf` are parameters.
pub mod Endless
mod Tests
use stage.Base.{
  ℕ, zero, suc, ◌||◌, if◌then◌else◌, Bool, true, false, Option, none, some, ◌>>=◌, List, [], ◌∷◌,
  ◌++◌,
}
use stage.Base.Text.{Bytes, codes}

-- The constants and the operations; `tiny` is 0x1P-24.
pub record Doubles (A : Type 0) : Type 0 where
  pub one : A
  pub two : A
  pub half : A
  pub tiny : A
  pub add : A → A → A
  pub sub : A → A → A
  pub mul : A → A → A
  pub lt : A → A → Bool

-- `strtod`, where `argv[i] != end`; "%g", "%.5e" and "%.12f".
pub record Formats (A : Type 0) : Type 0 where
  pub strtod : Bytes → Option A
  pub general : A → Bytes
  pub scientific : A → Bytes
  pub fixed : A → Bytes

module _ {A : Type 0} (d : Doubles A) where
  abbrev pub eps1m01 : A
  eps1m01 = d.sub d.one d.half

  abbrev pub eps1p01 : A
  eps1p01 = d.add d.one d.half

  abbrev pub eps1m24 : A
  eps1m24 = d.sub d.one d.tiny

  abbrev pub eps1p24 : A
  eps1p24 = d.add d.one d.tiny

  -- What one round of the first loop makes of `x`; `none` is `break`.
  unfoldable pub guess_step : A → A → Option A
  guess_step a x =
      let prod = d.mul a x in
      if d.lt prod eps1m01
      then some (d.mul x d.two)
      else if d.lt eps1p01 prod
      then some (d.mul x d.half)
      else none

  -- The first loop: the numbers that it prints, and `x` behind it, or none where the fuel runs out.
  unfoldable pub guess : ℕ → A → A → Option (List A × A)
  guess zero a x = none
  guess (suc fuel) a x = elim (guess_step a x) [
    | none ↦ some (x ∷ [], x)
    | some x' ↦ guess fuel a x' >>= λ (r : List A × A). some (x ∷ r.0, r.1)
  ]

  unfoldable pub refine_step : A → A → Option A
  refine_step a x =
      let prod = d.mul a x in
      if d.lt prod eps1m24 || d.lt eps1p24 prod then some (d.mul x (d.sub d.two prod)) else none

  -- The second loop.
  unfoldable pub refine : ℕ → A → A → Option A
  refine zero a x = none
  refine (suc fuel) a x = elim (refine_step a x) [ none ↦ some x | some x' ↦ refine fuel a x' ]

  -- The two loops for one number, with fuel for each: the numbers printed, and the result.
  unfoldable pub approximate : ℕ → ℕ → A → Option (List A × A)
  approximate fuel1 fuel2 a = do (xs, x) ← guess fuel1 a d.one; y ← refine fuel2 a x; some (xs, y)

  module _ (f : Formats A) (fuel1 fuel2 : ℕ) where
    unfoldable pub guess_lines : List A → Bytes
    guess_lines [] = []
    guess_lines (x ∷ xs) = codes "x=" ++ (f.scientific x ++ (codes "\n" ++ guess_lines xs))

    unfoldable pub result_line : A → A → Bytes
    result_line a x =
        codes "heron: a="
        ++ (f.scientific a
            ++ (codes ",\tx="
                ++ (f.scientific x ++ (codes ",\ta*x=" ++ (f.fixed (d.mul a x) ++ codes "\n")))))

    -- The body of the loop over the arguments: what is printed.
    unfoldable pub one_argument : Bytes → Option Bytes
    one_argument arg = elim (f.strtod arg) [
      | none ↦ some (codes "cannot convert " ++ (arg ++ codes " into double.\n"))
      | some a ↦ approximate fuel1 fuel2 a >>= λ (r : List A × A).
          some (guess_lines r.0 ++ result_line a r.1)
    ]

    unfoldable pub all_arguments : List Bytes → Option Bytes
    all_arguments [] = some []
    all_arguments (arg ∷ args) = do
      out ← one_argument arg
      rest ← all_arguments args
      some (out ++ rest)

    -- `main`, with the arguments behind the program's name.
    unfoldable pub heron_main : List Bytes → Option Bytes
    heron_main args = do
      out ← all_arguments args
      some (codes "eps1mo1 = " ++ (f.general eps1m01 ++ (codes "\n" ++ out)))

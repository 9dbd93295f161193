-- ===== src/Heron/Endless.antt =====
-- stage0/modern_c/control/heron.c for a negative number: the first loop does not end.
use stage.Base.{ℕ, zero, suc, ◌≡◌, refl, true, Option, none, some, ◌>>=◌, List, [], ◌∷◌, ◌++◌}
use stage.Base.Text.{Bytes}
use stage.Heron.{
  Doubles, Formats, eps1m01, guess_step, guess, approximate, one_argument, all_arguments,
  heron_main,
}

-- The rules for signs, which hold for `double` with its infinities and its zero of either sign:
-- twice a positive number is positive, and a negative number times a positive one is below each
-- positive number.
pub record Signs {A : Type 0} (d : Doubles A) : Type 0 where
  pub nought : A
  pub one_pos : d.lt nought d.one ≡ true
  pub low_pos : d.lt nought (d.sub d.one d.half) ≡ true
  pub twice_pos : (x : A) → d.lt nought x ≡ true → d.lt nought (d.mul x d.two) ≡ true
  pub mul_neg :
      (a x y : A)
      → d.lt a nought ≡ true
      → d.lt nought x ≡ true
      → d.lt nought y ≡ true
      → d.lt (d.mul a x) y ≡ true

module _ {A : Type 0} (d : Doubles A) (s : Signs d) (a : A)
    (negative : d.lt a s.nought ≡ true) where
  guess-none : (fuel : ℕ) (x : A) → d.lt s.nought x ≡ true → guess d fuel a x ≡ none
  unfolding guess guess_step
  guess-none zero x up = refl
  guess-none (suc fuel) x up =
      let below : d.lt (d.mul a x) (eps1m01 d) ≡ true =
        s.mul_neg a x (eps1m01 d) negative up s.low_pos in
      rw (guess, guess_step, below, guess-none fuel (d.mul x d.two) (s.twice_pos x up)) refl

  one_argument-none :
      (f : Formats A) (fuel1 fuel2 : ℕ) (arg : Bytes)
      → f.strtod arg ≡ some a
      → one_argument d f fuel1 fuel2 arg ≡ none
  unfolding one_argument approximate
  one_argument-none f fuel1 fuel2 arg read =
      rw (one_argument, read, approximate, guess-none fuel1 d.one s.one_pos) refl

  all-none :
      (f : Formats A) (fuel1 fuel2 : ℕ) (arg : Bytes) (before args : List Bytes)
      → f.strtod arg ≡ some a
      → all_arguments d f fuel1 fuel2 (before ++ (arg ∷ args)) ≡ none
  unfolding all_arguments
  all-none f fuel1 fuel2 arg [] args read = rw (one_argument-none f fuel1 fuel2 arg read) refl
  all-none f fuel1 fuel2 arg (b ∷ before) args read =
      rw (all-none f fuel1 fuel2 arg before args read) (ends (one_argument d f fuel1 fuel2 b))
    where
      ends : (o : Option Bytes) → ◌≡◌ {A = Option Bytes} (o >>= λ out. none) none
      ends none = refl
      ends (some out) = refl

  -- For a negative number no fuel is enough for the first loop, since x is doubled again and again
  -- and the product stays below the range, and so the program that meets one as an argument does
  -- not end, whatever the arguments in front of it and behind it are.
  pub heron_main-none :
      (f : Formats A) (fuel1 fuel2 : ℕ) (arg : Bytes) (before args : List Bytes)
      → f.strtod arg ≡ some a
      → heron_main d f fuel1 fuel2 (before ++ (arg ∷ args)) ≡ none
  unfolding heron_main
  heron_main-none f fuel1 fuel2 arg before args read =
      rw (all-none f fuel1 fuel2 arg before args read) refl

-- ===== src/Proc/Jumps.antt =====
-- stage0/tlpi/proc/longjmp.c: `setjmp` in `main`, and the jumps back to it.
use stage.Base.{
  ℕ, zero, suc, ◌+◌, ◌≡◌, refl, ◌==◌, if◌then◌else◌, Bool, true, false, Option, none, some, ◌>>=◌,
  ◌++◌, List, [], ◌∷◌, Bool-cases, inl, inr, arith,
}
use stage.Base.Text.{Bytes, codes}

-- How a function ends: it returns, or `longjmp(env, val)` takes it to the `setjmp` of `main`.
pub data Flow : Type 0 where
  returns : Flow
  jumps : ℕ → Flow

unfoldable pub f2 : Flow
f2 = jumps 2

-- What follows a call in the same function.
unfoldable pub then_run : Flow → Flow → Flow
then_run returns rest = rest
then_run (jumps val) rest = jumps val

unfoldable pub f1 : ℕ → Flow
unfolding f2 then_run
f1 argc = then_run (if argc == 1 then jumps 1 else returns) f2

-- One passage through `switch (setjmp(env))`: what is printed, and how it ends.
unfoldable pub switch_case : ℕ → ℕ → List Bytes × Flow
unfolding f1
switch_case argc zero = (codes "Calling f1() after initial setjmp()\n" ∷ [], f1 argc)
switch_case argc (suc zero) = (codes "We jumped back from f1()\n" ∷ [], returns)
switch_case argc (suc (suc zero)) = (codes "We jumped back from f2()\n" ∷ [], returns)
switch_case argc (suc (suc (suc val))) = ([], returns)

-- `setjmp` returns 0 at first and `val` after a jump, but never 0 again.
abbrev pub resumed : ℕ → ℕ
resumed zero = 1
resumed (suc val) = suc val

-- `main` from a return of `setjmp`: what it prints until `exit(EXIT_SUCCESS)`, or none where the
-- fuel, the number of these returns, runs out.
unfoldable pub from_setjmp : ℕ → ℕ → ℕ → Option (List Bytes)
unfolding switch_case
from_setjmp zero argc val = none
from_setjmp (suc fuel) argc val =
    let (out, flow) = switch_case argc val in
    elim flow [
      | returns ↦ some out
      | jumps v ↦ from_setjmp fuel argc (resumed v) >>= λ rest. some (out ++ rest)
    ]

-- `main`, whose first `setjmp` returns 0; two returns of `setjmp` are enough.
unfoldable pub longjmp_main : ℕ → Option (List Bytes)
unfolding from_setjmp
longjmp_main argc = from_setjmp 2 argc 0

-- `f1` does not return: without an argument it jumps itself, otherwise `f2` does.
f1-jumps : (argc : ℕ) → f1 argc ≡ jumps (if argc == 1 then 1 else 2)
unfolding f1
f1-jumps argc = elim (Bool-cases (argc == 1)) [
  | inl alone ↦ rw (alone, then_run) refl
  | inr more ↦ rw (more, then_run) refl
]

-- However often `setjmp` may return beyond twice, the program prints two lines and exits: that it
-- calls `f1`, and that it is back from `f1` where it has no argument (`argc` is 1), from `f2`
-- otherwise.
pub from_setjmp-prints :
    (fuel argc : ℕ)
    → from_setjmp (fuel + 2) argc 0
      ≡ some (
          codes "Calling f1() after initial setjmp()\n"
          ∷ (if argc == 1
              then codes "We jumped back from f1()\n"
              else codes "We jumped back from f2()\n")
          ∷ [])
unfolding from_setjmp switch_case
from_setjmp-prints fuel argc = go (argc == 1) (f1-jumps argc)
  where
    go :
        (alone : Bool)
        → f1 argc ≡ jumps (if alone then 1 else 2)
        → from_setjmp (fuel + 2) argc 0
          ≡ some (
              codes "Calling f1() after initial setjmp()\n"
              ∷ (if alone
                  then codes "We jumped back from f1()\n"
                  else codes "We jumped back from f2()\n")
              ∷ [])
    go true e =
        let two : fuel + 2 ≡ suc (suc fuel) = omega arith in
        rw (two, from_setjmp, switch_case, e) refl
    go false e =
        let two : fuel + 2 ≡ suc (suc fuel) = omega arith in
        rw (two, from_setjmp, switch_case, e) refl

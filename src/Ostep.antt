-- ===== src/Ostep.antt =====
-- stage0/ostep: common.h, cpu.c and mem.c, programs that wait and print for ever.
-- The clock is the list of what calls of gettimeofday give, in order; a run goes as far as that
-- list. The `double`s that times are computed with are parameters.
pub mod Rounds
mod Tests
use stage.Base.{
  ℕ, zero, suc, ◌+◌, ◌==◌, leb, if◌then◌else◌, Bool, true, false, Option, none, some, List, [], ◌∷◌,
  ◌++◌, length,
}
use stage.Base.Int.{ℤ, pos}
use stage.Base.Text.{Bytes, codes, print_nat, print_int}

-- The arithmetic of times: `(double) tv_sec + (double) tv_usec / 1e6`, `-`, `<`, `(double)`.
pub record Times (T : Type 0) : Type 0 where
  pub of_timeval : ℕ → ℕ → T
  pub sub : T → T → T
  pub lt : T → T → Bool
  pub of_int : ℤ → T

-- What gettimeofday gives: none where it fails, or seconds and microseconds.
abbrev pub Clock : Type 0
Clock = List (Option (ℕ × ℕ))

-- How far a part of a run gets: on, with the clock that is left; to an assertion that fails; to
-- the end of the clock.
pub data Timed (A : Type 0) : Type 0 where
  goes_on : A → Clock → Timed A
  asserts : Timed A
  stops : Timed A

-- How a run ends; `waiting` is a wait at the end of the clock, `overflows` an `int` too large.
pub data Ending : Type 0 where
  exits : ℕ → Ending
  aborted : Ending
  overflows : Ending
  waiting : Ending
  out_of_fuel : Ending

module _ {T : Type 0} (t : Times T) where
  -- `GetTime`
  unfoldable pub get_time : Clock → Timed T
  get_time [] = stops
  get_time (none ∷ clock) = asserts
  get_time (some (tv_sec, tv_usec) ∷ clock) = goes_on (t.of_timeval tv_sec tv_usec) clock

  -- The loop of `Spin`; each round reads the clock once.
  unfoldable pub spin_from : ℤ → T → Clock → Timed (Unit {0})
  spin_from howlong start [] = stops
  spin_from howlong start (none ∷ clock) = asserts
  spin_from howlong start (some (tv_sec, tv_usec) ∷ clock) =
      let more = spin_from howlong start clock in
      if t.lt (t.sub (t.of_timeval tv_sec tv_usec) start) (t.of_int howlong)
      then more
      else goes_on tt clock

  unfoldable pub spin : ℤ → Clock → Timed (Unit {0})
  unfolding get_time spin_from
  spin howlong clock = elim (get_time clock) [
    | goes_on start rest ↦ spin_from howlong start rest
    | asserts ↦ asserts
    | stops ↦ stops
  ]

  -- `while (1)` of cpu.c; each round reads the clock.
  unfoldable pub cpu_rounds : ℕ → Bytes → Clock → List Bytes × Ending
  cpu_rounds zero str clock = ([], out_of_fuel)
  cpu_rounds (suc fuel) str clock = elim (spin (pos 1) clock) [
    | goes_on _ rest ↦ let (out, end) = cpu_rounds fuel str rest in ((str ++ (10 ∷ [])) ∷ out, end)
    | asserts ↦ ([], aborted)
    | stops ↦ ([], waiting)
  ]

  -- `main` of cpu.c, with the arguments behind the program's name: what it prints.
  unfoldable pub cpu_main : List Bytes → Clock → List Bytes × Ending
  unfolding cpu_rounds
  cpu_main [] clock = ([], exits 1)
  cpu_main (str ∷ []) clock = cpu_rounds (suc (length clock)) str clock
  cpu_main (str ∷ other ∷ more) clock = ([], exits 1)

  module _ (pid : ℕ) where
    -- printf(" (%d) p: %d\n", getpid(), *p)
    unfoldable pub count_line : ℕ → Bytes
    count_line p = codes " (" ++ (print_nat pid ++ (codes ") p: " ++ (print_nat p ++ (10 ∷ []))))

    -- `while (1)` of mem.c, where `p` is what the pointer points to.
    unfoldable pub mem_rounds : ℕ → ℕ → Clock → List Bytes × Ending
    unfolding count_line
    mem_rounds zero p clock = ([], out_of_fuel)
    mem_rounds (suc fuel) p clock = elim (spin (pos 1) clock) [
      | goes_on _ rest ↦
          let (out, end) = mem_rounds fuel (p + 1) rest in
          if leb 0x7fff_ffff p then ([], overflows) else (count_line (p + 1) ∷ out, end)
      | asserts ↦ ([], aborted)
      | stops ↦ ([], waiting)
    ]

    -- `main` of mem.c, where `address` is what `malloc` returns and how it is printed.
    unfoldable pub mem_main : Option Bytes → Clock → List Bytes × Ending
    unfolding mem_rounds
    mem_main none clock = ([], aborted)
    mem_main (some address) clock =
        let (out, end) = mem_rounds (suc (length clock)) 0 clock in
        (
          (codes " ("
                ++ (print_nat pid
                    ++ (codes ") address pointed to by p: " ++ (address ++ (10 ∷ [])))))
              ∷ out,
          end,
        )

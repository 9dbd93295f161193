-- ===== src/Search.antt =====
-- stage0/modern_c/control/binary_search.c: the two searches of an array of `double`s.
-- A `double` is any type with the tests `==` and `>`; an index is an `int`, and arithmetic that
-- leaves `int` is an error of the run, as is a read outside the array.
pub mod Sequential
pub mod Binary
pub mod Program
mod Tests
use stage.Base.{
  ℕ, zero, suc, ◌+◌, ◌-◌, ◌/◌, ◌^◌, ltb, leb, if◌then◌else◌, Bool, true, false, List, Option, none,
  some, get_elem?,
}
use stage.Base.Int.{ℤ, pos, negsuc, sub_ℕ}

-- The comparisons of `double` that the searches use.
pub record Comparisons {ℓ} (A : Type ℓ) : Type ℓ where
  pub eqb : A → A → Bool
  pub gtb : A → A → Bool

-- What a run comes to: a value and the iterations done, a read outside the array, or an `int`
-- that overflows.
pub data Run : Type 0 where
  returns : ℤ → ℕ → Run
  out_of_bounds : Run
  overflows : Run
  out_of_fuel : Run

-- 2 ^ 31, the first number above `int`.
abbrev pub int_end : ℕ
int_end = 0x8000_0000

module _ {ℓ} {A : Type ℓ} (c : Comparisons A) (val : A) (array : List A) where
  -- The loop of `sequential_search`: the rounds left, `i` and the iterations done.
  unfoldable pub sequential_from : ℕ → ℕ → ℕ → Run
  sequential_from zero i done = returns (negsuc 0) done
  sequential_from (suc n) i done =
      let rest = sequential_from n (i + 1) (done + 1) in
      elim (get_elem? array i) [
        | none ↦ out_of_bounds
        | some x ↦ if c.eqb x val then returns (pos i) (done + 1) else rest
      ]

  -- `sequential_search`, for a `size` that is an `int`.
  unfoldable pub sequential_search : ℕ → Run
  sequential_search size = sequential_from size 0 0

  -- The loop of `binary_search`. `low` never falls, so it is a number; `high` may be -1.
  unfoldable pub binary_loop : ℕ → ℕ → ℤ → ℕ → Run
  binary_loop zero low high done = out_of_fuel
  binary_loop (suc fuel) low (negsuc h) done = returns (negsuc 0) done
  binary_loop (suc fuel) low (pos high) done =
      let mid = (low + high) / 2 in
      let upper = binary_loop fuel (mid + 1) (pos high) (done + 1) in
      let lower = binary_loop fuel low (sub_ℕ mid 1) (done + 1) in
      let probe = (λ (guess : A).
        if c.eqb guess val
        then returns (pos mid) (done + 1)
        else if c.gtb guess val
        then lower
        else upper) in
      if ltb high low
      then returns (negsuc 0) done
      else if leb int_end (low + high)
      then overflows
      else elim (get_elem? array mid) [ none ↦ out_of_bounds | some guess ↦ probe guess ]

  -- `binary_search`; each round narrows the range, so `size + 1` rounds are enough.
  unfoldable pub binary_search : ℕ → Run
  binary_search size = binary_loop (suc size) 0 (sub_ℕ size 1) 0

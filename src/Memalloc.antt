-- ===== src/Memalloc.antt =====
-- stage0/tlpi/memalloc/free_and_sbrk.c and free_and_sbrk2.c: allocate blocks and free some of them.
pub mod Frees
mod Tests
use stage.Base.{
  ℕ, zero, suc, ◌+◌, ◌-◌, ◌^◌, ◌==◌, ltb, if◌then◌else◌, Bool, true, false, Option, none, some,
  List, [], ◌∷◌, ◌++◌, get_elem?,
}
use stage.Base.Text.{Bytes, codes, print_nat}
use stage.FileIo.{bytes_eq}

abbrev pub max_allocs : ℕ
max_allocs = 1000000

abbrev pub int_max : ℕ
int_max = 2147483647

-- The heap; a block is named by its address, and `sbrk 0` gives the program break.
pub record Heap (W : Type 0) : Type 0 where
  pub malloc : ℕ → W → Option ℕ × W
  pub free : ℕ → W → W
  pub sbrk_0 : W → ℕ

-- `getInt` with GN_GT_0, with and without GN_ANY_BASE, which may end the program, and `%10p`.
pub record Texts : Type 0 where
  pub get_int : Bool → Bytes → Option ℕ
  pub print_ptr : ℕ → Bytes

-- How a part of a run ends: it goes on, it exits, it has accessed what is outside an array or left
-- the range of `int`, or it ran out of fuel.
pub data Run (W A : Type 0) : Type 0 where
  goes : A → W → Bytes → Run W A
  exits : ℕ → W → Bytes → Run W A
  fault : Run W A
  out_of_fuel : Run W A

-- The values that the arguments set.
pub record Settings : Type 0 where
  pub num_allocs : ℕ
  pub block_size : ℕ
  pub free_step : ℕ
  pub free_min : ℕ
  pub free_max : ℕ

-- An optional argument, with the value where it is not there.
unfoldable pub optional : Texts → Option Bytes → ℕ → Option ℕ
optional t none n = some n
optional t (some arg) n = t.get_int false arg

-- The tests of the arguments; `none` is an exit with status 1.
unfoldable pub settings :
    Texts → Bytes → Bytes → Option Bytes → Option Bytes → Option Bytes → Option Settings
settings t num size step min max = elim (t.get_int false num) [
  | none ↦ none
  | some n ↦ if ltb max_allocs n then none else elim (t.get_int true size) [
    | none ↦ none
    | some b ↦ elim (optional t step 1) [
      | none ↦ none
      | some s ↦ elim (optional t min 1) [
        | none ↦ none
        | some l ↦ elim (optional t max n) [
          | none ↦ none
          | some h ↦
              if ltb n h
              then none
              else some (record {
                num_allocs = n;
                block_size = b;
                free_step = s;
                free_min = l;
                free_max = h;
              })
        ]
      ]
    ]
  ]
]

unfoldable pub break_now : Texts → ℕ → Bytes
break_now t break = codes "Program break is now:           " ++ t.print_ptr break ++ codes "\n"

module _ (t : Texts) {W : Type 0} (h : Heap W) where
  -- A block that `malloc` has given, and the blocks of the other rounds.
  unfoldable pub keep : Option ℕ → Run W (List ℕ) → W → Bytes → Run W (List ℕ)
  keep none rest w out = exits 1 w out
  keep (some p) (goes ps w' out') w out = goes (p ∷ ps) w' out'
  keep (some p) (exits n w' out') w out = exits n w' out'
  keep (some p) fault w out = fault
  keep (some p) out_of_fuel w out = out_of_fuel

  -- The loop of malloc, for the rounds left; free_and_sbrk2.c prints the break in each.
  unfoldable pub alloc_loop : Bool → ℕ → ℕ → W → Bytes → Run W (List ℕ)
  alloc_loop each size zero w out = goes [] w out
  alloc_loop each size (suc rounds) w out =
      let (block, w') = h.malloc size w in
      let out' = out ++ (if each then break_now t (h.sbrk_0 w') else []) in
      keep block (alloc_loop each size rounds w' out') w' out'

  -- The loop of free: `j` moves in steps, an `int` that must not leave its range.
  unfoldable pub free_loop : ℕ → List ℕ → ℕ → ℕ → ℕ → W → Bytes → Run W (Unit {0})
  free_loop zero ptr max step j w out = out_of_fuel
  free_loop (suc fuel) ptr max step j w out =
      if ltb j max
      then elim (get_elem? ptr j) [
        | none ↦ fault
        | some p ↦
            if ltb int_max (j + step)
            then fault
            else free_loop fuel ptr max step (j + step) (h.free p w) out
      ]
      else goes tt w out

  unfoldable pub freeing_line : Settings → Bytes
  freeing_line s =
      codes "Freeing blocks from "
      ++ print_nat s.free_min
      ++ codes " to "
      ++ print_nat s.free_max
      ++ codes " in steps of "
      ++ print_nat s.free_step
      ++ codes "\n"

  -- `main` behind the loop of free, and behind the loop of malloc.
  unfoldable pub report_free : Run W (Unit {0}) → Run W ℕ
  report_free (goes u w out) =
      exits 0 w
        (out ++ codes "After free(), program break is: " ++ t.print_ptr (h.sbrk_0 w) ++ codes "\n")
  report_free (exits n w out) = exits n w out
  report_free fault = fault
  report_free out_of_fuel = out_of_fuel

  unfoldable pub free_blocks : Settings → Run W (List ℕ) → Run W ℕ
  free_blocks s (goes ptr w out) = report_free (
      free_loop (suc s.free_max) ptr s.free_max s.free_step (s.free_min - 1) w
        (out ++ break_now t (h.sbrk_0 w) ++ freeing_line s))
  free_blocks s (exits n w out) = exits n w out
  free_blocks s fault = fault
  free_blocks s out_of_fuel = out_of_fuel

  unfoldable pub run_settings : Bool → Option Settings → W → Bytes → Run W ℕ
  run_settings each none w out = exits 1 w out
  run_settings each (some s) w out = free_blocks s (
      alloc_loop each s.block_size s.num_allocs w (
        out
        ++ codes "Initial program break:          "
        ++ t.print_ptr (h.sbrk_0 w)
        ++ codes "\nAllocating "
        ++ print_nat s.num_allocs
        ++ codes "*"
        ++ print_nat s.block_size
        ++ codes " bytes\n"))

  abbrev pub arg_at : List Bytes → ℕ → Option Bytes
  arg_at args i = get_elem? args i

  -- `main` of both; the flag tells free_and_sbrk2.c from free_and_sbrk.c.
  unfoldable pub sbrk_main : Bool → List Bytes → W → Run W ℕ
  sbrk_main each [] w = exits 1 w (codes "\n")
  sbrk_main each (num ∷ []) w = exits 1 w (codes "\n")
  sbrk_main each (num ∷ size ∷ args) w =
      if bytes_eq num (codes "--help")
      then exits 1 w (codes "\n")
      else run_settings each (settings t num size (arg_at args 0) (arg_at args 1) (arg_at args 2)) w
          (codes "\n")

  unfoldable pub free_and_sbrk : List Bytes → W → Run W ℕ
  free_and_sbrk args w = sbrk_main false args w

  unfoldable pub free_and_sbrk2 : List Bytes → W → Run W ℕ
  free_and_sbrk2 args w = sbrk_main true args w

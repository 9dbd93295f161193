-- ===== src/Ostep/Tests.antt =====
-- The theorems about stage0/ostep with times in seconds.
use stage.Base.{ℕ, ◌-◌, ◌≡◌, ◌⊎◌, refl, ltb, false, some, List, [], ◌∷◌, length, ◌==◌}
use stage.Base.Int.{pos_part}
use stage.Base.Text.{Bytes, codes, print_nat}
use stage.Ostep.{Times, Clock, Ending, exits, waiting, spin, cpu_main, mem_main}
use stage.Ostep.Rounds.{Repeats, cpu_main-Repeats, Counts, mem_main-Counts}

abbrev seconds : Times ℕ
seconds = record { of_timeval = λ s u. s; sub = ◌-◌; lt = ltb; of_int = pos_part }

-- Two waits of a second, and the start of a third.
abbrev clock : Clock
clock = some (7, 0) ∷ some (7, 5) ∷ some (8, 0) ∷ some (8, 1) ∷ some (9, 9) ∷ some (9, 10) ∷ []

cpu_main-Repeats_example :
    ((str : Bytes) × (codes "A" ∷ [] ≡ str ∷ [])
      × Repeats seconds str clock (cpu_main seconds (codes "A" ∷ []) clock))
    ⊎ ((length (codes "A" ∷ []) == 1) ≡ false)
      × (cpu_main seconds (codes "A" ∷ []) clock ≡ ([], exits 1))
cpu_main-Repeats_example = cpu_main-Repeats seconds (codes "A" ∷ []) clock

cpu_prints : cpu_main seconds (codes "A" ∷ []) clock ≡ (codes "A\n" ∷ codes "A\n" ∷ [], waiting)
unfolding cpu_main spin
cpu_prints = refl

mem_main-Counts_example :
    (first : Bytes) × (out : List Bytes) × (end : Ending) × (mem_main seconds 42
        (some (codes "0x5000"))
        clock
      ≡ (first ∷ out, end))
    × Counts seconds 42 0 clock (out, end)
mem_main-Counts_example = mem_main-Counts seconds 42 (codes "0x5000") clock

mem_prints : mem_main seconds 42 (some (codes "0x5000")) clock ≡ (
  codes " (42) address pointed to by p: 0x5000\n"
      ∷ codes " (42) p: 1\n"
      ∷ codes " (42) p: 2\n"
      ∷ [],
  waiting,
)
unfolding mem_main spin print_nat
mem_prints = refl

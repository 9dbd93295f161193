-- ===== src/Ostep/Rounds.antt =====
-- stage0/ostep: the rounds of cpu.c and mem.c.
use stage.Base.{
  ℕ, zero, suc, ◌+◌, ◌≤◌, ◌<◌, ◌≡◌, refl, ap, ◌⊎◌, inl, inr, ◌==◌, leb, Bool-cases, if◌then◌else◌,
  Bool, true, false, none, some, List, [], ◌∷◌, ◌++◌, length, replicate, arith,
}
use stage.Base.Int.{pos}
use stage.Base.Text.{Bytes}
use stage.Ostep.{
  Times, Clock, Timed, goes_on, asserts, stops, Ending, exits, aborted, overflows, waiting,
  spin_from, spin, cpu_rounds, cpu_main, count_line, mem_rounds, mem_main,
}

module _ {T : Type 0} (t : Times T) where
  -- A second has not passed since `start` at the time of a reading.
  abbrev pub early : T → ℕ → ℕ → Bool
  early start s u = t.lt (t.sub (t.of_timeval s u) start) (t.of_int (pos 1))

  -- The readings from `start` on are early up to one that is not, behind which the rest is.
  abbrev pub Passes : T → Clock → Clock → Type 0
  Passes start [] rest = ⊥
  Passes start (none ∷ clock) rest = ⊥
  Passes start (some (s, u) ∷ clock) rest =
      ((early start s u ≡ true) × Passes start clock rest)
      ⊎ ((early start s u ≡ false) × (clock ≡ rest))

  -- The readings are early up to the end of the clock, or to one that fails.
  abbrev pub Hangs : T → Clock → Ending → Type 0
  Hangs start [] end = end ≡ waiting
  Hangs start (none ∷ clock) end = end ≡ aborted
  Hangs start (some (s, u) ∷ clock) end = (early start s u ≡ true) × Hangs start clock end

  -- The clock begins with a start and a second that passes.
  abbrev pub Wait : Clock → Clock → Type 0
  Wait [] rest = ⊥
  Wait (none ∷ clock) rest = ⊥
  Wait (some (s, u) ∷ clock) rest = Passes (t.of_timeval s u) clock rest

  -- The clock does not go as far as that.
  abbrev pub Stuck : Clock → Ending → Type 0
  Stuck [] end = end ≡ waiting
  Stuck (none ∷ clock) end = end ≡ aborted
  Stuck (some (s, u) ∷ clock) end = Hangs (t.of_timeval s u) clock end

  -- The clock begins with `n` waits.
  abbrev pub Waits : ℕ → Clock → Clock → Type 0
  Waits zero clock rest = clock ≡ rest
  Waits (suc n) clock rest = (mid : Clock) × Wait clock mid × Waits n mid rest

  Passes-shorter :
      (start : T) (clock rest : Clock) → Passes start clock rest → length rest < length clock
  Passes-shorter start [] rest h = elim h [ ]
  Passes-shorter start (none ∷ clock) rest h = elim h [ ]
  Passes-shorter start (some (s, u) ∷ clock) rest (inl (_, h)) =
      omega (arith, Passes-shorter start clock rest h)
  Passes-shorter start (some (s, u) ∷ clock) rest (inr (_, e)) = omega (arith, ap length e)

  Wait-shorter : (clock rest : Clock) → Wait clock rest → length rest < length clock
  Wait-shorter [] rest h = elim h [ ]
  Wait-shorter (none ∷ clock) rest h = elim h [ ]
  Wait-shorter (some (s, u) ∷ clock) rest h =
      omega (arith, Passes-shorter (t.of_timeval s u) clock rest h)

  -- What `spin_from` and `spin` come to.
  abbrev Spun : T → Clock → Timed (Unit {0}) → Type 0
  Spun start clock (goes_on _ rest) = Passes start clock rest
  Spun start clock asserts = Hangs start clock aborted
  Spun start clock stops = Hangs start clock waiting

  abbrev Waited : Clock → Timed (Unit {0}) → Type 0
  Waited clock (goes_on _ rest) = Wait clock rest
  Waited clock asserts = Stuck clock aborted
  Waited clock stops = Stuck clock waiting

  Spun-reading :
      (start : T) (s u : ℕ) (clock : Clock) (b : Bool) (r : Timed (Unit {0}))
      → early start s u ≡ b
      → Spun start clock r
      → Spun start (some (s, u) ∷ clock) (if b then r else goes_on tt clock)
  Spun-reading start s u clock true (goes_on _ rest) e h = inl (e, h)
  Spun-reading start s u clock true asserts e h = (e, h)
  Spun-reading start s u clock true stops e h = (e, h)
  Spun-reading start s u clock false r e h = inr (e, refl)

  spin_from-Spun : (start : T) (clock : Clock) → Spun start clock (spin_from t (pos 1) start clock)
  unfolding spin_from
  spin_from-Spun start [] = refl
  spin_from-Spun start (none ∷ clock) = refl
  spin_from-Spun start (some (s, u) ∷ clock) =
      Spun-reading start s u clock (early start s u) (spin_from t (pos 1) start clock) refl
        (spin_from-Spun start clock)

  Waited-Spun :
      (s u : ℕ) (clock : Clock) (r : Timed (Unit {0}))
      → Spun (t.of_timeval s u) clock r
      → Waited (some (s, u) ∷ clock) r
  Waited-Spun s u clock (goes_on _ rest) h = h
  Waited-Spun s u clock asserts h = h
  Waited-Spun s u clock stops h = h

  spin-Waited : (clock : Clock) → Waited clock (spin t (pos 1) clock)
  unfolding spin
  spin-Waited [] = refl
  spin-Waited (none ∷ clock) = refl
  spin-Waited (some (s, u) ∷ clock) =
      Waited-Spun s u clock (spin_from t (pos 1) (t.of_timeval s u) clock)
        (spin_from-Spun (t.of_timeval s u) clock)

  -- The line, once for each wait that the clock has, and how the clock ends.
  abbrev pub Repeats : Bytes → Clock → List Bytes × Ending → Type 0
  Repeats str clock (out, end) =
      (n : ℕ) × (rest : Clock) × Waits n clock rest
      × (out ≡ replicate n (str ++ (10 ∷ [])))
      × Stuck rest end

  cpu_rounds-Repeats :
      (fuel : ℕ) (str : Bytes) (clock : Clock)
      → length clock < fuel
      → Repeats str clock (cpu_rounds t fuel str clock)
  unfolding cpu_rounds
  cpu_rounds-Repeats zero str clock h = absurd (omega arith)
  cpu_rounds-Repeats (suc fuel) str clock h =
      go (spin t (pos 1) clock) (spin-Waited clock)
        (λ rest less. cpu_rounds-Repeats fuel str rest less)
    where
      go :
          (r : Timed (Unit {0}))
          → Waited clock r
          → ((rest : Clock) → length rest < fuel → Repeats str rest (cpu_rounds t fuel str rest))
          → Repeats str clock (elim r [
            | goes_on _ rest ↦
                let (out, end) = cpu_rounds t fuel str rest in ((str ++ (10 ∷ [])) ∷ out, end)
            | asserts ↦ ([], aborted)
            | stops ↦ ([], waiting)
          ])
      go (goes_on _ mid) w rec =
          let (n, rest, waits, e, stuck) = rec mid (omega (arith, Wait-shorter clock mid w)) in
          (suc n, rest, (mid, w, waits), ap (λ (ls : List Bytes). (str ++ (10 ∷ [])) ∷ ls) e, stuck)
      go asserts w rec = (0, clock, refl, refl, w)
      go stops w rec = (0, clock, refl, refl, w)

  -- With one argument cpu never exits: for each second that passes on the clock after a reading it
  -- prints its argument, once, and at the end of the clock it is in a wait that is not over, or it
  -- has aborted where a reading fails. With any other number of arguments it prints nothing and
  -- exits with status 1.
  pub cpu_main-Repeats :
      (args : List Bytes) (clock : Clock)
      → ((str : Bytes) × (args ≡ str ∷ []) × Repeats str clock (cpu_main t args clock))
        ⊎ ((length args == 1) ≡ false) × (cpu_main t args clock ≡ ([], exits 1))
  unfolding cpu_main
  cpu_main-Repeats [] clock = inr (refl, refl)
  cpu_main-Repeats (str ∷ []) clock =
      inl (str, refl, cpu_rounds-Repeats (suc (length clock)) str clock (omega arith))
  cpu_main-Repeats (str ∷ other ∷ more) clock = inr (ground arith, refl)

  module _ (pid : ℕ) where
    -- The lines of the numbers behind `p`, `n` of them.
    abbrev pub counted : ℕ → ℕ → List Bytes
    counted p zero = []
    counted p (suc n) = count_line t pid (p + 1) ∷ counted (p + 1) n

    -- The run is in a wait that is not over or has aborted; or one more wait is over, and the next
    -- number is no `int`.
    abbrev pub Stops : ℕ → Clock → Ending → Type 0
    Stops p rest end =
        Stuck rest end
        ⊎ ((end ≡ overflows) × (p ≡ 0x7fff_ffff) × ((later : Clock) × Wait rest later))

    -- The numbers behind `p` in order, one for each wait of the clock and none above an int.
    abbrev pub Counts : ℕ → Clock → List Bytes × Ending → Type 0
    Counts p clock (out, end) =
        (n : ℕ) × (rest : Clock) × Waits n clock rest
        × (out ≡ counted p n)
        × (p + n ≤ 0x7fff_ffff)
        × Stops (p + n) rest end

    mem_rounds-Counts :
        (fuel p : ℕ) (clock : Clock)
        → length clock < fuel
        → p ≤ 0x7fff_ffff
        → Counts p clock (mem_rounds t pid fuel p clock)
    unfolding mem_rounds
    mem_rounds-Counts zero p clock h small = absurd (omega arith)
    mem_rounds-Counts (suc fuel) p clock h small =
        go (spin t (pos 1) clock) (spin-Waited clock)
          (λ rest less room. mem_rounds-Counts fuel (p + 1) rest less room)
      where
        here : p ≡ p + 0
        here = omega arith

        go :
            (r : Timed (Unit {0}))
            → Waited clock r
            → ((rest : Clock)
                → length rest < fuel
                → p + 1 ≤ 0x7fff_ffff
                → Counts (p + 1) rest (mem_rounds t pid fuel (p + 1) rest))
            → Counts p clock (elim r [
              | goes_on _ rest ↦
                  let (out, end) = mem_rounds t pid fuel (p + 1) rest in
                  if leb 0x7fff_ffff p
                  then ([], overflows)
                  else (count_line t pid (p + 1) ∷ out, end)
              | asserts ↦ ([], aborted)
              | stops ↦ ([], waiting)
            ])
        go (goes_on _ mid) w rec = elim (Bool-cases (leb 0x7fff_ffff p)) [
          | inl full ↦
              rw full (0, clock, refl, refl, omega arith, inr (refl, ground arith, (mid, w)))
          | inr room ↦
              let (n, rest, waits, e, low, ended) =
                rec mid (omega (arith, Wait-shorter clock mid w)) (ground arith) in
              let next : p + suc n ≡ p + 1 + n = omega arith in
              rw room (
                suc n,
                rest,
                (mid, w, waits),
                ap (λ (ls : List Bytes). count_line t pid (p + 1) ∷ ls) e,
                omega arith,
                rw next ended,
              )
        ]
        go asserts w rec = (0, clock, refl, refl, omega arith, inl w)
        go stops w rec = (0, clock, refl, refl, omega arith, inl w)

    -- Where `malloc` gives an address, mem prints a first line and then counts from 1 on in steps of
    -- 1, one line for each second that passes on the clock after a reading, as many as the clock
    -- has: at its end the run is in a wait that is not over, or it has aborted where a reading
    -- fails, or it has printed 2147483647 and one more wait is over, and its next addition leaves
    -- int.
    pub mem_main-Counts :
        (address : Bytes) (clock : Clock)
        → (first : Bytes) × (out : List Bytes) × (end : Ending) × (mem_main t pid
              (some address)
              clock
            ≡ (first ∷ out, end))
          × Counts 0 clock (out, end)
    unfolding mem_main
    mem_main-Counts address clock = (
      _,
      (mem_rounds t pid (suc (length clock)) 0 clock).0,
      (mem_rounds t pid (suc (length clock)) 0 clock).1,
      refl,
      mem_rounds-Counts (suc (length clock)) 0 clock (omega arith) (omega arith),
    )

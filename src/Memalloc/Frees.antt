-- ===== src/Memalloc/Frees.antt =====
-- stage0/tlpi/memalloc/free_and_sbrk.c: which blocks the loop of free gives back.
use stage.Base.{
  ℕ, zero, suc, ◌+◌, ◌-◌, ◌≤◌, ◌<◌, ◌≡◌, refl, sym, ap, ◌∙◌, inl, inr, ltb, true, false, Bool-cases,
  some, List, [], ◌∷◌, length, take, drop, drop-nil, get_elem?, arith,
}
use stage.Base.Text.{Bytes}
use stage.Memalloc.{Heap, Texts, goes, fault, int_max, free_loop}

-- Of a list, the element behind `skip` others, and then each that stands behind `gap` others.
unfoldable pub every : ℕ → ℕ → List ℕ → List ℕ
every gap skip [] = []
every gap zero (p ∷ ps) = p ∷ every gap gap ps
every gap (suc skip) (p ∷ ps) = every gap skip ps

unfoldable pub free_all : {W : Type 0} → Heap W → List ℕ → W → W
free_all h [] w = w
free_all h (p ∷ ps) w = free_all h ps (h.free p w)

every-drop : (gap n : ℕ) (ps : List ℕ) → every gap n ps ≡ every gap 0 (drop n ps)
unfolding every
every-drop gap zero ps = refl
every-drop gap (suc n) [] = refl
every-drop gap (suc n) (p ∷ ps) = every-drop gap n ps

suc-add : (m n : ℕ) → suc (m + n) ≡ suc m + n
suc-add m n = omega arith

drop-drop : (m n : ℕ) (xs : List ℕ) → drop m (drop n xs) ≡ drop (n + m) xs
drop-drop m zero xs = ap (λ i. drop i xs) (omega arith)
drop-drop m (suc n) [] = drop-nil m ∙ sym (drop-nil (suc n + m))
drop-drop m (suc n) (x ∷ xs) = drop-drop m n xs ∙ ap (λ i. drop i (x ∷ xs)) (suc-add n m)

-- The element at a place in front of `max`, and what is behind it.
at_place :
    (ptr : List ℕ) (max j : ℕ)
    → j < max
    → max ≤ length ptr
    → (p : ℕ) × (get_elem? ptr j ≡ some p)
      × (drop j (take max ptr) ≡ p ∷ drop (suc j) (take max ptr))
at_place [] max j lt le = absurd (omega arith)
at_place (p ∷ ptr) zero j lt le = absurd (omega arith)
at_place (p ∷ ptr) (suc max) zero lt le = (p, refl, refl)
at_place (p ∷ ptr) (suc max) (suc j) lt le = at_place ptr max j (omega arith) (omega arith)

past : (ptr : List ℕ) (max j : ℕ) → max ≤ j → drop j (take max ptr) ≡ []
past ptr zero j le = drop-nil j
past [] (suc max) j le = drop-nil j
past (p ∷ ptr) (suc max) zero le = absurd (omega arith)
past (p ∷ ptr) (suc max) (suc j) le = past ptr max j (omega arith)

next_block :
    (gap j : ℕ) (ps : List ℕ)
    → every gap 0 (drop (j + suc gap) ps) ≡ every gap gap (drop (suc j) ps)
next_block gap j ps =
    let place : j + suc gap ≡ suc j + gap = omega arith in
    ap (λ i. every gap 0 (drop i ps)) place
    ∙ sym (ap (every gap 0) (drop-drop gap (suc j) ps))
    ∙ sym (every-drop gap gap (drop (suc j) ps))

module _ (t : Texts) {W : Type 0} (h : Heap W) (ptr : List ℕ) (max gap : ℕ) where
  -- Where the end of the range is no more than the number of blocks, and the last step stays in the
  -- range of `int`, the loop makes no access outside the array and frees exactly the blocks of the
  -- range from `j` in steps, each once and in order; one round more than the end is fuel enough.
  pub free_loop-every :
      (fuel j : ℕ) (w : W) (out : Bytes)
      → max ≤ length ptr
      → max + suc gap ≤ suc int_max
      → max - j < fuel
      → free_loop t h fuel ptr max (suc gap) j w out
        ≡ goes tt (free_all h (every gap 0 (drop j (take max ptr))) w) out
  unfolding free_loop every free_all
  free_loop-every zero j w out le fits enough = absurd (omega arith)
  free_loop-every (suc fuel) j w out le fits enough = elim (Bool-cases (ltb j max)) [
    | inl below ↦
        let (p, there, cut) = at_place ptr max j (ground arith) le in
        let inside : ltb int_max (j + suc gap) ≡ false = ground arith in
        rw (below, there, inside, cut)
          (free_loop-every fuel (j + suc gap) (h.free p w) out le fits (ground arith)
            ∙ ap (λ ps. goes tt (free_all h ps (h.free p w)) out) (next_block gap j (take max ptr)))
    | inr above ↦ let e = past ptr max j (ground arith) in rw (above, e) refl
  ]

  -- Where a block of the range is left but the step behind it leaves the range of `int`, the loop
  -- has no meaning: a large step overflows although no further block would be freed.
  pub free_loop_overflow :
      (fuel j : ℕ) (w : W) (out : Bytes)
      → max ≤ length ptr
      → j < max
      → int_max < j + suc gap
      → free_loop t h (suc fuel) ptr max (suc gap) j w out ≡ fault
  unfolding free_loop
  free_loop_overflow fuel j w out le lt over =
      let below : ltb j max ≡ true = ground arith in
      let outside : ltb int_max (j + suc gap) ≡ true = ground arith in
      let (p, there, cut) = at_place ptr max j lt le in rw (below, there, outside) refl

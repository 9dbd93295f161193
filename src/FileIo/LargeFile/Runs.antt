-- ===== src/FileIo/LargeFile/Runs.antt =====
-- stage0/tlpi/fileio/large_file.c and large_file2.c: what is in the file behind a run.
use native.Mathlib.Nat.{mod-eq_of_lt, pow-suc}
use stage.Base.{
  ℕ, suc, ◌-◌, ◌*◌, ◌%◌, ◌^◌, ◌<◌, ◌≡◌, refl, ◌∙◌, inr, if◌then◌else◌, ltb, false, Option, none,
  some, [], ◌∷◌, left_if, arith,
}
use stage.Base.Int.{ℤ, pos, negsuc}
use stage.Base.Text.{Bytes, codes}
use stage.FileIo.{
  Kernel, Documented, Result, seek_set, seek_target, overwrite, write_offset, and_then, or_exit,
  bytes_eq, opened,
}
use stage.FileIo.Steps.{Ends}
use stage.FileIo.Calls.{returned}
use stage.FileIo.Calls.Single.{open-Holds, seek-Holds, write-Holds}
use stage.FileIo.LargeFile.{large_flags, residue, to_signed, write_test, large_file, large_file2}

-- What four bytes "test" at an offset make of a content; none at an offset before the start.
unfoldable pub tested : Bytes → ℤ → Bytes
tested c (pos t) = overwrite c t (codes "test")
tested c (negsuc t) = c

-- A number of a signed type with so many bits.
abbrev pub FitsIn : ℕ → ℤ → Type 0
FitsIn bits (pos n) = n < 2 ^ (bits - 1)
FitsIn bits (negsuc n) = n < 2 ^ (bits - 1)

signed_pos :
    (m half n : ℕ)
    → m ≡ half * 2
    → n < half
    → (if ltb (n % m) half then pos (n % m) else negsuc (m - suc (n % m))) ≡ pos n
signed_pos m half n twice fits =
    let same : n % m ≡ n = mod-eq_of_lt (omega arith) in rw same (ground arith)

signed_negsuc :
    (m half n : ℕ)
    → m ≡ half * 2
    → n < half
    → (if ltb (m - suc (n % m)) half
        then pos (m - suc (n % m))
        else negsuc (m - suc (m - suc (n % m))))
      ≡ negsuc n
signed_negsuc m half n twice fits =
    let same : n % m ≡ n = mod-eq_of_lt (omega arith) in rw same (ground arith)

double : (bits : ℕ) → 2 ^ suc bits ≡ 2 ^ (suc bits - 1) * 2
double bits = let same : suc bits - 1 ≡ bits = omega arith in rw same (pow-suc 2 bits)

to_signed-FitsIn : (bits : ℕ) (n : ℤ) → FitsIn (suc bits) n → to_signed (suc bits) n ≡ n
unfolding to_signed residue
to_signed-FitsIn bits (pos n) h = signed_pos (2 ^ suc bits) (2 ^ (suc bits - 1)) n (double bits) h
to_signed-FitsIn bits (negsuc n) h =
    signed_negsuc (2 ^ suc bits) (2 ^ (suc bits - 1)) n (double bits) h

abbrev pub status_of : ℤ → ℕ
status_of (pos t) = 0
status_of (negsuc t) = 1

module _ (atoll : Bytes → ℤ) {W : Type 0} (k : Kernel W) (l : Documented k ⊥) (p : Bytes)
    (w : W) where
  abbrev pub content_before : Bytes
  content_before = opened large_flags (l.file w p)

  -- The exit of a run that writes at an offset.
  pub record Tested (off : ℤ) (n : ℕ) (w' : W) : Type 0 where
    pub status : n ≡ status_of off
    pub there : l.file w' p ≡ some (tested content_before off)
    pub others : (q : Bytes) → bytes_eq p q ≡ false → l.file w' q ≡ l.file w q

  back :
      (t : ℕ) (r : Option ℕ × W)
      → r.0 ≡ none
      → l.file r.1 p ≡ some content_before
      → ((q : Bytes) → bytes_eq p q ≡ false → l.file r.1 q ≡ l.file w q)
      → (rest : ℕ → W → Result W ℕ)
      → Ends (λ _ _. ⊥) (Tested (negsuc t)) (and_then (or_exit r) rest)
  unfolding and_then or_exit tested
  back t (none, w') failed kept others rest = record {
    status = refl;
    there = kept;
    others = others;
  }
  back t (some n, w') failed kept others rest = cc

  pub write_test-Tested : (off : ℤ) → Ends (λ _ _. ⊥) (Tested off) (write_test atoll k p off w)
  unfolding write_test and_then or_exit write_offset seek_target tested
  write_test-Tested (pos t) =
      let r =
        returned _ (k.sys_open large_flags p w) (open-Holds k ⊥ l large_flags p w (inr refl)) in
      let s =
        returned _ (k.sys_lseek r.0 (pos t) seek_set r.1)
          (seek-Holds k ⊥ l r.0 _ content_before r.1 r.3.1 t (pos t) seek_set refl) in
      let v =
        returned _ (k.sys_write r.0 (codes "test") s.1)
          (write-Holds k ⊥ l r.0 _ content_before s.1 s.3.1 b't' (codes "est")) in
      let all = left_if v.3.1 in
      rw r.2 (
        rw s.2 (
          rw v.2 (record {
            status = refl;
            there = (v.3.2 all).0.1;
            others = λ q differ. (v.3.2 all).1.1 q differ ∙ s.3.2.1 q ∙ r.3.2.1 q differ;
          })))
  write_test-Tested (negsuc t) =
      let r =
        returned _ (k.sys_open large_flags p w) (open-Holds k ⊥ l large_flags p w (inr refl)) in
      let e = l.seek_negative r.0 t _ content_before (negsuc t) seek_set r.1 r.3.1.0 r.3.1.1 refl in
      rw r.2 (
        back t (k.sys_lseek r.0 (negsuc t) seek_set r.1) e.0 (e.1 p ∙ r.3.1.1)
          (λ q differ. e.1 q ∙ r.3.2.1 q differ) _)

  -- Where no call fails, `large_file2`, for a file that is not named --help, exits with status 0 with
  -- "test" at the offset in a file with the old content, or with status 1 where the offset is
  -- negative; the offset is the number of the argument cut to the bits of `off_t`.
  pub large_file2-Tested :
      (bits : ℕ) (offset : Bytes)
      → bytes_eq p (codes "--help") ≡ false
      → Ends
          (λ _ _. ⊥)
          (Tested (to_signed bits (atoll offset)))
          (large_file2 atoll k bits (p ∷ offset ∷ []) w)
  unfolding large_file2
  large_file2-Tested bits offset named =
      rw named (write_test-Tested (to_signed bits (atoll offset)))

  -- Where the number fits in `off_t`, both programs do the same.
  pub large_file2-large_file :
      (bits : ℕ) (offset : Bytes)
      → FitsIn (suc bits) (atoll offset)
      → large_file2 atoll k (suc bits) (p ∷ offset ∷ []) w ≡ large_file atoll k (p ∷ offset ∷ []) w
  unfolding large_file2 large_file
  large_file2-large_file bits offset fits = rw (to_signed-FitsIn bits (atoll offset) fits)

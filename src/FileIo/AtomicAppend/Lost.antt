-- ===== src/FileIo/AtomicAppend/Lost.antt =====
-- stage0/tlpi/fileio/atomic_append.c: with the argument x two processes can lose a byte.
use mathlib.Core.List.{append-nil}
use stage.Base.{
  ℕ, suc, ◌==◌, ◌≡◌, refl, ap, ◌∙◌, true, false, some, [], ◌∷◌, ◌++◌, length, arith, ==-swap,
  left_if,
}
use stage.Base.Int.{ℤ, pos, ◌+ℤ◌}
use stage.Base.Text.{Bytes}
use stage.FileIo.{Kernel, Documented, Desc, overwrite, write_offset, seek_target, seek_end}
use stage.FileIo.Calls.{returned, overwrite-append}
use stage.FileIo.Calls.Single.{Holds, Still, Frame, Still-Holds, seek-Holds, write-Holds}
use stage.FileIo.AtomicAppend.{
  Process, value, seeking, writing, enter_round, next_round, sought_pc, wrote_pc, step, interleave,
}
use stage.FileIo.AtomicAppend.Progress.{overwrite-end}

-- A process that seeks to the end before each write.
abbrev pub seeker : Bytes → ℤ → Process
seeker p val = record { file = p; number = value val; is_seek = true }

abbrev pub behind_at : Bytes → ℕ → Desc
behind_at p o = record { path = p; offset = o; append = false }

seek_to_end :
    (p : Bytes) (o : ℕ) (c : Bytes)
    → seek_target (behind_at p o) c (pos 0) seek_end ≡ pos (length c)
unfolding seek_target ◌+ℤ◌
seek_to_end p o c = ground arith

module _ {W : Type 0} (k : Kernel W) (l : Documented k ⊥) (p : Bytes) where
  seek_step :
      (val : ℤ) (fd i o : ℕ) (c : Bytes) (w : W)
      → Holds k ⊥ l fd (behind_at p o) c w
      → (w' : W) × (step k (seeker p val) (seeking fd i) w ≡ (writing fd i, w'))
        × Holds k ⊥ l fd (behind_at p (length c)) c w'
        × Still k ⊥ l fd w w'
  unfolding step sought_pc
  seek_step val fd i o c w h =
      let r =
        returned _ (k.sys_lseek fd (pos 0) seek_end w)
          (seek-Holds k ⊥ l fd _ c w h (length c) (pos 0) seek_end (seek_to_end p o c)) in
      (r.1, ap (sought_pc fd i) r.2, r.3.1, r.3.2)

  wrote_one :
      (val : ℤ) (fd i m : ℕ) (w : W)
      → m ≡ 1
      → wrote_pc (seeker p val) fd i (some m, w) ≡ (enter_round true val fd (suc i), w)
  unfolding wrote_pc next_round
  wrote_one val fd i m w one = let e : (m == 1) ≡ true = ground arith in rw e refl

  write_step :
      (val : ℤ) (fd i o : ℕ) (c : Bytes) (w : W)
      → Holds k ⊥ l fd (behind_at p o) c w
      → (w' : W) × (step k (seeker p val) (writing fd i) w ≡ (enter_round true val fd (suc i), w'))
        × (l.file w' p ≡ some (overwrite c o (0 ∷ [])))
        × Frame k ⊥ l fd p w w'
  unfolding step next_round write_offset
  write_step val fd i o c w h =
      let r = returned _ (k.sys_write fd (0 ∷ []) w) (write-Holds k ⊥ l fd _ c w h 0 []) in
      let one = left_if r.3.1 in
      (
        r.1,
        ap (wrote_pc (seeker p val) fd i) r.2 ∙ wrote_one val fd i _ _ one,
        (r.3.2 one).0.1,
        (r.3.2 one).1,
      )

  -- With the argument x, where no call fails: when both processes seek to the end before either
  -- writes, both go on to the next round, and the file has grown by one byte for the two.
  pub interleave_lost :
      (v u : ℤ) (fd gd i j o o' : ℕ) (c : Bytes) (w : W)
      → Holds k ⊥ l fd (behind_at p o) c w
      → Holds k ⊥ l gd (behind_at p o') c w
      → (fd == gd) ≡ false
      → (w' : W) × (interleave k
            (seeker p v)
            (seeker p u)
            (true ∷ false ∷ true ∷ false ∷ [])
            (seeking fd i, seeking gd j, w)
          ≡ (enter_round true v fd (suc i), enter_round true u gd (suc j), w'))
        × (l.file w' p ≡ some (c ++ (0 ∷ [])))
  unfolding interleave
  interleave_lost v u fd gd i j o o' c w h g apart =
      let (w1, e1, h1, s1) = seek_step v fd i o c w h in
      let (w2, e2, g2, s2) =
        seek_step u gd j o' c w1 (Still-Holds k ⊥ l fd gd _ c w w1 s1 apart g) in
      let h2 = Still-Holds k ⊥ l gd fd _ c w1 w2 s2 (==-swap fd gd apart) h1 in
      let (w3, e3, c3, f3) = write_step v fd i (length c) c w2 h2 in
      let (w4, e4, c4, f4) = write_step u gd j (length c) _ w3 (f3.0 gd apart ∙ g2.0, c3) in
      (
        w4,
        rw (e1, e2, e3, e4) refl,
        c4
            ∙ ap some (
                ap (λ t. overwrite t (length c) (0 ∷ [])) (overwrite-end c (0 ∷ []))
                ∙ overwrite-append c (0 ∷ []) (0 ∷ [])
                ∙ append-nil (c ++ (0 ∷ []))),
      )

-- ===== src/FileIo/Cp/Files.antt =====
-- stage0/tlpi/fileio/cp.c: `main`.
use stage.Base.{
  ==-swap, ℕ, ◌==◌, ◌≡◌, ◌<◌, refl, ap, ◌∙◌, inl, inr, false, Option, some, none, [], ◌∷◌, length,
  arith,
}
use stage.Base.Text.{Bytes, codes}
use stage.FileIo.{Desc, Kernel, Documented, bytes_eq, opened, or_exit, or_exit_if_not}
use stage.FileIo.Steps.{
  Ends, Ends-weaken, and_then-Ends, or_exit-Ends, or_exit_if_not-Ends, apart_if, bytes_eq_comm,
}
use stage.FileIo.Calls.Single.{Holds, Frame, Frame-Holds, Frame-same, open-Holds}
use stage.FileIo.Cp.{cp_loop, cp_close, cp_files, cp, src_flags, dst_flags}
use stage.FileIo.Cp.Holes.{punch}
use stage.FileIo.Cp.State.{State, Finished-IsPunched, CpExits}
use stage.FileIo.Cp.Loop.{cp_loop-State}

opened-source : (o : Option Bytes) (c : Bytes) → o ≡ some c → opened src_flags o ≡ c
unfolding opened
opened-source none c e = cc
opened-source (some d) c e = cc

module _ {W : Type 0} (k : Kernel W) (F : Type 0) (l : Documented k F) (src dst c : Bytes)
    (w : W) where
  -- The content of the target before.
  abbrev pub dst_before : Bytes
  dst_before = opened dst_flags (l.file w dst)

  abbrev Exits : ℕ → W → Type 0
  Exits = CpExits k F l (l.file w) src dst c dst_before

  fails : (w' : W) → F → Exits 1 w'
  fails w' f = (refl, f)

  cp_close-Exits :
      (src_fd dst_fd : ℕ) (d e : Desc) (w' : W)
      → (src_fd == dst_fd) ≡ false
      → l.desc w' src_fd ≡ some d
      → l.desc w' dst_fd ≡ some e
      → Exits 0 w'
      → Ends (λ _ _. ⊥) Exits (cp_close k src_fd dst_fd w')
  unfolding cp_close
  cp_close-Exits src_fd dst_fd d e w' two src_open dst_open done =
      and_then-Ends Exits _ (or_exit_if_not (k.sys_close src_fd w')) _ (
        or_exit_if_not-Ends Exits F fails _ _ (k.sys_close src_fd w')
          (l.close_lem src_fd d w' src_open)
          (λ w1 h1. and_then-Ends Exits _ (or_exit_if_not (k.sys_close dst_fd w1)) _ (
            or_exit_if_not-Ends Exits F fails _ _ (k.sys_close dst_fd w1)
              (l.close_lem dst_fd e w1 (h1.1 dst_fd ∙ rw two dst_open))
              (λ w2 h2. λ q. h2.0 q ∙ h1.0 q ∙ done q))))

  module _ (there : l.file w src ≡ some c) (differ : bytes_eq dst src ≡ false) where
    module _ (src_fd dst_fd : ℕ) (w1 w2 : W)
        (h1 : Holds k F l src_fd
          (record { path = src; offset = 0; append = false })
          (opened src_flags (l.file w src))
          w1)
        (f1 : Frame k F l src_fd src w w1) (free : l.desc w1 dst_fd ≡ none)
        (h2 : Holds k F l dst_fd
          (record { path = dst; offset = 0; append = false })
          (opened dst_flags (l.file w1 dst))
          w2)
        (f2 : Frame k F l dst_fd dst w1 w2) where
      apart : (src_fd == dst_fd) ≡ false
      apart = apart_if (l.desc w1) _ src_fd dst_fd h1.0 free

      apart' : (dst_fd == src_fd) ≡ false
      apart' = ==-swap src_fd dst_fd apart

      src_held : Holds k F l src_fd (record { path = src; offset = 0; append = false }) c w1
      src_held = (h1.0, h1.1 ∙ ap some (opened-source (l.file w src) c there))

      start-State :
          State k F l
            (l.file w)
            src
            dst
            c
            dst_before
            differ
            src_fd
            dst_fd
            apart
            apart'
            false
            []
            c
            w2
      unfolding punch opened
      start-State = record {
        split = refl;
        source = Frame-Holds k F l dst_fd src_fd dst _ c w1 w2 f2 apart' differ src_held;
        place = 0;
        target = (
          h2.0,
          h2.1 ∙ ap (λ o. some (opened dst_flags o)) (f1.1 dst (bytes_eq_comm src dst ∙ differ)),
        );
        behind_done = omega arith;
        flush = λ _. refl;
        others = λ q other. f2.1 q other ∙ Frame-same k F l src_fd src c w w1 f1 there src_held.1 q;
      }

    cp_files-Exits :
        (fuel : ℕ) → length c < fuel → Ends (λ _ _. ⊥) Exits (cp_files k fuel src dst w)
    unfolding cp_files
    cp_files-Exits fuel lt = and_then-Ends Exits _ (or_exit (k.sys_open src_flags src w)) _ (
        or_exit-Ends Exits F fails _ _ (k.sys_open src_flags src w)
          (open-Holds k F l src_flags src w (inl (c, there)))
          (λ src_fd w1 g1. and_then-Ends Exits _ (or_exit (k.sys_open dst_flags dst w1)) _ (
            or_exit-Ends Exits F fails _ _ (k.sys_open dst_flags dst w1)
              (open-Holds k F l dst_flags dst w1 (inr refl))
              (λ dst_fd w2 g2. and_then-Ends Exits _ (cp_loop k src_fd dst_fd fuel false w2) _ (
                let two = apart src_fd dst_fd w1 w2 g1.1 g1.2 g2.0 g2.1 g2.2 in
                let two' = apart' src_fd dst_fd w1 w2 g1.1 g1.2 g2.0 g2.1 g2.2 in
                Ends-weaken Exits _ _ (cp_loop k src_fd dst_fd fuel false w2)
                  (cp_loop-State k F l (l.file w) src dst c dst_before differ src_fd dst_fd two two'
                    fuel false [] c w2 lt
                    (start-State src_fd dst_fd w1 w2 g1.1 g1.2 g2.0 g2.1 g2.2))
                  (λ _ w3 done.
                    cp_close-Exits src_fd dst_fd _ _ w3 two done.2.source.0 done.2.target.0 (
                      Finished-IsPunched k F l (l.file w) src dst c dst_before differ src_fd dst_fd
                        two two' w3 done)))))))

    -- Where the source is there, its name is not --help, and the target has another name, `cp`, with
    -- more fuel than the source has bytes, exits whatever the calls do: with status 0 where the
    -- bytes of the source that are not zero have replaced those of the target, a zero has left what
    -- the target held there, or a zero byte where a later byte is not zero, and no other file
    -- differs; or with status 1, and that only if calls may fail.
    pub cp-CpExits :
        (fuel : ℕ)
        → length c < fuel
        → bytes_eq src (codes "--help") ≡ false
        → Ends
            (λ _ _. ⊥)
            (CpExits k F l (l.file w) src dst c dst_before)
            (cp k fuel (src ∷ dst ∷ []) w)
    unfolding cp
    cp-CpExits fuel lt named = rw named (cp_files-Exits fuel lt)

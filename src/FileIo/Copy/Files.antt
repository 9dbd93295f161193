-- ===== src/FileIo/Copy/Files.antt =====
-- stage0/tlpi/fileio/copy.c: `main`.
use stage.Base.{
  ℕ, ◌==◌, ◌≡◌, ◌<◌, refl, ap, ◌∙◌, inl, inr, false, Option, none, some, [], ◌∷◌, length, arith,
}
use stage.Base.Text.{Bytes, codes}
use stage.FileIo.{
  Desc, Kernel, Documented, bytes_eq, store, assign, opened, or_exit, or_exit_if_not,
}
use stage.FileIo.Steps.{
  Ends, and_then-Ends, Ends-weaken, apart_if, store-same, store-under, or_exit-Ends,
  or_exit_if_not-Ends, assign_self, assign-other,
}
use stage.FileIo.Copy.{transfer, finish, copy_files, copy, read_flags, open_flags}
use stage.FileIo.Copy.Transfer.{At, IsCopied, Finished-IsCopied, ExitsOf, transfer-ExitsOf}

opened-whole : (o : Option Bytes) (c : Bytes) → o ≡ some c → opened read_flags o ≡ c
unfolding opened
opened-whole none c e = cc
opened-whole (some d) c e = cc

opened-cut : (o : Option Bytes) → opened open_flags o ≡ []
unfolding opened
opened-cut none = refl
opened-cut (some d) = refl

module _ {W : Type 0} (k : Kernel W) (F : Type 0) (l : Documented k F) (old_file new_file c : Bytes)
    (w : W) where
  module _ (there : l.file w old_file ≡ some c) (differ : bytes_eq new_file old_file ≡ false) where
    module _ (input output : ℕ) (w1 w2 : W)
        (f1 : (q : Bytes)
          → l.file w1 q ≡ store (l.file w) old_file (opened read_flags (l.file w old_file)) q)
        (d1 : (x : ℕ)
          → l.desc w1 x
            ≡ assign (l.desc w) input (record { path = old_file; offset = 0; append = false }) x)
        (free : l.desc w1 output ≡ none)
        (f2 : (q : Bytes)
          → l.file w2 q ≡ store (l.file w1) new_file (opened open_flags (l.file w1 new_file)) q)
        (d2 : (x : ℕ)
          → l.desc w2 x
            ≡ assign
                (l.desc w1)
                output
                (record { path = new_file; offset = 0; append = false })
                x) where
      input_open : l.desc w1 input ≡ some (record { path = old_file; offset = 0; append = false })
      input_open = d1 input ∙ assign_self (l.desc w) input _

      apart : (input == output) ≡ false
      apart =
          apart_if (l.desc w1) (record { path = old_file; offset = 0; append = false }) input output
            input_open free

      unchanged : (q : Bytes) → l.file w1 q ≡ l.file w q
      unchanged q =
          f1 q
          ∙ ap (λ d. store (l.file w) old_file d q) (opened-whole (l.file w old_file) c there)
          ∙ store-same (l.file w) old_file c q there

      start-At : At k F l (l.file w) old_file new_file c there differ input output apart [] c w2
      start-At = record {
        split = refl;
        reads =
            d2 input ∙ assign-other (l.desc w1) output _ input (ground (arith, apart)) ∙ input_open;
        writes = d2 output ∙ assign_self (l.desc w1) output _;
        holds = λ q.
            f2 q
            ∙ ap (λ d. store (l.file w1) new_file d q) (opened-cut (l.file w1 new_file))
            ∙ store-under (l.file w1) (l.file w) new_file [] q (unchanged q);
      }

    abbrev CopyExits : ℕ → W → Type 0
    CopyExits = ExitsOf k F l (l.file w) old_file new_file c

    fails : (w' : W) → F → CopyExits 1 w'
    fails w' f = (refl, f)

    -- `main` behind the transfer.
    finish-ExitsOf :
        (input output : ℕ) (d e : Desc) (w' : W)
        → (input == output) ≡ false
        → l.desc w' input ≡ some d
        → l.desc w' output ≡ some e
        → IsCopied k F l (l.file w) old_file new_file c w'
        → Ends (λ _ _. ⊥) CopyExits (finish k input output w')
    unfolding finish
    finish-ExitsOf input output d e w' two in_open out_open done =
        and_then-Ends CopyExits _ (or_exit_if_not (k.sys_close input w')) _ (
          or_exit_if_not-Ends CopyExits F fails _ _ (k.sys_close input w')
            (l.close_lem input d w' in_open)
            (λ w1 h1. and_then-Ends CopyExits _ (or_exit_if_not (k.sys_close output w1)) _ (
              or_exit_if_not-Ends CopyExits F fails _ _ (k.sys_close output w1)
                (l.close_lem output e w1 (h1.1 output ∙ rw two out_open))
                (λ w2 h2. λ q. h2.0 q ∙ h1.0 q ∙ done q))))

    copy_files-ExitsOf :
        (fuel : ℕ)
        → length c < fuel
        → Ends (λ _ _. ⊥) CopyExits (copy_files k fuel old_file new_file w)
    unfolding copy_files
    copy_files-ExitsOf fuel lt =
        and_then-Ends CopyExits _ (or_exit (k.sys_open read_flags old_file w)) _ (
          or_exit-Ends CopyExits F fails _ _ (k.sys_open read_flags old_file w)
            (l.open_lem read_flags old_file w (inl (c, there)))
            (λ input w1 h1.
              and_then-Ends CopyExits _ (or_exit (k.sys_open open_flags new_file w1)) _ (
                or_exit-Ends CopyExits F fails _ _ (k.sys_open open_flags new_file w1)
                  (l.open_lem open_flags new_file w1 (inr refl))
                  (λ output w2 h2. and_then-Ends CopyExits _ (transfer k fuel input output w2) _ (
                    Ends-weaken CopyExits _ _ (transfer k fuel input output w2)
                      (transfer-ExitsOf k F l (l.file w) old_file new_file c there differ input
                        output (apart input output w1 w2 h1.1 h1.2 h2.0 h2.1 h2.2) fuel [] c w2 lt
                        (start-At input output w1 w2 h1.1 h1.2 h2.0 h2.1 h2.2))
                      (λ _ w3 done.
                        finish-ExitsOf input output _ _ w3
                          (apart input output w1 w2 h1.1 h1.2 h2.0 h2.1 h2.2) done.1.reads
                          done.1.writes
                          (Finished-IsCopied k F l (l.file w) old_file new_file c there differ input
                            output (apart input output w1 w2 h1.1 h1.2 h2.0 h2.1 h2.2) w3
                            done)))))))

    -- Where the old file is there, its name is not --help, and the new file has another name,
    -- `copy`, with more fuel than the old file has bytes, exits whatever the calls do: with status
    -- 0 where the new file has become a copy of the old one and no other file differs, or with
    -- status 1, and that only if calls may fail.
    pub copy-ExitsOf :
        (fuel : ℕ)
        → length c < fuel
        → bytes_eq old_file (codes "--help") ≡ false
        → Ends
            (λ _ _. ⊥)
            (ExitsOf k F l (l.file w) old_file new_file c)
            (copy k fuel (old_file ∷ new_file ∷ []) w)
    unfolding copy
    copy-ExitsOf fuel lt named = rw named (copy_files-ExitsOf fuel lt)

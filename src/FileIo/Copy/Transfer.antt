-- ===== src/FileIo/Copy/Transfer.antt =====
-- stage0/tlpi/fileio/copy.c: what the transfer loop does to the files.
use stage.Base.{
  ℕ, zero, suc, ◌==◌, ◌≡◌, ◌<◌, refl, sym, ap, ◌∙◌, ◌⊎◌, inl, inr, drop-nil, false, Option, some,
  [], ◌∷◌, ◌++◌, length, drop, Bool-cases, ◌≢◌, arith,
}
use stage.Base.Text.{Bytes}
use stage.FileIo.{Kernel, Documented, bytes_eq, store, assign, or_exit}
use stage.FileIo.Steps.{
  Ends, and_then-Ends, or_exit-Ends, shorter, store_self, store-other, store-store, assign_self,
  assign-other,
}
use stage.FileIo.Calls.{read_behind, write_behind}
use mathlib.Core.List.{append_assoc, append-nil}
use stage.FileIo.Copy.{transfer, go_on, body, buf_size}

module _ {W : Type 0} (k : Kernel W) (F : Type 0) (l : Documented k F) where
  module _ (files : Bytes → Option Bytes) (old_file new_file c : Bytes) where
    -- The new file is a copy of the old one's content `c`, and no other file differs.
    abbrev pub IsCopied : W → Type 0
    IsCopied w = (q : Bytes) → l.file w q ≡ store files new_file c q

    -- The exits: status 0 with the copy made, or status 1 where a call may fail.
    abbrev pub ExitsOf : ℕ → W → Type 0
    ExitsOf zero w = IsCopied w
    ExitsOf (suc n) w = (n ≡ 0) × F

    module _ (there : files old_file ≡ some c) (differ : bytes_eq new_file old_file ≡ false)
        (input output : ℕ) (apart : (input == output) ≡ false) where
      -- `done` is copied and `rest` is not.
      pub record At (done rest : Bytes) (w : W) : Type 0 where
        pub split : c ≡ done ++ rest
        pub reads :
            l.desc w input ≡ some (record { path = old_file; offset = length done; append = false })
        pub writes :
            l.desc w output
            ≡ some (record { path = new_file; offset = length done; append = false })
        pub holds : (q : Bytes) → l.file w q ≡ store files new_file done q

      -- Nothing is left, and both descriptors are open.
      abbrev pub Finished : W → Type 0
      Finished w = (done : Bytes) × At done [] w

      pub Finished-IsCopied : (w : W) → Finished w → IsCopied w
      Finished-IsCopied w (done, a) q =
          a.holds q ∙ ap (λ d. store files new_file d q) (sym (a.split ∙ append-nil done))

      -- `done` is copied, `s` is read and `u` is not.
      record Read (done s u : Bytes) (w : W) : Type 0 where
        split : c ≡ done ++ (s ++ u)
        reads :
            l.desc w input
            ≡ some (record { path = old_file; offset = length (done ++ s); append = false })
        writes :
            l.desc w output
            ≡ some (record { path = new_file; offset = length done; append = false })
        holds : (q : Bytes) → l.file w q ≡ store files new_file done q

      At-source :
          (done rest : Bytes) (w : W) → At done rest w → l.file w old_file ≡ some (done ++ rest)
      At-source done rest w a =
          a.holds old_file
          ∙ store-other files new_file done old_file differ
          ∙ there
          ∙ ap some a.split

      Read-target :
          (done s u : Bytes) (w : W) → Read done s u w → l.file w new_file ≡ some (done ++ [])
      Read-target done s u w a =
          a.holds new_file ∙ store_self files new_file done ∙ ap some (sym (append-nil done))

      -- After a read of `s`, at most the rest, the descriptor of the old file stands behind it.
      At-moved :
          (done rest s u : Bytes) (w w' : W)
          → At done rest w
          → rest ≡ s ++ u
          → ((q : Bytes) → l.file w' q ≡ l.file w q)
          → ((x : ℕ)
              → l.desc w' x
                ≡ assign
                    (l.desc w)
                    input
                    (record { path = old_file; offset = length (done ++ s); append = false })
                    x)
          → Read done s u w'
      At-moved done rest s u w w' a cut same descs = record {
        split = a.split ∙ ap (λ v. done ++ v) cut;
        reads = descs input ∙ assign_self (l.desc w) input _;
        writes = descs output ∙ assign-other (l.desc w) input _ output apart ∙ a.writes;
        holds = λ q. same q ∙ a.holds q;
      }

      At-written :
          (n : ℕ) (done s u : Bytes) (w w' : W)
          → Read done s u w
          → ((q : Bytes) → l.file w' q ≡ store (l.file w) new_file ((done ++ s) ++ drop n []) q)
          → ((x : ℕ)
              → l.desc w' x
                ≡ assign
                    (l.desc w)
                    output
                    (record { path = new_file; offset = length (done ++ s); append = false })
                    x)
          → At (done ++ s) u w'
      At-written n done s u w w' a files' descs = record {
        split = a.split ∙ sym (append_assoc done s u);
        reads = descs input ∙ assign-other (l.desc w) output _ input (ground arith) ∙ a.reads;
        writes = descs output ∙ assign_self (l.desc w) output _;
        holds = λ q.
            files' q
            ∙ store-store files new_file (l.file w) done ((done ++ s) ++ drop n []) a.holds q
            ∙ ap (λ d. store files new_file d q)
                (ap (λ t. (done ++ s) ++ t) (drop-nil n) ∙ append-nil (done ++ s));
      }

      fails : (w : W) → F → ExitsOf 1 w
      fails w f = (refl, f)

      go_on-ExitsOf :
          (fuel : ℕ) (done s u : Bytes) (w w' : W) (n : ℕ)
          → Read done s u w
          → ((w' : W)
              → At (done ++ s) u w'
              → Ends (λ _ w'. Finished w') ExitsOf (transfer k fuel input output w'))
          → ((n ≡ length s) ⊎ F)
          → (n ≡ length s
              → ((q : Bytes) → l.file w' q ≡ store (l.file w) new_file ((done ++ s) ++ drop n []) q)
                × ((x : ℕ)
                    → l.desc w' x
                      ≡ assign
                          (l.desc w)
                          output
                          (record { path = new_file; offset = length (done ++ s); append = false })
                          x))
          → Ends
              (λ _ w'. Finished w')
              ExitsOf
              (go_on k (transfer k fuel input output) (length s) n w')
      unfolding go_on
      go_on-ExitsOf fuel done s u w w' n a next all effect = elim (Bool-cases (n == length s)) [
        | inl hit ↦ rw hit (
            next w'
              (At-written n done s u w w' a (effect (ground arith)).0 (effect (ground arith)).1))
        | inr miss ↦ rw miss (refl, elim all [ inl eq ↦ absurd (ground arith) | inr f ↦ f ])
      ]

      -- The round behind a read.
      after_read :
          (fuel : ℕ) (done s u : Bytes) (w : W)
          → Read done s u w
          → (s ≡ [] → u ≡ [])
          → ((w' : W)
              → s ≢ []
              → At (done ++ s) u w'
              → Ends (λ _ w'. Finished w') ExitsOf (transfer k fuel input output w'))
          → Ends (λ _ w'. Finished w') ExitsOf (body k (transfer k fuel input output) output s w)
      unfolding body
      after_read fuel done [] u w a end next = (
        done,
        record {
          split = a.split ∙ ap (λ v. done ++ v) (end refl);
          reads =
              a.reads
              ∙ ap (λ v. some (record { path = old_file; offset = length v; append = false }))
                  (append-nil done);
          writes = a.writes;
          holds = a.holds;
        },
      )
      after_read fuel done (x ∷ s) u w a end next =
          and_then-Ends ExitsOf _ (or_exit (k.sys_write output (x ∷ s) w)) _ (
            or_exit-Ends ExitsOf F fails _ _ (k.sys_write output (x ∷ s) w)
              (write_behind k F l output x new_file done [] s w a.writes
                (Read-target done (x ∷ s) u w a))
              (λ n w' h.
                go_on-ExitsOf fuel done (x ∷ s) u w w' n a (λ w' b. next w' (λ e. cc) b) h.1 h.2))

      pub transfer-ExitsOf :
          (fuel : ℕ) (done rest : Bytes) (w : W)
          → length rest < fuel
          → At done rest w
          → Ends (λ _ w'. Finished w') ExitsOf (transfer k fuel input output w)
      unfolding transfer
      transfer-ExitsOf zero done rest w lt a = absurd (omega arith)
      transfer-ExitsOf (suc fuel) done rest w lt a =
          and_then-Ends ExitsOf _ (or_exit (k.sys_read input buf_size w)) _ (
            or_exit-Ends ExitsOf F fails _ _ (k.sys_read input buf_size w)
              (read_behind k F l input 1023 old_file done rest w a.reads (At-source done rest w a))
              (λ s w' h.
                after_read fuel done s h.0.0 w' (At-moved done rest s h.0.0 w w' a h.0.1 h.3 h.4)
                  (λ e. ap (λ v. v ++ h.0.0) (sym e) ∙ sym h.0.1 ∙ h.2 e)
                  (λ w'' some_bytes b.
                    transfer-ExitsOf fuel (done ++ s) h.0.0 w''
                      (shorter s h.0.0 rest fuel some_bytes h.0.1 lt) b)))

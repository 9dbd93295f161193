-- ===== src/FileIo/Cp/Loop.antt =====
-- stage0/tlpi/fileio/cp.c: the loop.
use mathlib.Core.List.{append-nil}
use stage.Base.{
  ℕ, zero, suc, ◌==◌, ◌≡◌, ◌≢◌, ◌<◌, ◌≤◌, inl, inr, refl, sym, ap, ◌∙◌, Bool, true, false, Option,
  some, [], ◌∷◌, ◌++◌, length, drop, length-append, Bool-cases, arith,
}
use stage.Base.Text.{Bytes}
use stage.FileIo.{Kernel, Documented, bytes_eq, or_exit}
use stage.FileIo.Steps.{Ends, and_then-Ends, or_exit-Ends, shorter}
use stage.FileIo.Calls.{behind, drop-append}
use stage.FileIo.Calls.Single.{Holds, Still, Still-Holds, read-Holds}
use stage.FileIo.Cp.{cp_body, cp_loop}
use stage.FileIo.Cp.Holes.{punch}
use stage.FileIo.Cp.State.{State, Finished, CpExits, fails, zero-State}
use stage.FileIo.Cp.Byte.{byte-State}

module _ {W : Type 0} (k : Kernel W) (F : Type 0) (l : Documented k F)
    (files : Bytes → Option Bytes) (src dst c old : Bytes) (differ : bytes_eq dst src ≡ false)
    (src_fd dst_fd : ℕ) (apart : (src_fd == dst_fd) ≡ false)
    (apart' : (dst_fd == src_fd) ≡ false) where
  abbrev Copied : Bool → Bytes → Bytes → W → Type 0
  Copied = State k F l files src dst c old differ src_fd dst_fd apart apart'

  abbrev Done : W → Type 0
  Done = Finished k F l files src dst c old differ src_fd dst_fd apart apart'

  abbrev Exits : ℕ → W → Type 0
  Exits = CpExits k F l files src dst c old

  -- The rest of a round that has read `s`.
  cp_body-State :
      (fuel : ℕ) (b : Bool) (done rest s u : Bytes) (w w' : W)
      → Copied b done rest w
      → rest ≡ s ++ u
      → length s ≤ 1
      → (s ≡ [] → rest ≡ [])
      → Holds k F l src_fd (behind src (done ++ s)) c w'
      → Still k F l src_fd w w'
      → ((b' : Bool) (w'' : W)
          → s ≢ []
          → Copied b' (done ++ s) u w''
          → Ends (λ _ w'. Done w') Exits (cp_loop k src_fd dst_fd fuel b' w''))
      → Ends
          (λ _ w'. Done w')
          Exits
          (cp_body k src_fd dst_fd
            (cp_loop k src_fd dst_fd fuel true)
            (cp_loop k src_fd dst_fd fuel false)
            b
            s
            w')
  unfolding cp_body
  cp_body-State fuel b done rest [] u w w' a cut short end source still next = (
    b,
    done,
    record {
      split = a.split ∙ ap (λ v. done ++ v) (end refl);
      source = (source.0 ∙ ap (λ v. some (behind src v)) (append-nil done), source.1);
      place = a.place;
      target = Still-Holds k F l src_fd dst_fd _ (punch done old) w w' still apart a.target;
      behind_done = a.behind_done;
      flush = a.flush;
      others = λ q other. still.1 q ∙ a.others q other;
    },
  )
  cp_body-State fuel b done rest (x ∷ y ∷ s) u w w' a cut short end source still next =
      absurd (omega arith)
  cp_body-State fuel b done rest (x ∷ []) u w w' a cut short end source still next =
      elim (Bool-cases (x == 0)) [
        | inl hit ↦ rw hit (
            next true w' (λ e. cc)
              (zero-State k F l files src dst c old differ src_fd dst_fd apart apart' b done rest u
                x w w' a cut (ground arith) source still))
        | inr miss ↦ rw miss (
            byte-State k F l files src dst c old differ src_fd dst_fd apart apart' fuel b done rest
              u x w w' a cut miss source still (λ w'' a'. next false w'' (λ e. cc) a'))
      ]

  pub cp_loop-State :
      (fuel : ℕ) (b : Bool) (done rest : Bytes) (w : W)
      → length rest < fuel
      → Copied b done rest w
      → Ends (λ _ w'. Done w') Exits (cp_loop k src_fd dst_fd fuel b w)
  unfolding cp_loop
  cp_loop-State zero b done rest w lt a = absurd (omega arith)
  cp_loop-State (suc fuel) b done rest w lt a =
      and_then-Ends Exits _ (or_exit (k.sys_read src_fd 1 w)) _ (
        or_exit-Ends Exits F (fails k F l files src dst c old) _ _ (k.sys_read src_fd 1 w)
          (read-Holds k F l src_fd _ c w a.source 0)
          (λ s w' h.
            let e : drop (length done) c ≡ rest =
              ap (drop (length done)) a.split ∙ drop-append done rest in
            cp_body-State fuel b done rest s h.0.0 w w' a (sym e ∙ h.0.1) h.1 (λ q. sym e ∙ h.2 q)
              (
                h.3.0
                    ∙ ap (λ i. some (record { path = src; offset = i; append = false }))
                        (sym (length-append done s)),
                h.3.1,
              )
              h.4
              (λ b' w'' some_bytes a'.
                cp_loop-State fuel b' (done ++ s) h.0.0 w''
                  (shorter s h.0.0 rest fuel some_bytes (sym e ∙ h.0.1) lt) a')))

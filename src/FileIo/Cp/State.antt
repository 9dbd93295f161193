-- ===== src/FileIo/Cp/State.antt =====
-- stage0/tlpi/fileio/cp.c: what holds between the rounds of the loop.
use mathlib.Core.List.{append_assoc, append-nil}
use stage.Base.{
  ℕ, zero, suc, ◌+◌, ◌==◌, ◌≡◌, ◌≤◌, inl, inr, refl, sym, ap, ◌∙◌, Bool, true, false, Option, some,
  [], ◌∷◌, ◌++◌, length, length-append, Bool-cases, arith,
}
use stage.Base.Text.{Bytes}
use stage.FileIo.{Kernel, Documented, Desc, bytes_eq, store, overwrite, write_offset}
use stage.FileIo.Steps.{bytes_eq_sound, store_self, store-other}
use stage.FileIo.Calls.{behind}
use stage.FileIo.Calls.Single.{Holds, Still, Frame, Still-Holds, Frame-Holds}
use stage.FileIo.Cp.Holes.{punch, punch-zero, punch-byte}

module _ {W : Type 0} (k : Kernel W) (F : Type 0) (l : Documented k F) where
  module _ (files : Bytes → Option Bytes) (src dst c old : Bytes) where
    -- The target holds what a copy with holes leaves, and no other file differs.
    abbrev pub IsPunched : W → Type 0
    IsPunched w = (q : Bytes) → l.file w q ≡ store files dst (punch c old) q

    -- The exits: status 0 with the copy made, or status 1 where a call may fail.
    abbrev pub CpExits : ℕ → W → Type 0
    CpExits zero w = IsPunched w
    CpExits (suc n) w = (n ≡ 0) × F

    pub fails : (w : W) → F → CpExits 1 w
    fails w f = (refl, f)

    module _ (differ : bytes_eq dst src ≡ false) (src_fd dst_fd : ℕ)
        (apart : (src_fd == dst_fd) ≡ false) (apart' : (dst_fd == src_fd) ≡ false) where
      at : Bytes → ℕ → Desc
      at p n = record { path = p; offset = n; append = false }

      -- `done` is copied and `rest` is not. Outside a hole the target stands behind `done`.
      pub record State (in_hole : Bool) (done rest : Bytes) (w : W) : Type 0 where
        pub split : c ≡ done ++ rest
        pub source : Holds k F l src_fd (behind src done) c w
        pub place : ℕ
        pub target :
            Holds k F l dst_fd
              (record { path = dst; offset = place; append = false })
              (punch done old)
              w
        pub behind_done : place ≤ length done
        pub flush : in_hole ≡ false → place ≡ length done
        pub others : (q : Bytes) → bytes_eq dst q ≡ false → l.file w q ≡ files q

      abbrev pub Finished : W → Type 0
      Finished w = (b : Bool) × (done : Bytes) × State b done [] w

      pub Finished-IsPunched : (w : W) → Finished w → IsPunched w
      Finished-IsPunched w (b, done, s) q = elim (Bool-cases (bytes_eq dst q)) [
        | inl hit ↦
            ap (l.file w) (sym (bytes_eq_sound dst q hit))
            ∙ s.target.1
            ∙ ap (λ d. some (punch d old)) (sym (s.split ∙ append-nil done))
            ∙ sym (store_self files dst (punch c old))
            ∙ ap (store files dst (punch c old)) (bytes_eq_sound dst q hit)
        | inr miss ↦ s.others q miss ∙ sym (store-other files dst (punch c old) q miss)
      ]

      pub written-State :
          (done u : Bytes) (x n : ℕ) (w w' : W)
          → (x == 0) ≡ false
          → n ≡ 1
          → c ≡ (done ++ (x ∷ [])) ++ u
          → Holds k F l src_fd (behind src (done ++ (x ∷ []))) c w
          → ((q : Bytes) → bytes_eq dst q ≡ false → l.file w q ≡ files q)
          → Holds k F l dst_fd
              (record (behind dst done) {
                offset = write_offset (behind dst done) (punch done old) + n;
              })
              (overwrite
                (punch done old)
                (write_offset (behind dst done) (punch done old))
                (x ∷ []))
              w'
          → Frame k F l dst_fd dst w w'
          → State false (done ++ (x ∷ [])) u w'
      unfolding write_offset
      written-State done u x n w w' ne one split source others target frame = record {
        split = split;
        source = Frame-Holds k F l dst_fd src_fd dst _ c w w' frame apart' differ source;
        place = length done + n;
        target = (target.0, target.1 ∙ ap some (sym (punch-byte done old x ne)));
        behind_done = omega (arith, length-append done (x ∷ []));
        flush = λ _. omega (arith, length-append done (x ∷ []));
        others = λ q other. frame.1 q other ∙ others q other;
      }

      pub zero-State :
          (b : Bool) (done rest u : Bytes) (x : ℕ) (w w' : W)
          → State b done rest w
          → rest ≡ x ∷ u
          → x ≡ 0
          → Holds k F l src_fd (behind src (done ++ (x ∷ []))) c w'
          → Still k F l src_fd w w'
          → State true (done ++ (x ∷ [])) u w'
      zero-State b done rest u x w w' a cut is_zero source still =
          let target =
            Still-Holds k F l src_fd dst_fd _ (punch done old) w w' still apart a.target in
          record {
            split = a.split ∙ ap (λ v. done ++ v) cut ∙ sym (append_assoc done (x ∷ []) u);
            source = source;
            place = a.place;
            target = (
              target.0,
              target.1
                  ∙ ap some
                      (sym (ap (λ y. punch (done ++ (y ∷ [])) old) is_zero ∙ punch-zero done old)),
            );
            behind_done = omega (arith, a.behind_done, length-append done (x ∷ []));
            flush = λ e. cc;
            others = λ q other. still.1 q ∙ a.others q other;
          }

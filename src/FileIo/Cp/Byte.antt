-- ===== src/FileIo/Cp/Byte.antt =====
-- stage0/tlpi/fileio/cp.c: a byte other than zero.
use mathlib.Core.List.{append_assoc}
use stage.Base.{
  ℕ, suc, ◌==◌, ◌≡◌, ◌≤◌, inl, inr, refl, sym, ap, ◌∙◌, if◌then◌else◌, Bool, true, false, Option,
  some, [], ◌∷◌, ◌++◌, length, length-append, Bool-cases, arith,
}
use stage.Base.Int.{pos, ◌+ℤ◌, ◌-ℤ◌}
use stage.Base.Text.{Bytes}
use stage.FileIo.{
  Kernel, Documented, Desc, Result, bytes_eq, seek_target, seek_set, seek_cur, or_exit,
}
use stage.FileIo.Steps.{Ends, and_then-Ends, or_exit-Ends}
use stage.FileIo.Calls.{behind}
use stage.FileIo.Calls.Single.{Holds, Still, Still-Holds, write-Holds, seek-Holds}
use stage.FileIo.Cp.{put_byte, leave_hole, cp_loop}
use stage.FileIo.Cp.Holes.{punch}
use stage.FileIo.Cp.State.{State, Finished, CpExits, fails, written-State}

seek_here : (d : Desc) (c : Bytes) → seek_target d c (pos 0) seek_cur ≡ pos d.offset
unfolding seek_target ◌+ℤ◌
seek_here d c = ground arith

seek_back :
    (d : Desc) (c : Bytes) (r n : ℕ) → r ≡ suc n → seek_target d c (pos r -ℤ pos 1) seek_set ≡ pos n
unfolding seek_target ◌-ℤ◌
seek_back d c r n e = ground arith

module _ {W : Type 0} (k : Kernel W) (F : Type 0) (l : Documented k F)
    (files : Bytes → Option Bytes) (src dst c old : Bytes) (differ : bytes_eq dst src ≡ false)
    (src_fd dst_fd : ℕ) (apart : (src_fd == dst_fd) ≡ false)
    (apart' : (dst_fd == src_fd) ≡ false) where
  abbrev Copied : Bool → Bytes → Bytes → W → Type 0
  Copied = State k F l files src dst c old differ src_fd dst_fd apart apart'

  abbrev Done : W → Type 0
  Done = Finished k F l files src dst c old differ src_fd dst_fd apart apart'

  abbrev Exits : ℕ → W → Type 0
  Exits = CpExits k F l files src dst c old

  -- The byte `x` is read, and the target stands where it belongs.
  put_byte-State :
      (done u : Bytes) (x : ℕ) (w : W) (rest : W → Result W (Unit {0}))
      → (x == 0) ≡ false
      → c ≡ (done ++ (x ∷ [])) ++ u
      → Holds k F l src_fd (behind src (done ++ (x ∷ []))) c w
      → Holds k F l dst_fd (behind dst done) (punch done old) w
      → ((q : Bytes) → bytes_eq dst q ≡ false → l.file w q ≡ files q)
      → ((w' : W) → Copied false (done ++ (x ∷ [])) u w' → Ends (λ _ w''. Done w'') Exits (rest w'))
      → Ends (λ _ w'. Done w') Exits (put_byte k src_fd dst_fd rest x w)
  unfolding put_byte
  put_byte-State done u x w rest ne split source target others next =
      and_then-Ends Exits _ (or_exit (k.sys_write dst_fd (x ∷ []) w)) _ (
        or_exit-Ends Exits F (fails k F l files src dst c old) _ _ (k.sys_write dst_fd (x ∷ []) w)
          (write-Holds k F l dst_fd (behind dst done) (punch done old) w target x [])
          (λ n w' h. elim (Bool-cases (n == 1)) [
            | inl hit ↦ rw hit (
                next w' (
                  written-State k F l files src dst c old differ src_fd dst_fd apart apart' done u x
                    n w w' ne (ground arith) split source others (h.2 (ground arith)).0
                    (h.2 (ground arith)).1))
            | inr miss ↦ rw miss (refl, elim h.1 [ inl one ↦ absurd (ground arith) | inr f ↦ f ])
          ]))

  -- The same in a hole: the target moves first, since it stands behind the source.
  leave_hole-State :
      (done u : Bytes) (x place : ℕ) (w : W) (still left : W → Result W (Unit {0}))
      → (x == 0) ≡ false
      → c ≡ (done ++ (x ∷ [])) ++ u
      → Holds k F l src_fd (behind src (done ++ (x ∷ []))) c w
      → Holds k F l dst_fd
          (record { path = dst; offset = place; append = false })
          (punch done old)
          w
      → place ≤ length done
      → ((q : Bytes) → bytes_eq dst q ≡ false → l.file w q ≡ files q)
      → ((w' : W) → Copied false (done ++ (x ∷ [])) u w' → Ends (λ _ w''. Done w'') Exits (left w'))
      → Ends (λ _ w'. Done w') Exits (leave_hole k src_fd dst_fd still left x w)
  unfolding leave_hole
  leave_hole-State done u x place w still left ne split source target below others next =
      and_then-Ends Exits _ (or_exit (k.sys_lseek src_fd (pos 0) seek_cur w)) _ (
        or_exit-Ends Exits F (fails k F l files src dst c old) _ _
          (k.sys_lseek src_fd (pos 0) seek_cur w)
          (seek-Holds k F l src_fd _ c w source _ (pos 0) seek_cur (seek_here _ c))
          (λ r w1 h. and_then-Ends Exits _ (or_exit (k.sys_lseek dst_fd (pos 0) seek_cur w1)) _ (
            or_exit-Ends Exits F (fails k F l files src dst c old) _ _
              (k.sys_lseek dst_fd (pos 0) seek_cur w1)
              (seek-Holds k F l dst_fd _ (punch done old) w1
                (Still-Holds k F l src_fd dst_fd _ (punch done old) w w1 h.2 apart target) _ (pos 0)
                seek_cur (seek_here _ (punch done old)))
              (λ m w2 g.
                let moved : (r == m) ≡ false = ground (arith, length-append done (x ∷ [])) in
                let behind_x : r ≡ suc (length done) = omega (arith, length-append done (x ∷ [])) in
                rw moved (
                  and_then-Ends Exits _ (or_exit (k.sys_lseek dst_fd (pos r -ℤ pos 1) seek_set w2))
                    _
                    (or_exit-Ends Exits F (fails k F l files src dst c old) _ _
                      (k.sys_lseek dst_fd (pos r -ℤ pos 1) seek_set w2)
                      (seek-Holds k F l dst_fd _ (punch done old) w2 g.1 (length done) _ seek_set
                        (seek_back _ (punch done old) r (length done) behind_x))
                      (λ t w3 f.
                        put_byte-State done u x w3 left ne split
                          (Still-Holds k F l dst_fd src_fd _ c w2 w3 f.2 apart'
                            (Still-Holds k F l dst_fd src_fd _ c w1 w2 g.2 apart' h.1))
                          f.1 (λ q other. f.2.1 q ∙ g.2.1 q ∙ h.2.1 q ∙ others q other) next)))))))

  -- A round that has read a byte other than zero.
  pub byte-State :
      (fuel : ℕ) (b : Bool) (done rest u : Bytes) (x : ℕ) (w w' : W)
      → Copied b done rest w
      → rest ≡ x ∷ u
      → (x == 0) ≡ false
      → Holds k F l src_fd (behind src (done ++ (x ∷ []))) c w'
      → Still k F l src_fd w w'
      → ((w'' : W)
          → Copied false (done ++ (x ∷ [])) u w''
          → Ends (λ _ w'. Done w') Exits (cp_loop k src_fd dst_fd fuel false w''))
      → Ends
          (λ _ w'. Done w')
          Exits
          ((if b
              then leave_hole k src_fd dst_fd
                  (cp_loop k src_fd dst_fd fuel true)
                  (cp_loop k src_fd dst_fd fuel false)
                  x
              else put_byte k src_fd dst_fd (cp_loop k src_fd dst_fd fuel false) x)
            w')
  byte-State fuel true done rest u x w w' a cut ne source still next =
      leave_hole-State done u x a.place w' _ (cp_loop k src_fd dst_fd fuel false) ne
        (a.split ∙ ap (λ v. done ++ v) cut ∙ sym (append_assoc done (x ∷ []) u)) source
        (Still-Holds k F l src_fd dst_fd _ (punch done old) w w' still apart a.target) a.behind_done
        (λ q other. still.1 q ∙ a.others q other) next
  byte-State fuel false done rest u x w w' a cut ne source still next =
      let target = Still-Holds k F l src_fd dst_fd _ (punch done old) w w' still apart a.target in
      put_byte-State done u x w' (cp_loop k src_fd dst_fd fuel false) ne
        (a.split ∙ ap (λ v. done ++ v) cut ∙ sym (append_assoc done (x ∷ []) u)) source
        (
          target.0
              ∙ ap (λ i. some (record { path = dst; offset = i; append = false })) (a.flush refl),
          target.1,
        )
        (λ q other. still.1 q ∙ a.others q other) next

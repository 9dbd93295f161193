-- ===== src/FileIo/Tests.antt =====
-- The theorems about stage0/tlpi/fileio on a concrete system.
mod Processes
mod Sessions
use stage.Base.{◌≡◌, some, false, [], ◌∷◌, none, Option, arith, refl}
use stage.Base.Text.{Bytes, codes}
use stage.FileIo.{bytes_eq, store}
use stage.FileIo.Steps.{Ends}
use stage.FileIo.System.{System, system, slot}
use stage.FileIo.System.Laws.{system-Documented, system-Documented-file, system-Documented-desc}
use stage.FileIo.Cp.{cp}
use stage.FileIo.Cp.Holes.{punch}
use stage.FileIo.Cp.State.{CpExits}
use stage.FileIo.Cp.Files.{dst_before, cp-CpExits}
use stage.FileIo.Tee.{tee}
use stage.FileIo.Tee.Round.{Teed}
use stage.FileIo.Tee.Files.{before, tee-Teed}
use stage.FileIo.Copy.{copy}
use stage.FileIo.Copy.Transfer.{ExitsOf}
use stage.FileIo.Copy.Files.{copy-ExitsOf}

abbrev pub no_files : Bytes → Option Bytes
no_files path = none

-- Two files, and no open descriptor.
abbrev pub disk : System
disk = record {
  files = store (store no_files (codes "old") (codes "stage zero")) (codes "new") (codes "gone");
  descs = [];
  enoent = false;
}

copy-ExitsOf_example :
    Ends
      (λ _ _. ⊥)
      (ExitsOf system ⊥ system-Documented
        (system-Documented.file disk)
        (codes "old")
        (codes "new")
        (codes "stage zero"))
      (copy system 11 (codes "old" ∷ codes "new" ∷ []) disk)
unfolding store bytes_eq
copy-ExitsOf_example =
    copy-ExitsOf system ⊥ system-Documented (codes "old") (codes "new") (codes "stage zero") disk
      (system-Documented-file disk (codes "old")) refl 11 (omega arith) refl

-- The standard input and output are the files "in", behind two bytes, and "out".
abbrev pipeline : System
pipeline = record {
  files =
      store (store (store no_files (codes "in") (codes "> tee")) (codes "out") (codes "log:"))
        (codes "copy") (codes "older");
  descs =
      some (record { path = codes "in"; offset = 2; append = false })
      ∷ some (record { path = codes "out"; offset = 4; append = false })
      ∷ [];
  enoent = false;
}

tee-Teed_example :
    Ends
      (λ _ _. ⊥)
      (Teed system system-Documented
        (system-Documented.file pipeline)
        (codes "in")
        (codes "out")
        (codes "copy")
        (codes "> ")
        (codes "log:")
        (before system system-Documented
          (codes "in")
          (codes "out")
          (codes "copy")
          (codes "> ")
          (codes "log:")
          (codes "tee")
          pipeline)
        (codes "tee"))
      (tee system 4 (codes "copy" ∷ []) pipeline)
unfolding store bytes_eq slot
tee-Teed_example =
    tee-Teed system system-Documented (codes "in") (codes "out") (codes "copy") (codes "> ")
      (codes "log:") (codes "tee") pipeline (system-Documented-file pipeline (codes "in"))
      (system-Documented-file pipeline (codes "out")) (system-Documented-desc pipeline 0)
      (system-Documented-desc pipeline 1) refl refl refl 4 (omega arith) refl refl

-- A file with zeros, copied over a longer file.
abbrev sparse : System
sparse = record {
  files =
      store (store no_files (codes "holes") (b'a' ∷ 0 ∷ b'b' ∷ 0 ∷ [])) (codes "over")
        (codes "12345");
  descs = [];
  enoent = false;
}

cp-CpExits_example :
    Ends
      (λ _ _. ⊥)
      (CpExits system ⊥ system-Documented
        (system-Documented.file sparse)
        (codes "holes")
        (codes "over")
        (b'a' ∷ 0 ∷ b'b' ∷ 0 ∷ [])
        (dst_before system ⊥ system-Documented
          (codes "holes")
          (codes "over")
          (b'a' ∷ 0 ∷ b'b' ∷ 0 ∷ [])
          sparse))
      (cp system 5 (codes "holes" ∷ codes "over" ∷ []) sparse)
unfolding store bytes_eq
cp-CpExits_example =
    cp-CpExits system ⊥ system-Documented (codes "holes") (codes "over") (b'a' ∷ 0 ∷ b'b' ∷ 0 ∷ [])
      sparse (system-Documented-file sparse (codes "holes")) refl 5 (omega arith) refl

-- What is left in the target: the old bytes in the holes and behind the end.
punch_test : punch (b'a' ∷ 0 ∷ b'b' ∷ 0 ∷ []) (codes "12345") ≡ codes "a2b45"
unfolding punch
punch_test = refl

-- ===== src/FileIo/Tests/Processes.antt =====
-- The theorems about two processes, stage0/tlpi/fileio/atomic_append.c and bad_exclusive_open.c, on a
-- concrete system.
use stage.Base.{if◌then◌else◌, ◌≡◌, refl, true, false, some, none, [], ◌∷◌, ◌++◌, arith}
use stage.Base.Int.{pos}
use stage.Base.Text.{codes}
use stage.FileIo.{bytes_eq}
use stage.FileIo.System.{System, system, slot}
use stage.FileIo.System.Laws.{system-Documented, system-Documented-file, system-Documented-desc}
use stage.FileIo.AtomicAppend.{opening, seeking, enter_round, interleave}
use stage.FileIo.AtomicAppend.Progress.{appender}
use stage.FileIo.AtomicAppend.Runs.{
  Appended, AllAppended, turns_of, interleave-Appended, interleave-AllAppended,
}
use stage.FileIo.AtomicAppend.Lost.{seeker, interleave_lost}
use stage.FileIo.BadExclusiveOpen
use stage.FileIo.BadExclusiveOpen.{checking, claimed}
use stage.FileIo.BadExclusiveOpen.Claims.{both_claim}
use stage.FileIo.BadExclusiveOpen.Present.{Unclaimed, interleave-Unclaimed}

-- A file, and no open descriptor.
abbrev log : System
log = record {
  files = λ p. if bytes_eq (codes "log") p then some (codes "ab") else none;
  descs = [];
  enoent = false;
}

interleave-Appended_example : Appended system system-Documented (codes "log") 2 1 log (
    interleave system
      (appender (codes "log") 2)
      (appender (codes "log") 1)
      (true ∷ false ∷ true ∷ false ∷ true ∷ [])
      (opening, opening, log))
interleave-Appended_example =
    interleave-Appended system system-Documented (codes "log") 2 1
      (true ∷ false ∷ true ∷ false ∷ true ∷ []) log

interleave-AllAppended_example : AllAppended system system-Documented (codes "log") 2 log (
    interleave system
      (appender (codes "log") 1)
      (appender (codes "log") 1)
      (true ∷ false ∷ true ∷ false ∷ false ∷ true ∷ [])
      (opening, opening, log))
unfolding turns_of
interleave-AllAppended_example =
    interleave-AllAppended system system-Documented (codes "log") 1 1
      (true ∷ false ∷ true ∷ false ∷ false ∷ true ∷ []) log (omega arith) (omega arith)

-- Both processes have the file open.
abbrev opened_twice : System
opened_twice = record log {
  descs =
      some (record { path = codes "log"; offset = 0; append = false })
      ∷ some (record { path = codes "log"; offset = 0; append = false })
      ∷ [];
}

interleave_lost_example :
    (w' : System) × (interleave system
        (seeker (codes "log") (pos 4))
        (seeker (codes "log") (pos 4))
        (true ∷ false ∷ true ∷ false ∷ [])
        (seeking 0 0, seeking 1 0, opened_twice)
      ≡ (enter_round true (pos 4) 0 1, enter_round true (pos 4) 1 1, w'))
    × (system-Documented.file w' (codes "log") ≡ some (codes "ab" ++ (0 ∷ [])))
unfolding slot bytes_eq
interleave_lost_example =
    interleave_lost system system-Documented (codes "log") (pos 4) (pos 4) 0 1 0 0 0 0 (codes "ab")
      opened_twice
      (system-Documented-desc opened_twice 0, system-Documented-file opened_twice (codes "log"))
      (system-Documented-desc opened_twice 1, system-Documented-file opened_twice (codes "log"))
      refl

both_claim_example :
    (w' : System) × (BadExclusiveOpen.interleave system
        (codes "new")
        (true ∷ false ∷ true ∷ false ∷ [])
        (checking, checking, log)
      ≡ (claimed, claimed, w'))
    × (system-Documented.file w' (codes "new") ≡ some [])
unfolding bytes_eq
both_claim_example =
    both_claim system system-Documented (codes "new") log (system-Documented-file log (codes "new"))

interleave-Unclaimed_example : Unclaimed system system-Documented (codes "log") (codes "ab") (
    BadExclusiveOpen.interleave system
      (codes "log")
      (true ∷ false ∷ true ∷ [])
      (checking, checking, log))
unfolding bytes_eq
interleave-Unclaimed_example =
    interleave-Unclaimed system system-Documented (codes "log") (codes "ab")
      (true ∷ false ∷ true ∷ []) log (system-Documented-file log (codes "log"))

-- ===== src/FileIo/Tests/Sessions.antt =====
-- The theorems about single processes that print, stage0/tlpi/fileio/seek_io.c and its kin, on a
-- concrete system.
use stage.Base.{
  ℕ, if◌then◌else◌, ◌≡◌, leb, Bool, true, ◌&&◌, refl, some, none, Option, [], ◌∷◌, false, List,
  arith,
}
use stage.Base.Int.{ℤ, pos}
use stage.Base.Text.{Bytes, codes, scan_int}
use stage.FileIo.{exits, bytes_eq}
use stage.FileIo.Steps.{Ends}
use stage.FileIo.System.{System, system}
use stage.FileIo.System.Laws.{system-Documented}
use stage.FileIo.Append.{Options, append}
use stage.FileIo.Append.Runs.{Outcome, append-Outcome}
use stage.FileIo.LargeFile.{to_signed, large_file, large_file2}
use stage.FileIo.LargeFile.Runs.{Tested, large_file2-Tested, large_file2-large_file}
use stage.FileIo.Dup.{my_dup2, verify_dup}
use stage.FileIo.Dup.MyDup.{IsDup2, my_dup2-IsDup2, my_dup2_closes}
use stage.FileIo.Dup.Verify.{report, verify_dup-report}
use stage.FileIo.Dup.Entries.{place}
use stage.FileIo.Dup.Table.{Table, table, table-Shared, table-Shared-entry}
use stage.FileIo.SeekIo.{seek_io}
use stage.FileIo.SeekIo.Runs.{Ran, content_before, seek_io-Ran}

-- A file, and no open descriptor.
abbrev log : System
log = record {
  files = λ p. if bytes_eq (codes "log") p then some (codes "ab") else none;
  descs = [];
  enoent = false;
}

-- Numbers of decimal digits.
abbrev number : Bytes → Option ℤ
number s = elim (scan_int s) [
  | none ↦ none
  | some (n, rest) ↦ if bytes_eq rest [] then some n else none
]

abbrev printable : ℕ → Bool
printable c = leb 32 c && leb c 126

seek_io-Ran_example :
    Ends
      (λ _ _. ⊥)
      (Ran number
        (λ n. true)
        printable
        system
        system-Documented
        (codes "log")
        (codes "s1" ∷ codes "wxyz" ∷ codes "s0" ∷ codes "r2" ∷ codes "q" ∷ [])
        (content_before number (λ n. true) printable system system-Documented (codes "log") log [])
        0
        log
        [])
      (seek_io number
        (λ n. true)
        printable
        system
        (codes "log" ∷ codes "s1" ∷ codes "wxyz" ∷ codes "s0" ∷ codes "r2" ∷ codes "q" ∷ [])
        (log, []))
unfolding bytes_eq
seek_io-Ran_example =
    seek_io-Ran number (λ n. true) printable system system-Documented (codes "log") log []
      (codes "s1") (codes "wxyz" ∷ codes "s0" ∷ codes "r2" ∷ codes "q" ∷ []) refl

-- No argument is an option.
abbrev no_options : List Bytes → Options
no_options args = record { help = false; args = args; optind = 1 }

append-Outcome_example :
    Ends
      (λ _ _. ⊥)
      (Outcome system system-Documented (codes "log") (codes "cd" ∷ codes "e" ∷ []) log [])
      (append no_options system
        (codes "append")
        (codes "log" ∷ codes "cd" ∷ codes "e" ∷ [])
        (log, []))
unfolding bytes_eq
append-Outcome_example =
    append-Outcome system system-Documented (codes "log") no_options (codes "append")
      (codes "cd" ∷ codes "e" ∷ []) log [] refl refl

-- The value of a decimal number, or 0.
abbrev value_of : Bytes → ℤ
value_of s = elim (scan_int s) [ none ↦ pos 0 | some (n, rest) ↦ n ]

large_file2-Tested_test :
    Ends
      (λ _ _. ⊥)
      (Tested value_of system system-Documented
        (codes "log")
        log
        (to_signed 32 (value_of (codes "3"))))
      (large_file2 value_of system 32 (codes "log" ∷ codes "3" ∷ []) log)
unfolding bytes_eq
large_file2-Tested_test =
    large_file2-Tested value_of system system-Documented (codes "log") log 32 (codes "3") refl

off_t_test :
    large_file2 (λ s. pos 3) system 32 (codes "log" ∷ codes "3" ∷ []) log
    ≡ large_file (λ s. pos 3) system (codes "log" ∷ codes "3" ∷ []) log
off_t_test =
    large_file2-large_file (λ s. pos 3) system system-Documented (codes "log") log 31 (codes "3")
      (omega arith)

-- An offset of four gibibytes is the start of the file where off_t has 32 bits.
to_signed_test : to_signed 32 (pos 4294967296) ≡ pos 0
unfolding to_signed
to_signed_test = refl

-- The descriptors 3 and 5 are open.
abbrev two_open : Table
two_open = record {
  files = λ p. none;
  entries = none ∷ none ∷ none ∷ some 0 ∷ none ∷ some 1 ∷ [];
  descriptions =
      record { path = codes "a"; offset = 0; append = false }
      ∷ record { path = codes "b"; offset = 0; append = false }
      ∷ [];
}

my_dup2-IsDup2_example : IsDup2 table table-Shared 3 5 two_open (my_dup2 table 3 5 (two_open, []))
unfolding place
my_dup2-IsDup2_example =
    my_dup2-IsDup2 table table-Shared 3 5 two_open [] (λ closed _. absurd (is_open closed))
  where
    is_open : table-Shared.entry two_open 3 ≡ none → ⊥
    is_open closed = let e = table-Shared-entry two_open 3 in cc

my_dup2_closes_test :
    ((my_dup2 table 4 5 (two_open, [])).0 ≡ none)
    × (table-Shared.entry (my_dup2 table 4 5 (two_open, [])).1.0 5 ≡ none)
    × ¬ IsDup2 table table-Shared 4 5 two_open (my_dup2 table 4 5 (two_open, []))
unfolding place
my_dup2_closes_test =
    my_dup2_closes table table-Shared 4 5 1 two_open [] (table-Shared-entry two_open 4) refl
      (table-Shared-entry two_open 5)

verify_dup-report_test :
    (w' : Table) × (flags : ℕ) × (verify_dup table (two_open, [])
      ≡ exits 0 (w', report [] 10 flags))
verify_dup-report_test = verify_dup-report table table-Shared two_open []

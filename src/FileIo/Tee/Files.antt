-- ===== src/FileIo/Tee/Files.antt =====
-- stage0/tlpi/fileio/tee.c: `main`, where no call fails and -a is not given.
use stage.Base.{
  ==-swap, ℕ, ◌==◌, ◌≡◌, ◌<◌, inr, refl, sym, ap, ◌∙◌, false, none, some, [], ◌∷◌, ◌++◌, length,
}
use stage.Base.Text.{Bytes, codes}
use mathlib.Core.List.{append-nil}
use stage.FileIo.{
  Kernel, Documented, Desc, bytes_eq, store, assign, opened, or_exit, or_exit_if_not,
}
use stage.FileIo.Steps.{
  Ends, Ends-weaken, and_then-Ends, or_exit-Ends, or_exit_if_not-Ends, apart_if, store-same,
  store-under, assign_self, assign-other,
}
use stage.FileIo.Tee.{tee_loop, tee_close, tee_file, tee_flags, tee_args, tee}
use stage.FileIo.Tee.Round.{Teed}
use stage.FileIo.Tee.Loop.{AtRest, tee_loop-Teed}

tee_args-file :
    (path : Bytes)
    → bytes_eq path (codes "--help") ≡ false
    → bytes_eq path (codes "-a") ≡ false
    → tee_args (path ∷ []) ≡ some (false, path)
unfolding tee_args
tee_args-file path no_help no_append = rw (no_help, no_append) refl

module _ {W : Type 0} (k : Kernel W) (l : Documented k ⊥) (sin sout path skipped out input : Bytes)
    (w : W) where
  -- The content of the file before.
  abbrev pub before : Bytes
  before = opened (tee_flags false) (l.file w path)

  module _ (stdin_there : l.file w sin ≡ some (skipped ++ input))
      (stdout_there : l.file w sout ≡ some out)
      (stdin_open : l.desc w 0
        ≡ some (record { path = sin; offset = length skipped; append = false }))
      (stdout_open : l.desc w 1
        ≡ some (record { path = sout; offset = length out; append = false }))
      (out_in : bytes_eq sout sin ≡ false) (path_in : bytes_eq path sin ≡ false)
      (path_out : bytes_eq path sout ≡ false) where
    module _ (fd : ℕ) (w1 : W) (free : l.desc w fd ≡ none)
        (files' : (q : Bytes) → l.file w1 q ≡ store (l.file w) path before q)
        (descs : (x : ℕ)
          → l.desc w1 x
            ≡ assign (l.desc w) fd (record { path = path; offset = 0; append = false }) x) where
      not_stdin : (fd == 0) ≡ false
      not_stdin = ==-swap 0 fd (apart_if (l.desc w) _ 0 fd stdin_open free)

      not_stdout : (fd == 1) ≡ false
      not_stdout = ==-swap 1 fd (apart_if (l.desc w) _ 1 fd stdout_open free)

      -- A file's own content, stored, with nothing more.
      output_kept : (q : Bytes) → l.file w q ≡ store (l.file w) sout (out ++ []) q
      output_kept q = sym (
          ap (λ d. store (l.file w) sout d q) (append-nil out)
          ∙ store-same (l.file w) sout out q stdout_there)

      start-At :
          AtRest k l
            (l.file w)
            sin
            sout
            path
            skipped
            out
            before
            input
            stdin_there
            out_in
            path_in
            path_out
            fd
            not_stdin
            not_stdout
            []
            input
            w1
      start-At = record {
        split = refl;
        stdin =
            descs 0
            ∙ assign-other (l.desc w) fd _ 0 not_stdin
            ∙ stdin_open
            ∙ ap (λ v. some (record { path = sin; offset = length v; append = false }))
                (sym (append-nil skipped));
        stdout =
            descs 1
            ∙ assign-other (l.desc w) fd _ 1 not_stdout
            ∙ stdout_open
            ∙ ap (λ v. some (record { path = sout; offset = length v; append = false }))
                (sym (append-nil out));
        target = descs fd ∙ assign_self (l.desc w) fd _;
        holds = λ q.
            files' q
            ∙ store-under (l.file w) (store (l.file w) sout (out ++ [])) path before q
                (output_kept q);
      }

    abbrev MainExits : ℕ → W → Type 0
    MainExits = Teed k l (l.file w) sin sout path skipped out before input

    impossible : (w' : W) → ⊥ → MainExits 1 w'
    impossible w' f = f

    tee_close-Teed :
        (fd : ℕ) (d : Desc) (w' : W)
        → l.desc w' fd ≡ some d
        → MainExits 0 w'
        → Ends (λ _ _. ⊥) MainExits (tee_close k fd w')
    unfolding tee_close
    tee_close-Teed fd d w' is_open done =
        and_then-Ends MainExits _ (or_exit_if_not (k.sys_close fd w')) _ (
          or_exit_if_not-Ends MainExits ⊥ impossible _ _ (k.sys_close fd w')
            (l.close_lem fd d w' is_open) (λ w1 h. λ q. h.0 q ∙ done q))

    tee_file-Teed :
        (fuel : ℕ) → length input < fuel → Ends (λ _ _. ⊥) MainExits (tee_file k fuel false path w)
    unfolding tee_file
    tee_file-Teed fuel lt =
        and_then-Ends MainExits _ (or_exit (k.sys_open (tee_flags false) path w)) _ (
          or_exit-Ends MainExits ⊥ impossible _ _ (k.sys_open (tee_flags false) path w)
            (l.open_lem (tee_flags false) path w (inr refl))
            (λ fd w1 h. and_then-Ends MainExits _ (tee_loop k fuel fd w1) _ (
              Ends-weaken MainExits _ _ (tee_loop k fuel fd w1)
                (tee_loop-Teed k l (l.file w) sin sout path skipped out before input stdin_there
                  out_in path_in path_out fd (not_stdin fd w1 h.0 h.1 h.2)
                  (not_stdout fd w1 h.0 h.1 h.2) fuel [] input w1 lt (start-At fd w1 h.0 h.1 h.2))
                (λ _ w2 done. tee_close-Teed fd done.1.0 w2 done.1.1 done.0))))

    tee-file :
        (fuel : ℕ)
        → bytes_eq path (codes "--help") ≡ false
        → bytes_eq path (codes "-a") ≡ false
        → tee k fuel (path ∷ []) w ≡ tee_file k fuel false path w
    unfolding tee
    tee-file fuel no_help no_append = rw (tee_args-file path no_help no_append, tee) refl

    -- Where no call fails, and the standard input, the standard output (at its end) and the file
    -- are three different files, `tee file`, with more fuel than bytes of input, exits with status
    -- 0 and has written what was behind the offset of the standard input to the standard output
    -- and over the start of the file. What the file held behind that stays, and no other file
    -- changes. The file's name is not --help and not -a.
    pub tee-Teed :
        (fuel : ℕ)
        → length input < fuel
        → bytes_eq path (codes "--help") ≡ false
        → bytes_eq path (codes "-a") ≡ false
        → Ends
            (λ _ _. ⊥)
            (Teed k l (l.file w) sin sout path skipped out before input)
            (tee k fuel (path ∷ []) w)
    tee-Teed fuel lt no_help no_append =
        rw (tee-file fuel no_help no_append) (tee_file-Teed fuel lt)

-- ===== src/FileIo/Tee/Loop.antt =====
-- stage0/tlpi/fileio/tee.c: the loop, where no call fails.
use stage.Base.{
  left_if, ==-swap, ℕ, zero, suc, ◌==◌, ◌≡◌, ◌≢◌, ◌<◌, ◌≤◌, refl, sym, ap, ◌∙◌, false, Option, some,
  [], ◌∷◌, ◌++◌, length, drop, arith,
}
use stage.Base.Text.{Bytes}
use mathlib.Core.List.{append-nil}
use stage.FileIo.{Kernel, Documented, Desc, bytes_eq, assign, or_exit}
use stage.FileIo.Calls.{read_behind, write_behind}
use stage.FileIo.Steps.{Ends, and_then-Ends, or_exit-Ends, shorter, assign-other}
use stage.FileIo.Tee.{tee_loop, tee_body}
use stage.FileIo.Tee.Round.{
  At, Teed, teed, At-stdin, At-Reads, Reads, Reads-stdout, Reads-Shows, Shows-target, Shows-At,
}

module _ {W : Type 0} (k : Kernel W) (l : Documented k ⊥) where
  module _ (files : Bytes → Option Bytes) (sin sout path skipped out old input : Bytes) where
    module _ (stdin_there : files sin ≡ some (skipped ++ input))
        (out_in : bytes_eq sout sin ≡ false) (path_in : bytes_eq path sin ≡ false)
        (path_out : bytes_eq path sout ≡ false) (fd : ℕ) (fd_0 : (fd == 0) ≡ false)
        (fd_1 : (fd == 1) ≡ false) where
      abbrev TeeExits : ℕ → W → Type 0
      TeeExits = Teed k l files sin sout path skipped out old input

      abbrev pub AtRest : Bytes → Bytes → W → Type 0
      AtRest =
          At k l files sin sout path skipped out old input stdin_there out_in path_in path_out fd
            fd_0 fd_1

      -- Nothing is left, and the file is open.
      abbrev Finished : W → Type 0
      Finished w = TeeExits 0 w × ((d : Desc) × (l.desc w fd ≡ some d))

      fails : (w : W) → ⊥ → TeeExits 1 w
      fails w f = f

      -- The rest of a round that has read `s`.
      tee_body-Teed :
          (fuel : ℕ) (done rest s u : Bytes) (w w' : W)
          → AtRest done rest w
          → rest ≡ s ++ u
          → length s ≤ 1
          → (s ≡ [] → rest ≡ [])
          → ((q : Bytes) → l.file w' q ≡ l.file w q)
          → ((x : ℕ)
              → l.desc w' x
                ≡ assign
                    (l.desc w)
                    0
                    (record {
                      path = sin;
                      offset = length ((skipped ++ done) ++ s);
                      append = false;
                    })
                    x)
          → ((w' : W)
              → s ≢ []
              → AtRest (done ++ s) u w'
              → Ends (λ _ w'. Finished w') TeeExits (tee_loop k fuel fd w'))
          → Ends (λ _ w'. Finished w') TeeExits (tee_body k (tee_loop k fuel fd) fd s w')
      unfolding tee_body
      tee_body-Teed fuel done rest [] u w w' a cut short end same descs next = (
        λ q.
            same q
            ∙ a.holds q
            ∙ ap (λ d. teed k l files sin sout path skipped out old input d q)
                (sym (a.split ∙ ap (λ v. done ++ v) (end refl) ∙ append-nil done)),
        (_, descs fd ∙ assign-other (l.desc w) 0 _ fd (==-swap fd 0 fd_0) ∙ a.target),
      )
      tee_body-Teed fuel done rest (c ∷ x ∷ s) u w w' a cut short end same descs next =
          absurd (omega arith)
      tee_body-Teed fuel done rest (c ∷ []) u w w' a cut short end same descs next =
          and_then-Ends TeeExits _ (or_exit (k.sys_write 1 (c ∷ []) w')) _ (
            or_exit-Ends TeeExits ⊥ fails _ _ (k.sys_write 1 (c ∷ []) w')
              (write_behind k ⊥ l 1 c sout (out ++ done) [] [] w' r.stdout (
                Reads-stdout k l files sin sout path skipped out old input stdin_there out_in
                  path_in path_out fd fd_0 fd_1 c done u w' r))
              (λ n w1 h.
                let v =
                  Reads-Shows k l files sin sout path skipped out old input stdin_there out_in
                    path_in path_out fd fd_0 fd_1 c n done u w' w1 r (h.2 (left_if h.1)).0
                    (h.2 (left_if h.1)).1 in
                and_then-Ends TeeExits _ (or_exit (k.sys_write fd (c ∷ []) w1)) _ (
                  or_exit-Ends TeeExits ⊥ fails _ _ (k.sys_write fd (c ∷ []) w1)
                    (write_behind k ⊥ l fd c path done (drop (length done) old) [] w1 v.target (
                      Shows-target k l files sin sout path skipped out old input stdin_there out_in
                        path_in path_out fd fd_0 fd_1 c done u w1 v))
                    (λ m w2 g.
                      next w2 (λ e. cc)
                        (Shows-At k l files sin sout path skipped out old input stdin_there out_in
                          path_in path_out fd fd_0 fd_1 c m done u w1 w2 v (left_if g.1)
                          (g.2 (left_if g.1)).0 (g.2 (left_if g.1)).1)))))
        where
          r :
              Reads k l files sin sout path skipped out old input stdin_there out_in path_in
                path_out fd fd_0 fd_1 c done u w'
          r =
              At-Reads k l files sin sout path skipped out old input stdin_there out_in path_in
                path_out fd fd_0 fd_1 c done rest u w w' a cut same descs

      pub tee_loop-Teed :
          (fuel : ℕ) (done rest : Bytes) (w : W)
          → length rest < fuel
          → AtRest done rest w
          → Ends (λ _ w'. Finished w') TeeExits (tee_loop k fuel fd w)
      unfolding tee_loop
      tee_loop-Teed zero done rest w lt a = absurd (omega arith)
      tee_loop-Teed (suc fuel) done rest w lt a =
          and_then-Ends TeeExits _ (or_exit (k.sys_read 0 1 w)) _ (
            or_exit-Ends TeeExits ⊥ fails _ _ (k.sys_read 0 1 w)
              (read_behind k ⊥ l 0 0 sin (skipped ++ done) rest w a.stdin (
                At-stdin k l files sin sout path skipped out old input stdin_there out_in path_in
                  path_out fd fd_0 fd_1 done rest w a))
              (λ s w' h.
                tee_body-Teed fuel done rest s h.0.0 w w' a h.0.1 h.1 h.2 h.3 h.4
                  (λ w'' some_bytes b.
                    tee_loop-Teed fuel (done ++ s) h.0.0 w''
                      (shorter s h.0.0 rest fuel some_bytes h.0.1 lt) b)))

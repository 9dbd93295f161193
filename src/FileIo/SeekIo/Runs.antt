-- ===== src/FileIo/SeekIo/Runs.antt =====
-- stage0/tlpi/fileio/seek_io.c: `main` against the description of a session.
use mathlib.Core.List.{append_assoc, append-nil}
use stage.Base.{
  ℕ, ◌≡◌, refl, sym, ap, ◌∙◌, inr, Bool, true, false, Option, some, List, [], ◌∷◌, ◌++◌,
}
use stage.Base.Int.{ℤ}
use stage.Base.Text.{Bytes, codes}
use stage.FileIo.{Kernel, Documented, Desc, Succeeds, and_then, bytes_eq, opened}
use stage.FileIo.Steps.{Ends, Ends-map, and_then-Ends}
use stage.FileIo.Calls.{returned, Succeeds-weaken}
use stage.FileIo.Calls.Single.{Holds, open-Holds}
use stage.FileIo.Console.{Console, called, done}
use stage.FileIo.SeekIo.{seek_flags, command, commands, seek_close, seek_file, seek_io}
use stage.FileIo.SeekIo.Session.{Session, finished, refused, performed}
use stage.FileIo.SeekIo.Commands.{at, Performed, Refused, command-Commanded}

module _ (get_long : Bytes → Option ℤ) (malloc : ℕ → Bool) (isprint : ℕ → Bool) {W : Type 0}
    (k : Kernel W) (l : Documented k ⊥) (p : Bytes) where
  -- A session with the status `n`, from the content `c` and the offset `o`, has led from `w` to `s`.
  pub record Ran (args : List Bytes) (c : Bytes) (o : ℕ) (w : W) (out : Bytes) (n : ℕ)
      (s : Console W) : Type 0 where
    pub content : Bytes
    pub printed : Bytes
    pub session : Session get_long malloc isprint args (c, o) n content printed
    pub there : l.file s.0 p ≡ some content
    pub others : (q : Bytes) → bytes_eq p q ≡ false → l.file s.0 q ≡ l.file w q
    pub output : s.1 ≡ out ++ printed

  -- The same where the program has not ended, with the descriptor still open.
  abbrev pub Stays : ℕ → List Bytes → Bytes → ℕ → W → Bytes → Console W → Type 0
  Stays fd args c o w out s = Ran args c o w out 0 s × ((d : Desc) × (l.desc s.0 fd ≡ some d))

  Ran-first :
      (fd : ℕ) (arg c : Bytes) (args : List Bytes) (o n : ℕ) (w : W) (out : Bytes)
      (s s' : Console W) (a : Performed get_long malloc isprint k l p fd arg c o w out s)
      → Ran args a.content a.offset s.0 s.1 n s'
      → Ran (arg ∷ args) c o w out n s'
  Ran-first fd arg c args o n w out s s' a r = record {
    content = r.content;
    printed = a.printed ++ r.printed;
    session = performed a.performs r.session;
    there = r.there;
    others = λ q differ. r.others q differ ∙ a.others q differ;
    output = r.output ∙ ap (λ t. t ++ r.printed) a.output ∙ append_assoc out a.printed r.printed;
  }

  Refused-Ran :
      (fd : ℕ) (arg c : Bytes) (args : List Bytes) (o n : ℕ) (w : W) (out : Bytes) (s : Console W)
      → Refused get_long malloc isprint k l p fd arg c w out n s
      → Ran (arg ∷ args) c o w out n s
  Refused-Ran fd arg c args o n w out s r = record {
    content = c;
    printed = [];
    session = rw r.status (refused r.refused);
    there = r.kept;
    others = r.others;
    output = r.output ∙ sym (append-nil out);
  }

  commands-Ran :
      (fd : ℕ) (args : List Bytes) (c : Bytes) (o : ℕ) (w : W) (out : Bytes)
      → Holds k ⊥ l fd (at get_long malloc isprint k l p fd o) c w
      → Ends
          (λ _ s. Stays fd args c o w out s)
          (λ n s. Ran args c o w out n s)
          (commands get_long malloc isprint k fd args (w, out))
  unfolding commands
  commands-Ran fd [] c o w out h = (
    record {
      content = c;
      printed = [];
      session = finished;
      there = h.1;
      others = λ q _. refl;
      output = sym (append-nil out);
    },
    (_, h.0),
  )
  commands-Ran fd (arg ∷ args) c o w out h =
      and_then-Ends (Ran (arg ∷ args) c o w out) _
        (command get_long malloc isprint k fd arg (w, out)) _
        (Ends-map _ _ _ _ (command get_long malloc isprint k fd arg (w, out))
          (command-Commanded get_long malloc isprint k l p fd c o w out h arg)
          (λ _ s a.
            Ends-map _ _ _ _ (commands get_long malloc isprint k fd args s)
              (commands-Ran fd args a.content a.offset s.0 s.1 a.holds)
              (λ _ s' r. (Ran-first fd arg c args o 0 w out s s' a r.0, r.1))
              (λ n s' r. Ran-first fd arg c args o n w out s s' a r))
          (λ n s r. Refused-Ran fd arg c args o n w out s r))

  done-Ran :
      (args : List Bytes) (c : Bytes) (o : ℕ) (w w' : W) (out text : Bytes) (r : Bool × W)
      → Ran args c o w out 0 (w', text)
      → Succeeds ⊥ (λ v. (q : Bytes) → l.file v q ≡ l.file w' q) r
      → Ends (λ _ s. Ran args c o w out 0 s) (λ n s. Ran args c o w out n s) (done r text)
  unfolding done
  done-Ran args c o w w' out text (false, v) a h = absurd h
  done-Ran args c o w w' out text (true, v) a h = record {
    content = a.content;
    printed = a.printed;
    session = a.session;
    there = h p ∙ a.there;
    others = λ q differ. h q ∙ a.others q differ;
    output = a.output;
  }

  close-Ran :
      (fd : ℕ) (args : List Bytes) (c : Bytes) (o : ℕ) (w : W) (out : Bytes) (s : Console W)
      → Stays fd args c o w out s
      → Ends (λ _ _. ⊥) (λ n s. Ran args c o w out n s) (seek_close k fd s)
  unfolding seek_close
  close-Ran fd args c o w out s a =
      and_then-Ends (Ran args c o w out) _ (done (k.sys_close fd s.0) s.1) _ (
        done-Ran args c o w s.0 out s.1 (k.sys_close fd s.0) a.0
          (Succeeds-weaken _ _ (k.sys_close fd s.0) (l.close_lem fd a.1.0 s.0 a.1.1) (λ v h. h.0)))

  module _ (w : W) (out : Bytes) where
    -- The content of the file once it is open.
    abbrev pub content_before : Bytes
    content_before = opened seek_flags (l.file w p)

    Ran-opened :
        (args : List Bytes) (n : ℕ) (w1 : W) (s : Console W)
        → ((q : Bytes) → bytes_eq p q ≡ false → l.file w1 q ≡ l.file w q)
        → Ran args content_before 0 w1 out n s
        → Ran args content_before 0 w out n s
    Ran-opened args n w1 s same r = record {
      content = r.content;
      printed = r.printed;
      session = r.session;
      there = r.there;
      others = λ q differ. r.others q differ ∙ same q differ;
      output = r.output;
    }

    seek_file-Ran :
        (args : List Bytes)
        → Ends
            (λ _ _. ⊥)
            (Ran args content_before 0 w out)
            (seek_file get_long malloc isprint k p args (w, out))
    unfolding seek_file called and_then
    seek_file-Ran args =
        let r =
          returned _ (k.sys_open seek_flags p w) (open-Holds k ⊥ l seek_flags p w (inr refl)) in
        rw r.2 (
          and_then-Ends (Ran args content_before 0 w out) _
            (commands get_long malloc isprint k r.0 args (r.1, out)) _
            (Ends-map _ _ _ _ (commands get_long malloc isprint k r.0 args (r.1, out))
              (commands-Ran r.0 args content_before 0 r.1 out r.3.1)
              (λ _ s a.
                Ends-map _ _ _ _ (seek_close k r.0 s)
                  (close-Ran r.0 args content_before 0 r.1 out s a) (λ _ _ f. f)
                  (λ n s' b. Ran-opened args n r.1 s' r.3.2.1 b))
              (λ n s a. Ran-opened args n r.1 s r.3.2.1 a)))

    -- Where no system call fails, `seek_io`, for a file that is not named --help and at least one
    -- command, exits as a session of its commands does that starts with the content of the file, or
    -- with none where it is not there, at offset 0: with status 0 when each command could be done,
    -- with status 1 at the first that is refused; the file holds the content of the session, no other
    -- file differs, and what it prints is what the session prints.
    pub seek_io-Ran :
        (arg : Bytes) (args : List Bytes)
        → bytes_eq p (codes "--help") ≡ false
        → Ends
            (λ _ _. ⊥)
            (Ran (arg ∷ args) content_before 0 w out)
            (seek_io get_long malloc isprint k (p ∷ arg ∷ args) (w, out))
    unfolding seek_io
    seek_io-Ran arg args named = rw named (seek_file-Ran (arg ∷ args))

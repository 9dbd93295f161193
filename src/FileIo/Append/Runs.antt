-- ===== src/FileIo/Append/Runs.antt =====
-- stage0/tlpi/fileio/append.c: what is in the file behind a run.
use mathlib.Core.List.{append_assoc, append-nil}
use stage.Base.{
  ℕ, ◌+◌, ◌≡◌, refl, sym, ap, ◌∙◌, inl, inr, Bool, true, false, Option, none, some, List, [], ◌∷◌,
  ◌++◌, length, left_if, Option-cases,
}
use stage.Base.Int.{pos}
use stage.Base.Text.{Bytes, codes}
use stage.FileIo.{
  Kernel, Documented, Desc, M, exit, Succeeds, seek_set, seek_target, write_offset, and_then,
  bytes_eq, opened,
}
use stage.FileIo.Steps.{Ends, Ends-map, and_then-Ends}
use stage.FileIo.Calls.{returned, Succeeds-weaken}
use stage.FileIo.Calls.Single.{Holds, open-Holds, seek-Holds, write-Holds, write_none-Holds}
use stage.FileIo.AtomicAppend.Progress.{overwrite-end}
use stage.FileIo.Console.{Console, called, done}
use stage.FileIo.Append.{
  append_flags, report_written, Options, written, write_all, append_file, append_opened, append,
}

-- The bytes of all texts, and what is printed of them.
unfoldable pub join : List Bytes → Bytes
join [] = []
join (text ∷ texts) = text ++ join texts

unfoldable pub reports : List Bytes → Bytes
reports [] = []
reports (text ∷ texts) = report_written (pos (length text)) ++ reports texts

module _ {W : Type 0} (k : Kernel W) (l : Documented k ⊥) (p : Bytes) where
  abbrev pub at_end : ℕ → Desc
  at_end o = record { path = p; offset = o; append = true }

  -- The texts are behind the content, and nothing else has changed.
  pub record Written (fd : ℕ) (c : Bytes) (texts : List Bytes) (w : W) (out : Bytes) (s : Console W)
      : Type 0 where
    pub offset : ℕ
    pub holds : Holds k ⊥ l fd (at_end offset) (c ++ join texts) s.0
    pub others : (q : Bytes) → bytes_eq p q ≡ false → l.file s.0 q ≡ l.file w q
    pub output : s.1 ≡ out ++ reports texts

  -- After one `write`.
  pub record One (fd : ℕ) (c text : Bytes) (w : W) (out : Bytes) (s : Console W) : Type 0 where
    pub offset : ℕ
    pub holds : Holds k ⊥ l fd (at_end offset) (c ++ text) s.0
    pub others : (q : Bytes) → bytes_eq p q ≡ false → l.file s.0 q ≡ l.file w q
    pub output : s.1 ≡ out ++ report_written (pos (length text))

  written-One :
      (fd o : ℕ) (c text : Bytes) (w : W) (out : Bytes)
      → Holds k ⊥ l fd (at_end o) c w
      → Ends (λ _ s. One fd c text w out s) (λ _ _. ⊥) (written k fd (k.sys_write fd text w) out)
  unfolding written write_offset
  written-One fd o c [] w out h =
      let r = returned _ (k.sys_write fd [] w) (write_none-Holds k ⊥ l fd (at_end o) c w h) in
      rw r.2 (record {
        offset = o;
        holds = (r.3.1.0, r.3.1.1 ∙ ap some (sym (append-nil c)));
        others = λ q _. r.3.2.1 q;
        output = ap (λ n. out ++ report_written (pos n)) r.3.0;
      })
  written-One fd o c (b ∷ s) w out h =
      let r = returned _ (k.sys_write fd (b ∷ s) w) (write-Holds k ⊥ l fd (at_end o) c w h b s) in
      let all = left_if r.3.1 in
      rw r.2 (record {
        offset = length c + r.0;
        holds = ((r.3.2 all).0.0, (r.3.2 all).0.1 ∙ ap some (overwrite-end c (b ∷ s)));
        others = (r.3.2 all).1.1;
        output = ap (λ n. out ++ report_written (pos n)) all;
      })

  write_all-Written :
      (fd o : ℕ) (c : Bytes) (texts : List Bytes) (w : W) (out : Bytes)
      → Holds k ⊥ l fd (at_end o) c w
      → Ends (λ _ s. Written fd c texts w out s) (λ _ _. ⊥) (write_all k fd texts (w, out))
  unfolding write_all join reports
  write_all-Written fd o c [] w out h = record {
    offset = o;
    holds = (h.0, h.1 ∙ ap some (sym (append-nil c)));
    others = λ q _. refl;
    output = sym (append-nil out);
  }
  write_all-Written fd o c (text ∷ texts) w out h =
      and_then-Ends (λ _ _. ⊥) _ (written k fd (k.sys_write fd text w) out) _
        (Ends-map _ _ _ _ (written k fd (k.sys_write fd text w) out)
          (written-One fd o c text w out h)
          (λ _ s a.
            Ends-map _ _ _ _ (write_all k fd texts s)
              (write_all-Written fd a.offset (c ++ text) texts s.0 s.1 a.holds)
              (λ _ s' b. record {
                offset = b.offset;
                holds = (b.holds.0, b.holds.1 ∙ ap some (append_assoc c text (join texts)));
                others = λ q differ. b.others q differ ∙ a.others q differ;
                output =
                    b.output
                    ∙ ap (λ t. t ++ reports texts) a.output
                    ∙ append_assoc out (report_written (pos (length text))) (reports texts);
              })
              (λ _ _ f. f))
          (λ _ _ f. f))

  -- How a run ends.
  pub data Outcome (texts : List Bytes) (w : W) (out : Bytes) (n : ℕ) (s : Console W) : Type 0 where
    appended :
        (c : Bytes)
        → l.file w p ≡ some c
        → n ≡ 0
        → l.file s.0 p ≡ some (c ++ join texts)
        → ((q : Bytes) → bytes_eq p q ≡ false → l.file s.0 q ≡ l.file w q)
        → s.1 ≡ out ++ reports texts
        → Outcome texts w out n s
    missing :
        l.file w p ≡ none
        → n ≡ 1
        → ((q : Bytes) → l.file s.0 q ≡ l.file w q)
        → s.1 ≡ out
        → Outcome texts w out n s

  close-Outcome :
      (fd : ℕ) (c : Bytes) (texts : List Bytes) (w w1 : W) (out : Bytes) (s : Console W)
      → l.file w p ≡ some c
      → ((q : Bytes) → bytes_eq p q ≡ false → l.file w1 q ≡ l.file w q)
      → Written fd c texts w1 out s
      → (r : Bool × W) → Succeeds ⊥ (λ v. (q : Bytes) → l.file v q ≡ l.file s.0 q) r
      → Ends {A = ℕ} (λ _ _. ⊥) (Outcome texts w out) (and_then (done r s.1) (λ _. exit 0))
  unfolding done and_then
  close-Outcome fd c texts w w1 out s there before a (false, v) h = absurd h
  close-Outcome fd c texts w w1 out s there before a (true, v) h =
      appended c there refl (h p ∙ a.holds.1)
        (λ q differ. h q ∙ a.others q differ ∙ before q differ) a.output

  opened-there : (o : Option Bytes) (c : Bytes) → o ≡ some c → opened append_flags o ≡ c
  unfolding opened
  opened-there none c e = cc
  opened-there (some d) c e = cc

  no_descriptor :
      (texts : List Bytes) (w : W) (out : Bytes) (r : Option ℕ × W) (rest : ℕ → M (Console W) ℕ)
      → l.file w p ≡ none
      → r.0 ≡ none
      → ((q : Bytes) → l.file r.1 q ≡ l.file w q)
      → Ends (λ _ _. ⊥) (Outcome texts w out) (and_then (called r out) rest)
  unfolding called and_then
  no_descriptor texts w out (none, w') rest absent failed same = missing absent refl same refl
  no_descriptor texts w out (some fd, w') rest absent failed same = cc

  append_file-Outcome :
      (getopt : List Bytes → Options) (texts : List Bytes) (w : W) (out : Bytes)
      → Ends (λ _ _. ⊥) (Outcome texts w out) (append_file getopt k p texts (w, out))
  unfolding append_file called and_then seek_target
  append_file-Outcome getopt texts w out = elim (Option-cases (l.file w p)) [
    | inl absent ↦
        let e = l.open_missing append_flags p w absent refl in
        no_descriptor texts w out (k.sys_open append_flags p w) _ absent e.0 e.1
    | inr (c, there) ↦
        let r =
          returned _ (k.sys_open append_flags p w)
            (open-Holds k ⊥ l append_flags p w (inl (c, there))) in
        let s =
          returned _ (k.sys_lseek r.0 (pos 0) seek_set r.1)
            (seek-Holds k ⊥ l r.0 _ _ r.1 r.3.1 0 (pos 0) seek_set refl) in
        rw r.2 (
          rw s.2 (
            and_then-Ends (Outcome texts w out) _ (write_all k r.0 texts (s.1, out)) _ (
              Ends-map _ _ _ _ (write_all k r.0 texts (s.1, out))
                (write_all-Written r.0 0 c texts s.1 out
                  (s.3.1.0, s.3.1.1 ∙ ap some (opened-there (l.file w p) c there)))
                (λ _ v a.
                  close-Outcome r.0 c texts w s.1 out v there
                    (λ q differ. s.3.2.1 q ∙ r.3.2.1 q differ) a (k.sys_close r.0 v.0)
                    (Succeeds-weaken _ _ (k.sys_close r.0 v.0) (l.close_lem r.0 _ v.0 a.holds.0)
                      (λ u h. h.0)))
                (λ _ _ f. absurd f))))
  ]

  -- Where no call fails and `getopt` finds no options, `append`, for a file that is not named
  -- --help, exits with status 0 with the texts behind the content of the file, although it has gone
  -- to the start of the file before, or with status 1 where the file is not there, which then stays
  -- so; no other file differs, and it prints how long each text is.
  pub append-Outcome :
      (getopt : List Bytes → Options) (name : Bytes) (texts : List Bytes) (w : W) (out : Bytes)
      → bytes_eq p (codes "--help") ≡ false
      → getopt (p ∷ texts) ≡ record { help = false; args = p ∷ texts; optind = 1 }
      → Ends (λ _ _. ⊥) (Outcome texts w out) (append getopt k name (p ∷ texts) (w, out))
  unfolding append append_opened
  append-Outcome getopt name texts w out named plain =
      rw (named, plain) (append_file-Outcome getopt texts w out)

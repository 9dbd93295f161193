-- ===== src/FileIo/SeekIo/Commands.antt =====
-- stage0/tlpi/fileio/seek_io.c: each command of the program against its description.
use stage.Base.{
  ℕ, zero, suc, ◌+◌, ◌==◌, ◌≡◌, refl, ap, ◌∙◌, inl, inr, Bool, true, false, Bool-cases, Option,
  none, some, Option-cases, [], ◌∷◌, ◌++◌, length, left_if, arith,
}
use stage.Base.Int.{ℤ, pos, negsuc}
use stage.Base.Text.{Bytes}
use stage.FileIo.{
  Kernel, Documented, Desc, Result, seek_set, seek_target, overwrite, write_offset, and_then,
  bytes_eq,
}
use stage.FileIo.Steps.{Ends, and_then-Ends}
use stage.FileIo.Calls.{returned}
use stage.FileIo.Calls.Single.{
  Holds, read-Holds, read_none-Holds, write_none-Holds, write-Holds, seek-Holds,
}
use stage.FileIo.Console.{Console, called, require, print}
use stage.FileIo.SeekIo.{
  to_size, report_read, report_write, report_seek, read_command, write_command, seek_command,
  command,
}
use stage.FileIo.SeekIo.Session.{
  IsRead, as_text, as_hex, Performs, reads, reads_none, writes, writes_none, seeks, IsRefused,
  empty, unknown, no_length, no_block, no_offset, negative,
}

module _ (get_long : Bytes → Option ℤ) (malloc : ℕ → Bool) (isprint : ℕ → Bool) {W : Type 0}
    (k : Kernel W) (l : Documented k ⊥) (p : Bytes) (fd : ℕ) where
  abbrev pub at : ℕ → Desc
  at o = record { path = p; offset = o; append = false }

  -- The other files are as they were.
  abbrev pub Others : W → W → Type 0
  Others w w' = (q : Bytes) → bytes_eq p q ≡ false → l.file w' q ≡ l.file w q

  -- After a command.
  pub record Performed (arg c : Bytes) (o : ℕ) (w : W) (out : Bytes) (s : Console W) : Type 0 where
    pub content : Bytes
    pub offset : ℕ
    pub printed : Bytes
    pub performs : Performs get_long malloc isprint arg (c, o) (content, offset) printed
    pub holds : Holds k ⊥ l fd (at offset) content s.0
    pub others : Others w s.0
    pub output : s.1 ≡ out ++ printed

  -- Where a command has ended the program.
  pub record Refused (arg c : Bytes) (w : W) (out : Bytes) (n : ℕ) (s : Console W) : Type 0 where
    pub status : n ≡ 1
    pub refused : IsRefused get_long malloc isprint arg
    pub kept : l.file s.0 p ≡ some c
    pub others : Others w s.0
    pub output : s.1 ≡ out

  module _ (c : Bytes) (o : ℕ) (w : W) (out : Bytes) (h : Holds k ⊥ l fd (at o) c w) where
    abbrev pub Commanded : Bytes → Result (Console W) (Unit {0}) → Type 0
    Commanded arg r = Ends (λ _ s. Performed arg c o w out s) (λ n s. Refused arg c w out n s) r

    stop : (arg : Bytes) → IsRefused get_long malloc isprint arg → Refused arg c w out 1 (w, out)
    stop arg r = record {
      status = refl;
      refused = r;
      kept = h.1;
      others = λ q _. refl;
      output = refl;
    }

    -- A result, and what is printed of it.
    print-Commanded :
        {A : Type 0} (arg : Bytes) (r : Result (Console W) A) (text : A → Bytes)
        → Ends
            (λ a s. Performed arg c o w out (s.0, s.1 ++ text a))
            (λ n s. Refused arg c w out n s)
            r
        → Commanded arg (and_then r (λ a. print (text a)))
    print-Commanded arg r text h = and_then-Ends (Refused arg c w out) _ r (λ a. print (text a)) h

    read-Performed :
        (head : ℕ) (text : Bool) (rest : Bytes) (len : ℤ) (m : ℕ)
        → IsRead head text
        → get_long rest ≡ some len
        → malloc (to_size len) ≡ true
        → to_size len ≡ m
        → Ends
            (λ s r.
              Performed
                (head ∷ rest)
                c
                o
                w
                out
                (r.0, r.1 ++ report_read isprint (head ∷ rest) text s))
            (λ n s. Refused (head ∷ rest) c w out n s)
            (called (k.sys_read fd m w) out)
    unfolding called
    read-Performed head text rest len zero is_read value block size =
        let r = returned _ (k.sys_read fd 0 w) (read_none-Holds k ⊥ l fd (at o) c w h) in
        rw r.2 (record {
          content = c;
          offset = o;
          printed = report_read isprint (head ∷ rest) text [];
          performs = reads_none is_read value block size;
          holds = r.3.1;
          others = λ q _. r.3.2.1 q;
          output = ap (λ s. out ++ report_read isprint (head ∷ rest) text s) r.3.0;
        })
    read-Performed head text rest len (suc m) is_read value block size =
        let r = returned _ (k.sys_read fd (suc m) w) (read-Holds k ⊥ l fd (at o) c w h m) in
        rw r.2 (record {
          content = c;
          offset = o + length r.0;
          printed = report_read isprint (head ∷ rest) text r.0;
          performs = reads r.3.0.0 is_read value block size r.3.0.1 r.3.1 r.3.2;
          holds = r.3.3;
          others = λ q _. r.3.4.1 q;
          output = refl;
        })

    read_command-Commanded :
        (head : ℕ) (text : Bool) (rest : Bytes)
        → IsRead head text
        → Commanded
            (head ∷ rest)
            (read_command get_long malloc isprint k fd (head ∷ rest) text rest (w, out))
    unfolding read_command require and_then
    read_command-Commanded head text rest is_read = elim (Option-cases (get_long rest)) [
      | inl bad ↦ rw bad (stop _ (no_length is_read bad))
      | inr (len, value) ↦ rw value (elim (Bool-cases (malloc (to_size len))) [
        | inl block ↦ rw block (
            print-Commanded (head ∷ rest) (called (k.sys_read fd (to_size len) w) out)
              (report_read isprint (head ∷ rest) text)
              (read-Performed head text rest len _ is_read value block refl))
        | inr full ↦ rw full (stop _ (no_block is_read value full))
      ])
    ]

    write_command-Commanded :
        (rest : Bytes)
        → Commanded
            (b'w' ∷ rest)
            (write_command get_long malloc isprint k fd (b'w' ∷ rest) rest (w, out))
    unfolding write_command called and_then write_offset
    write_command-Commanded [] =
        let r = returned _ (k.sys_write fd [] w) (write_none-Holds k ⊥ l fd (at o) c w h) in
        rw r.2 (record {
          content = c;
          offset = o;
          printed = report_write (b'w' ∷ []) 0;
          performs = writes_none;
          holds = r.3.1;
          others = λ q _. r.3.2.1 q;
          output = ap (λ n. out ++ report_write (b'w' ∷ []) n) r.3.0;
        })
    write_command-Commanded (b ∷ s) =
        let r = returned _ (k.sys_write fd (b ∷ s) w) (write-Holds k ⊥ l fd (at o) c w h b s) in
        let all = left_if r.3.1 in
        rw r.2 (record {
          content = overwrite c o (b ∷ s);
          offset = o + length (b ∷ s);
          printed = report_write (b'w' ∷ b ∷ s) (length (b ∷ s));
          performs = writes;
          holds = ((r.3.2 all).0.0 ∙ ap (λ n. some (at (o + n))) all, (r.3.2 all).0.1);
          others = (r.3.2 all).1.1;
          output = ap (λ n. out ++ report_write (b'w' ∷ b ∷ s) n) all;
        })

    sought :
        (rest : Bytes) (t : ℕ)
        → get_long rest ≡ some (pos t)
        → Ends
            (λ _ s. Performed (b's' ∷ rest) c o w out (s.0, s.1 ++ report_seek (b's' ∷ rest)))
            (λ n s. Refused (b's' ∷ rest) c w out n s)
            (called (k.sys_lseek fd (pos t) seek_set w) out)
    unfolding called seek_target
    sought rest t value =
        let r =
          returned _ (k.sys_lseek fd (pos t) seek_set w)
            (seek-Holds k ⊥ l fd (at o) c w h t (pos t) seek_set refl) in
        rw r.2 (record {
          content = c;
          offset = t;
          printed = report_seek (b's' ∷ rest);
          performs = seeks value;
          holds = r.3.1;
          others = λ q _. r.3.2.1 q;
          output = refl;
        })

    back :
        (rest : Bytes) (t : ℕ) (r : Option ℕ × W)
        → get_long rest ≡ some (negsuc t)
        → r.0 ≡ none
        → ((q : Bytes) → l.file r.1 q ≡ l.file w q)
        → Ends
            (λ _ s. Performed (b's' ∷ rest) c o w out (s.0, s.1 ++ report_seek (b's' ∷ rest)))
            (λ n s. Refused (b's' ∷ rest) c w out n s)
            (called r out)
    unfolding called
    back rest t (none, w') value failed same = record {
      status = refl;
      refused = negative value;
      kept = same p ∙ h.1;
      others = λ q _. same q;
      output = refl;
    }
    back rest t (some n, w') value failed same = cc

    seek_command-Commanded :
        (rest : Bytes)
        → Commanded
            (b's' ∷ rest)
            (seek_command get_long malloc isprint k fd (b's' ∷ rest) rest (w, out))
    unfolding seek_command require and_then seek_target
    seek_command-Commanded rest = elim (Option-cases (get_long rest)) [
      | inl bad ↦ rw bad (stop _ (no_offset bad))
      | inr (pos t, value) ↦ rw value (
          print-Commanded (b's' ∷ rest) (called (k.sys_lseek fd (pos t) seek_set w) out)
            (λ _. report_seek (b's' ∷ rest)) (sought rest t value))
      | inr (negsuc t, value) ↦
          let e = l.seek_negative fd t (at o) c (negsuc t) seek_set w h.0 h.1 refl in
          rw value (
            print-Commanded (b's' ∷ rest) (called (k.sys_lseek fd (negsuc t) seek_set w) out)
              (λ _. report_seek (b's' ∷ rest))
              (back rest t (k.sys_lseek fd (negsuc t) seek_set w) value e.0 e.1))
    ]

    head_byte : (head n : ℕ) → (head == n) ≡ true → head ≡ n
    head_byte head n h = ground arith

    -- The command of an argument.
    pub command-Commanded :
        (arg : Bytes) → Commanded arg (command get_long malloc isprint k fd arg (w, out))
    unfolding command
    command-Commanded [] = stop [] empty
    command-Commanded (head ∷ rest) = elim (Bool-cases (head == b'r')) [
      | inl r ↦ rw (head_byte head b'r' r) (read_command-Commanded b'r' true rest as_text)
      | inr r ↦ elim (Bool-cases (head == b'R')) [
        | inl R ↦ rw (head_byte head b'R' R) (read_command-Commanded b'R' false rest as_hex)
        | inr R ↦ elim (Bool-cases (head == b'w')) [
          | inl w' ↦ rw (head_byte head b'w' w') (write_command-Commanded rest)
          | inr w' ↦ elim (Bool-cases (head == b's')) [
            | inl s ↦ rw (head_byte head b's' s) (seek_command-Commanded rest)
            | inr s ↦ rw (r, R, w', s) (stop _ (unknown r R w' s))
          ]
        ]
      ]
    ]

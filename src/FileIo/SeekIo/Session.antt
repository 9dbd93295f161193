-- ===== src/FileIo/SeekIo/Session.antt =====
-- stage0/tlpi/fileio/seek_io.c: what a session of commands does to a content and an offset, with no
-- system in sight.
use stage.Base.{
  ℕ, suc, ◌+◌, ◌==◌, ◌≡◌, ◌≤◌, Bool, true, false, Option, none, some, List, [], ◌∷◌, ◌++◌, length,
  drop,
}
use stage.Base.Int.{ℤ, pos, negsuc}
use stage.Base.Text.{Bytes}
use stage.FileIo.{overwrite}
use stage.FileIo.SeekIo.{to_size, report_read, report_write, report_seek}

-- The byte begins a reading command: as text, or as hexadecimal numbers.
pub data IsRead : ℕ → Bool → Type 0 where
  as_text : IsRead b'r' true
  as_hex : IsRead b'R' false

module _ (get_long : Bytes → Option ℤ) (malloc : ℕ → Bool) (isprint : ℕ → Bool) where
  -- A command, the content and the offset before and after it, and what it prints.
  pub data Performs : Bytes → Bytes × ℕ → Bytes × ℕ → Bytes → Type 0 where
    reads :
        {head o m : ℕ} {text : Bool} {rest c s : Bytes} {len : ℤ} (u : Bytes)
        → IsRead head text
        → get_long rest ≡ some len
        → malloc (to_size len) ≡ true
        → to_size len ≡ suc m
        → drop o c ≡ s ++ u
        → length s ≤ suc m
        → (s ≡ [] → drop o c ≡ [])
        → Performs (head ∷ rest) (c, o) (c, o + length s) (report_read isprint (head ∷ rest) text s)
    reads_none :
        {head o : ℕ} {text : Bool} {rest c : Bytes} {len : ℤ}
        → IsRead head text
        → get_long rest ≡ some len
        → malloc (to_size len) ≡ true
        → to_size len ≡ 0
        → Performs (head ∷ rest) (c, o) (c, o) (report_read isprint (head ∷ rest) text [])
    writes :
        {b o : ℕ} {c s : Bytes}
        → Performs
            (b'w' ∷ b ∷ s)
            (c, o)
            (overwrite c o (b ∷ s), o + length (b ∷ s))
            (report_write (b'w' ∷ b ∷ s) (length (b ∷ s)))
    writes_none :
        {o : ℕ} {c : Bytes} → Performs (b'w' ∷ []) (c, o) (c, o) (report_write (b'w' ∷ []) 0)
    seeks :
        {o t : ℕ} {rest c : Bytes}
        → get_long rest ≡ some (pos t)
        → Performs (b's' ∷ rest) (c, o) (c, t) (report_seek (b's' ∷ rest))

  -- A command that ends the program.
  pub data IsRefused : Bytes → Type 0 where
    empty : IsRefused []
    unknown :
        {head : ℕ} {rest : Bytes}
        → (head == b'r') ≡ false
        → (head == b'R') ≡ false
        → (head == b'w') ≡ false
        → (head == b's') ≡ false
        → IsRefused (head ∷ rest)
    no_length :
        {head : ℕ} {text : Bool} {rest : Bytes}
        → IsRead head text
        → get_long rest ≡ none
        → IsRefused (head ∷ rest)
    no_block :
        {head : ℕ} {text : Bool} {rest : Bytes} {len : ℤ}
        → IsRead head text
        → get_long rest ≡ some len
        → malloc (to_size len) ≡ false
        → IsRefused (head ∷ rest)
    no_offset : {rest : Bytes} → get_long rest ≡ none → IsRefused (b's' ∷ rest)
    negative : {rest : Bytes} {t : ℕ} → get_long rest ≡ some (negsuc t) → IsRefused (b's' ∷ rest)

  -- The commands from a content and an offset; the status, the content that is left, and what is
  -- printed.
  pub data Session : List Bytes → Bytes × ℕ → ℕ → Bytes → Bytes → Type 0 where
    finished : {c : Bytes} {o : ℕ} → Session [] (c, o) 0 c []
    refused :
        {arg c : Bytes} {args : List Bytes} {o : ℕ}
        → IsRefused arg
        → Session (arg ∷ args) (c, o) 1 c []
    performed :
        {arg c printed more : Bytes} {args : List Bytes} {s s' : Bytes × ℕ} {status : ℕ}
        → Performs arg s s' printed
        → Session args s' status c more
        → Session (arg ∷ args) s status c (printed ++ more)

-- ===== src/Kilo/Window/Reply.antt =====
-- The reply to the cursor query in stage0/kilo/kilo.c.
use stage.Base.{
  ℕ, zero, suc, ◌^◌, ◌<◌, ◌≡◌, ◌≢◌, ◌⊎◌, inl, inr, refl, ◌∙◌, false, ◌==◌, some, none, List, [],
  ◌∷◌, ◌++◌, map, arith, length, length-append,
}
use stage.Base.Int.{ℤ, pos}
use stage.Base.Text.{Bytes, print_nat}
use stage.Base.Text.Decimal.{
  scan_int-print_nat, length-print_nat, print_nat-Digits, scan_int-print_nat_end, Digits,
}
use stage.Kilo.{Read, byte, escseq, cursor_bottomright, cursor_pos}
use stage.Kilo.Window.{
  read_reply, scan_pair, parse_reply, Terminal, get_cursor_position, ask_cursor, get_window_size,
  init_editor,
}

-- "rows;cols" is read back.
pub scan_pair-print_nat :
    (rows cols : ℕ)
    → scan_pair (print_nat rows ++ (b';' ∷ print_nat cols)) ≡ some (pos rows, pos cols)
unfolding scan_pair
scan_pair-print_nat rows cols =
    rw (scan_int-print_nat rows (b';' ∷ print_nat cols) refl, scan_int-print_nat_end cols)

-- No byte of the text is 'R'.
abbrev NoEnd : Bytes → Type 0
NoEnd [] = Unit {0}
NoEnd (c ∷ s) = ((c == b'R') ≡ false) × NoEnd s

Digits-NoEnd : (s : Bytes) → Digits s → NoEnd s
Digits-NoEnd [] h = tt
Digits-NoEnd (c ∷ s) h = (ground arith, Digits-NoEnd s h.1)

NoEnd-append : (s t : Bytes) → NoEnd s → NoEnd t → NoEnd (s ++ t)
NoEnd-append [] t h k = k
NoEnd-append (c ∷ s) t h k = (h.0, NoEnd-append s t h.1 k)

read_reply-bytes :
    (room : ℕ) (s : Bytes) (rest : List Read)
    → NoEnd s
    → length s < room
    → read_reply room (map byte s ++ (byte b'R' ∷ rest)) ≡ (s, rest)
unfolding read_reply
read_reply-bytes zero s rest h k = absurd (omega arith)
read_reply-bytes (suc room) [] rest h k = refl
read_reply-bytes (suc room) (c ∷ s) rest h k =
    rw (h.0, read_reply-bytes room s rest h.1 (omega arith))

-- What a terminal answers to "\x1b[6n", up to the 'R' that ends it.
abbrev pub report : ℕ → ℕ → Bytes
report rows cols = escseq ∷ b'[' ∷ (print_nat rows ++ (b';' ∷ print_nat cols))

parse_reply-report : (rows cols : ℕ) → parse_reply (report rows cols) ≡ some (pos rows, pos cols)
unfolding parse_reply
parse_reply-report rows cols = scan_pair-print_nat rows cols

report_fits : (rows cols : ℕ) → rows < 2 ^ 31 → cols < 2 ^ 31 → length (report rows cols) < 31
report_fits rows cols hr hc = omega (
  arith,
  length-append (print_nat rows) (b';' ∷ print_nat cols),
  length-print_nat rows 9 (omega arith),
  length-print_nat cols 9 (omega arith),
)

report-NoEnd : (rows cols : ℕ) → NoEnd (report rows cols)
report-NoEnd rows cols =
    let numbers =
      NoEnd-append (print_nat rows) (b';' ∷ print_nat cols)
        (Digits-NoEnd (print_nat rows) (print_nat-Digits rows))
        (refl, Digits-NoEnd (print_nat cols) (print_nat-Digits cols)) in
    (refl, (refl, numbers))

-- Where the query is written whole and the terminal reports `int` numbers, `getCursorPosition`
-- returns these numbers and leaves the reads behind the report.
pub get_cursor_position-report :
    (t : Terminal) (rows cols : ℕ) (rest : List Read)
    → t.wrote_query ≡ pos (length cursor_pos)
    → rows < 2 ^ 31
    → cols < 2 ^ 31
    → get_cursor_position t (map byte (report rows cols) ++ (byte b'R' ∷ rest))
      ≡ some ((pos rows, pos cols), rest)
unfolding get_cursor_position
get_cursor_position-report t rows cols rest w hr hc = rw (
  w,
  read_reply-bytes 31 (report rows cols) rest (report-NoEnd rows cols)
      (report_fits rows cols hr hc),
  parse_reply-report rows cols,
)

ask_cursor-report :
    (t : Terminal) (rows cols : ℕ) (rest : List Read)
    → t.wrote_corner ≡ pos (length cursor_bottomright)
    → t.wrote_query ≡ pos (length cursor_pos)
    → rows < 2 ^ 31
    → cols < 2 ^ 31
    → ask_cursor t (map byte (report rows cols) ++ (byte b'R' ∷ rest))
      ≡ some ((pos rows, pos cols), rest)
unfolding ask_cursor
ask_cursor-report t rows cols rest w1 w2 hr hc =
    simp w1 (get_cursor_position-report t rows cols rest w2 hr hc)

-- `ioctl` fails, or gives no column.
abbrev pub NoColumn : Terminal → Type 0
NoColumn t = (t.winsize ≡ none) ⊎ ((ws_row : ℕ) × (t.winsize ≡ some (ws_row, 0)))

get_window_size-asks :
    (t : Terminal) (reads : List Read) → NoColumn t → get_window_size t reads ≡ ask_cursor t reads
unfolding get_window_size
get_window_size-asks t reads (inl e) = ground arith
get_window_size-asks t reads (inr (r, e)) = ground arith

get_window_size-ioctl :
    (t : Terminal) (r c : ℕ) (reads : List Read)
    → c ≢ 0
    → t.winsize ≡ some (r, c)
    → get_window_size t reads ≡ some ((pos r, pos c), reads)
unfolding get_window_size
get_window_size-ioctl t r c reads h e = ground arith

-- `getWindowSize` takes the size from `ioctl` where that gives a column, and otherwise asks the
-- terminal, which is to write both queries whole and to report `int` numbers.
pub get_window_size_lem :
    (t : Terminal) (rows cols : ℕ) (rest : List Read)
    → t.wrote_corner ≡ pos (length cursor_bottomright)
    → t.wrote_query ≡ pos (length cursor_pos)
    → rows < 2 ^ 31
    → cols < 2 ^ 31
    → let reads = map byte (report rows cols) ++ (byte b'R' ∷ rest) in
      (NoColumn t → get_window_size t reads ≡ some ((pos rows, pos cols), rest))
      × ((ws_row ws_col : ℕ)
          → ws_col ≢ 0
          → t.winsize ≡ some (ws_row, ws_col)
          → get_window_size t reads ≡ some ((pos ws_row, pos ws_col), reads))
get_window_size_lem t rows cols rest w1 w2 hr hc =
    let asked = ask_cursor-report t rows cols rest w1 w2 hr hc in
    let reads = map byte (report rows cols) ++ (byte b'R' ∷ rest) in
    (
      elim [
        | inl e ↦ get_window_size-asks t reads (inl e) ∙ asked
        | inr e ↦ get_window_size-asks t reads (inr e) ∙ asked
      ],
      λ r c h e. get_window_size-ioctl t r c reads h e,
    )

-- The editor starts in the top left corner of a window of the size that was found.
pub init_editor-size :
    (t : Terminal) (reads rest : List Read) (rows cols : ℤ)
    → get_window_size t reads ≡ some ((rows, cols), rest)
    → init_editor t reads
      ≡ some (record { cx = pos 0; cy = pos 0; screenrows = rows; screencols = cols }, rest)
unfolding init_editor
init_editor-size t reads rest rows cols e = rw e

pub init_editor-none :
    (t : Terminal) (reads : List Read) → get_window_size t reads ≡ none → init_editor t reads ≡ none
unfolding init_editor
init_editor-none t reads e = rw e

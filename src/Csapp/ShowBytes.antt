-- ===== src/Csapp/ShowBytes.antt =====
-- stage0/csapp/data/show_bytes.c: the bytes of values in memory, in hexadecimal. The bytes of a
-- `float` and the address of a variable are parameters.
pub mod Read
use stage.Base.{
  ℕ, zero, suc, ◌+◌, ◌*◌, ◌/◌, ◌%◌, ltb, if◌then◌else◌, Option, none, some, List, [], ◌∷◌, ◌++◌,
  length, get_elem?, ◌>>=◌,
}
use stage.Base.Int.{ℤ, pos}
use stage.Base.Text.{Bytes, codes}
use stage.Base.Words.{word}

-- A digit below 16.
unfoldable pub hex_char : ℕ → ℕ
hex_char n = if ltb n 10 then 48 + n else 87 + n

-- printf(" %.2x", ...) of an `unsigned char`
unfoldable pub byte_text : ℕ → Bytes
unfolding hex_char
byte_text n = 32 ∷ hex_char (n / 16) ∷ hex_char (n % 16) ∷ []

-- The loop of `show_byte`, with the rounds left and `i`, and the newline behind it; a read
-- behind the bytes of the object is none.
unfoldable pub show_from : ℕ → ℕ → List ℕ → Option Bytes
unfolding byte_text
show_from zero i start = some (10 ∷ [])
show_from (suc n) i start = do
  b ← get_elem? start i
  rest ← show_from n (i + 1) start
  some (byte_text b ++ rest)

unfoldable pub show_byte : List ℕ → ℕ → Option Bytes
unfolding show_from
show_byte start len = show_from len 0 start

-- The bytes of a word in memory, lowest first.
unfoldable pub little_endian : ℕ → ℕ → List ℕ
little_endian zero n = []
little_endian (suc w) n = (n % 256) ∷ little_endian w (n / 256)

unfoldable pub show_int : ℤ → Option Bytes
unfolding show_byte little_endian
show_int x = show_byte (little_endian 4 (word 32 x)) 4

-- `float_bits` is the pattern of `(float) ival`.
unfoldable pub show_float : (ℤ → ℕ) → ℤ → Option Bytes
unfolding show_byte little_endian
show_float float_bits ival = show_byte (little_endian 4 (float_bits ival)) 4

unfoldable pub show_pointer : ℕ → Option Bytes
unfolding show_byte little_endian
show_pointer address = show_byte (little_endian 8 address) 8

-- `test_show_bytes`, where `ival` lies at `address`.
unfoldable pub test_show_bytes : (ℤ → ℕ) → ℕ → ℤ → Option Bytes
unfolding show_int show_float show_pointer
test_show_bytes float_bits address val = do
  a ← show_int val
  b ← show_float float_bits val
  c ← show_pointer address
  some (a ++ (b ++ c))

-- `main`; the text has six characters and a NUL.
unfoldable pub show_main : (ℤ → ℕ) → ℕ → Option Bytes
unfolding test_show_bytes
show_main float_bits address = do
  a ← test_show_bytes float_bits address (pos 12345)
  b ← show_byte (codes "mnopqr" ++ (0 ∷ [])) (length (codes "mnopqr"))
  some (a ++ b)

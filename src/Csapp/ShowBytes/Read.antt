-- ===== src/Csapp/ShowBytes/Read.antt =====
-- stage0/csapp/data/show_bytes.c: what is printed can be read back.
use mathlib.Core.List.{append_assoc}
use native.Mathlib.Nat.{pow-suc}
use stage.Base.{
  ℕ, zero, suc, ◌+◌, ◌-◌, ◌*◌, ◌/◌, ◌%◌, ◌^◌, ◌<◌, ◌≡◌, refl, ap, ◌∙◌, ltb, if◌then◌else◌, some,
  List, [], ◌∷◌, ◌++◌, length, get_elem?, arith,
}
use stage.Base.Int.{ℤ}
use stage.Base.Text.{Bytes}
use stage.Base.Words.{word, signed, wrap32-eq, Fits, word-lt}
use stage.Csapp.ShowBytes.{hex_char, byte_text, show_from, show_byte, little_endian, show_int}

-- The value of a hexadecimal digit, and the bytes of a line.
abbrev pub digit_value : ℕ → ℕ
digit_value c = if ltb c 58 then c - 48 else c - 87

abbrev pub read_bytes : Bytes → List ℕ
read_bytes [] = []
read_bytes (a ∷ []) = []
read_bytes (a ∷ b ∷ []) = []
read_bytes (a ∷ b ∷ c ∷ line) = (16 * digit_value b + digit_value c) ∷ read_bytes line

abbrev pub from_little : List ℕ → ℕ
from_little [] = 0
from_little (b ∷ bytes) = b + 256 * from_little bytes

-- Each is a byte.
abbrev pub AreBytes : List ℕ → Type 0
AreBytes [] = Unit {0}
AreBytes (b ∷ bytes) = (b < 256) × AreBytes bytes

digit_value-hex_char : (n : ℕ) → n < 16 → digit_value (hex_char n) ≡ n
unfolding hex_char
digit_value-hex_char n h = ground arith

-- The line of a list of bytes.
line_of : List ℕ → Bytes
line_of [] = 10 ∷ []
line_of (b ∷ bytes) = byte_text b ++ line_of bytes

read_bytes-line_of : (bytes : List ℕ) → AreBytes bytes → read_bytes (line_of bytes) ≡ bytes
unfolding line_of byte_text
read_bytes-line_of [] h = refl
read_bytes-line_of (b ∷ bytes) h = ground (
  arith,
  digit_value-hex_char (b / 16) (omega arith),
  digit_value-hex_char (b % 16) (omega arith),
  read_bytes-line_of bytes h.1,
)

get_elem?-behind :
    (front : List ℕ) (b : ℕ) (bytes : List ℕ)
    → get_elem? (front ++ (b ∷ bytes)) (length front) ≡ some b
get_elem?-behind [] b bytes = refl
get_elem?-behind (c ∷ front) b bytes = get_elem?-behind front b bytes

length-snoc : (front : List ℕ) (b : ℕ) → length front + 1 ≡ length (front ++ (b ∷ []))
length-snoc [] b = refl
length-snoc (c ∷ front) b = omega (arith, length-snoc front b)

show_from-line_of :
    (front bytes : List ℕ)
    → show_from (length bytes) (length front) (front ++ bytes) ≡ some (line_of bytes)
unfolding show_from line_of
show_from-line_of front [] = refl
show_from-line_of front (b ∷ bytes) =
    rw
      (
        get_elem?-behind front b bytes,
        length-snoc front b,
        ← append_assoc front (b ∷ []) bytes,
        show_from-line_of (front ++ (b ∷ [])) bytes,
      )
      refl

-- `show_byte` of a whole object has no fault, and the bytes are read back from its line.
pub show_byte-read :
    (bytes : List ℕ)
    → AreBytes bytes
    → (line : Bytes) × (show_byte bytes (length bytes) ≡ some line) × (read_bytes line ≡ bytes)
unfolding show_byte
show_byte-read bytes h = (line_of bytes, show_from-line_of [] bytes, read_bytes-line_of bytes h)

little_endian-AreBytes : (w n : ℕ) → AreBytes (little_endian w n)
unfolding little_endian
little_endian-AreBytes zero n = tt
little_endian-AreBytes (suc w) n = (omega arith, little_endian-AreBytes w (n / 256))

from_little-little_endian : (w n : ℕ) → n < 256 ^ w → from_little (little_endian w n) ≡ n
unfolding little_endian
from_little-little_endian zero n h = omega arith
from_little-little_endian (suc w) n h =
    omega (arith, from_little-little_endian w (n / 256) (omega (arith, pow-suc 256 w)))

-- The line that `show_int` prints for an int gives the int back, read as bytes, lowest first, of a
-- number in two's complement.
pub show_int-read :
    (x : ℤ)
    → Fits 32 x
    → (line : Bytes) × (show_int x ≡ some line) × (signed 32 (from_little (read_bytes line)) ≡ x)
unfolding show_int
show_int-read x h =
    let (line, shown, read) =
      show_byte-read (little_endian 4 (word 32 x)) (little_endian-AreBytes 4 (word 32 x)) in
    (
      line,
      shown,
      ap (λ (bytes : List ℕ). signed 32 (from_little bytes)) read
          ∙ ap (signed 32) (from_little-little_endian 4 (word 32 x) (word-lt 32 x (omega arith)))
          ∙ wrap32-eq x h,
    )

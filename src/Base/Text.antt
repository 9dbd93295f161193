-- ===== src/Base/Text.antt =====
-- C strings as the lists of their bytes, and the `%d` of printf and sscanf.
pub mod Decimal
pub mod Equal
use Prim.Native.Char.{code}
use Prim.Native.String.{String}
use stage.Base.{
  ℕ, zero, suc, ◌+◌, ◌-◌, ◌*◌, ◌/◌, ◌%◌, ◌==◌, ltb, leb, ◌&&◌, ◌||◌, if◌then◌else◌, Bool, true,
  false, Option, none, some, ◌>>=◌, List, [], ◌∷◌,
}
use stage.Base.Int.{ℤ, pos, negsuc, sub_ℕ}

abbrev pub Bytes : Type 0
Bytes = List ℕ

-- The bytes of an ASCII literal.
abbrev pub codes : String → Bytes
codes String.[] = []
codes (String.◌∷◌ c s) = code c ∷ codes s

-- The decimal digits of `n` before `acc`; the first argument bounds their number.
digits_onto : ℕ → ℕ → Bytes → Bytes
digits_onto zero n acc = acc
digits_onto (suc f) n acc =
    let more = digits_onto f (n / 10) ((48 + n % 10) ∷ acc) in
    if ltb n 10 then (48 + n) ∷ acc else more

-- `%u`
unfoldable pub print_nat : ℕ → Bytes
unfolding digits_onto
print_nat n = digits_onto (suc n) n []

-- `%d`
unfoldable pub print_int : ℤ → Bytes
print_int (pos n) = print_nat n
print_int (negsuc n) = b'-' ∷ print_nat (suc n)

abbrev pub is_digit : ℕ → Bool
is_digit c = leb 48 c && leb c 57

-- The number that the digits at the front continue, and what is behind them.
unfoldable pub scan_digits : ℕ → Bytes → ℕ × Bytes
scan_digits acc [] = (acc, [])
scan_digits acc (c ∷ s) = elim (is_digit c) [
  | true ↦ scan_digits (acc * 10 + (c - 48)) s
  | false ↦ (acc, c ∷ s)
]

-- At least one digit.
unfoldable pub scan_nat : Bytes → Option (ℕ × Bytes)
scan_nat [] = none
scan_nat (c ∷ s) = if is_digit c then some (scan_digits (c - 48) s) else none

unfoldable pub negate : ℕ × Bytes → ℤ × Bytes
negate (n, s) = (sub_ℕ 0 n, s)

unfoldable pub plain : ℕ × Bytes → ℤ × Bytes
plain (n, s) = (pos n, s)

unfoldable pub scan_signed : Bytes → Option (ℤ × Bytes)
unfolding scan_nat negate plain
scan_signed [] = none
scan_signed (c ∷ s) =
    if c == b'-'
    then (scan_nat s >>= λ r. some (negate r))
    else if c == b'+'
    then (scan_nat s >>= λ r. some (plain r))
    else (scan_nat (c ∷ s) >>= λ r. some (plain r))

abbrev pub is_space : ℕ → Bool
is_space c = c == 32 || leb 9 c && leb c 13

unfoldable pub skip_space : Bytes → Bytes
skip_space [] = []
skip_space (c ∷ s) = let rest = skip_space s in if is_space c then rest else c ∷ s

-- `%d` of scanf: white space, a sign, digits. Numbers outside `int` are undefined in C and are
-- kept as they are here.
unfoldable pub scan_int : Bytes → Option (ℤ × Bytes)
unfolding skip_space scan_signed
scan_int s = scan_signed (skip_space s)

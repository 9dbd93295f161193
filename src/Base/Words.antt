-- ===== src/Base/Words.antt =====
-- Signed machine words in two's complement: a number, its pattern of `w` bits, and back.
use stage.Base.{ℕ, ◌-◌, ◌%◌, ◌^◌, ◌<◌, ◌≡◌, ◌&&◌, ltb, if◌then◌else◌, Option, none, some, arith}
use stage.Base.Int.{ℤ, pos, negsuc, ◌≤ℤ◌, leb_ℤ}

-- The pattern; of a number out of range, that of the number it wraps to.
abbrev pub word : ℕ → ℤ → ℕ
word w (pos n) = n % 2 ^ w
word w (negsuc n) = 2 ^ w - 1 - n % 2 ^ w

-- The number of a pattern.
abbrev pub signed : ℕ → ℕ → ℤ
signed w n = if ltb n (2 ^ (w - 1)) then pos n else negsuc (2 ^ w - 1 - n)

-- Conversion to a signed type of `w` bits, which wraps.
abbrev pub wrap : ℕ → ℤ → ℤ
wrap w n = signed w (word w n)

-- The numbers of a signed type of `w` bits.
abbrev pub Fits : ℕ → ℤ → Type 0
Fits w n = (negsuc (2 ^ (w - 1) - 1) ≤ℤ n) × (n ≤ℤ pos (2 ^ (w - 1) - 1))

-- A result of signed arithmetic; an overflow is none.
unfoldable pub checked : ℕ → ℤ → Option ℤ
checked w n =
    if leb_ℤ (negsuc (2 ^ (w - 1) - 1)) n && leb_ℤ n (pos (2 ^ (w - 1) - 1)) then some n else none

pub wrap16-Fits : (n : ℤ) → Fits 16 (wrap 16 n)
wrap16-Fits n = ground arith

pub wrap16-eq : (n : ℤ) → Fits 16 n → wrap 16 n ≡ n
wrap16-eq n h = ground arith

pub wrap32-eq : (n : ℤ) → Fits 32 n → wrap 32 n ≡ n
wrap32-eq n h = ground arith

pub checked64-some : (n : ℤ) → Fits 64 n → checked 64 n ≡ some n
unfolding checked
checked64-some n h = ground arith

pub word-lt : (w : ℕ) (n : ℤ) → 0 < 2 ^ w → word w n < 2 ^ w
word-lt w n h = ground arith

-- ===== src/Base/Bits.antt =====
-- The bits of a machine word: what `&`, `|`, `^` and `~` do to each of them.
mod Digits
use Prim.Native.Nat.{min, max, bit_and, bit_or, bit_xor}
use native.Mathlib.Nat.{pow-suc, one-le-pow}
use stage.Base.{
  Bool, true, false, ◌||◌, ◌==◌, ℕ, zero, suc, ◌+◌, ◌-◌, ◌*◌, ◌/◌, ◌%◌, ◌^◌, ◌≤◌, ◌<◌, ◌≡◌, ap, ◌∙◌,
  arith,
}
use Digits.{bit_or-Bitwise, bit_and-Bitwise, bit_and-zero_left, bit_xor-Bitwise}

-- Bit `i` of `x`, 0 or 1.
unfoldable pub bit_at : ℕ → ℕ → ℕ
bit_at zero x = x % 2
bit_at (suc i) x = bit_at i (x / 2)

-- `~x` of a word of `w` bits
abbrev pub complement : ℕ → ℕ → ℕ
complement w x = 2 ^ w - 1 - x

pub bit_at-le : (i x : ℕ) → bit_at i x ≤ 1
unfolding bit_at
bit_at-le zero x = omega arith
bit_at-le (suc i) x = bit_at-le i (x / 2)

pub bit_at-bit_and : (i x y : ℕ) → bit_at i (bit_and x y) ≡ min (bit_at i x) (bit_at i y)
unfolding bit_at
bit_at-bit_and zero x y = (bit_and-Bitwise x y).1
bit_at-bit_and (suc i) x y =
    ap (bit_at i) (bit_and-Bitwise x y).0 ∙ bit_at-bit_and i (x / 2) (y / 2)

pub bit_at-bit_or : (i x y : ℕ) → bit_at i (bit_or x y) ≡ max (bit_at i x) (bit_at i y)
unfolding bit_at
bit_at-bit_or zero x y = (bit_or-Bitwise x y).1
bit_at-bit_or (suc i) x y = ap (bit_at i) (bit_or-Bitwise x y).0 ∙ bit_at-bit_or i (x / 2) (y / 2)

pub bit_at-bit_xor : (i x y : ℕ) → bit_at i (bit_xor x y) ≡ (bit_at i x + bit_at i y) % 2
unfolding bit_at
bit_at-bit_xor zero x y = (bit_xor-Bitwise x y).1
bit_at-bit_xor (suc i) x y =
    ap (bit_at i) (bit_xor-Bitwise x y).0 ∙ bit_at-bit_xor i (x / 2) (y / 2)

pub bit_at-complement : (w i x : ℕ) → i < w → x < 2 ^ w → bit_at i (complement w x) ≡ 1 - bit_at i x
unfolding bit_at
bit_at-complement zero i x h b = absurd (omega arith)
bit_at-complement (suc w) zero x h b = omega (arith, pow-suc 2 w, one-le-pow w 2)
bit_at-complement (suc w) (suc i) x h b =
    ap (bit_at i) half ∙ bit_at-complement w i (x / 2) (omega arith) (omega (arith, pow-suc 2 w))
  where
    half : complement (suc w) x / 2 ≡ complement w (x / 2)
    half = omega (arith, pow-suc 2 w)

-- Words with the same bits are equal.
pub eq_of_bits :
    (w x y : ℕ) → x < 2 ^ w → y < 2 ^ w → ((i : ℕ) → i < w → bit_at i x ≡ bit_at i y) → x ≡ y
unfolding bit_at
eq_of_bits zero x y hx hy h = omega arith
eq_of_bits (suc w) x y hx hy h = omega (
  arith,
  h 0 (omega arith),
  eq_of_bits w (x / 2) (y / 2) (omega (arith, pow-suc 2 w)) (omega (arith, pow-suc 2 w))
      (λ i b. h (suc i) (omega arith)),
)

pub bit_or-lt : (w x y : ℕ) → x < 2 ^ w → y < 2 ^ w → bit_or x y < 2 ^ w
bit_or-lt zero x y hx hy =
    let zero_x : x ≡ 0 = omega arith in
    let zero_y : y ≡ 0 = omega arith in rw (zero_x, zero_y) (omega arith)
bit_or-lt (suc w) x y hx hy = ground (
  arith,
  pow-suc 2 w,
  bit_or-Bitwise x y,
  bit_or-lt w (x / 2) (y / 2) (omega (arith, pow-suc 2 w)) (omega (arith, pow-suc 2 w)),
)

-- Whether bit `i` of a word is set.
abbrev pub has : ℕ → ℕ → Bool
has i x = bit_at i x == 1

pub has-bit_or : (i x y : ℕ) → has i (bit_or x y) ≡ (has i x || has i y)
has-bit_or i x y = ground (arith, bit_at-bit_or i x y, bit_at-le i x, bit_at-le i y)

-- `|` adds bits and `&` takes some away; the first argument is at least the number.
le-bit_or_below : (n a b : ℕ) → a ≤ n → a ≤ bit_or a b
le-bit_or_below zero a b h = omega arith
le-bit_or_below (suc n) a b h =
    ground (arith, bit_or-Bitwise a b, le-bit_or_below n (a / 2) (b / 2) (omega arith))

pub le-bit_or : (a b : ℕ) → a ≤ bit_or a b
le-bit_or a b = le-bit_or_below a a b (omega arith)

le-bit_or_right_below : (n a b : ℕ) → b ≤ n → b ≤ bit_or a b
le-bit_or_right_below zero a b h = omega arith
le-bit_or_right_below (suc n) a b h =
    ground (arith, bit_or-Bitwise a b, le-bit_or_right_below n (a / 2) (b / 2) (omega arith))

pub le-bit_or_right : (a b : ℕ) → b ≤ bit_or a b
le-bit_or_right a b = le-bit_or_right_below b a b (omega arith)

bit_and-le_below : (n a b : ℕ) → a ≤ n → bit_and a b ≤ b
bit_and-le_below zero zero b h = ground (arith, bit_and-zero_left b)
bit_and-le_below zero (suc a) b h = absurd (omega arith)
bit_and-le_below (suc n) a b h =
    ground (arith, bit_and-Bitwise a b, bit_and-le_below n (a / 2) (b / 2) (omega arith))

pub bit_and-le : (a b : ℕ) → bit_and a b ≤ b
bit_and-le a b = bit_and-le_below a a b (omega arith)

pub bit_xor-lt : (w x y : ℕ) → x < 2 ^ w → y < 2 ^ w → bit_xor x y < 2 ^ w
bit_xor-lt zero x y hx hy =
    let zero_x : x ≡ 0 = omega arith in
    let zero_y : y ≡ 0 = omega arith in rw (zero_x, zero_y) (omega arith)
bit_xor-lt (suc w) x y hx hy = ground (
  arith,
  pow-suc 2 w,
  bit_xor-Bitwise x y,
  bit_xor-lt w (x / 2) (y / 2) (omega (arith, pow-suc 2 w)) (omega (arith, pow-suc 2 w)),
)

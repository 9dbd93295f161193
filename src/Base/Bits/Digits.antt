-- ===== src/Base/Bits/Digits.antt =====
-- The lowest bit of `&`, `|` and `^` and the bits above it. The native operations recur on the
-- binary digits of their first number, as often as that number says.
use mathlib.Core.Path.{subst}
use native.Mathlib.Nat.{zero-add}
use Prim.Native.Nat.{
  min, max, differ, digits, bit_and, bit_or, bit_xor, bit_and-bitwise, bit_or-bitwise,
  bit_xor-bitwise,
}
use stage.Base.{ℕ, zero, suc, ◌+◌, ◌-◌, ◌*◌, ◌/◌, ◌%◌, ◌≤◌, ◌≡◌, refl, ◌∙◌, ap, arith}

-- An operation on words that works on each bit alone.
abbrev pub Bitwise : (ℕ → ℕ → ℕ) → (ℕ → ℕ → ℕ) → Type 0
Bitwise on_words on_bits =
    (a b : ℕ)
    → (on_words a b / 2 ≡ on_words (a / 2) (b / 2)) × (on_words a b % 2 ≡ on_bits (a % 2) (b % 2))

module _ (rest : ℕ → ℕ) (on_bits : ℕ → ℕ → ℕ) where
  -- One digit more than there are changes nothing.
  spare_digit : (n a b : ℕ) → a ≤ n → digits rest on_bits (suc n) a b ≡ digits rest on_bits n a b
  spare_digit (suc n) (suc a) b h =
      ap (λ (w : ℕ). w * 2 + on_bits (suc a % 2) (b % 2))
        (spare_digit n (suc a / 2) (b / 2) (omega arith))
  spare_digit zero (suc a) b h = absurd (omega arith)
  spare_digit (suc n) zero b h = refl
  spare_digit zero zero b h = refl

  -- Nor do any number more.
  spare_digits : (k a b : ℕ) → digits rest on_bits (k + a) a b ≡ digits rest on_bits a a b
  spare_digits zero a b = rw (zero-add a) refl
  spare_digits (suc k) a b =
      let next : suc k + a ≡ suc (k + a) = omega arith in
      rw next (spare_digit (k + a) a b (omega arith) ∙ spare_digits k a b)

  -- The digits above the lowest, with as many as half the number says.
  upper_digits :
      (a b : ℕ)
      → digits rest on_bits a (suc a / 2) (b / 2)
        ≡ digits rest on_bits (suc a / 2) (suc a / 2) (b / 2)
  upper_digits a b =
      let split : a - suc a / 2 + suc a / 2 ≡ a = omega arith in
      subst
        (λ n.
          digits rest on_bits n (suc a / 2) (b / 2)
          ≡ digits rest on_bits (suc a / 2) (suc a / 2) (b / 2))
        split (spare_digits (a - suc a / 2) (suc a / 2) (b / 2))

-- One more digit: the half and the remainder of a sum with a bit.
halves : (u v c : ℕ) → u ≡ v → c ≤ 1 → ((u * 2 + c) / 2 ≡ v) × ((u * 2 + c) % 2 ≡ c)
halves u v c e h = (omega arith, omega arith)

pub bit_and-Bitwise : Bitwise bit_and min
bit_and-Bitwise zero b =
    rw (bit_and-bitwise 0 b, bit_and-bitwise 0 (b / 2)) (omega arith, omega arith)
bit_and-Bitwise (suc a) b =
    rw (bit_and-bitwise (suc a) b, bit_and-bitwise (suc a / 2) (b / 2))
      (halves _ _ _ (upper_digits (λ _. 0) min a b) (omega arith))

pub bit_or-Bitwise : Bitwise bit_or max
bit_or-Bitwise zero b = rw (bit_or-bitwise 0 b, bit_or-bitwise 0 (b / 2)) (omega arith, omega arith)
bit_or-Bitwise (suc a) b =
    rw (bit_or-bitwise (suc a) b, bit_or-bitwise (suc a / 2) (b / 2))
      (halves _ _ _ (upper_digits (λ c. c) max a b) (omega arith))

-- `^` of two bits is 1 where their sum is odd.
parity : ℕ → ℕ → ℕ
parity x y = (x + y) % 2

differ-parity : (x y : ℕ) → x ≤ 1 → y ≤ 1 → differ x y ≡ parity x y
unfolding parity
differ-parity zero zero h k = refl
differ-parity zero (suc y) h k = omega arith
differ-parity (suc x) zero h k = omega arith
differ-parity (suc x) (suc y) h k =
    let none_x : x ≡ 0 = omega arith in let none_y : y ≡ 0 = omega arith in rw (none_x, none_y) refl

pub bit_xor-Bitwise : Bitwise bit_xor (λ x y. (x + y) % 2)
unfolding parity
bit_xor-Bitwise zero b =
    rw (bit_xor-bitwise 0 b, bit_xor-bitwise 0 (b / 2)) (omega arith, omega arith)
bit_xor-Bitwise (suc a) b =
    let bits = differ-parity (suc a % 2) (b % 2) (omega arith) (omega arith) in
    rw (bit_xor-bitwise (suc a) b, bit_xor-bitwise (suc a / 2) (b / 2))
      (let (upper, lowest) =
          halves _ _ (differ (suc a % 2) (b % 2)) (upper_digits (λ c. c) differ a b)
            (omega (arith, bits)) in
        (upper, lowest ∙ bits))

-- No bit of 0 is set, and so none of `0 & b`.
pub bit_and-zero_left : (b : ℕ) → bit_and 0 b ≡ 0
bit_and-zero_left b = bit_and-bitwise 0 b

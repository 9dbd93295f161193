-- ===== src/Base/Text/Decimal.antt =====
-- What sscanf reads back of a number that printf has written.
use native.Mathlib.Nat.{pow-suc}
use mathlib.Core.List.{append-nil}
use stage.Base.{
  ℕ, zero, suc, ◌+◌, ◌-◌, ◌*◌, ◌/◌, ◌%◌, ◌^◌, ◌≤◌, ◌<◌, ◌≡◌, refl, ltb, inl, inr, true, false,
  Bool-cases, some, ◌>>=◌, [], ◌∷◌, ◌++◌, arith, length,
}
use stage.Base.Int.{pos}
use stage.Base.Text.{
  Bytes, digits_onto, print_nat, is_digit, scan_digits, scan_nat, plain, scan_int,
}

digits_onto-append :
    (f n : ℕ) (acc rest : Bytes) → digits_onto f n acc ++ rest ≡ digits_onto f n (acc ++ rest)
unfolding digits_onto
digits_onto-append zero n acc rest = refl
digits_onto-append (suc f) n acc rest =
    ground (arith, digits_onto-append f (n / 10) ((48 + n % 10) ∷ acc) rest)

-- The first byte of a printed number is a digit.
digits_onto-digit :
    (f n : ℕ) (acc : Bytes)
    → n < f
    → (c : ℕ) × (s : Bytes) × (digits_onto f n acc ≡ c ∷ s) × (is_digit c ≡ true)
unfolding digits_onto
digits_onto-digit zero n acc h = absurd (omega arith)
digits_onto-digit (suc f) n acc h = elim (Bool-cases (ltb n 10)) [
  | inl small ↦ (48 + n, acc, rw small, ground arith)
  | inr large ↦ rw large (digits_onto-digit f (n / 10) ((48 + n % 10) ∷ acc) (ground arith))
]

digit_lem : (n : ℕ) → n < 10 → is_digit (48 + n) ≡ true
digit_lem n h = ground arith

scan_nat-digit : (n : ℕ) (s : Bytes) → n < 10 → scan_nat ((48 + n) ∷ s) ≡ some (scan_digits n s)
unfolding scan_nat
scan_nat-digit n s h = let value : 48 + n - 48 ≡ n = omega arith in rw (digit_lem n h, value)

scan_digits-digit :
    (a n : ℕ) (s : Bytes) → n < 10 → scan_digits a ((48 + n) ∷ s) ≡ scan_digits (a * 10 + n) s
unfolding scan_digits
scan_digits-digit a n s h =
    let value : 48 + n - 48 ≡ n = omega arith in rw (scan_digits, digit_lem n h, value)

scan_nat-digits_onto :
    (f n : ℕ) (acc : Bytes) → n < f → scan_nat (digits_onto f n acc) ≡ some (scan_digits n acc)
unfolding digits_onto
scan_nat-digits_onto zero n acc h = absurd (omega arith)
scan_nat-digits_onto (suc f) n acc h = elim (Bool-cases (ltb n 10)) [
  | inl small ↦ rw small (scan_nat-digit n acc (ground arith))
  | inr large ↦
      let whole : n / 10 * 10 + n % 10 ≡ n = omega arith in
      rw (
        large,
        scan_nat-digits_onto f (n / 10) ((48 + n % 10) ∷ acc) (ground arith),
        scan_digits-digit (n / 10) (n % 10) acc (omega arith),
        whole,
      )
]

scan_int-digit :
    (t : Bytes) (c : ℕ) (s : Bytes)
    → t ≡ c ∷ s
    → is_digit c ≡ true
    → scan_int t ≡ (scan_nat t >>= λ r. some (plain r))
unfolding scan_int
scan_int-digit t c s e h = rw e (ground arith)

length-digits_onto :
    (f n k : ℕ) (acc : Bytes) → n < 10 ^ suc k → length (digits_onto f n acc) ≤ suc k + length acc
unfolding digits_onto
length-digits_onto zero n k acc h = omega arith
length-digits_onto (suc f) n zero acc h = ground arith
length-digits_onto (suc f) n (suc k) acc h =
    ground (arith, pow-suc 10 (suc k), length-digits_onto f (n / 10) k ((48 + n % 10) ∷ acc))

-- The text does not go on with a digit.
abbrev pub Ends : Bytes → Type 0
Ends [] = Unit {0}
Ends (c ∷ s) = is_digit c ≡ false

scan_digits-Ends : (n : ℕ) (rest : Bytes) → Ends rest → scan_digits n rest ≡ (n, rest)
unfolding scan_digits
scan_digits-Ends n [] h = refl
scan_digits-Ends n (c ∷ s) h = rw (scan_digits, h)

-- `%d` reads back a number that `%d` has written, as long as no digit follows it.
pub scan_int-print_nat :
    (n : ℕ) (rest : Bytes) → Ends rest → scan_int (print_nat n ++ rest) ≡ some (pos n, rest)
unfolding scan_int print_nat
scan_int-print_nat n rest h =
    let (c, s, e, digit) = digits_onto-digit (suc n) n rest (omega arith) in
    rw (
      digits_onto-append (suc n) n [] rest,
      scan_int-digit (digits_onto (suc n) n rest) c s e digit,
      scan_nat-digits_onto (suc n) n rest (omega arith),
      scan_digits-Ends n rest h,
    )

pub length-print_nat : (n k : ℕ) → n < 10 ^ suc k → length (print_nat n) ≤ suc k
unfolding print_nat
length-print_nat n k h = omega (arith, length-digits_onto (suc n) n k [])

-- The text is made of digits.
abbrev pub Digits : Bytes → Type 0
Digits [] = Unit {0}
Digits (c ∷ s) = (is_digit c ≡ true) × Digits s

digits_onto-Digits : (f n : ℕ) (acc : Bytes) → Digits acc → Digits (digits_onto f n acc)
unfolding digits_onto
digits_onto-Digits zero n acc h = h
digits_onto-Digits (suc f) n acc h = elim (Bool-cases (ltb n 10)) [
  | inl small ↦ rw small (digit_lem n (ground arith), h)
  | inr large ↦
      rw large
        (digits_onto-Digits f (n / 10) ((48 + n % 10) ∷ acc) (digit_lem (n % 10) (omega arith), h))
]

pub print_nat-Digits : (n : ℕ) → Digits (print_nat n)
unfolding print_nat
print_nat-Digits n = digits_onto-Digits (suc n) n [] tt

pub scan_int-print_nat_end : (n : ℕ) → scan_int (print_nat n) ≡ some (pos n, [])
scan_int-print_nat_end n = rw append-nil at (scan_int-print_nat n [] tt)

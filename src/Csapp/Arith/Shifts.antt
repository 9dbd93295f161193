-- ===== src/Csapp/Arith/Shifts.antt =====
-- stage0/csapp/assembly/shift.c: four places to the left and `n` to the right.
use native.Mathlib.Nat.{pow-suc, mul-div-mul_right}
use stage.Base.{
  ℕ, zero, suc, ◌+◌, ◌-◌, ◌*◌, ◌/◌, ◌^◌, ◌≤◌, ◌<◌, ◌≡◌, refl, ap, ◌∙◌, ltb, true, false, none, some,
  arith,
}
use stage.Base.Int.{ℤ, pos, negsuc}
use stage.Base.Words.{checked64-some}
use stage.Csapp.Arith.{shift_right, shift_left, shift_right_by, shift_left4_rightn}

pow-add_four : (k : ℕ) → 2 ^ (k + 4) ≡ 2 ^ k * 16
pow-add_four k =
    let four : k + 4 ≡ suc (suc (suc (suc k))) = omega arith in
    rw four (
      omega (
        arith,
        pow-suc 2 k,
        pow-suc 2 (suc k),
        pow-suc 2 (suc (suc k)),
        pow-suc 2 (suc (suc (suc k))),
      ))

shifted_lem :
    (x n : ℕ)
    → x < 2 ^ 59
    → n < 64
    → shift_left4_rightn (pos x) (pos n) ≡ some (pos (x * 16 / 2 ^ n))
unfolding shift_left4_rightn shift_left shift_right_by shift_right
shifted_lem x n h k =
    let test : ltb n 64 ≡ true = ground arith in
    rw (checked64-some (pos (x * 16)) (omega arith)) (rw test refl)

over : (x n : ℕ) → x < 2 ^ 59 → 64 ≤ n → shift_left4_rightn (pos x) (pos n) ≡ none
unfolding shift_left4_rightn shift_left shift_right_by
over x n h k =
    let test : ltb n 64 ≡ false = ground arith in
    rw (checked64-some (pos (x * 16)) (omega arith)) (rw test refl)

-- For a number from 0 to below 2^59, which keeps its bits on the left, up to four places to the
-- right multiply it by what is left of 16, and 4 + k places divide it by 2^k, rounding down; a
-- negative number of places, 64 or more, or a negative number is undefined.
pub shift_left4_rightn-scales :
    (x n : ℕ)
    → x < 2 ^ 59
    → (n ≤ 4 → shift_left4_rightn (pos x) (pos n) ≡ some (pos (x * 2 ^ (4 - n))))
      × (n < 60 → shift_left4_rightn (pos x) (pos (n + 4)) ≡ some (pos (x / 2 ^ n)))
      × (64 ≤ n → shift_left4_rightn (pos x) (pos n) ≡ none)
      × (shift_left4_rightn (pos x) (negsuc n) ≡ none)
      × ((k : ℤ) → shift_left4_rightn (negsuc x) k ≡ none)
unfolding shift_left4_rightn shift_left shift_right_by
shift_left4_rightn-scales x n h = (
  λ few. shifted_lem x n h (omega arith) ∙ ap (λ (k : ℕ). some (pos k)) (few_places n few),
  λ more.
      shifted_lem x (n + 4) h (omega arith)
      ∙ ap (λ (k : ℕ). some (pos k))
          (ap (λ (k : ℕ). x * 16 / k) (pow-add_four n) ∙ mul-div-mul_right x (2 ^ n) (omega arith)),
  λ too_many. over x n h too_many,
  rw (checked64-some (pos (x * 16)) (omega arith)) refl,
  λ k. refl,
)
  where
    few_places : (n : ℕ) → n ≤ 4 → x * 16 / 2 ^ n ≡ x * 2 ^ (4 - n)
    few_places zero le = omega arith
    few_places (suc zero) le = omega arith
    few_places (suc (suc zero)) le = omega arith
    few_places (suc (suc (suc zero))) le = omega arith
    few_places (suc (suc (suc (suc zero)))) le = omega arith
    few_places (suc (suc (suc (suc (suc n))))) le = absurd (omega arith)

-- ===== src/Proc/Segments.antt =====
-- stage0/tlpi/proc/mem_segments.c: `square`, `doCalc` and `main`. A product outside `int` is
-- undefined in C and is none here; that no memory is left for `malloc` has no effect.
use native.Mathlib.Nat.{mul-le-mul}
use stage.Base.{
  ℕ, suc, ◌+◌, ◌*◌, ◌≤◌, ◌<◌, ◌≡◌, ◌↔◌, ap, ◌∙◌, ltb, ◌&&◌, if◌then◌else◌, true, false, Option,
  none, some, ◌>>=◌, List, [], ◌∷◌, ◌++◌, Bool-cases, inl, inr, arith,
}
use stage.Base.Int.{ℤ, pos, negsuc, pos_part, neg_part, sub_ℕ, ◌*ℤ◌, ◌≤ℤ◌, leb_ℤ, ltb_ℤ}
use stage.Base.Text.{Bytes, codes, print_int}

-- A result of arithmetic on `int`.
unfoldable pub as_int? : ℤ → Option ℤ
as_int? n = if leb_ℤ (negsuc 0x7fff_ffff) n && leb_ℤ n (pos 0x7fff_ffff) then some n else none

unfoldable pub mul_int : ℤ → ℤ → Option ℤ
mul_int a b = as_int? (a *ℤ b)

unfoldable pub square : ℤ → Option ℤ
square x = mul_int x x

-- printf("The square of %d is %d\n", ...), and the cube.
unfoldable pub power_line : Bytes → ℤ → ℤ → Bytes
power_line power val n =
    codes "The "
    ++ (power ++ (codes " of " ++ (print_int val ++ (codes " is " ++ (print_int n ++ (10 ∷ []))))))

unfoldable pub cube_lines : ℤ → Option (List Bytes)
cube_lines val =
    if ltb_ℤ val (pos 1000)
    then (do s ← mul_int val val; t ← mul_int s val; some (power_line (codes "cube") val t ∷ []))
    else some []

-- `doCalc`: what it prints.
unfoldable pub do_calc : ℤ → Option (List Bytes)
do_calc val = do
  s ← square val
  rest ← cube_lines val
  some (power_line (codes "square") val s ∷ rest)

abbrev pub key : ℤ
key = pos 9973

-- `main`
unfoldable pub segments_main : Option (List Bytes)
segments_main = do_calc key

infix 50 ◌<ℤ◌
abbrev ◌<ℤ◌ : ℤ → ℤ → Type 0
a <ℤ b = pos_part a + neg_part b < pos_part b + neg_part a

as_int?-fits : (n : ℤ) → negsuc 0x7fff_ffff ≤ℤ n → n ≤ℤ pos 0x7fff_ffff → as_int? n ≡ some n
unfolding as_int?
as_int?-fits n lo hi = ground arith

as_int?-over : (n : ℤ) → pos 0x7fff_ffff <ℤ n → as_int? n ≡ none
unfolding as_int?
as_int?-over n over = ground arith

as_int?-under : (n : ℤ) → n <ℤ negsuc 0x7fff_ffff → as_int? n ≡ none
unfolding as_int?
as_int?-under n under = ground arith

-- Products by sign.
mul-pos : (a b : ℕ) → pos a *ℤ pos b ≡ pos (a * b)
unfolding ◌*ℤ◌
mul-pos a b = ground arith

mul-negsuc : (a b : ℕ) → negsuc a *ℤ negsuc b ≡ pos (suc a * suc b)
unfolding ◌*ℤ◌
mul-negsuc a b = ground arith

mul-pos_negsuc : (a b : ℕ) → pos a *ℤ negsuc b ≡ sub_ℕ 0 (a * suc b)
unfolding ◌*ℤ◌
mul-pos_negsuc a b = ground arith

mul_mono : (a b c d : ℕ) → a ≤ b → c ≤ d → a * c ≤ b * d
mul_mono a b c d h k = mul-le-mul h k

mul_int-fits : (a b : ℕ) → a * b ≤ 0x7fff_ffff → mul_int (pos a) (pos b) ≡ some (pos (a * b))
unfolding mul_int
mul_int-fits a b h =
    ap as_int? (mul-pos a b) ∙ as_int?-fits (pos (a * b)) (omega arith) (omega arith)

-- `doCalc` from what its products come to.
module _ (val s : ℤ) where
  cube_lines-some :
      (t : ℤ)
      → ltb_ℤ val (pos 1000) ≡ true
      → square val ≡ some s
      → mul_int s val ≡ some t
      → cube_lines val ≡ some (power_line (codes "cube") val t ∷ [])
  unfolding cube_lines square
  cube_lines-some t small e f = rw (small, e, f)

  do_calc-some :
      (rest : List Bytes)
      → square val ≡ some s
      → cube_lines val ≡ some rest
      → (lines : List Bytes) × (do_calc val ≡ some lines)
  unfolding do_calc
  do_calc-some rest e f = (power_line (codes "square") val s ∷ rest, rw (e, f))

  do_calc-no_cube :
      square val ≡ some s → ltb_ℤ val (pos 1000) ≡ true → mul_int s val ≡ none → do_calc val ≡ none
  unfolding do_calc cube_lines square
  do_calc-no_cube e small f = rw (e, small, f)

cube_lines-large : (val : ℤ) → ltb_ℤ val (pos 1000) ≡ false → cube_lines val ≡ some []
unfolding cube_lines
cube_lines-large val large = rw large

do_calc-none : (val : ℤ) → square val ≡ none → do_calc val ≡ none
unfolding do_calc
do_calc-none val e = rw e

do_calc-pos : (n : ℕ) → n ≤ 46340 → (lines : List Bytes) × (do_calc (pos n) ≡ some lines)
unfolding square mul_int
do_calc-pos n h =
    let square_fits : n * n ≤ 46340 * 46340 = mul_mono n 46340 n 46340 h h in
    let squared : square (pos n) ≡ some (pos (n * n)) = mul_int-fits n n (omega arith) in
    elim (Bool-cases (ltb n 1000)) [
      | inl small ↦
          let below : n ≤ 999 = ground arith in
          let s_fits : n * n ≤ 999 * 999 = mul_mono n 999 n 999 below below in
          let t_fits : n * n * n ≤ 999 * 999 * 999 =
            mul_mono (n * n) (999 * 999) n 999 s_fits below in
          do_calc-some (pos n) _ _ squared (
            cube_lines-some (pos n) _ _ (ground arith) squared
              (mul_int-fits (n * n) n (omega arith)))
      | inr large ↦ do_calc-some (pos n) _ _ squared (cube_lines-large (pos n) (ground arith))
    ]

do_calc-over : (n : ℕ) → 46340 < n → do_calc (pos n) ≡ none
unfolding square mul_int
do_calc-over n h =
    let over : 46341 * 46341 ≤ n * n = mul_mono 46341 n 46341 n h h in
    do_calc-none (pos n) (ap as_int? (mul-pos n n) ∙ as_int?-over (pos (n * n)) (omega arith))

do_calc-negsuc : (m : ℕ) → m ≤ 1289 → (lines : List Bytes) × (do_calc (negsuc m) ≡ some lines)
unfolding square mul_int
do_calc-negsuc m h =
    let k = suc m in
    let s_fits : k * k ≤ 1290 * 1290 = mul_mono k 1290 k 1290 (omega arith) (omega arith) in
    let t_fits : k * k * k ≤ 1290 * 1290 * 1290 =
      mul_mono (k * k) (1290 * 1290) k 1290 s_fits (omega arith) in
    let squared : square (negsuc m) ≡ some (pos (k * k)) =
      ap as_int? (mul-negsuc m m) ∙ as_int?-fits (pos (k * k)) (omega arith) (omega arith) in
    do_calc-some (negsuc m) _ _ squared (
      cube_lines-some (negsuc m) _ _ (ground arith) squared (
        ap as_int? (mul-pos_negsuc (k * k) m)
        ∙ as_int?-fits (sub_ℕ 0 (k * k * k)) (ground arith) (ground arith)))

do_calc-under : (m : ℕ) → 1289 < m → do_calc (negsuc m) ≡ none
unfolding square mul_int
do_calc-under m h =
    let k = suc m in
    let s_low : 1291 * 1291 ≤ k * k = mul_mono 1291 k 1291 k (omega arith) (omega arith) in
    let t_low : 1291 * 1291 * 1291 ≤ k * k * k =
      mul_mono (1291 * 1291) (k * k) 1291 k s_low (omega arith) in
    elim (Bool-cases (ltb 0x7fff_ffff (k * k))) [
      | inl over ↦
          do_calc-none (negsuc m)
            (ap as_int? (mul-negsuc m m) ∙ as_int?-over (pos (k * k)) (ground arith))
      | inr fits ↦
          let squared : square (negsuc m) ≡ some (pos (k * k)) =
            ap as_int? (mul-negsuc m m) ∙ as_int?-fits (pos (k * k)) (omega arith) (ground arith) in
          do_calc-no_cube (negsuc m) _ squared (ground arith) (
            ap as_int? (mul-pos_negsuc (k * k) m)
            ∙ as_int?-under (sub_ℕ 0 (k * k * k)) (ground arith))
    ]

-- `doCalc` prints its lines, with every product inside `int`, exactly for the values from -1290 to 46340.
pub do_calc_iff :
    (val : ℤ)
    → ((lines : List Bytes) × (do_calc val ≡ some lines))
      ↔ ((negsuc 1289 ≤ℤ val) × (val ≤ℤ pos 46340))
do_calc_iff (pos n) = (
  λ (lines, e). elim (Bool-cases (ltb 46340 n)) [
    | inl over ↦ absurd (cc (e, do_calc-over n (ground arith)))
    | inr fits ↦ (omega arith, ground arith)
  ],
  λ (lo, hi). do_calc-pos n (omega arith),
)
do_calc_iff (negsuc m) = (
  λ (lines, e). elim (Bool-cases (ltb 1289 m)) [
    | inl under ↦ absurd (cc (e, do_calc-under m (ground arith)))
    | inr fits ↦ (ground arith, omega arith)
  ],
  λ (lo, hi). do_calc-negsuc m (omega arith),
)

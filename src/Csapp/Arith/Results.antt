-- ===== src/Csapp/Arith/Results.antt =====
-- stage0/csapp/assembly: what arith.c, arith3.c and leaq.c compute.
use Prim.Native.Nat.{min, bit_and, bit_or, bit_xor}
use native.Mathlib.Nat.{mul-le-mul}
use stage.Base.{
  ℕ, suc, ◌+◌, ◌-◌, ◌*◌, ◌%◌, ◌^◌, ◌≤◌, ◌<◌, ◌≡◌, refl, ap, ◌∙◌, ◌&&◌, ltb, Bool-cases, inl, inr,
  if◌then◌else◌, Bool, true, false, some, arith,
}
use stage.Base.Int.{
  ℤ, pos, negsuc, pos_part, neg_part, ◌+ℤ◌, ◌-ℤ◌, ◌*ℤ◌, ◌≤ℤ◌, eq_ℤ, leb_ℤ, ltb_ℤ, +ℤ_parts,
  -ℤ_parts,
}
use stage.Base.Bits.{
  bit_at, has, bit_at-le, bit_at-bit_and, bit_at-bit_xor, bit_or-lt, le-bit_or, le-bit_or_right,
  bit_and-le, bit_xor-lt,
}
use stage.Base.Words.{word, signed, wrap, Fits, checked, checked64-some, word-lt}
use stage.Csapp.Arith.{arith_long, shift_right, arith3, scale}

-- The product of two shorts.
product_low : (a b c d : ℕ) → a ≤ c → b ≤ d → a * b ≤ c * d
product_low a b c d h k = mul-le-mul h k

product-Fits :
    (x y : ℤ) → Fits 16 x → Fits 16 y → (negsuc 0x3fff_ffff ≤ℤ x *ℤ y) × (x *ℤ y ≤ℤ pos 0x4000_0000)
unfolding ◌*ℤ◌
product-Fits (pos a) (pos b) h k =
    let p = product_low a b 32767 32767 (omega arith) (omega arith) in (ground arith, ground arith)
product-Fits (pos a) (negsuc b) h k =
    let p = product_low a (suc b) 32767 32768 (omega arith) (omega arith) in
    (ground arith, ground arith)
product-Fits (negsuc a) (pos b) h k =
    let p = product_low (suc a) b 32768 32767 (omega arith) (omega arith) in
    (ground arith, ground arith)
product-Fits (negsuc a) (negsuc b) h k =
    let p = product_low (suc a) (suc b) 32768 32768 (omega arith) (omega arith) in
    (ground arith, ground arith)

ten_parts :
    (y : ℤ)
    → (pos_part (pos 10 *ℤ y) ≡ 10 * pos_part y) × (neg_part (pos 10 *ℤ y) ≡ 10 * neg_part y)
unfolding ◌*ℤ◌
ten_parts y = ground arith

checked32-some : (n : ℤ) → Fits 32 n → checked 32 n ≡ some n
unfolding checked
checked32-some n h = ground arith

-- For shorts no sum or product of `scale` leaves `int`, and the result is x * y + 10 * y + z,
-- wrapped to a short.
pub scale-sum :
    (x y z : ℤ)
    → Fits 16 x
    → Fits 16 y
    → Fits 16 z
    → scale x y z ≡ some (wrap 16 (x *ℤ y +ℤ pos 10 *ℤ y +ℤ z))
unfolding scale
scale-sum x y z hx hy hz =
    let a = x *ℤ y in
    let b = pos 10 *ℤ y in
    let p = product-Fits x y hx hy in
    let q = ten_parts y in
    let s = +ℤ_parts a b in
    let t = +ℤ_parts (a +ℤ b) z in
    rw
      (
        checked32-some a (omega arith),
        checked32-some b (omega arith),
        checked32-some (a +ℤ b) (omega arith),
        checked32-some (a +ℤ b +ℤ z) (omega arith),
      )
      refl

-- Two words are below 512 exactly where their `|` is.
bit_or-small : (a b : ℕ) → ltb (bit_or a b) 512 ≡ (ltb a 512 && ltb b 512)
bit_or-small a b = elim (Bool-cases (ltb a 512 && ltb b 512)) [
  | inl both ↦ ground (arith, bit_or-lt 9 a b (ground arith) (ground arith))
  | inr one ↦ ground (arith, le-bit_or a b, le-bit_or_right a b)
]

shifted-zero :
    (o : ℕ) → o < 2 ^ 16 → eq_ℤ (wrap 16 (shift_right (signed 16 o) 9)) (pos 0) ≡ ltb o 512
unfolding shift_right
shifted-zero o h = ground arith

word-small : (y : ℤ) → Fits 16 y → ltb (word 16 y) 512 ≡ (leb_ℤ (pos 0) y && ltb_ℤ y (pos 512))
word-small y h = ground arith

regroup : (a b c d : Bool) → ((a && b) && (c && d)) ≡ (((c && d) && a) && b)
regroup true true c d = ground arith
regroup true false c d = ground arith
regroup false b c d = ground arith

-- For shorts y and z `arith3` is 1 - y where both are at least 0 and below 512, and -y otherwise,
-- wrapped to a short.
pub arith3-cases :
    (x y z : ℤ)
    → Fits 16 y
    → Fits 16 z
    → arith3 x y z
      ≡ wrap 16 (
          (if leb_ℤ (pos 0) y && ltb_ℤ y (pos 512) && leb_ℤ (pos 0) z && ltb_ℤ z (pos 512)
            then pos 1
            else pos 0)
          -ℤ y)
unfolding arith3
arith3-cases x y z hy hz =
    let o = bit_or (word 16 z) (word 16 y) in
    let fits : o < 2 ^ 16 =
      bit_or-lt 16 (word 16 z) (word 16 y) (word-lt 16 z (omega arith))
        (word-lt 16 y (omega arith)) in
    rw
      (
        shifted-zero o fits,
        bit_or-small (word 16 z) (word 16 y),
        word-small y hy,
        word-small z hz,
        regroup (leb_ℤ (pos 0) z) (ltb_ℤ z (pos 512)) (leb_ℤ (pos 0) y) (ltb_ℤ y (pos 512)),
      )
      refl

word-signed64 : (o : ℕ) → o < 2 ^ 64 → word 64 (signed 64 o) ≡ o
word-signed64 o h = ground arith

signed64-low : (m : ℕ) → m ≤ 0x0f0f_0f0f → signed 64 m ≡ pos m
signed64-low m h = ground arith

masked : (i o mask : ℕ) → min (bit_at i o) (bit_at i mask) ≡ (if has i mask then bit_at i o else 0)
masked i o mask = ground (arith, bit_at-le i o, bit_at-le i mask)

-- Where neither z * 48 nor the difference leaves `long`, `arith` is z * 48 less a number that has
-- exactly the bits of the mask 0x0f0f0f0f in which x and y differ.
pub arith_long-difference :
    (x y z : ℤ)
    → Fits 64 (z *ℤ pos 48)
    → negsuc (0x7fff_ffff_ffff_ffff - 0x0f0f_0f0f) ≤ℤ z *ℤ pos 48
    → (m : ℕ) × (arith_long x y z ≡ some (z *ℤ pos 48 -ℤ pos m))
      × ((i : ℕ)
          → i < 64
          → bit_at i m
            ≡ (if has i 0x0f0f_0f0f then (bit_at i (word 64 x) + bit_at i (word 64 y)) % 2 else 0))
unfolding arith_long
arith_long-difference x y z h low =
    let o = bit_xor (word 64 x) (word 64 y) in
    let m = bit_and o 0x0f0f_0f0f in
    let o_fits : o < 2 ^ 64 =
      bit_xor-lt 64 (word 64 x) (word 64 y) (word-lt 64 x (omega arith))
        (word-lt 64 y (omega arith)) in
    let m_low : m ≤ 0x0f0f_0f0f = bit_and-le o 0x0f0f_0f0f in
    let parts = -ℤ_parts (z *ℤ pos 48) (pos m) in
    (
      m,
      rw
          (
            checked64-some (z *ℤ pos 48) h,
            word-signed64 o o_fits,
            signed64-low m m_low,
            checked64-some (z *ℤ pos 48 -ℤ pos m) (omega arith),
          )
          refl,
      λ i b.
          bit_at-bit_and i o 0x0f0f_0f0f
          ∙ masked i o 0x0f0f_0f0f
          ∙ ap (λ (k : ℕ). if has i 0x0f0f_0f0f then k else 0)
              (bit_at-bit_xor i (word 64 x) (word 64 y)),
    )

-- ===== src/Csapp/Arith.antt =====
-- stage0/csapp/assembly: arith.c, arith3.c, leaq.c and shift.c.
pub mod Results
pub mod Shifts
use Prim.Native.Nat.{bit_and, bit_or, bit_xor}
use stage.Base.{
  ℕ, ◌+◌, ◌-◌, ◌*◌, ◌/◌, ◌%◌, ◌^◌, ◌≤◌, ◌<◌, ◌≡◌, refl, ◌&&◌, ltb, if◌then◌else◌, Bool, true, false,
  Option, none, some, ◌>>=◌, arith,
}
use stage.Base.Int.{ℤ, pos, negsuc, ◌+ℤ◌, ◌-ℤ◌, ◌*ℤ◌, ◌≤ℤ◌, eq_ℤ, leb_ℤ}
use stage.Base.Words.{word, signed, wrap, Fits, checked}

-- `arith`
unfoldable pub arith_long : ℤ → ℤ → ℤ → Option ℤ
arith_long x y z = do
  let t1 = signed 64 (bit_xor (word 64 x) (word 64 y))
  t2 ← checked 64 (z *ℤ pos 48)
  let t3 = signed 64 (bit_and (word 64 t1) 0x0f0f_0f0f)
  checked 64 (t2 -ℤ t3)

-- `p >> n`, which rounds down.
unfoldable pub shift_right : ℤ → ℕ → ℤ
shift_right (pos p) n = pos (p / 2 ^ n)
shift_right (negsuc p) n = negsuc (p / 2 ^ n)

-- `arith3`, on shorts; the arithmetic is that of `int`.
unfoldable pub arith3 : ℤ → ℤ → ℤ → ℤ
unfolding shift_right
arith3 x y z =
    let p1 = signed 16 (bit_or (word 16 z) (word 16 y)) in
    let p2 = wrap 16 (shift_right p1 9) in
    let p3 = if eq_ℤ p2 (pos 0) then pos 1 else pos 0 in wrap 16 (p3 -ℤ y)

-- `scale`, on shorts, with the sums and products in `int`.
unfoldable pub scale : ℤ → ℤ → ℤ → Option ℤ
scale x y z = do
  a ← checked 32 (x *ℤ y)
  b ← checked 32 (pos 10 *ℤ y)
  c ← checked 32 (a +ℤ b)
  t ← checked 32 (c +ℤ z)
  some (wrap 16 t)

-- `x <<= 4`, undefined for a negative number and for one that does not fit after it.
unfoldable pub shift_left : ℤ → ℕ → Option ℤ
shift_left (pos x) n = checked 64 (pos (x * 2 ^ n))
shift_left (negsuc x) n = none

-- `x >>= n`, undefined unless `n` is a number of bits below 64.
unfoldable pub shift_right_by : ℤ → ℤ → Option ℤ
shift_right_by x (pos n) = if ltb n 64 then some (shift_right x n) else none
shift_right_by x (negsuc n) = none

unfoldable pub shift_left4_rightn : ℤ → ℤ → Option ℤ
shift_left4_rightn x n = shift_left x 4 >>= λ shifted. shift_right_by shifted n

-- ===== src/Csapp/Tests.antt =====
-- The theorems about stage0/csapp at concrete values, and runs of its programs.
use stage.Base.{
  ℕ, ◌+◌, ◌-◌, ◌*◌, ◌/◌, ◌%◌, ◌^◌, ◌≤◌, ◌<◌, ◌≡◌, ◌≢◌, refl, ◌&&◌, if◌then◌else◌, some, none, [],
  ◌∷◌, get_elem?, arith,
}
use stage.Base.Int.{ℤ, pos, negsuc, ◌+ℤ◌, ◌-ℤ◌, ◌*ℤ◌, leb_ℤ, ltb_ℤ}
use stage.Base.Bits.{bit_at, has}
use stage.Base.Text.{Bytes, codes, print_int, print_nat}
use stage.Base.Words.{word, signed, wrap, checked}
use stage.Csapp.Arith.{arith_long, arith3, scale, shift_left4_rightn}
use stage.Csapp.Arith.Results.{scale-sum, arith3-cases, arith_long-difference}
use stage.Csapp.Arith.Shifts.{shift_left4_rightn-scales}
use stage.Csapp.Memory.{
  Memory, exchange, mult2, mulstore, product_main, exchange-exchange, mulstore-product,
}
use stage.Csapp.ShowBytes.{show_int, show_main}
use stage.Csapp.ShowBytes.Read.{from_little, read_bytes, show_int-read}

scale-sum_test :
    scale (pos 300) (pos 300) (negsuc 4)
    ≡ some (wrap 16 (pos 300 *ℤ pos 300 +ℤ pos 10 *ℤ pos 300 +ℤ negsuc 4))
scale-sum_test = scale-sum (pos 300) (pos 300) (negsuc 4) (omega arith) (omega arith) (omega arith)

-- 93000 - 5 does not fit a short.
scale_wraps : scale (pos 300) (pos 300) (negsuc 4) ≡ some (pos 27459)
unfolding scale checked ◌+ℤ◌ ◌*ℤ◌
scale_wraps = refl

arith3-cases_example :
    arith3 (pos 0) (pos 7) (pos 511)
    ≡ wrap 16 (
        (if leb_ℤ (pos 0) (pos 7)
            && ltb_ℤ (pos 7) (pos 512)
            && leb_ℤ (pos 0) (pos 511)
            && ltb_ℤ (pos 511) (pos 512)
          then pos 1
          else pos 0)
        -ℤ pos 7)
arith3-cases_example = arith3-cases (pos 0) (pos 7) (pos 511) (omega arith) (omega arith)

arith3_least : arith3 (pos 0) (negsuc 32767) (pos 0) ≡ negsuc 32767
unfolding arith3 ◌-ℤ◌
arith3_least = refl

arith_long-difference_test :
    (m : ℕ) × (arith_long (pos 255) (negsuc 0) (pos 10) ≡ some (pos 10 *ℤ pos 48 -ℤ pos m))
    × ((i : ℕ)
        → i < 64
        → bit_at i m ≡ (
            if has i 0x0f0f_0f0f
            then (bit_at i (word 64 (pos 255)) + bit_at i (word 64 (negsuc 0))) % 2
            else 0))
unfolding ◌*ℤ◌
arith_long-difference_test =
    arith_long-difference (pos 255) (negsuc 0) (pos 10) (omega arith, omega arith) (omega arith)

shift_left4_rightn-scales_test :
    (3 ≤ 4 → shift_left4_rightn (pos 5) (pos 3) ≡ some (pos (5 * 2 ^ (4 - 3))))
    × (3 < 60 → shift_left4_rightn (pos 5) (pos (3 + 4)) ≡ some (pos (5 / 2 ^ 3)))
    × (64 ≤ 3 → shift_left4_rightn (pos 5) (pos 3) ≡ none)
    × (shift_left4_rightn (pos 5) (negsuc 3) ≡ none)
    × ((k : ℤ) → shift_left4_rightn (negsuc 5) k ≡ none)
shift_left4_rightn-scales_test = shift_left4_rightn-scales 5 3 (omega arith)

abbrev cells : Memory
cells = pos 1 ∷ pos 2 ∷ pos 3 ∷ []

exchange-exchange_example :
    (x : ℤ) × (m : Memory) × (exchange 1 (pos 9) cells ≡ some (x, m))
    × (get_elem? cells 1 ≡ some x)
    × (get_elem? m 1 ≡ some (pos 9))
    × ((q : ℕ) → 1 ≢ q → get_elem? m q ≡ get_elem? cells q)
    × (exchange 1 x m ≡ some (pos 9, cells))
exchange-exchange_example = exchange-exchange cells 1 (omega arith) (pos 9)

mulstore-product_test :
    (m : Memory) × (mulstore (pos 2) (negsuc 2) 1 cells ≡ some m)
    × (get_elem? m 1 ≡ some (pos 2 *ℤ negsuc 2))
    × ((q : ℕ) → 1 ≢ q → get_elem? m q ≡ get_elem? cells q)
unfolding ◌*ℤ◌
mulstore-product_test =
    mulstore-product cells 1 (omega arith) (pos 2) (negsuc 2) (omega arith, omega arith)

main_prints : product_main (negsuc 76) ≡ some (codes "2 * 3 --> 6\n")
unfolding product_main mulstore mult2 checked ◌*ℤ◌ print_int print_nat
main_prints = refl

show_int-read_example :
    (line : Bytes) × (show_int (negsuc 99) ≡ some line)
    × (signed 32 (from_little (read_bytes line)) ≡ negsuc 99)
show_int-read_example = show_int-read (negsuc 99) (omega arith)

-- 12345 is 0x3039, and as a `float` it has the pattern 0x4640e400.
show_main_prints :
    show_main (λ n. 0x4640e400) 0x7ffe_0000_1234
    ≡ some (codes " 39 30 00 00\n 00 e4 40 46\n 34 12 00 00 fe 7f 00 00\n 6d 6e 6f 70 71 72\n")
unfolding show_main
show_main_prints = refl

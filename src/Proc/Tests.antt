-- ===== src/Proc/Tests.antt =====
-- The theorems about stage0/tlpi/proc/longjmp.c and mem_segments.c at concrete arguments.
use stage.Base.{◌≡◌, ◌↔◌, refl, some, List, [], ◌∷◌, ◌==◌, if◌then◌else◌}
use stage.Base.Int.{pos, negsuc, ◌≤ℤ◌, ◌*ℤ◌}
use stage.Base.Text.{Bytes, codes, print_int, print_nat}
use stage.Proc.Jumps.{from_setjmp, from_setjmp-prints}
use stage.Proc.Segments.{
  as_int?, mul_int, square, power_line, cube_lines, do_calc, segments_main, do_calc_iff,
}

from_setjmp-prints_test :
    from_setjmp 2 1 0
    ≡ some (
        codes "Calling f1() after initial setjmp()\n"
        ∷ (if 1 == 1
            then codes "We jumped back from f1()\n"
            else codes "We jumped back from f2()\n")
        ∷ [])
from_setjmp-prints_test = from_setjmp-prints 0 1

do_calc_iff_example :
    ((lines : List Bytes) × (do_calc (pos 9973) ≡ some lines))
    ↔ ((negsuc 1289 ≤ℤ pos 9973) × (pos 9973 ≤ℤ pos 46340))
do_calc_iff_example = do_calc_iff (pos 9973)

main_prints : segments_main ≡ some (codes "The square of 9973 is 99460729\n" ∷ [])
unfolding segments_main do_calc square mul_int as_int? power_line cube_lines ◌*ℤ◌ print_int
    print_nat
main_prints = refl

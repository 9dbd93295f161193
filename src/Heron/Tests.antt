-- ===== src/Heron/Tests.antt =====
-- The theorem about stage0/modern_c/control/heron.c on numbers of a fixed point, and runs of its loops.
use stage.Base.{ℕ, zero, suc, ◌*◌, ◌/◌, ◌≡◌, refl, true, none, some, [], ◌∷◌, ◌++◌, arith}
use stage.Base.Int.{ℤ, pos, negsuc, ◌+ℤ◌, ◌-ℤ◌, ltb_ℤ}
use stage.Base.Text.{codes}
use stage.Heron.{Doubles, Formats, guess_step, guess, refine_step, refine, approximate, heron_main}
use stage.Heron.Endless.{Signs, heron_main-none}

abbrev opposite : ℕ → ℤ
opposite zero = pos 0
opposite (suc n) = negsuc n

-- A number is the integer that it is times 2 ^ 24; a product is rounded towards 0.
unfoldable product : ℤ → ℤ → ℤ
product (pos m) (pos n) = pos (m * n / 16777216)
product (pos m) (negsuc n) = opposite (m * suc n / 16777216)
product (negsuc m) (pos n) = opposite (suc m * n / 16777216)
product (negsuc m) (negsuc n) = pos (suc m * suc n / 16777216)

abbrev fixed_point : Doubles ℤ
fixed_point = record {
  one = pos 16777216;
  two = pos 33554432;
  half = pos 8388608;
  tiny = pos 1;
  add = ◌+ℤ◌;
  sub = ◌-ℤ◌;
  mul = product;
  lt = ltb_ℤ;
}

opposite-below : (n : ℕ) (y : ℤ) → ltb_ℤ (pos 0) y ≡ true → ltb_ℤ (opposite n) y ≡ true
opposite-below zero y up = up
opposite-below (suc n) (pos y) up = ground arith
opposite-below (suc n) (negsuc y) up = ground arith

twice-pos : (x : ℤ) → ltb_ℤ (pos 0) x ≡ true → ltb_ℤ (pos 0) (product x (pos 33554432)) ≡ true
unfolding product
twice-pos (pos x) up = ground arith
twice-pos (negsuc x) up = ground arith

below-neg :
    (a x y : ℤ)
    → ltb_ℤ a (pos 0) ≡ true
    → ltb_ℤ (pos 0) x ≡ true
    → ltb_ℤ (pos 0) y ≡ true
    → ltb_ℤ (product a x) y ≡ true
unfolding product
below-neg (pos a) x y down up above = ground arith
below-neg (negsuc a) (pos x) y down up above = opposite-below (suc a * x / 16777216) y above
below-neg (negsuc a) (negsuc x) y down up above = ground arith

fixed_point-Signs : Signs fixed_point
unfolding ◌-ℤ◌
fixed_point-Signs = record {
  nought = pos 0;
  one_pos = refl;
  low_pos = refl;
  twice_pos = twice-pos;
  mul_neg = below-neg;
}

-- "-1" is minus one.
abbrev formats : Formats ℤ
formats = record {
  strtod = λ s. some (negsuc 16777215);
  general = λ x. [];
  scientific = λ x. [];
  fixed = λ x. [];
}

heron_main-none_example : heron_main fixed_point formats 50 50 ([] ++ (codes "-1" ∷ [])) ≡ none
unfolding fixed_point-Signs
heron_main-none_example =
    heron_main-none fixed_point fixed_point-Signs (negsuc 16777215) refl formats 50 50 (codes "-1")
      [] [] refl

-- For 4 the first loop comes to a quarter, which the second keeps.
approximate-four :
    approximate fixed_point 5 5 (pos 67108864)
    ≡ some (pos 16777216 ∷ pos 8388608 ∷ pos 4194304 ∷ [], pos 4194304)
unfolding approximate guess guess_step refine refine_step product ◌+ℤ◌ ◌-ℤ◌
approximate-four = refl

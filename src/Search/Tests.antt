-- ===== src/Search/Tests.antt =====
-- The theorems about stage0/modern_c/control/binary_search.c at concrete arrays.
use stage.Base.{
  ℕ, ◌≡◌, ◌≤◌, refl, false, ◌==◌, ltb, List, [], ◌∷◌, some, get_elem?, arith, zero, suc, ◌/◌, ◌%◌,
  ◌++◌,
}
use stage.Base.Int.{pos, sub_ℕ}
use stage.Base.Text.{codes, print_nat, print_int}
use stage.Search.{Comparisons, returns, sequential_search, binary_loop, binary_search}
use stage.Search.Program.{
  range_line, index_line, answer, binary_lines, Counts, search_and_print, search_main,
  binary_lines-Counts,
}
use stage.Search.Sequential.{Searches, Locates, sequential_search-Locates}
use stage.Search.Binary.{Orders, IsSorted, Within, binary_search-Within, binary_search-Locates}

-- Numbers for `double`s.
abbrev numbers : Comparisons ℕ
numbers = record { eqb = λ a b. a == b; gtb = λ a b. ltb b a }

numbers-Orders : Orders numbers
numbers-Orders = record {
  gt_ne = λ x v h. ground arith;
  gt_up = λ x y v h k. ground arith;
  lt_down = λ x y v h k l. ground arith;
}

abbrev table : List ℕ
table = 5 ∷ 12 ∷ 27 ∷ 34 ∷ []

not_less : (x y : ℕ) → x ≤ y → ltb y x ≡ false
not_less x y h = ground arith

-- Each number of a list is at most those behind it.
abbrev AtMost : ℕ → List ℕ → Type 0
AtMost x [] = Unit {0}
AtMost x (y ∷ ys) = (x ≤ y) × AtMost x ys

abbrev Ascending : List ℕ → Type 0
Ascending [] = Unit {0}
Ascending (x ∷ xs) = AtMost x xs × Ascending xs

AtMost-get : (x y j : ℕ) (xs : List ℕ) → AtMost x xs → get_elem? xs j ≡ some y → x ≤ y
AtMost-get x y j [] h at = cc
AtMost-get x y zero (z ∷ xs) h at = ground arith
AtMost-get x y (suc j) (z ∷ xs) h at = AtMost-get x y j xs h.1 at

Ascending-get :
    (i j x y : ℕ) (xs : List ℕ)
    → Ascending xs
    → i ≤ j
    → get_elem? xs i ≡ some x
    → get_elem? xs j ≡ some y
    → x ≤ y
Ascending-get i j x y [] h le atx aty = cc
Ascending-get zero zero x y (z ∷ xs) h le atx aty = ground arith
Ascending-get zero (suc j) x y (z ∷ xs) h le atx aty = ground (arith, AtMost-get z y j xs h.0 aty)
Ascending-get (suc i) zero x y (z ∷ xs) h le atx aty = absurd (omega arith)
Ascending-get (suc i) (suc j) x y (z ∷ xs) h le atx aty =
    Ascending-get i j x y xs h.1 (omega arith) atx aty

table-IsSorted : IsSorted numbers 27 table 4
table-IsSorted i j x y le lt atx aty =
    not_less x y (Ascending-get i j x y table (omega arith) le atx aty)

sequential_search-Locates_test : Searches numbers 27 table 4 (sequential_search numbers 27 table 4)
sequential_search-Locates_test = sequential_search-Locates numbers 27 table 4 (omega arith)

binary_search-Within_example : Within numbers 27 table 31 (binary_search numbers 27 table 4)
binary_search-Within_example = binary_search-Within numbers 27 table 4 (omega arith) (omega arith)

binary_search-Locates_example : Locates numbers 27 table 4 (binary_search numbers 27 table 4)
binary_search-Locates_example =
    binary_search-Locates numbers 27 table numbers-Orders 4 table-IsSorted (omega arith)
      (omega arith)

finds_the_third : binary_search numbers 27 table 4 ≡ returns (pos 2) 2
unfolding binary_search binary_loop
finds_the_third = refl

binary_lines-Counts_test :
    Counts numbers 27 table 0
      (binary_lines numbers 27 table 5 0 (sub_ℕ 4 1) 0)
      (binary_search numbers 27 table 4)
binary_lines-Counts_test = binary_lines-Counts numbers 27 table 4

-- The output of `main`, with "%g" for tenths below 10.
main_prints :
    search_main numbers (λ n. n) (λ n. print_nat (n / 10) ++ (b'.' ∷ print_nat (n % 10)))
    ≡ range_line 5 (pos 9)
      ∷ range_line 8 (pos 9)
      ∷ range_line 9 (pos 9)
      ∷ codes "arr[9] = 9.1\n"
      ∷ []
unfolding search_main search_and_print binary_lines answer index_line binary_search binary_loop
    print_nat print_int range_line
main_prints = refl

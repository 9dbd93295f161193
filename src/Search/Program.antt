-- ===== src/Search/Program.antt =====
-- stage0/modern_c/control/binary_search.c: what the searches print, and `main`.
use stage.Base.{
  ℕ, zero, suc, ◌+◌, ◌/◌, ◌≡◌, refl, ltb, leb, Bool, true, false, if◌then◌else◌, Option, none, some,
  List, [], ◌∷◌, ◌++◌, map, length, get_elem?, arith,
}
use stage.Base.Int.{ℤ, pos, negsuc, sub_ℕ, eq_ℤ}
use stage.Base.Text.{Bytes, codes, print_int, print_nat}
use stage.Search.{
  Comparisons, Run, returns, out_of_bounds, overflows, out_of_fuel, int_end, binary_loop,
  binary_search,
}

-- printf("interations done: %d\n", iteratrions)
unfoldable pub done_line : ℕ → Bytes
done_line done = codes "interations done: " ++ (print_nat done ++ (10 ∷ []))

-- printf("low:%d high:%d\n", low, high)
unfoldable pub range_line : ℕ → ℤ → Bytes
range_line low high =
    codes "low:" ++ (print_nat low ++ (codes " high:" ++ (print_int high ++ (10 ∷ []))))

-- What `sequential_search` prints.
unfoldable pub sequential_lines : Run → List Bytes
sequential_lines (returns index done) = done_line done ∷ []
sequential_lines _ = []

module _ {A : Type 0} (c : Comparisons A) (val : A) (array : List A) where
  -- What the loop of `binary_search` prints, and what is printed behind it.
  unfoldable pub binary_lines : ℕ → ℕ → ℤ → ℕ → List Bytes
  binary_lines zero low high done = []
  binary_lines (suc fuel) low (negsuc h) done = done_line done ∷ []
  binary_lines (suc fuel) low (pos high) done =
      let mid = (low + high) / 2 in
      let upper =
        range_line (mid + 1) (pos high) ∷ binary_lines fuel (mid + 1) (pos high) (done + 1) in
      let lower = range_line low (sub_ℕ mid 1) ∷ binary_lines fuel low (sub_ℕ mid 1) (done + 1) in
      let probe =
        (λ (guess : A). if c.eqb guess val then [] else if c.gtb guess val then lower else upper) in
      if ltb high low
      then done_line done ∷ []
      else if leb int_end (low + high)
      then []
      else elim (get_elem? array mid) [ none ↦ [] | some guess ↦ probe guess ]

  -- A search that is left at a hit has printed a line for each iteration but the last; one that
  -- ends without a hit has printed one for each iteration and then the number of iterations.
  abbrev pub Counts : ℕ → List Bytes → Run → Type 0
  Counts done lines (returns (pos i) n) = length lines + done + 1 ≡ n
  Counts done lines (returns (negsuc i) n) =
      (length lines + done ≡ n + 1) × ((front : List Bytes) × (lines ≡ front ++ (done_line n ∷ [])))
  Counts done lines out_of_bounds = Unit {0}
  Counts done lines overflows = Unit {0}
  Counts done lines out_of_fuel = Unit {0}

  Counts-cons :
      (done : ℕ) (line : Bytes) (lines : List Bytes) (r : Run)
      → Counts (done + 1) lines r
      → Counts done (line ∷ lines) r
  Counts-cons done line lines (returns (pos i) n) h = omega arith
  Counts-cons done line lines (returns (negsuc i) n) (h, (front, e)) =
      (omega arith, (line ∷ front, rw e))
  Counts-cons done line lines out_of_bounds h = tt
  Counts-cons done line lines overflows h = tt
  Counts-cons done line lines out_of_fuel h = tt

  -- The two results of one test.
  alike :
      (P : List Bytes → Run → Type 0) (b : Bool) {xs ys : List Bytes} {r q : Run}
      → P xs r
      → P ys q
      → P (if b then xs else ys) (if b then r else q)
  alike P true p q = p
  alike P false p q = q

  alike_at :
      (P : List Bytes → Run → Type 0) (o : Option A) {f : A → List Bytes} {g : A → Run}
      → P [] out_of_bounds
      → ((x : A) → P (f x) (g x))
      → P (elim o [ none ↦ [] | some x ↦ f x ]) (elim o [ none ↦ out_of_bounds | some x ↦ g x ])
  alike_at P none p q = p
  alike_at P (some x) p q = q x

  binary_lines-Counts_from :
      (fuel low : ℕ) (high : ℤ) (done : ℕ)
      → Counts done (binary_lines fuel low high done) (binary_loop c val array fuel low high done)
  unfolding binary_lines binary_loop
  binary_lines-Counts_from zero low high done = tt
  binary_lines-Counts_from (suc fuel) low (negsuc h) done = (omega arith, ([], refl))
  binary_lines-Counts_from (suc fuel) low (pos high) done =
      let mid = (low + high) / 2 in
      alike (Counts done) (ltb high low) (omega arith, ([], refl))
        (alike (Counts done) (leb int_end (low + high)) tt (
          alike_at (Counts done) (get_elem? array mid) tt (λ x.
            alike (Counts done) (c.eqb x val) (omega arith) (
              alike (Counts done) (c.gtb x val)
                (Counts-cons done (range_line low (sub_ℕ mid 1)) _ _
                  (binary_lines-Counts_from fuel low (sub_ℕ mid 1) (done + 1)))
                (Counts-cons done (range_line (mid + 1) (pos high)) _ _
                  (binary_lines-Counts_from fuel (mid + 1) (pos high) (done + 1)))))))

  -- `main` behind the call: what it prints for an index; "%g" is a parameter.
  unfoldable pub index_line : (A → Bytes) → ℤ → Bytes
  index_line print_double index =
      if eq_ℤ index (negsuc 0)
      then print_double val ++ codes " not found\n"
      else codes "arr[" ++ (print_int index ++ (codes "] = " ++ (print_double val ++ (10 ∷ []))))

  unfoldable pub answer : (A → Bytes) → Run → List Bytes
  unfolding index_line
  answer print_double (returns index done) = index_line print_double index ∷ []
  answer print_double _ = []

  -- All that the program prints for its array and value.
  unfoldable pub search_and_print : (A → Bytes) → ℕ → List Bytes
  unfolding binary_lines answer
  search_and_print print_double size =
      binary_lines (suc size) 0 (sub_ℕ size 1) 0
      ++ answer print_double (binary_search c val array size)

-- The `double`s of `main` in tenths.
abbrev pub arr : List ℕ
arr = 5 ∷ 12 ∷ 27 ∷ 34 ∷ 44 ∷ 56 ∷ 62 ∷ 78 ∷ 88 ∷ 91 ∷ []

-- `main`, where `tenths n` is the `double` that n / 10 is written as.
unfoldable pub search_main : {A : Type 0} → Comparisons A → (ℕ → A) → (A → Bytes) → List Bytes
search_main c tenths print_double =
    search_and_print c (tenths 91) (map tenths arr) print_double (length arr)

module _ {A : Type 0} (c : Comparisons A) (val : A) (array : List A) where
  -- Where `binary_search` finds the value it prints the bounds after each iteration but the last,
  -- and no number of iterations; where it does not, the bounds after each and then their number.
  pub binary_lines-Counts :
      (size : ℕ)
      → Counts c val array 0
          (binary_lines c val array (suc size) 0 (sub_ℕ size 1) 0)
          (binary_search c val array size)
  unfolding binary_search
  binary_lines-Counts size = binary_lines-Counts_from c val array (suc size) 0 (sub_ℕ size 1) 0

-- ===== src/Search/Binary.antt =====
-- `binary_search` of stage0/modern_c/control/binary_search.c.
use native.Mathlib.Nat.{pow-suc}
use stage.Base.{
  ℕ, zero, suc, ◌+◌, ◌-◌, ◌*◌, ◌/◌, ◌^◌, ◌≤◌, ◌<◌, ◌≡◌, refl, inl, inr, Bool-cases, true, false,
  ltb, leb, List, some, get_elem?, get_elem?-total, length, arith,
}
use stage.Base.Int.{pos, negsuc, sub_ℕ}
use stage.Search.{
  Comparisons, Run, returns, out_of_bounds, overflows, out_of_fuel, int_end, binary_loop,
  binary_search,
}
use stage.Search.Sequential.{Absent, Locates}

-- What the tests of `double` satisfy where no number is a NaN.
pub record Orders {A : Type 0} (c : Comparisons A) : Type 0 where
  pub gt_ne : (x v : A) → c.gtb x v ≡ true → c.eqb x v ≡ false
  pub gt_up : (x y v : A) → c.gtb x v ≡ true → c.gtb x y ≡ false → c.gtb y v ≡ true
  pub lt_down :
      (x y v : A) → c.gtb x v ≡ false → c.eqb x v ≡ false → c.gtb y x ≡ false → c.eqb y v ≡ false

module _ {A : Type 0} (c : Comparisons A) (val : A) (array : List A) where
  module _ (fuel low high done : ℕ) (le : low ≤ high) (small : low + high < int_end) (x : A)
      (at : get_elem? array ((low + high) / 2) ≡ some x) where
    abbrev mid : ℕ
    mid = (low + high) / 2

    in_range : ltb high low ≡ false
    in_range = ground arith

    no_overflow : leb int_end (low + high) ≡ false
    no_overflow = ground arith

    binary_hit :
        c.eqb x val ≡ true
        → binary_loop c val array (suc fuel) low (pos high) done ≡ returns (pos mid) (done + 1)
    unfolding binary_loop
    binary_hit hit = rw (binary_loop, in_range, no_overflow, at, hit)

    binary_lower :
        c.eqb x val ≡ false
        → c.gtb x val ≡ true
        → binary_loop c val array (suc fuel) low (pos high) done
          ≡ binary_loop c val array fuel low (sub_ℕ mid 1) (done + 1)
    unfolding binary_loop
    binary_lower miss above = rw (binary_loop, in_range, no_overflow, at, miss, above)

    binary_upper :
        c.eqb x val ≡ false
        → c.gtb x val ≡ false
        → binary_loop c val array (suc fuel) low (pos high) done
          ≡ binary_loop c val array fuel (mid + 1) (pos high) (done + 1)
    unfolding binary_loop
    binary_upper miss below = rw (binary_loop, in_range, no_overflow, at, miss, below)

  binary_loop-empty :
      (fuel low high done : ℕ)
      → high < low
      → binary_loop c val array (suc fuel) low (pos high) done ≡ returns (negsuc 0) done
  unfolding binary_loop
  binary_loop-empty fuel low high done h =
      let test : ltb high low ≡ true = ground arith in rw (binary_loop, test)

  sub-suc_one : (h : ℕ) → sub_ℕ (suc h) 1 ≡ pos h
  sub-suc_one h = ground arith

  -- One iteration, for a statement about the result.
  binary_loop-step :
      (P : Run → Type 0) (fuel low high done : ℕ)
      → low ≤ high
      → low + high < int_end
      → suc high ≤ length array
      → ((x : A)
          → get_elem? array ((low + high) / 2) ≡ some x
          → c.eqb x val ≡ true
          → P (returns (pos ((low + high) / 2)) (done + 1)))
      → ((x : A)
          → get_elem? array ((low + high) / 2) ≡ some x
          → c.eqb x val ≡ false
          → c.gtb x val ≡ true
          → P (binary_loop c val array fuel low (sub_ℕ ((low + high) / 2) 1) (done + 1)))
      → ((x : A)
          → get_elem? array ((low + high) / 2) ≡ some x
          → c.eqb x val ≡ false
          → c.gtb x val ≡ false
          → P (binary_loop c val array fuel ((low + high) / 2 + 1) (sub_ℕ (suc high) 1) (done + 1)))
      → P (binary_loop c val array (suc fuel) low (pos high) done)
  binary_loop-step P fuel low high done le small fits hit lower upper =
      let (x, at) = get_elem?-total array ((low + high) / 2) (omega arith) in
      elim (Bool-cases (c.eqb x val)) [
        | inl e ↦ rw (binary_hit fuel low high done le small x at e) (hit x at e)
        | inr ne ↦ elim (Bool-cases (c.gtb x val)) [
          | inl g ↦ rw (binary_lower fuel low high done le small x at ne g) (lower x at ne g)
          | inr l ↦
              rw (binary_upper fuel low high done le small x at ne l)
                (rw (sub-suc_one high) at (upper x at ne l))
        ]
      ]

  -- The array does not fall: no element is greater than one behind it.
  abbrev pub IsSorted : ℕ → Type 0
  IsSorted size =
      (i j : ℕ) (x y : A)
      → i ≤ j
      → j < size
      → get_elem? array i ≡ some x
      → get_elem? array j ≡ some y
      → c.gtb x y ≡ false

  -- The run returns, after at most `n` iterations.
  abbrev pub Within : ℕ → Run → Type 0
  Within n (returns v done) = done ≤ n
  Within n out_of_bounds = ⊥
  Within n overflows = ⊥
  Within n out_of_fuel = ⊥

  -- `top` is `high + 1`; each iteration halves the range, or ends the loop.
  binary_loop-Within :
      (k fuel low top done n : ℕ)
      → top - low < 2 ^ k
      → top - low < fuel
      → top ≤ length array
      → top ≤ 2 ^ 30
      → done + k ≤ n
      → Within n (binary_loop c val array fuel low (sub_ℕ top 1) done)
  binary_loop-Within k zero low top done n h f fits small q = absurd (omega arith)
  binary_loop-Within k (suc fuel) low zero done n h f fits small q =
      unfold binary_loop in (omega arith)
  binary_loop-Within zero (suc fuel) low (suc high) done n h f fits small q =
      rw (sub-suc_one high, binary_loop-empty fuel low high done (omega arith)) (omega arith)
  binary_loop-Within (suc k) (suc fuel) low (suc high) done n h f fits small q =
      rw (sub-suc_one high) (elim (Bool-cases (ltb high low)) [
        | inl empty ↦ rw (binary_loop-empty fuel low high done (ground arith)) (omega arith)
        | inr some_left ↦
            let le : low ≤ high = ground arith in
            let range : suc high - low < 2 ^ k * 2 = rw (pow-suc 2 k) at h in
            binary_loop-step (Within n) fuel low high done le (omega arith) fits
              (λ x at e. omega arith)
              (λ x at ne g.
                binary_loop-Within k fuel low ((low + high) / 2) (done + 1) n (omega arith)
                  (omega arith) (omega arith) (omega arith) (omega arith))
              (λ x at ne l.
                binary_loop-Within k fuel ((low + high) / 2 + 1) (suc high) (done + 1) n
                  (omega arith) (omega arith) fits small (omega arith))
      ])

  -- On any array, sorted or not, `binary_search` of the first `size` elements stays inside the
  -- array, computes no `int` out of range and returns after at most 31 iterations, as long as
  -- `size` is at most 2 ^ 30.
  pub binary_search-Within :
      (size : ℕ) → size ≤ length array → size ≤ 2 ^ 30 → Within 31 (binary_search c val array size)
  unfolding binary_search
  binary_search-Within size fits small =
      binary_loop-Within 31 (suc size) 0 size 0 31 (omega arith) (omega arith) fits small
        (omega arith)

  module _ (orders : Orders c) (size : ℕ) (sorted : IsSorted size) where
    Absent-above :
        (m : ℕ) (x : A)
        → m < size
        → get_elem? array m ≡ some x
        → c.gtb x val ≡ true
        → Absent c val array m size
    Absent-above m x hm at g j y lo hi atj =
        orders.gt_ne y val (orders.gt_up x y val g (sorted m j x y lo hi at atj))

    Absent-below :
        (m : ℕ) (x : A)
        → m < size
        → get_elem? array m ≡ some x
        → c.eqb x val ≡ false
        → c.gtb x val ≡ false
        → Absent c val array 0 (m + 1)
    Absent-below m x hm at ne l j y lo hi atj =
        orders.lt_down x y val l ne (sorted j m y x (omega arith) hm atj at)

    -- `top` is `high + 1`; the value is absent below `low` and from `top` on.
    binary_loop-Locates :
        (fuel low top done : ℕ)
        → top - low < fuel
        → top ≤ size
        → size ≤ length array
        → size ≤ 2 ^ 30
        → Absent c val array 0 low
        → Absent c val array top size
        → Locates c val array size (binary_loop c val array fuel low (sub_ℕ top 1) done)
    binary_loop-Locates zero low top done f t fits small b a = absurd (omega arith)
    binary_loop-Locates (suc fuel) low zero done f t fits small b a =
        unfold binary_loop in (refl, a)
    binary_loop-Locates (suc fuel) low (suc high) done f t fits small b a =
        rw (sub-suc_one high) (elim (Bool-cases (ltb high low)) [
          | inl empty ↦ rw (binary_loop-empty fuel low high done (ground arith)) (
            refl,
            λ i x lo hi at. elim (Bool-cases (ltb i low)) [
              | inl left ↦ b i x lo (ground arith) at
              | inr right ↦ a i x (ground arith) hi at
            ],
          )
          | inr some_left ↦
              let le : low ≤ high = ground arith in
              let m = (low + high) / 2 in
              binary_loop-step (Locates c val array size) fuel low high done le (omega arith)
                (omega arith) (λ x at e. (omega arith, (x, at, e)))
                (λ x at ne g.
                  binary_loop-Locates fuel low m (done + 1) (omega arith) (omega arith) fits small b
                    (Absent-above m x (omega arith) at g))
                (λ x at ne l.
                  binary_loop-Locates fuel (m + 1) (suc high) (done + 1) (omega arith) t fits small
                    (Absent-below m x (omega arith) at ne l) a)
        ])

    -- On an array whose first `size` elements are in order, and where no number is a NaN,
    -- `binary_search` returns the index of an element below `size` that equals `val`, or -1 where
    -- none does, as long as `size` is at most 2 ^ 30.
    pub binary_search-Locates :
        size ≤ length array
        → size ≤ 2 ^ 30
        → Locates c val array size (binary_search c val array size)
    unfolding binary_search
    binary_search-Locates fits small =
        binary_loop-Locates (suc size) 0 size 0 (omega arith) (omega arith) fits small
          (λ i x lo hi at. elim hi [ ]) (λ i x lo hi at. absurd (omega arith))

-- ===== src/Search/Sequential.antt =====
-- `sequential_search` of stage0/modern_c/control/binary_search.c.
use stage.Base.{
  ℕ, zero, suc, ◌+◌, ◌≤◌, ◌<◌, ◌≡◌, refl, ◌==◌, inl, inr, Bool-cases, true, false, List, some,
  get_elem?, get_elem?-total, length, arith,
}
use stage.Base.Int.{pos, negsuc}
use stage.Search.{
  Comparisons, Run, returns, out_of_bounds, overflows, out_of_fuel, sequential_from,
  sequential_search,
}

module _ {A : Type 0} (c : Comparisons A) (val : A) (array : List A) where
  -- None of the elements from `lo` to below `hi` equals `val`.
  abbrev pub Absent : ℕ → ℕ → Type 0
  Absent lo hi =
      (i : ℕ) (x : A) → lo ≤ i → i < hi → get_elem? array i ≡ some x → c.eqb x val ≡ false

  -- The run returns the index of an element below `size` that equals `val`, or -1 where none does.
  abbrev pub Locates : ℕ → Run → Type 0
  Locates size (returns (pos p) done) =
      (p < size) × ((x : A) × (get_elem? array p ≡ some x) × (c.eqb x val ≡ true))
  Locates size (returns (negsuc m) done) = (m ≡ 0) × Absent 0 size
  Locates size out_of_bounds = ⊥
  Locates size overflows = ⊥
  Locates size out_of_fuel = ⊥

  -- The index that a run returns is the first of its kind, and the run took that many rounds and
  -- one; where there is none it took `size` rounds.
  abbrev pub IsFirst : ℕ → Run → Type 0
  IsFirst size (returns (pos p) done) = Absent 0 p × (done ≡ p + 1)
  IsFirst size (returns (negsuc m) done) = done ≡ size
  IsFirst size out_of_bounds = ⊥
  IsFirst size overflows = ⊥
  IsFirst size out_of_fuel = ⊥

  Absent-suc :
      (i : ℕ) {x : A}
      → Absent 0 i
      → get_elem? array i ≡ some x
      → c.eqb x val ≡ false
      → Absent 0 (suc i)
  Absent-suc i {x} h e ne j y lo hi at = elim (Bool-cases (j == i)) [
    | inl same ↦ ground (arith, h j y)
    | inr other ↦ h j y lo (ground arith) at
  ]

  module _ (n i done : ℕ) (x : A) (at : get_elem? array i ≡ some x) where
    sequential_hit :
        c.eqb x val ≡ true → sequential_from c val array (suc n) i done ≡ returns (pos i) (done + 1)
    unfolding sequential_from
    sequential_hit hit = rw (sequential_from, at, hit)

    sequential_miss :
        c.eqb x val ≡ false
        → sequential_from c val array (suc n) i done
          ≡ sequential_from c val array n (i + 1) (done + 1)
    unfolding sequential_from
    sequential_miss miss = rw (sequential_from, at, miss)

  -- What both statements below say of a loop that has passed `i` elements.
  abbrev pub Searches : ℕ → Run → Type 0
  Searches size r = Locates size r × IsFirst size r

  sequential_from-Locates :
      (n i size : ℕ)
      → i + n ≡ size
      → size ≤ length array
      → Absent 0 i
      → Searches size (sequential_from c val array n i i)
  sequential_from-Locates zero i size e fits h =
      let same : i ≡ size = omega arith in unfold sequential_from in ((refl, rw same at h), same)
  sequential_from-Locates (suc n) i size e fits h =
      let (x, at) = get_elem?-total array i (omega arith) in
      elim (Bool-cases (c.eqb x val)) [
        | inl hit ↦ rw (sequential_hit n i i x at hit) ((omega arith, (x, at, hit)), (h, refl))
        | inr miss ↦
            let next : i + 1 ≡ suc i = omega arith in
            rw (sequential_miss n i i x at miss, next)
              (sequential_from-Locates n (suc i) size (omega arith) fits (Absent-suc i h at miss))
      ]

  -- `sequential_search` of the first `size` elements never reads outside the array. It returns
  -- the first index whose element equals `val`, or -1 if there is none, whatever the order.
  pub sequential_search-Locates :
      (size : ℕ) → size ≤ length array → Searches size (sequential_search c val array size)
  unfolding sequential_search
  sequential_search-Locates size fits =
      sequential_from-Locates size 0 size (omega arith) fits (λ i x lo hi at. elim hi [ ])

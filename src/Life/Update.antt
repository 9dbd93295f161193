-- ===== src/Life/Update.antt =====
-- `update` of stage0/life/main.c against the rules on the padded grid.
use native.Mathlib.Nat.{add-zero}
use stage.Base.{
  ◌>>=◌, sym, ◌∙◌, ℕ, zero, suc, ◌+◌, ◌*◌, ◌/◌, ◌%◌, ◌<◌, ◌≡◌, refl, Option, some, arith, length,
  length-set, get_or, get_or-set, get_elem?-eq-get_or, sum, sum_below, sum_below-suc,
  sum_below-zero, sum_below-set, sum_below-length, set,
}
use stage.Life.{Board, size, next_value, Progress, update_cell, update_cols, update_rows, update}
use stage.Life.Rule.{around, rule, next_cell}
use stage.Life.Neighbors.{count_neighbors-around}

next_value-rule : (cell count : ℕ) → next_value cell count ≡ rule cell count
unfolding next_value rule
next_value-rule zero n = refl
next_value-rule (suc v) n = ground arith

-- The first `k` cells of the new board are computed, and `living_cells` is their sum.
record Upto (b : Board) (k : ℕ) (p : Progress) : Type 0 where
  full : length p.0 ≡ size
  cells : (i : ℕ) → i < k → get_or p.0 i 0 ≡ next_cell b (i / 180) (i % 180)
  living : p.1 ≡ sum_below p.0 k

-- The run ends without a fault, in a state that satisfies `Upto`.
abbrev Reaches : Board → ℕ → Option Progress → Type 0
Reaches b k m = (p : Progress) × (m ≡ some p) × Upto b k p

module _ (b : Board) (full : length b ≡ size) where
  module _ (r c : ℕ) (hr : r < 45) (hc : c < 180) where
    -- The value that `update` stores is the cell of the next generation.
    value-next_cell :
        next_value (get_or b (r * 180 + c) 0) (around b r c)
        ≡ next_cell b ((r * 180 + c) / 180) ((r * 180 + c) % 180)
    unfolding next_cell
    value-next_cell =
        let row : (r * 180 + c) / 180 ≡ r = omega arith in
        let col : (r * 180 + c) % 180 ≡ c = omega arith in
        rw (row, col) (ground (arith, next_value-rule (get_or b (r * 180 + c) 0) (around b r c)))

    update_cell-Upto :
        (p : Progress)
        → Upto b (r * 180 + c) p
        → Reaches b (suc (r * 180 + c)) (update_cell b r c p)
    unfolding update_cell
    update_cell-Upto (next, n) u =
        let k = r * 180 + c in
        let v = next_value (get_or b k 0) (around b r c) in
        (
          (set next k v, n + v),
          rw (
            count_neighbors-around b full r c hr hc,
            get_elem?-eq-get_or b k 0 (omega arith),
            get_elem?-eq-get_or next k 0 (omega arith),
          ),
          record {
            full = omega (arith, length-set next k v);
            cells = λ i h. ground (arith, get_or-set next k i v 0, value-next_cell, u.cells i);
            living = ground (
              arith,
              sum_below-suc (set next k v) k,
              sum_below-set next k k v,
              get_or-set next k k v 0,
            );
          },
        )

-- Two steps, one after the other.
Reaches-bind :
    {b : Board} {k j : ℕ} {m : Option Progress} {f : Progress → Option Progress}
    → Reaches b k m
    → ((p : Progress) → Upto b k p → Reaches b j (f p))
    → Reaches b j (m >>= f)
Reaches-bind (p, e, u) next = rw e (next p u)

module _ (b : Board) (full : length b ≡ size) where
  update_cols-Upto :
      (n r c k : ℕ) (p : Progress)
      → r < 45
      → c + n ≡ 180
      → k ≡ r * 180 + c
      → Upto b k p
      → Reaches b (k + n) (update_cols b n r c p)
  unfolding update_cols
  update_cols-Upto zero r c k p hr hc e u = (p, refl, rw add-zero u)
  update_cols-Upto (suc n) r c k p hr hc e u =
      let end : k + suc n ≡ suc k + n = omega arith in
      let one : Reaches b (suc k) (update_cell b r c p) =
        rw e (update_cell-Upto b full r c hr (omega arith) p (rw e at u)) in
      rw end (
        Reaches-bind one
          λ q v. update_cols-Upto n r (c + 1) (suc k) q hr (omega arith) (omega arith) v)

  update_rows-Upto :
      (n r k : ℕ) (p : Progress)
      → r + n ≡ 45
      → k ≡ r * 180
      → Upto b k p
      → Reaches b size (update_rows b n r p)
  unfolding update_rows
  update_rows-Upto zero r k p hr e u = let end : k ≡ size = omega arith in (p, refl, rw end at u)
  update_rows-Upto (suc n) r k p hr e u =
      Reaches-bind (update_cols-Upto 180 r 0 k p (omega arith) refl (omega arith) u)
        λ q v. update_rows-Upto n (r + 1) (k + 180) q (omega arith) (omega arith) v

  -- What the loops reach, read off at each cell of the board.
  Reaches-cells :
      {m : Option Progress}
      → Reaches b size m
      → (next : Board) × (living : ℕ) × (m ≡ some (next, living))
        × (length next ≡ size)
        × ((r c : ℕ) → r < 45 → c < 180 → get_or next (r * 180 + c) 0 ≡ next_cell b r c)
        × (living ≡ sum next)
  Reaches-cells ((next, living), e, u) = (
    next,
    living,
    e,
    u.full,
    λ r c hr hc.
        let row : (r * 180 + c) / 180 ≡ r = omega arith in
        let col : (r * 180 + c) % 180 ≡ c = omega arith in
        rw (row, col) at (u.cells (r * 180 + c) (omega arith)),
    u.living ∙ (rw (← u.full) (sum_below-length next)),
  )

  -- On a board of `SIZE` cells `update` never leaves its arrays; every cell of the new board
  -- is the one that the rules of the game give, and `living_cells` is the sum of the new board.
  pub update-next_cell :
      (next : Board) × (living : ℕ) × (update b ≡ some (next, living))
      × (length next ≡ size)
      × ((r c : ℕ) → r < 45 → c < 180 → get_or next (r * 180 + c) 0 ≡ next_cell b r c)
      × (living ≡ sum next)
  unfolding update
  update-next_cell = Reaches-cells (
      update_rows-Upto 45 0 0 (b, 0) refl refl
        (record { full = full; cells = λ i h. elim h [ ]; living = sym (sum_below-zero b) }))

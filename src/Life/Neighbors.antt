-- ===== src/Life/Neighbors.antt =====
-- `count_neighbors` of stage0/life/main.c against the eight cells of the padded grid.
use stage.Base.{
  ap, ℕ, zero, suc, ◌+◌, ◌*◌, ◌<◌, ◌≡◌, ◌≢◌, ◌==◌, ◌&&◌, if◌then◌else◌, some, arith, length,
  get_elem?-eq-get_or,
}
use stage.Base.Int.{pos, sub_ℕ, ◌+ℤ◌, ◌-ℤ◌, ◌*ℤ◌}
use stage.Life.{Board, board_cols, size, visit, visit_cols, visit_rows, count_neighbors}
use stage.Life.Rule.{padded, around}

module _ (b : Board) (full : length b ≡ size) (r c : ℕ) (hr : r < 45) (hc : c < 180) where
  -- What one visit adds: nothing at the cell itself, else the cell of the padded grid.
  share : ℕ → ℕ → ℕ
  share i j = if i == suc r && j == suc c then 0 else padded b i j

  visit-share :
      (i j n : ℕ) → visit b (pos (r * 180 + c)) (sub_ℕ i 1) (sub_ℕ j 1) n ≡ some (n + share i j)
  unfolding visit share ◌+ℤ◌ ◌*ℤ◌
  visit-share zero zero n = ground arith
  visit-share zero (suc j) n = ground arith
  visit-share (suc i) zero n = ground arith
  visit-share (suc i) (suc j) n = ground (arith, get_elem?-eq-get_or b (i * 180 + j) 0)

  sub-suc : (i : ℕ) → sub_ℕ i 1 +ℤ pos 1 ≡ sub_ℕ (suc i) 1
  unfolding ◌+ℤ◌
  sub-suc i = ground arith

  visit_cols-share :
      (i j n : ℕ)
      → visit_cols b (pos (r * 180 + c)) 3 (sub_ℕ i 1) (sub_ℕ j 1) n
        ≡ some (n + share i j + share i (suc j) + share i (suc (suc j)))
  unfolding visit_cols
  visit_cols-share i j n = rw (
    visit-share i j n,
    sub-suc j,
    visit-share i (suc j) _,
    sub-suc (suc j),
    visit-share i (suc (suc j)) _,
  )

  share_self : share (suc r) (suc c) ≡ 0
  unfolding share
  share_self = ground arith

  share_row : (i j : ℕ) → i ≢ suc r → share i j ≡ padded b i j
  unfolding share
  share_row i j h = ground arith

  share_col : (i j : ℕ) → j ≢ suc c → share i j ≡ padded b i j
  unfolding share
  share_col i j h = ground arith

  pos-sub : (i : ℕ) → pos i -ℤ pos 1 ≡ sub_ℕ i 1
  unfolding ◌-ℤ◌
  pos-sub i = ground arith

  idx0_lem : pos r *ℤ pos board_cols +ℤ pos c ≡ pos (r * 180 + c)
  unfolding ◌+ℤ◌ ◌*ℤ◌
  idx0_lem = ground arith

  visit_rows-share :
      visit_rows b (pos (r * 180 + c)) (pos c) 3 (sub_ℕ r 1) 0
      ≡ some (
          share r c
          + share r (suc c)
          + share r (suc (suc c))
          + share (suc r) c
          + share (suc r) (suc c)
          + share (suc r) (suc (suc c))
          + share (suc (suc r)) c
          + share (suc (suc r)) (suc c)
          + share (suc (suc r)) (suc (suc c)))
  unfolding visit_rows
  visit_rows-share =
      rw
        (
          pos-sub c,
          visit_cols-share r c 0,
          sub-suc r,
          visit_cols-share (suc r) c _,
          sub-suc (suc r),
          visit_cols-share (suc (suc r)) c _,
        )
        (ap some (omega arith))

  -- For a cell of the board `count_neighbors` reads inside the board only and returns the sum of
  -- the eight cells around it, those off the board counting as dead.
  pub count_neighbors-around : count_neighbors b (pos r) (pos c) ≡ some (around b r c)
  unfolding count_neighbors around
  count_neighbors-around =
      rw
        (
          idx0_lem,
          pos-sub r,
          visit_rows-share,
          share_self,
          share_row r _ (omega arith),
          share_row r _ (omega arith),
          share_row r _ (omega arith),
          share_row (suc (suc r)) _ (omega arith),
          share_row (suc (suc r)) _ (omega arith),
          share_row (suc (suc r)) _ (omega arith),
          share_col _ c (omega arith),
          share_col _ (suc (suc c)) (omega arith),
        )
        (ap some (omega arith))

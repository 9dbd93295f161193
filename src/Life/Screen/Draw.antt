-- ===== src/Life/Screen/Draw.antt =====
-- `init_board` and `draw_board` of stage0/life/main.c fill their arrays cell by cell.
use stage.Base.{
  ℕ, zero, suc, ◌+◌, ◌<◌, ◌≡◌, refl, Option, some, List, arith, length, length-set, get_or, set,
  get_or-set, get_elem?-eq-get_or,
}
use stage.Life.{Board, size, init_from, init_board}
use stage.Life.Screen.{Buffer, glyph, draw_from, draw_board}

-- An array of `SIZE` cells of which the first `k` hold the values of `f`.
pub record Filled (f : ℕ → ℕ) (k : ℕ) (xs : List ℕ) : Type 0 where
  pub full : length xs ≡ size
  pub cells : (i : ℕ) → i < k → get_or xs i 0 ≡ f i

-- The run ends without a fault in such an array.
abbrev pub Fills : (ℕ → ℕ) → ℕ → Option (List ℕ) → Type 0
Fills f k m = (xs : List ℕ) × (m ≡ some xs) × Filled f k xs

module _ (f : ℕ → ℕ) where
  set-Filled :
      (k v : ℕ) (xs : List ℕ) → k < size → v ≡ f k → Filled f k xs → Filled f (suc k) (set xs k v)
  set-Filled k v xs h e p = record {
    full = omega (arith, length-set xs k v, p.full);
    cells = λ i q. ground (arith, get_or-set xs k i v 0, p.cells i, p.full);
  }

init_from-Filled :
    (n i : ℕ) (b : Board)
    → i + n ≡ size
    → Filled (λ _. 0) i b
    → Fills (λ _. 0) size (init_from n i b)
unfolding init_from
init_from-Filled zero i b h p = let e : i ≡ size = omega arith in (b, refl, rw e at p)
init_from-Filled (suc n) i b h p =
    let next : i + 1 ≡ suc i = omega arith in
    rw (get_elem?-eq-get_or b i 0 (omega (arith, p.full)), next)
      (init_from-Filled n (suc i) (set b i 0) (omega arith)
        (set-Filled _ i 0 b (omega arith) refl p))

-- `init_board` clears every cell of a board of `SIZE` cells.
pub init_board-Filled : (b : Board) → length b ≡ size → Fills (λ _. 0) size (init_board b)
unfolding init_board
init_board-Filled b full =
    init_from-Filled size 0 b refl (record { full = full; cells = λ i h. elim h [ ] })

module _ (board : Board) (whole : length board ≡ size) where
  draw_from-Filled :
      (n i : ℕ) (back : Buffer)
      → i + n ≡ size
      → Filled (λ k. glyph (get_or board k 0)) i back
      → Fills (λ k. glyph (get_or board k 0)) size (draw_from n i board back)
  unfolding draw_from
  draw_from-Filled zero i b h p = let e : i ≡ size = omega arith in (b, refl, rw e at p)
  draw_from-Filled (suc n) i b h p =
      let next : i + 1 ≡ suc i = omega arith in
      let v = glyph (get_or board i 0) in
      rw
        (
          get_elem?-eq-get_or board i 0 (omega arith),
          get_elem?-eq-get_or b i 0 (omega (arith, p.full)),
          next,
        )
        (draw_from-Filled n (suc i) (set b i v) (omega arith)
          (set-Filled _ i v b (omega arith) refl p))

  -- `draw_board` gives every cell of the buffer the glyph of that cell, whatever it held.
  pub draw_board-Filled :
      (back : Buffer)
      → length back ≡ size
      → Fills (λ k. glyph (get_or board k 0)) size (draw_board board back)
  unfolding draw_board
  draw_board-Filled back full =
      draw_from-Filled size 0 back refl (record { full = full; cells = λ i h. elim h [ ] })

-- ===== src/Life/Screen/Paint.antt =====
-- What the commands of the loop in stage0/life/main.c leave on a terminal.
use stage.Base.{
  ℕ, zero, suc, ◌+◌, ◌-◌, ◌*◌, ◌/◌, ◌%◌, ◌<◌, ◌≤◌, ◌∙◌, false, ◌≡◌, refl, inl, inr, ◌==◌, ltb, ◌&&◌,
  if◌then◌else◌, Bool-cases, some, List, [], ◌∷◌, ◌++◌, arith, length, get_or, get_elem?-eq-get_or,
}
use stage.Life.{size}
use stage.Base.Text.{Bytes}
use stage.Life.Screen.{Buffer, Command, clear, plot, status, restore, diff_from, status_line}

-- The characters of a terminal by row and column, both from 1.
abbrev pub Terminal : Type 0
Terminal = ℕ → ℕ → ℕ

abbrev pub put : Terminal → ℕ → ℕ → ℕ → Terminal
put t row col ch r c = if row == r && col == c then ch else t r c

-- The cursor goes no further than the last row or column.
abbrev pub clamp : ℕ → ℕ → ℕ
clamp last n = if ltb last n then last else n

-- A terminal of `rows` rows and `cols` columns.
module _ (rows cols : ℕ) where
  -- The column behind a byte; a tab goes to the next of the columns 9, 17 and so on.
  abbrev pub next_col : ℕ → ℕ → ℕ
  next_col b col = clamp cols (if b == 9 then ((col - 1) / 8 + 1) * 8 + 1 else col + 1)

  -- What a byte changes; a tab changes nothing.
  abbrev pub type_byte : Terminal → ℕ → ℕ → ℕ → Terminal
  type_byte t row col b r c = if b == 9 then t r c else put t row col b r c

  -- A text from a column on; the last column takes what does not fit.
  unfoldable pub type_text : Terminal → ℕ → ℕ → Bytes → Terminal
  type_text t row col [] = t
  type_text t row col (b ∷ s) = type_text (type_byte t row col b) row (next_col b col) s

  unfoldable pub apply : Terminal → Command → Terminal
  unfolding type_text
  apply t clear = λ r c. b' '
  apply t (plot row col ch) = put t (clamp rows row) (clamp cols col) ch
  apply t (status generation living) =
      type_text t (clamp rows 999) 1 (status_line generation living)
  apply t restore = t

  unfoldable pub paint : Terminal → List Command → Terminal
  unfolding apply
  paint t [] = t
  paint t (c ∷ cs) = paint (apply t c) cs

  pub paint-append :
      (t : Terminal) (cs ds : List Command) → paint t (cs ++ ds) ≡ paint (paint t cs) ds
  unfolding paint
  paint-append t [] ds = refl
  paint-append t (c ∷ cs) ds = paint-append (apply t c) cs ds

  -- A text changes no other row.
  type_text-other :
      (t : Terminal) (row col r c : ℕ) (s : Bytes)
      → (row == r) ≡ false
      → type_text t row col s r c ≡ t r c
  unfolding type_text
  type_text-other t row col r c [] other = refl
  type_text-other t row col r c (b ∷ s) other =
      type_text-other (type_byte t row col b) row (next_col b col) r c s other
      ∙ elim (Bool-cases (b == 9)) [ inl tab ↦ rw tab refl | inr char ↦ rw (char, other) refl ]

-- The terminal holds the board and a line below it.
pub record IsLarge (rows cols : ℕ) : Type 0 where
  pub tall : 45 < rows
  pub wide : 180 ≤ cols

-- The character where cell `j` of the board stands.
abbrev pub at : Terminal → ℕ → ℕ
at t j = t (j / 180 + 1) (j % 180 + 1)

-- The status line stands below the board.
pub at-status :
    (rows cols : ℕ) (t : Terminal) (generation living j : ℕ)
    → IsLarge rows cols
    → j < size
    → at (apply rows cols t (status generation living)) j ≡ at t j
unfolding apply
at-status rows cols t generation living j large h =
    type_text-other rows cols t (clamp rows 999) 1 (j / 180 + 1) (j % 180 + 1)
      (status_line generation living) (ground (arith, large.tall))

at-put :
    (t : Terminal) (i j v : ℕ)
    → at (put t (i / 180 + 1) (i % 180 + 1) v) j ≡ (if i == j then v else at t j)
at-put t i j v = elim (Bool-cases (i == j)) [ inl same ↦ ground arith | inr other ↦ ground arith ]

module _ (rows cols : ℕ) (large : IsLarge rows cols) (front back : Buffer)
    (hf : length front ≡ size) (hb : length back ≡ size) where
  -- What the commands for the cells from `i` on make of cell `j`.
  abbrev pub changed : Terminal → ℕ → ℕ → ℕ
  changed t i j =
      if ltb j i
      then at t j
      else if get_or back j 0 == get_or front j 0
      then at t j
      else get_or back j 0

  -- The commands that turn a terminal into `changed`.
  abbrev pub Redraws : ℕ → List Command → Type 0
  Redraws i cs = (t : Terminal) (j : ℕ) → j < size → at (paint rows cols t cs) j ≡ changed t i j

  -- For two buffers of `SIZE` cells and a terminal that holds them, what is printed from cell `i` on changes a terminal at exactly
  -- the cells from `i` on where the buffers differ, and puts the character of the new one there.
  pub diff_from-Redraws :
      (n i : ℕ)
      → i + n ≡ size
      → (cs : List Command) × (diff_from n i front back ≡ some cs) × Redraws i cs
  unfolding diff_from paint
  diff_from-Redraws zero i h = ([], refl, λ t j hj. ground arith)
  diff_from-Redraws (suc n) i h =
      let next : i + 1 ≡ suc i = omega arith in
      let (cs, e, p) = diff_from-Redraws n (suc i) (omega arith) in
      let b = get_or back i 0 in
      let f = get_or front i 0 in
      let one = plot (i / 180 + 1) (i % 180 + 1) b in
      let fits : (clamp rows (i / 180 + 1) ≡ i / 180 + 1)
          × (clamp cols (i % 180 + 1) ≡ i % 180 + 1) =
        (ground (arith, large.tall), ground (arith, large.wide)) in
      (
        (if b == f then cs else one ∷ cs),
        rw (
          get_elem?-eq-get_or back i 0 (omega arith),
          get_elem?-eq-get_or front i 0 (omega arith),
          next,
          e,
        ),
        λ t j hj. elim (Bool-cases (b == f)) [
          | inl same ↦ rw same (ground (arith, p t j hj))
          | inr other ↦
              rw other
                (ground (arith, p (apply rows cols t one) j hj, at-put t i j b, fits.0, fits.1))
        ],
      )

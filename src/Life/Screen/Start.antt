-- ===== src/Life/Screen/Start.antt =====
-- The start of `main` in stage0/life/main.c, and the program from its start.
use stage.Base.{
  ℕ, ◌+◌, ◌*◌, ◌<◌, ◌≡◌, refl, ◌∙◌, inr, true, false, Bool, ◌==◌, ◌||◌, if◌then◌else◌, some, Option,
  List, [], ◌∷◌, ◌++◌, arith, length, get_or, set, get_or-set, length-set, memset, length-memset,
  get_or-memset, get_elem?-eq-get_or,
}
use stage.Life.{Board, size, set_cell, populate_board}
use stage.Life.Screen.{Buffer, clear, restore, Game, Round, start, session}
use stage.Life.Screen.Draw.{Filled, Fills, init_board-Filled}
use stage.Life.Screen.Paint.{Terminal, IsLarge, apply, paint, paint-append}
use stage.Life.Screen.Session.{IsValid, Shows, drawn}
use stage.Life.Screen.Play.{play-RunOf}

-- The five cells of the R-pentomino, as indices.
abbrev pub pentomino : ℕ → ℕ
pentomino i = if i == 3870 || i == 3871 || i == 4049 || i == 4050 || i == 4230 then 1 else 0

set_cell-Filled :
    (f g : ℕ → ℕ) (row col : ℕ) (b : Board)
    → row * 180 + col < size
    → ((i : ℕ) → g i ≡ (if row * 180 + col == i then 1 else f i))
    → Filled f size b
    → Fills g size (set_cell b row col)
unfolding set_cell
set_cell-Filled f g row col b h e p =
    let k = row * 180 + col in
    (
      set b k 1,
      rw (get_elem?-eq-get_or b k 0 (omega (arith, p.full))),
      record {
        full = omega (arith, length-set b k 1, p.full);
        cells = λ i q. ground (arith, get_or-set b k i 1 0, p.cells i, p.full, e i);
      },
    )

populate_board-Filled :
    (b : Board) → Filled (λ _. 0) size b → Fills pentomino size (populate_board b)
unfolding populate_board
populate_board-Filled b p0 =
    let f1 : ℕ → ℕ = λ i. (if 3870 == i then 1 else 0) in
    let f2 : ℕ → ℕ = λ i. if 3871 == i then 1 else f1 i in
    let f3 : ℕ → ℕ = λ i. if 4049 == i then 1 else f2 i in
    let f4 : ℕ → ℕ = λ i. if 4050 == i then 1 else f3 i in
    let (b1, e1, p1) = set_cell-Filled (λ _. 0) f1 21 90 b (omega arith) (λ i. refl) p0 in
    let (b2, e2, p2) = set_cell-Filled f1 f2 21 91 b1 (omega arith) (λ i. refl) p1 in
    let (b3, e3, p3) = set_cell-Filled f2 f3 22 89 b2 (omega arith) (λ i. refl) p2 in
    let (b4, e4, p4) = set_cell-Filled f3 f4 22 90 b3 (omega arith) (λ i. refl) p3 in
    let (b5, e5, p5) = set_cell-Filled f4 pentomino 23 90 b4 (omega arith) (λ i. ground arith) p4 in
    (b5, rw (e1, e2, e3, e4, e5), p5)

-- What holds when the loop of `main` begins.
pub record StartOf (was : ℕ) (g : Game) : Type 0 where
  pub valid : IsValid g
  pub cells : Filled pentomino size g.board
  pub generation : g.generation ≡ 1
  pub ch : g.ch ≡ was
  pub blank : (j : ℕ) → j < size → get_or g.front j 0 ≡ b'.'

-- Whatever the arrays of `SIZE` cells held before, the loop begins without a fault with the five
-- cells of the R-pentomino alive and no other, at generation 1, with dots in the front buffer
-- and what `ch` held.
pub start-StartOf :
    (memory : Board) (buffer : Buffer) (ch : ℕ)
    → length memory ≡ size
    → length buffer ≡ size
    → (g : Game) × (start memory buffer ch ≡ some g) × StartOf ch g
unfolding start
start-StartOf memory buffer ch hm hb =
    let (b0, e0, p0) = init_board-Filled memory hm in
    let (b, e, p) = populate_board-Filled b0 p0 in
    let dots = length-memset buffer b'.' size ∙ hb in
    (
      record {
        board = b;
        living_cells = 0;
        front = memset buffer b'.' size;
        back = memset buffer b'.' size;
        ch = ch;
        generation = 1;
      },
      rw (e0, e),
      record {
        valid = record { board = p.full; front = dots; back = dots };
        cells = p;
        generation = refl;
        ch = refl;
        blank = λ j h. get_or-memset buffer b'.' size j 0 h (omega arith);
      },
    )

paint-restore :
    (rows cols : ℕ) (t : Terminal) (left : Bool)
    → paint rows cols t (if left then restore ∷ [] else []) ≡ t
unfolding paint
paint-restore rows cols t true = refl
paint-restore rows cols t false = refl

-- Whatever is typed in fewer than 2147483647 rounds, and whatever `ch` and the arrays held before,
-- the program has no fault: it never leaves its arrays, and `generation` stays an `int`. When it
-- waits or has ended, a terminal of at least 46 rows and 180 columns shows the buffer that was
-- drawn last.
pub session-Shows :
    (rows cols : ℕ) (memory : Board) (buffer : Buffer) (ch : ℕ) (inputs : List (Option ℕ))
    (t : Terminal)
    → IsLarge rows cols
    → length memory ≡ size
    → length buffer ≡ size
    → length inputs < 0x7fff_ffff
    → (r : Round) × (session memory buffer ch inputs ≡ some r)
      × Shows (paint rows cols t r.printed) (drawn r)
unfolding session paint
session-Shows rows cols memory buffer ch inputs t large hm hb few =
    let (g, e, begun) = start-StartOf memory buffer ch hm hb in
    let (r, f, run) =
      play-RunOf rows cols inputs g large begun.valid (omega (arith, begun.generation)) in
    let last = if r.left then restore ∷ [] else [] in
    (
      record r { printed = clear ∷ (r.printed ++ last) },
      rw (e, f),
      rw
          (
            paint-append rows cols (apply rows cols t clear) r.printed last,
            paint-restore rows cols _ r.left,
          )
          (run.shows (apply rows cols t clear) (λ j h. inr (refl, begun.blank j h))),
    )

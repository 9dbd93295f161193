-- ===== src/Life/Screen/Session.antt =====
-- The loop of `main` in stage0/life/main.c: what the terminal shows, and which generation.
use stage.Base.{
  ℕ, ◌+◌, ◌*◌, ◌<◌, ◌≤◌, ltb, none, ◌≡◌, refl, ◌⊎◌, ◌∙◌, inl, inr, true, false, if◌then◌else◌,
  Bool-cases, Option, some, List, [], ◌∷◌, ◌++◌, arith, length, get_or, memset, length-memset,
}
use stage.Life.{Board, size}
use stage.Life.Rule.{next_cell}
use stage.Life.Update.{update-next_cell}
use stage.Life.Screen.{
  Buffer, Command, status, Game, Round, glyph, is_escape, read_ch, next_generation, finish_round,
  round,
}
use stage.Life.Screen.Draw.{Filled, draw_board-Filled}
use stage.Life.Screen.Paint.{
  Terminal, IsLarge, paint, paint-append, at, at-status, diff_from-Redraws,
}

-- The arrays have `SIZE` cells each.
pub record IsValid (g : Game) : Type 0 where
  pub board : length g.board ≡ size
  pub front : length g.front ≡ size
  pub back : length g.back ≡ size

-- At each cell the terminal has the character of the buffer, or a blank where that is a '.'.
abbrev pub Shows : Terminal → Buffer → Type 0
Shows t buffer =
    (j : ℕ)
    → j < size
    → (at t j ≡ get_or buffer j 0) ⊎ ((at t j ≡ b' ') × (get_or buffer j 0 ≡ b'.'))

-- `next` is the generation that follows `b` by the rules.
abbrev pub Follows : Board → Board → Type 0
Follows b next = (r c : ℕ) → r < 45 → c < 180 → get_or next (r * 180 + c) 0 ≡ next_cell b r c

-- The buffer that a round has drawn: `back` as it leaves the loop, else swapped to the front.
abbrev pub drawn : Round → Buffer
drawn r = if r.left then r.game.back else r.game.front

-- What one round does from the game `g` when `read` finds `input`, on a terminal of a size.
pub record RoundOf (rows cols : ℕ) (g : Game) (input : Option ℕ) (r : Round) : Type 0 where
  pub valid : IsValid r.game
  pub leaves : r.left ≡ is_escape (read_ch input g.ch)
  pub draws : (j : ℕ) → j < size → get_or (drawn r) j 0 ≡ glyph (get_or g.board j 0)
  pub shows : (t : Terminal) → Shows t g.front → Shows (paint rows cols t r.printed) (drawn r)
  pub goes_on :
      r.left ≡ false
      → Follows g.board r.game.board
        × (r.game.generation ≡ g.generation + 1)
        × (r.game.ch ≡ read_ch input g.ch)

-- The round goes on and `generation` is the greatest `int`.
abbrev pub Overflows : Game → Option ℕ → Type 0
Overflows g input = (is_escape (read_ch input g.ch) ≡ false) × (0x7fff_ffff ≤ g.generation)

-- A round without a fault, or one that overflows.
abbrev pub Played : ℕ → ℕ → Game → Option ℕ → Option Round → Type 0
Played rows cols g input o =
    ((r : Round) × (o ≡ some r) × RoundOf rows cols g input r) ⊎ ((o ≡ none) × Overflows g input)

module _ (rows cols : ℕ) (large : IsLarge rows cols) (g : Game) (v : IsValid g) (back : Buffer)
    (fill : Filled (λ k. glyph (get_or g.board k 0)) size back) (cs : List Command)
    (shows : (t : Terminal) → Shows t g.front → Shows (paint rows cols t cs) back)
    (input : Option ℕ) where
  finish_round-Played : Played rows cols g input (finish_round g cs back (read_ch input g.ch))
  unfolding finish_round next_generation paint
  finish_round-Played = elim (Bool-cases (is_escape (read_ch input g.ch))) [
    | inl out ↦ inl (
      record {
        game = record g { back = back; ch = read_ch input g.ch };
        printed = cs;
        left = true;
      },
      rw out,
      record {
        valid = record { board = v.board; front = v.front; back = fill.full };
        leaves = rw out;
        draws = fill.cells;
        shows = shows;
        goes_on = λ e. cc;
      },
    )
    | inr on ↦
        let (next, living, e, full, cells, sum) = update-next_cell g.board v.board in
        elim (Bool-cases (ltb g.generation 0x7fff_ffff)) [
          | inr full_int ↦ inr (rw (on, e, full_int) refl, (on, ground arith))
          | inl room ↦ inl (
            record {
              game = record {
                board = next;
                living_cells = living;
                front = back;
                back = g.front;
                ch = read_ch input g.ch;
                generation = g.generation + 1;
              };
              printed = cs ++ (status (g.generation + 1) living ∷ []);
              left = false;
            },
            rw (on, e, room),
            record {
              valid = record { board = full; front = fill.full; back = v.front };
              leaves = rw on;
              draws = fill.cells;
              shows = λ t h j hj.
                  rw (paint-append rows cols t cs (status (g.generation + 1) living ∷ [])) (
                    rw
                      (at-status rows cols (paint rows cols t cs) (g.generation + 1) living j large
                        hj)
                      (shows t h j hj));
              goes_on = λ _. (cells, refl, refl);
            },
          )
        ]
  ]

-- On arrays of `SIZE` cells a round of the loop never leaves them. It draws the board as it was
-- when the round began: a terminal of at least 46 rows and 180 columns that showed the front buffer
-- shows that board afterwards. The round leaves the loop exactly if `ch` is ESC (27), where `ch`
-- is the byte read, or what it was before where none is read; otherwise the board becomes the
-- generation that follows by the rules and `generation` goes up by one. The only fault is the
-- overflow of `generation` at 2147483647 in a round that does not leave.
pub round-RoundOf :
    (rows cols : ℕ) (g : Game) (input : Option ℕ)
    → IsLarge rows cols
    → IsValid g
    → Played rows cols g input (round g input)
unfolding round
round-RoundOf rows cols g input large v =
    let (back, e, fill) =
      draw_board-Filled g.board v.board (memset g.back b'.' size)
        (length-memset g.back b'.' size ∙ v.back) in
    let (cs, d, redraw) =
      diff_from-Redraws rows cols large g.front back v.front fill.full size 0 refl in
    rw (e, d)
      (finish_round-Played rows cols large g v back fill cs
        (λ t h j hj. ground (arith, redraw t j hj, h j hj)) input)

-- A round below the greatest `int`.
pub round-below :
    (rows cols : ℕ) (g : Game) (input : Option ℕ)
    → IsLarge rows cols
    → IsValid g
    → g.generation < 0x7fff_ffff
    → (r : Round) × (round g input ≡ some r) × RoundOf rows cols g input r
round-below rows cols g input large v low = elim (round-RoundOf rows cols g input large v) [
  | inl played ↦ played
  | inr (_, (_, high)) ↦ absurd (omega arith)
]

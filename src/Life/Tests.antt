-- ===== src/Life/Tests.antt =====
-- The theorems about stage0/life/main.c at concrete boards, and runs of its functions.
use stage.Base.{
  ℕ, ◌+◌, ◌*◌, ◌<◌, ◌≡◌, refl, false, some, none, List, [], ◌∷◌, length, replicate,
  length-replicate, get_or, set, length-set, ◌∙◌, sum, arith,
}
use stage.Base.Int.{pos}
use stage.Life.{Board, size, count_neighbors, update}
use stage.Life.Rule.{around, next_cell}
use stage.Life.Neighbors.{count_neighbors-around}
use stage.Life.Update.{update-next_cell}
use stage.Life.Screen.{
  Buffer, Command, Game, Round, is_escape, glyph, draw_board, diff_from, round, start, play,
  session,
}
use stage.Life.Screen.Draw.{Fills, draw_board-Filled}
use stage.Life.Screen.Paint.{Terminal, IsLarge, Redraws, diff_from-Redraws, paint}
use stage.Life.Screen.Session.{IsValid, Shows, drawn, Played, round-RoundOf}
use stage.Life.Screen.Play.{Evolves, play-Evolves}
use stage.Life.Screen.Start.{StartOf, start-StartOf, session-Shows}

-- A board with one living cell, at row 10 and column 20.
abbrev dead : Board
dead = replicate size 0

abbrev one_cell : Board
one_cell = set dead 1820 1

one_cell-full : length one_cell ≡ size
one_cell-full = length-set dead 1820 1 ∙ length-replicate {A = ℕ} size 0

abbrev dots : Buffer
dots = replicate size b'.'

dots-full : length dots ≡ size
dots-full = length-replicate {A = ℕ} size b'.'

abbrev crosses : Buffer
crosses = replicate size b'X'

crosses-full : length crosses ≡ size
crosses-full = length-replicate {A = ℕ} size b'X'

abbrev game : Game
game = record {
  board = one_cell;
  living_cells = 1;
  front = dots;
  back = dots;
  ch = 0;
  generation = 1;
}

game-IsValid : IsValid game
game-IsValid = record { board = one_cell-full; front = dots-full; back = dots-full }

abbrev large : IsLarge 46 180
large = record { tall = omega arith; wide = omega arith }

abbrev blank : Terminal
blank = λ r c. b' '

count_neighbors-around_test :
    count_neighbors one_cell (pos 9) (pos 19) ≡ some (around one_cell 9 19)
count_neighbors-around_test =
    count_neighbors-around one_cell one_cell-full 9 19 (omega arith) (omega arith)

update-next_cell_example :
    (next : Board) × (living : ℕ) × (update one_cell ≡ some (next, living))
    × (length next ≡ size)
    × ((r c : ℕ) → r < 45 → c < 180 → get_or next (r * 180 + c) 0 ≡ next_cell one_cell r c)
    × (living ≡ sum next)
update-next_cell_example = update-next_cell one_cell one_cell-full

filled_test : Fills (λ k. glyph (get_or one_cell k 0)) size (draw_board one_cell crosses)
filled_test = draw_board-Filled one_cell one_cell-full crosses crosses-full

diff_from-Redraws_test :
    (cs : List Command) × (diff_from size 0 dots crosses ≡ some cs)
    × Redraws 46 180 large dots crosses dots-full crosses-full 0 cs
diff_from-Redraws_test =
    diff_from-Redraws 46 180 large dots crosses dots-full crosses-full size 0 refl

round-RoundOf_example : Played 46 180 game (some 113) (round game (some 113))
round-RoundOf_example = round-RoundOf 46 180 game (some 113) large game-IsValid

play-Evolves_example :
    (r : Round) × (play game (none ∷ some 113 ∷ []) ≡ some r)
    × (r.left ≡ false)
    × (r.game.generation ≡ 1 + 2)
    × Evolves 2 one_cell r.game.board
unfolding is_escape
play-Evolves_example =
    play-Evolves (none ∷ some 113 ∷ []) game game-IsValid refl (refl, tt) (omega arith)

start_test : (g : Game) × (start one_cell crosses 0 ≡ some g) × StartOf 0 g
start_test = start-StartOf one_cell crosses 0 one_cell-full crosses-full

session-Shows_example :
    (r : Round) × (session one_cell crosses 0 (none ∷ some 27 ∷ []) ≡ some r)
    × Shows (paint 46 180 blank r.printed) (drawn r)
session-Shows_example =
    session-Shows 46 180 one_cell crosses 0 (none ∷ some 27 ∷ []) blank large one_cell-full
      crosses-full (omega arith)

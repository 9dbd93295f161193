-- ===== src/Life/Screen/Play.antt =====
-- Whole runs of the program in stage0/life/main.c.
use stage.Base.{
  ℕ, zero, suc, ◌+◌, ◌≤◌, ◌≡◌, refl, ◌∙◌, inl, inr, true, false, Bool-cases, Option, none, some,
  List, [], ◌∷◌, ◌++◌, arith, length,
}
use stage.Life.{Board}
use stage.Life.Screen.{Game, Round, is_escape, read_ch, round, play}
use stage.Life.Screen.Paint.{Terminal, IsLarge, paint, paint-append}
use stage.Life.Screen.Session.{IsValid, Shows, Follows, drawn, RoundOf, round-below}

-- A run without a fault, whose terminal shows the buffer that was drawn last.
pub record RunOf (rows cols : ℕ) (g : Game) (r : Round) : Type 0 where
  pub valid : IsValid r.game
  pub shows : (t : Terminal) → Shows t g.front → Shows (paint rows cols t r.printed) (drawn r)

play-cons :
    (g : Game) (input : Option ℕ) (inputs : List (Option ℕ)) (r s : Round)
    → round g input ≡ some r
    → r.left ≡ false
    → play r.game inputs ≡ some s
    → play g (input ∷ inputs) ≡ some (record s { printed = r.printed ++ s.printed })
unfolding play
play-cons g input inputs r s e on f = rw (e, on, f)

play-left :
    (g : Game) (input : Option ℕ) (inputs : List (Option ℕ)) (r : Round)
    → round g input ≡ some r
    → r.left ≡ true
    → play g (input ∷ inputs) ≡ some r
unfolding play
play-left g input inputs r e out = rw e (simp out)

module _ {rows cols : ℕ} {g : Game} {input : Option ℕ} {r : Round}
    (one : RoundOf rows cols g input r) (on : r.left ≡ false) where
  RunOf-round :
      {s : Round}
      → RunOf rows cols r.game s
      → RunOf rows cols g (record s { printed = r.printed ++ s.printed })
  RunOf-round {s} rest = record {
    valid = rest.valid;
    shows = λ t h.
        rw (paint-append rows cols t r.printed s.printed)
          (rest.shows (paint rows cols t r.printed) (rw on at (one.shows t h)));
  }

pub play-RunOf :
    (rows cols : ℕ) (inputs : List (Option ℕ)) (g : Game)
    → IsLarge rows cols
    → IsValid g
    → g.generation + length inputs ≤ 0x7fff_ffff
    → (r : Round) × (play g inputs ≡ some r) × RunOf rows cols g r
unfolding play paint
play-RunOf rows cols [] g large v low =
    (record { game = g; printed = []; left = false }, refl, record { valid = v; shows = λ t h. h })
play-RunOf rows cols (input ∷ inputs) g large v low =
    let (r, e, one) = round-below rows cols g input large v (omega arith) in
    elim (Bool-cases r.left) [
      | inl out ↦
          (r, play-left g input inputs r e out, record { valid = one.valid; shows = one.shows })
      | inr on ↦
          let (s, f, rest) =
            play-RunOf rows cols inputs r.game large one.valid
              (omega (arith, (one.goes_on on).1)) in
          (
            record s { printed = r.printed ++ s.printed },
            play-cons g input inputs r s e on f,
            RunOf-round one on rest,
          )
    ]

-- No byte of the list is ESC.
abbrev pub Quiet : List (Option ℕ) → Type 0
Quiet [] = Unit
Quiet (none ∷ inputs) = Quiet inputs
Quiet (some c ∷ inputs) = (is_escape c ≡ false) × Quiet inputs

-- `b'` is the board `n` generations after `b`.
abbrev pub Evolves : ℕ → Board → Board → Type 0
Evolves zero b b' = b ≡ b'
Evolves (suc n) b b' = (mid : Board) × Follows b mid × Evolves n mid b'

Quiet-cons :
    (input : Option ℕ) (inputs : List (Option ℕ)) (ch : ℕ)
    → is_escape ch ≡ false
    → Quiet (input ∷ inputs)
    → (is_escape (read_ch input ch) ≡ false) × Quiet inputs
unfolding read_ch
Quiet-cons none inputs ch h q = (h, q)
Quiet-cons (some c) inputs ch h q = q

-- Where `ch` is not ESC before the first round, as long as no ESC is typed and `generation` stays
-- an `int`, the program runs one generation for each round and counts them.
pub play-Evolves :
    (inputs : List (Option ℕ)) (g : Game)
    → IsValid g
    → is_escape g.ch ≡ false
    → Quiet inputs
    → g.generation + length inputs ≤ 0x7fff_ffff
    → (r : Round) × (play g inputs ≡ some r)
      × (r.left ≡ false)
      × (r.game.generation ≡ g.generation + length inputs)
      × Evolves (length inputs) g.board r.game.board
unfolding play
play-Evolves [] g v q qs low =
    (record { game = g; printed = []; left = false }, refl, refl, omega arith, refl)
play-Evolves (input ∷ inputs) g v q qs low =
    let (r, e, one) =
      round-below 46 180 g input (record { tall = omega arith; wide = omega arith }) v
        (omega arith) in
    let (still, later) = Quiet-cons input inputs g.ch q qs in
    let on : r.left ≡ false = one.leaves ∙ still in
    let (follows, count, ch) = one.goes_on on in
    let (s, f, left, total, evolves) =
      play-Evolves inputs r.game one.valid (rw ch still) later (omega arith) in
    (
      record s { printed = r.printed ++ s.printed },
      play-cons g input inputs r s e on f,
      left,
      omega arith,
      (r.game.board, follows, evolves),
    )

-- ===== src/Life/Program/SelfTest.antt =====
-- stage0/life/main.c: the option that runs `test`.
use mathlib.Core.Path.{subst}
use stage.Base.{
  ℕ, zero, suc, ◌<◌, ◌≡◌, ◌≢◌, Bool-cases, refl, ◌↔◌, ◌⊎◌, inl, inr, ◌||◌, ◌∙◌, sym, ap, Bool, true,
  false, Option, some, none, List, [], ◌∷◌, length, replicate, length-replicate, get_or,
  eq_of_get_or, ◌>>=◌,
}
use stage.Base.Text.{Bytes, codes}
use stage.Base.Text.Equal.{bytes_eq, bytes_eq_sound}
use stage.Life.{Board, size, init_board, set_cell, visit, visit_cols, visit_rows, count_neighbors}
use stage.Base.Int.{◌+ℤ◌, ◌-ℤ◌, ◌*ℤ◌}
use stage.Life.Screen.{Buffer, Round, session}
use stage.Life.Screen.Draw.{init_board-Filled}
use stage.Life.Program.{
  test_cells, asserts, test, wants_test, FileFlags, Saved, tested, leave, life,
}
use stage.Tty.{Termios, Platform, Driver}

get_or-replicate : (n i : ℕ) → ◌≡◌ {A = ℕ} (get_or (replicate n 0) i 0) 0
get_or-replicate zero i = refl
get_or-replicate (suc n) zero = refl
get_or-replicate (suc n) (suc i) = get_or-replicate n i

abbrev empty : Board
empty = replicate size 0

init_board-empty : (b : Board) → length b ≡ size → init_board b ≡ some empty
init_board-empty b full =
    let (xs, e, filled) = init_board-Filled b full in
    e
    ∙ ap some (
        eq_of_get_or xs empty 0 (filled.full ∙ sym (length-replicate {A = ℕ} size 0)) (λ i h.
          filled.cells i (subst (λ n. i < n) filled.full h) ∙ sym (get_or-replicate size i)))

-- The asserts of `test` all hold, whatever the board held before; it comes to its last line.
pub test-passes : (memory : Board) → length memory ≡ size → test memory ≡ some true
unfolding test test_cells asserts set_cell count_neighbors visit_rows visit_cols visit ◌+ℤ◌ ◌-ℤ◌
    ◌*ℤ◌
test-passes memory full = rw (init_board-empty memory full) refl

-- The first argument is "-t" or "--test".
abbrev pub HasOption : List Bytes → Type 0
HasOption args = (rest : List Bytes) × ((args ≡ codes "-t" ∷ rest) ⊎ (args ≡ codes "--test" ∷ rest))

either_true : (a b : Bool) → (a || b) ≡ true → (a ≡ true) ⊎ (b ≡ true)
either_true true b h = inl refl
either_true false b h = inr h

HasOption-of_test : (args : List Bytes) → wants_test args ≡ true → HasOption args
unfolding wants_test
HasOption-of_test [] h = cc
HasOption-of_test (arg ∷ rest) h = elim (either_true _ _ h) [
  | inl e ↦ (rest, inl (ap (λ a. a ∷ rest) (bytes_eq_sound arg (codes "-t") e)))
  | inr e ↦ (rest, inr (ap (λ a. a ∷ rest) (bytes_eq_sound arg (codes "--test") e)))
]

test-of_HasOption : (args : List Bytes) → HasOption args → wants_test args ≡ true
unfolding wants_test bytes_eq
test-of_HasOption args (rest, inl e) = rw e refl
test-of_HasOption args (rest, inr e) = rw e refl

leave-ne-tested :
    {S : Type 0} (d : Driver S) (f : FileFlags S) (saved : Saved) (s : S) (o : Option Round)
    → (o >>= λ r. some (leave d f saved s r)) ≢ some (tested true)
unfolding leave
leave-ne-tested d f saved s none = cc
leave-ne-tested d f saved s (some r) = cc

-- `main` runs `test` to its end, and nothing else, exactly where its first argument is -t or
-- --test: then the settings of the terminal are not touched and no input is read.
pub life-tested :
    {S : Type 0} (d : Driver S) (f : FileFlags S) (p : Platform) (args : List Bytes)
    (memory : Termios) (board : Board) (buffer : Buffer) (ch : ℕ) (inputs : List (Option ℕ)) (s : S)
    → length board ≡ size
    → (life d f p args memory board buffer ch inputs s ≡ some (tested true)) ↔ HasOption args
unfolding life
life-tested d f p args memory board buffer ch inputs s full = elim (Bool-cases (wants_test args)) [
  | inl option ↦ (λ _. HasOption-of_test args option, λ _. rw (option, test-passes board full) refl)
  | inr plain ↦ (
    λ h. absurd (leave-ne-tested d f _ _ (session board buffer ch inputs) (rw plain at h)),
    λ h. absurd (cc (test-of_HasOption args h, plain)),
  )
]

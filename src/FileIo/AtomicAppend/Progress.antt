-- ===== src/FileIo/AtomicAppend/Progress.antt =====
-- stage0/tlpi/fileio/atomic_append.c: how far a process has come, as numbers.
use mathlib.Core.List.{append-nil}
use stage.Base.{
  some-injective, ℕ, suc, ◌+◌, ◌-◌, ◌==◌, ◌≡◌, ◌<◌, sym, ap, ◌∙◌, false, Option, none, some, [],
  ◌∷◌, ◌++◌, length, drop-nil, arith,
}
use stage.Base.Int.{pos}
use stage.Base.Text.{Bytes}
use stage.FileIo.{overwrite}
use stage.FileIo.AtomicAppend.{Process, value, Pc, opening, seeking, writing, closing, exited}

unfoldable pub fd_of : Pc → Option ℕ
fd_of opening = none
fd_of (seeking fd i) = some fd
fd_of (writing fd i) = some fd
fd_of (closing fd) = some fd
fd_of (exited n) = none

-- The bytes that a process with `n` rounds has written.
unfoldable pub written : ℕ → Pc → ℕ
written n opening = 0
written n (seeking fd i) = i
written n (writing fd i) = i
written n (closing fd) = n
written n (exited s) = n

pub overwrite-end : (c s : Bytes) → overwrite c (length c) s ≡ c ++ s
unfolding overwrite
overwrite-end [] s = ap (λ t. s ++ t) (drop-nil (length s)) ∙ append-nil s
overwrite-end (x ∷ c) s = ap (λ t. x ∷ t) (overwrite-end c s)

pub left_opening : (n : ℕ) → (n - 0) + 1 ≡ (n + 2) - 1
left_opening n = omega arith

pub left_writing : (n i : ℕ) → i < n → (n - suc i) + 1 ≡ ((n - i) + 1) - 1
left_writing n i lt = omega arith

pub only_fd :
    (a : Pc) (fd x : ℕ)
    → fd_of a ≡ some fd
    → (fd == x) ≡ false
    → (y : ℕ) → fd_of a ≡ some y
    → (y == x) ≡ false
only_fd a fd x e apart y e' = ap (λ z. z == x) (some-injective y fd (sym e' ∙ e)) ∙ apart

-- The steps that a process has left.
unfoldable pub left : ℕ → Pc → ℕ
left n opening = n + 2
left n (seeking fd i) = (n - i) + 2
left n (writing fd i) = (n - i) + 1
left n (closing fd) = 1
left n (exited s) = 0

pub suc-eq : (i : ℕ) → suc i ≡ i + 1
suc-eq i = omega arith

-- A process that appends to `p` in `n` rounds.
abbrev pub appender : Bytes → ℕ → Process
appender p n = record { file = p; number = value (pos n); is_seek = false }

-- ===== src/Life/Program/Settings.antt =====
-- stage0/life/main.c: the settings of the terminal, in front of the loop and behind it.
use Prim.Native.Nat.{bit_or}
use stage.Base.{
  ◌≤◌, ℕ, ◌<◌, ◌≡◌, ◌∙◌, ap, ◌⊎◌, ◌==◌, ◌||◌, if◌then◌else◌, Bool, false, Option, some, none, arith,
}
use stage.Base.Bits.{bit_at, has, bit_or-lt, has-bit_or}
use stage.Life.Program.{new_settings, FileFlags, LifeEnd, tested, played}
use stage.Tty.{Termios, Platform, IsPlatform, bit_at-clear_flags, Action, now, Driver}

-- `fcntl` sets and clears O_NONBLOCK and leaves the attributes alone, and `tcsetattr` leaves the
-- flags of the file alone.
pub record Independent {S : Type 0} (d : Driver S) (f : FileFlags S) : Type 0 where
  pub setfl_lem :
      (flags : ℕ) (s : S)
      → (f.getfl s ≡ flags)
      → f.getfl (f.setfl (bit_or flags f.o_nonblock) s) ≡ bit_or flags f.o_nonblock
  pub clear_lem :
      (flags : ℕ) (s : S)
      → (f.getfl s ≡ bit_or flags f.o_nonblock)
      → f.getfl (f.setfl flags s) ≡ flags
  pub setfl_attributes : (flags : ℕ) (s : S) → d.tcgetattr (f.setfl flags s) ≡ d.tcgetattr s
  pub tcsetattr_flags :
      (a : Action) (t : Termios) (s : S) → f.getfl (d.tcsetattr a t s).1 ≡ f.getfl s

-- In the new settings the bits of ICANON and of ECHO are clear and each other flag is as it was;
-- VMIN is 1, VTIME is 0 and the other characters are as they were.
pub new_settings-lines :
    {p : Platform} (h : IsPlatform p) (t : Termios)
    → ((i : ℕ)
        → i < 32
        → bit_at i (new_settings p t).c_lflag
          ≡ (if has i p.icanon || has i p.echo then 0 else bit_at i t.c_lflag))
      × ((j : ℕ)
          → (new_settings p t).c_cc j
            ≡ (if j == p.vmin then 1 else if j == p.vtime then 0 else t.c_cc j))
unfolding new_settings
new_settings-lines {p} h t = (
  λ i b.
      bit_at-clear_flags i t.c_lflag _ b (bit_or-lt 32 _ _ h.icanon_fits h.echo_fits)
      ∙ ap (λ (c : Bool). if c then 0 else bit_at i t.c_lflag) (simp has-bit_or),
  λ j. ground (arith, h.apart),
)

module _ {S : Type 0} (d : Driver S) (f : FileFlags S) (p : Platform) (t : Termios) (s : S) where
  -- The attributes are those of the loop or, where `tcsetattr` has failed, those there were.
  abbrev Known : S → Type 0
  Known s' = (d.tcgetattr s' ≡ some (new_settings p t)) ⊎ (d.tcgetattr s' ≡ some t)

  -- In the loop reads do not block.
  abbrev pub InLoop : S → Type 0
  InLoop s' =
      (f.getfl s' ≡ bit_or (f.getfl s) f.o_nonblock)
      × ((d.tcgetattr s' ≡ some (new_settings p t)) ⊎ (d.tcgetattr s' ≡ some t))

  -- Behind it the flags and the attributes are those that `main` found, but for a `tcsetattr` that
  -- fails there.
  abbrev pub PutBack : S → Type 0
  PutBack s' =
      (f.getfl s' ≡ f.getfl s)
      × ((d.tcgetattr s' ≡ some t)
          ⊎ ((a : S) × InLoop a × ((d.tcsetattr now t (f.setfl (f.getfl s) a)).0 ≡ false)))

  -- Where the loop is left, and where it waits. A fault needs as many rounds as `generation` can
  -- count.
  abbrev pub Settled : ℕ → Option (LifeEnd S) → Type 0
  Settled rounds none = 0x7fff_ffff ≤ rounds
  Settled rounds (some (tested b)) = ⊥
  Settled rounds (some (played r s')) = if r.left then PutBack s' else InLoop s'

-- ===== src/Tty.antt =====
-- <termios.h>: the attributes of a terminal, and the calls by which stage0/kilo/kilo.c and
-- stage0/life/main.c read and set them. The masks, the indices and the calls are parameters.
use Prim.Native.Nat.{bit_and}
use stage.Base.{ℕ, ◌^◌, ◌<◌, ◌≡◌, ◌⊎◌, ◌==◌, if◌then◌else◌, Bool, true, false, Option, some, arith}
use stage.Base.Bits.{has, bit_at, complement, bit_at-le, bit_at-bit_and, bit_at-complement}

-- `struct termios`; a flag field is a word of 32 bits, and `c_cc` holds characters by index.
pub record Termios : Type 0 where
  pub c_iflag : ℕ
  pub c_oflag : ℕ
  pub c_cflag : ℕ
  pub c_lflag : ℕ
  pub c_cc : ℕ → ℕ

-- The masks of the flags and the indices of `c_cc`.
pub record Platform : Type 0 where
  pub brkint : ℕ
  pub icrnl : ℕ
  pub inpck : ℕ
  pub istrip : ℕ
  pub ixon : ℕ
  pub opost : ℕ
  pub cs8 : ℕ
  pub echo : ℕ
  pub icanon : ℕ
  pub iexten : ℕ
  pub isig : ℕ
  pub vmin : ℕ
  pub vtime : ℕ

-- The masks are words of 32 bits and the two indices differ.
pub record IsPlatform (p : Platform) : Type 0 where
  pub brkint_fits : p.brkint < 2 ^ 32
  pub icrnl_fits : p.icrnl < 2 ^ 32
  pub inpck_fits : p.inpck < 2 ^ 32
  pub istrip_fits : p.istrip < 2 ^ 32
  pub ixon_fits : p.ixon < 2 ^ 32
  pub opost_fits : p.opost < 2 ^ 32
  pub echo_fits : p.echo < 2 ^ 32
  pub icanon_fits : p.icanon < 2 ^ 32
  pub iexten_fits : p.iexten < 2 ^ 32
  pub isig_fits : p.isig < 2 ^ 32
  pub apart : (p.vmin == p.vtime) ≡ false

-- `x & ~mask`
abbrev pub clear_flags : ℕ → ℕ → ℕ
clear_flags x mask = bit_and x (complement 32 mask)

-- `cc[i] = v`
abbrev pub set_cc : (ℕ → ℕ) → ℕ → ℕ → ℕ → ℕ
set_cc cc i v j = if i == j then v else cc j

-- TCSANOW and TCSAFLUSH
pub data Action : Type 0 where
  now : Action
  flush : Action

-- The calls on a terminal whose state is `S`; `tcgetattr` is `none` and `tcsetattr` false where
-- they return -1.
pub record Driver (S : Type 0) : Type 0 where
  pub tcgetattr : S → Option Termios
  pub tcsetattr : Action → Termios → S → Bool × S

unfoldable pub Sets : {S : Type 0} → Driver S → Termios → S → Bool × S → Type 0
Sets d t s (done, s') = ((done ≡ true) × (d.tcgetattr s' ≡ some t)) ⊎ ((done ≡ false) × (s' ≡ s))

-- A terminal that supports what is set: `tcsetattr` sets all attributes, or fails and sets none.
pub record Documented {S : Type 0} (d : Driver S) : Type 0 where
  pub tcsetattr_lem : (a : Action) (t : Termios) (s : S) → Sets d t s (d.tcsetattr a t s)

pub bit_at-clear_flags :
    (i x mask : ℕ)
    → i < 32
    → mask < 2 ^ 32
    → bit_at i (clear_flags x mask) ≡ (if has i mask then 0 else bit_at i x)
bit_at-clear_flags i x mask h k = ground (
  arith,
  bit_at-bit_and i x (complement 32 mask),
  bit_at-complement 32 i mask h k,
  bit_at-le i mask,
  bit_at-le i x,
)

-- ===== src/Kilo/RawMode/Tests.antt =====
-- The theorems about raw mode at a terminal that does what is asked, and at one that does not.
use stage.Base.{◌≡◌, refl, inl, ◌⊎◌, true, false, some, List, [], ◌∷◌, ◌++◌, arith}
use stage.Base.Int.{pos}
use stage.Kilo.{Read, byte, nothing, ctrl_key}
use stage.Kilo.Window.{Terminal}
use stage.Kilo.RawMode.{raw, died, status, exits_twice, kilo}
use stage.Kilo.RawMode.Flags.{IsRaw, raw-IsRaw}
use stage.Kilo.RawMode.Restore.{Leaves, kilo-Leaves, kilo-no_raw}
use stage.Tty.{Termios, Platform, IsPlatform, Driver, Sets, Documented}

-- The masks of Linux.
abbrev linux : Platform
linux = record {
  brkint = 2;
  icrnl = 256;
  inpck = 16;
  istrip = 32;
  ixon = 1024;
  opost = 1;
  cs8 = 48;
  echo = 8;
  icanon = 2;
  iexten = 32768;
  isig = 1;
  vmin = 6;
  vtime = 5;
}

linux-IsPlatform : IsPlatform linux
linux-IsPlatform = record {
  brkint_fits = omega arith;
  icrnl_fits = omega arith;
  inpck_fits = omega arith;
  istrip_fits = omega arith;
  ixon_fits = omega arith;
  opost_fits = omega arith;
  echo_fits = omega arith;
  icanon_fits = omega arith;
  iexten_fits = omega arith;
  isig_fits = omega arith;
  apart = refl;
}

abbrev cooked : Termios
cooked = record { c_iflag = 0x4500; c_oflag = 5; c_cflag = 0xbf; c_lflag = 0x8a3b; c_cc = λ i. 4 }

abbrev willing : Driver Termios
willing = record { tcgetattr = λ t. some t; tcsetattr = λ a t s. (true, t) }

willing-Documented : Documented willing
unfolding Sets
willing-Documented = record { tcsetattr_lem = λ a t s. inl (refl, refl) }

-- A terminal that can be read but not set.
abbrev fixed : Driver Termios
fixed = record { tcgetattr = λ t. some t; tcsetattr = λ a t s. (false, s) }

abbrev window : Terminal
window = record { winsize = some (24, 80); wrote_corner = pos 0; wrote_query = pos 0 }

abbrev typed : List Read
typed = nothing ∷ byte b'x' ∷ byte (ctrl_key b'q') ∷ []

raw-IsRaw_example : IsRaw linux cooked (raw linux cooked)
raw-IsRaw_example = raw-IsRaw linux-IsPlatform cooked

raw_local : (raw linux cooked).c_lflag ≡ 0xa30
unfolding raw
raw_local = refl

kilo-Leaves_example :
    Leaves willing linux cooked
      (kilo willing linux (λ n. true) cooked window typed).ending
      (kilo willing linux (λ n. true) cooked window typed).tty
kilo-Leaves_example =
    kilo-Leaves willing linux cooked willing-Documented (λ n. true) cooked window typed refl

kilo-no_raw_test :
    ((kilo fixed linux (λ n. true) cooked window typed).written ≡ died)
      × ((kilo fixed linux (λ n. true) cooked window typed).ending ≡ status 1)
    ⊎ ((kilo fixed linux (λ n. true) cooked window typed).written ≡ died ++ died)
      × ((kilo fixed linux (λ n. true) cooked window typed).ending ≡ exits_twice)
kilo-no_raw_test = kilo-no_raw fixed linux (λ n. true) cooked window typed cooked refl refl

-- ===== src/Life/Program/Tests.antt =====
-- The theorems about `main` of stage0/life/main.c at a terminal that does what is asked.
use stage.Base.{ℕ, ◌≡◌, ◌↔◌, true, some, none, [], ◌∷◌, replicate, length-replicate}
use stage.Base.Text.{codes}
use stage.Life.{Board, size}
use stage.Life.Screen.{Buffer}
use stage.Life.Program.{FileFlags, tested, life}
use stage.Life.Program.SelfTest.{HasOption, life-tested}
use stage.Tty.{Termios, Platform, Driver}

-- The state of the terminal: its attributes and the flags of the file.
abbrev Tty : Type 0
Tty = Termios × ℕ

abbrev driver : Driver Tty
driver = record { tcgetattr = λ s. some s.0; tcsetattr = λ a t s. (true, (t, s.1)) }

abbrev file_flags : FileFlags Tty
file_flags = record { getfl = λ s. s.1; setfl = λ flags s. (s.0, flags); o_nonblock = 0x800 }

abbrev platform : Platform
platform = record {
  brkint = 2;
  icrnl = 256;
  inpck = 16;
  istrip = 32;
  ixon = 1024;
  opost = 1;
  cs8 = 48;
  echo = 8;
  icanon = 2;
  iexten = 32768;
  isig = 1;
  vmin = 6;
  vtime = 5;
}

abbrev attributes : Termios
attributes = record {
  c_iflag = 0x4500;
  c_oflag = 5;
  c_cflag = 0xbf;
  c_lflag = 0x8a3b;
  c_cc = λ i. 4;
}

abbrev cells : Board
cells = replicate size 0

abbrev screen : Buffer
screen = replicate size b'.'

life-tested_test :
    (life driver file_flags platform
        (codes "-t" ∷ [])
        attributes
        cells
        screen
        0
        (none ∷ [])
        (attributes, 2)
      ≡ some (tested true))
    ↔ HasOption (codes "-t" ∷ [])
life-tested_test =
    life-tested driver file_flags platform (codes "-t" ∷ []) attributes cells screen 0 (none ∷ [])
      (attributes, 2) (length-replicate {A = ℕ} size 0)

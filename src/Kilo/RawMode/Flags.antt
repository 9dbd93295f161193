-- ===== src/Kilo/RawMode/Flags.antt =====
-- stage0/kilo/kilo.c: the attributes that `enableRawMode` sets.
use Prim.Native.Nat.{bit_or}
use stage.Base.{ℕ, ◌<◌, ◌^◌, ◌≡◌, ap, ◌∙◌, ◌==◌, ◌||◌, if◌then◌else◌, Bool, arith}
use stage.Base.Bits.{has, has-bit_or, bit_at, bit_at-le, bit_at-bit_or, bit_or-lt}
use stage.Tty.{Termios, Platform, IsPlatform, bit_at-clear_flags}
use stage.Kilo.RawMode.{raw}

-- In raw mode the bits of BRKINT, ICRNL, INPCK, ISTRIP and IXON, of OPOST, and of ECHO, ICANON,
-- IEXTEN and ISIG are clear in their fields, those of CS8 are set, and each other bit is as it
-- was; VMIN is 0, VTIME is 1 and the other characters are as they were.
abbrev pub IsRaw : Platform → Termios → Termios → Type 0
IsRaw p t r =
    ((i : ℕ)
      → i < 32
      → (bit_at i r.c_iflag ≡ (
          if has i p.brkint || has i p.icrnl || has i p.inpck || has i p.istrip || has i p.ixon
          then 0
          else bit_at i t.c_iflag))
        × (bit_at i r.c_oflag ≡ (if has i p.opost then 0 else bit_at i t.c_oflag))
        × (bit_at i r.c_cflag ≡ (if has i p.cs8 then 1 else bit_at i t.c_cflag))
        × (bit_at i r.c_lflag ≡ (
            if has i p.echo || has i p.icanon || has i p.iexten || has i p.isig
            then 0
            else bit_at i t.c_lflag)))
    × ((j : ℕ) → r.c_cc j ≡ (if j == p.vmin then 0 else if j == p.vtime then 1 else t.c_cc j))

module _ {p : Platform} (h : IsPlatform p) (t : Termios) where
  input_mask-lt :
      bit_or (bit_or (bit_or (bit_or p.brkint p.icrnl) p.inpck) p.istrip) p.ixon < 2 ^ 32
  input_mask-lt =
      bit_or-lt 32 _ _
        (bit_or-lt 32 _ _
          (bit_or-lt 32 _ _ (bit_or-lt 32 _ _ h.brkint_fits h.icrnl_fits) h.inpck_fits)
          h.istrip_fits)
        h.ixon_fits

  local_mask-lt : bit_or (bit_or (bit_or p.echo p.icanon) p.iexten) p.isig < 2 ^ 32
  local_mask-lt =
      bit_or-lt 32 _ _ (bit_or-lt 32 _ _ (bit_or-lt 32 _ _ h.echo_fits h.icanon_fits) h.iexten_fits)
        h.isig_fits

  -- What `enableRawMode` asks for is raw mode.
  pub raw-IsRaw : IsRaw p t (raw p t)
  unfolding raw
  raw-IsRaw = (
    λ i b. (
      bit_at-clear_flags i t.c_iflag _ b input_mask-lt
          ∙ ap (λ (b : Bool). if b then 0 else bit_at i t.c_iflag) (simp has-bit_or),
      bit_at-clear_flags i t.c_oflag _ b h.opost_fits,
      ground (arith, bit_at-bit_or i t.c_cflag p.cs8, bit_at-le i t.c_cflag, bit_at-le i p.cs8),
      bit_at-clear_flags i t.c_lflag _ b local_mask-lt
          ∙ ap (λ (b : Bool). if b then 0 else bit_at i t.c_lflag) (simp has-bit_or),
    ),
    λ j. ground (arith, h.apart),
  )

-- ===== src/FileIo/Cp/Holes.antt =====
-- What a copy with holes leaves in the target, described without the program.
use stage.Base.{
  ℕ, zero, suc, ◌==◌, ◌≡◌, refl, if◌then◌else◌, Bool-cases, inl, inr, false, [], ◌∷◌, ◌++◌, length,
}
use stage.Base.Text.{Bytes}
use stage.FileIo.{overwrite}

-- A zero in front, of something.
unfoldable pub pad : Bytes → Bytes
pad [] = []
pad (x ∷ s) = 0 ∷ x ∷ s

-- `c` over `old`: a byte of `c` that is not zero replaces, and a zero leaves what is there. Behind
-- the end of `old` a zero is written only where a byte that is not zero follows.
unfoldable pub punch : Bytes → Bytes → Bytes
unfolding pad
punch [] old = old
punch (x ∷ c) [] = if x == 0 then pad (punch c []) else x ∷ punch c []
punch (x ∷ c) (o ∷ old) = (if x == 0 then o else x) ∷ punch c old

pub punch-zero : (done old : Bytes) → punch (done ++ (0 ∷ [])) old ≡ punch done old
unfolding punch
punch-zero [] [] = refl
punch-zero [] (o ∷ old) = refl
punch-zero (x ∷ done) [] = rw (punch-zero done []) refl
punch-zero (x ∷ done) (o ∷ old) = rw (punch-zero done old) refl

pad-overwrite :
    (t : Bytes) (n x : ℕ) → pad (overwrite t n (x ∷ [])) ≡ overwrite (pad t) (suc n) (x ∷ [])
unfolding pad overwrite
pad-overwrite [] zero x = refl
pad-overwrite [] (suc n) x = refl
pad-overwrite (y ∷ t) zero x = refl
pad-overwrite (y ∷ t) (suc n) x = refl

pub punch-byte :
    (done old : Bytes) (x : ℕ)
    → (x == 0) ≡ false
    → punch (done ++ (x ∷ [])) old ≡ overwrite (punch done old) (length done) (x ∷ [])
unfolding punch overwrite
punch-byte [] [] x ne = rw ne refl
punch-byte [] (o ∷ old) x ne = rw ne refl
punch-byte (y ∷ done) [] x ne = elim (Bool-cases (y == 0)) [
  | inl hit ↦ rw (hit, punch-byte done [] x ne) (pad-overwrite (punch done []) (length done) x)
  | inr miss ↦ rw (miss, punch-byte done [] x ne) refl
]
punch-byte (y ∷ done) (o ∷ old) x ne = rw (punch-byte done old x ne) refl

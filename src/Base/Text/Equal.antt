-- ===== src/Base/Text/Equal.antt =====
-- Equality of C strings, `strcmp(s, t) == 0`.
use stage.Base.{◌≡◌, refl, ◌==◌, ==_iff, ◌&&◌, Bool, true, false, [], ◌∷◌, arith}
use stage.Base.Text.{Bytes}

unfoldable pub bytes_eq : Bytes → Bytes → Bool
bytes_eq [] [] = true
bytes_eq [] (y ∷ ys) = false
bytes_eq (x ∷ xs) [] = false
bytes_eq (x ∷ xs) (y ∷ ys) = x == y && bytes_eq xs ys

pub bytes_eq_refl : (p : Bytes) → bytes_eq p p ≡ true
unfolding bytes_eq
bytes_eq_refl [] = refl
bytes_eq_refl (x ∷ p) = ground (arith, bytes_eq_refl p)

both : (a b : Bool) → (a && b) ≡ true → (a ≡ true) × (b ≡ true)
both true b e = (refl, e)
both false b e = cc

pub bytes_eq_sound : (p q : Bytes) → bytes_eq p q ≡ true → p ≡ q
unfolding bytes_eq
bytes_eq_sound [] [] e = refl
bytes_eq_sound [] (y ∷ q) e = cc
bytes_eq_sound (x ∷ p) [] e = cc
bytes_eq_sound (x ∷ p) (y ∷ q) e =
    let (head, tail) = both (x == y) (bytes_eq p q) e in
    cc ((==_iff x y).0 head, bytes_eq_sound p q tail)

pub bytes_eq_comm : (p q : Bytes) → bytes_eq p q ≡ bytes_eq q p
unfolding bytes_eq
bytes_eq_comm [] [] = refl
bytes_eq_comm [] (y ∷ q) = refl
bytes_eq_comm (x ∷ p) [] = refl
bytes_eq_comm (x ∷ p) (y ∷ q) = ground (arith, bytes_eq_comm p q)

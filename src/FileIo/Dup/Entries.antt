-- ===== src/FileIo/Dup/Entries.antt =====
-- The entries of the concrete system of Table.antt: which description a descriptor refers to, and the
-- lowest descriptor that is free.
use stage.Base.{
  ℕ, zero, suc, ◌==◌, ◌≡◌, ◌≤◌, ◌<◌, refl, ◌∙◌, false, Option, none, some, List, [], ◌∷◌, arith,
}
use stage.FileIo.Dup.Spec.{connect}

unfoldable pub place : List (Option ℕ) → ℕ → Option ℕ
place [] x = none
place (e ∷ es) zero = e
place (e ∷ es) (suc x) = place es x

unfoldable pub put : List (Option ℕ) → ℕ → Option ℕ → List (Option ℕ)
put [] zero a = a ∷ []
put [] (suc x) a = none ∷ put [] x a
put (e ∷ es) zero a = a ∷ es
put (e ∷ es) (suc x) a = e ∷ put es x a

-- The lowest free place that is not below a number.
unfoldable pub free_from : List (Option ℕ) → ℕ → ℕ
free_from [] n = n
free_from (e ∷ es) (suc n) = suc (free_from es n)
free_from (none ∷ es) zero = zero
free_from (some i ∷ es) zero = suc (free_from es zero)

shift : (x y : ℕ) → (suc x == suc y) ≡ (x == y)
shift x y = ground arith

apart_suc : (x : ℕ) → (0 == suc x) ≡ false
apart_suc x = ground arith

suc_apart : (x : ℕ) → (suc x == 0) ≡ false
suc_apart x = ground arith

pub place-put :
    (es : List (Option ℕ)) (n : ℕ) (a : Option ℕ) (x : ℕ)
    → place (put es n a) x ≡ connect (place es) n a x
unfolding place put connect
place-put [] zero a zero = refl
place-put [] zero a (suc x) = rw (apart_suc x) refl
place-put [] (suc n) a zero = rw (suc_apart n) refl
place-put [] (suc n) a (suc x) = place-put [] n a x ∙ rw (shift n x) refl
place-put (e ∷ es) zero a zero = refl
place-put (e ∷ es) zero a (suc x) = rw (apart_suc x) refl
place-put (e ∷ es) (suc n) a zero = rw (suc_apart n) refl
place-put (e ∷ es) (suc n) a (suc x) = place-put es n a x ∙ rw (shift n x) refl

abbrev pub IsLowest : List (Option ℕ) → ℕ → ℕ → Type 0
IsLowest es n new =
    (n ≤ new)
    × (place es new ≡ none)
    × ((m : ℕ) → n ≤ m → m < new → (j : ℕ) × (place es m ≡ some j))

pub free_from-IsLowest : (es : List (Option ℕ)) (n : ℕ) → IsLowest es n (free_from es n)
unfolding free_from place
free_from-IsLowest [] n = (omega arith, refl, λ m le lt. absurd (omega arith))
free_from-IsLowest (none ∷ es) zero = (omega arith, refl, λ m le lt. absurd (omega arith))
free_from-IsLowest (some i ∷ es) zero =
    let (le, free, passed) = free_from-IsLowest es zero in (omega arith, free, past passed)
  where
    past :
        ((m : ℕ) → 0 ≤ m → m < free_from es zero → (j : ℕ) × (place es m ≡ some j))
        → (m : ℕ) → 0 ≤ m
        → m < suc (free_from es zero)
        → (j : ℕ) × (place (some i ∷ es) m ≡ some j)
    past passed zero le lt = (i, refl)
    past passed (suc m) le lt = passed m (omega arith) (omega arith)
free_from-IsLowest (e ∷ es) (suc n) =
    let (le, free, passed) = free_from-IsLowest es n in (omega arith, free, past passed)
  where
    past :
        ((m : ℕ) → n ≤ m → m < free_from es n → (j : ℕ) × (place es m ≡ some j))
        → (m : ℕ) → suc n ≤ m
        → m < suc (free_from es n)
        → (j : ℕ) × (place (e ∷ es) m ≡ some j)
    past passed zero le lt = absurd (omega arith)
    past passed (suc m) le lt = passed m (omega arith) (omega arith)

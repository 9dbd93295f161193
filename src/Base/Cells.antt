-- ===== src/Base/Cells.antt =====
-- Arrays read with a default, and sums over a prefix of an array.
use Prim.Native.Nat.{ℕ, zero, suc, ◌+◌, ◌≤◌, ◌<◌}
use mathlib.Core.Path.{◌≡◌, refl}
use mathlib.Core.List.{List, [], ◌∷◌}
use native.Mathlib.Omega.{arith}
use stage.Base.Tests.{◌==◌, if◌then◌else◌}
use stage.Base.Lists.{length, get_or, set}

module _ {ℓ} {A : Type ℓ} where
  pub get_or-set :
      (xs : List A) (i j : ℕ) (v d : A)
      → i < length xs
      → get_or (set xs i v) j d ≡ (if i == j then v else get_or xs j d)
  get_or-set [] i j v d h = absurd (omega arith)
  get_or-set (x ∷ xs) zero zero v d h = refl
  get_or-set (x ∷ xs) zero (suc j) v d h = ground arith
  get_or-set (x ∷ xs) (suc i) zero v d h = ground arith
  get_or-set (x ∷ xs) (suc i) (suc j) v d h = ground (arith, get_or-set xs i j v d)

  -- Two arrays of one length with the same cells are one array.
  pub eq_of_get_or :
      (xs ys : List A) (d : A)
      → length xs ≡ length ys
      → ((i : ℕ) → i < length xs → get_or xs i d ≡ get_or ys i d)
      → xs ≡ ys
  eq_of_get_or [] [] d e h = refl
  eq_of_get_or [] (y ∷ ys) d e h = absurd (omega arith)
  eq_of_get_or (x ∷ xs) [] d e h = absurd (omega arith)
  eq_of_get_or (x ∷ xs) (y ∷ ys) d e h = λ i.
      (h 0 (omega arith) i)
      ∷ (eq_of_get_or xs ys d (omega arith) (λ k p. h (suc k) (omega arith)) i)

-- The sum of the first `n` cells.
pub sum_below : List ℕ → ℕ → ℕ
sum_below xs zero = 0
sum_below xs (suc n) = sum_below xs n + get_or xs n 0

unfoldable pub sum : List ℕ → ℕ
sum [] = 0
sum (x ∷ xs) = x + sum xs

pub sum_below-suc : (xs : List ℕ) (n : ℕ) → sum_below xs (suc n) ≡ sum_below xs n + get_or xs n 0
unfolding sum_below
sum_below-suc xs n = refl

pub sum_below-zero : (xs : List ℕ) → sum_below xs 0 ≡ 0
unfolding sum_below
sum_below-zero xs = refl

-- A write at or above `n` leaves the sum below `n` alone.
pub sum_below-set :
    (xs : List ℕ) (n i v : ℕ) → n ≤ i → i < length xs → sum_below (set xs i v) n ≡ sum_below xs n
unfolding sum_below
sum_below-set xs zero i v h p = refl
sum_below-set xs (suc n) i v h p = ground (arith, sum_below-set xs n i v, get_or-set xs i n v 0)

sum_below-cons : (x : ℕ) (xs : List ℕ) (n : ℕ) → sum_below (x ∷ xs) (suc n) ≡ x + sum_below xs n
unfolding sum_below
sum_below-cons x xs zero = omega arith
sum_below-cons x xs (suc n) = omega (arith, sum_below-cons x xs n)

pub sum_below-length : (xs : List ℕ) → sum_below xs (length xs) ≡ sum xs
unfolding sum_below sum
sum_below-length [] = refl
sum_below-length (x ∷ xs) = omega (arith, sum_below-cons x xs (length xs), sum_below-length xs)

-- `memset`: the first `n` cells, as far as there are any.
unfoldable pub memset : List ℕ → ℕ → ℕ → List ℕ
memset [] c n = []
memset (x ∷ xs) c zero = x ∷ xs
memset (x ∷ xs) c (suc n) = c ∷ memset xs c n

pub length-memset : (xs : List ℕ) (c n : ℕ) → length (memset xs c n) ≡ length xs
unfolding memset
length-memset [] c n = refl
length-memset (x ∷ xs) c zero = refl
length-memset (x ∷ xs) c (suc n) = omega (arith, length-memset xs c n)

pub get_or-memset :
    (xs : List ℕ) (c n i d : ℕ) → i < n → i < length xs → get_or (memset xs c n) i d ≡ c
unfolding memset
get_or-memset [] c n i d h p = absurd (omega arith)
get_or-memset (x ∷ xs) c zero i d h p = absurd (omega arith)
get_or-memset (x ∷ xs) c (suc n) zero d h p = refl
get_or-memset (x ∷ xs) c (suc n) (suc i) d h p =
    get_or-memset xs c n i d (omega arith) (omega arith)

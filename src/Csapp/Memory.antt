-- ===== src/Csapp/Memory.antt =====
-- stage0/csapp/data: exchange.c, mstore.c and main.c. Memory is a list of longs and a pointer an
-- index in it; an access outside it is none.
use stage.Base.{
  ℕ, zero, suc, ap, ◌<◌, ◌≡◌, ◌≢◌, refl, Option, some, List, [], ◌∷◌, ◌++◌, length, get_elem?, set,
  set?, get_elem?-total, get_elem?-set_self, get_elem?-set_ne, ◌>>=◌,
}
use stage.Base.Int.{ℤ, pos, ◌*ℤ◌}
use stage.Base.Text.{Bytes, codes, print_int}
use stage.Base.Words.{Fits, checked, checked64-some}

abbrev pub Memory : Type 0
Memory = List ℤ

-- `exchange`: the old value, and the memory.
unfoldable pub exchange : ℕ → ℤ → Memory → Option (ℤ × Memory)
exchange xp y memory = do x ← get_elem? memory xp; memory' ← set? memory xp y; some (x, memory')

unfoldable pub mult2 : ℤ → ℤ → Option ℤ
mult2 a b = checked 64 (a *ℤ b)

unfoldable pub mulstore : ℤ → ℤ → ℕ → Memory → Option Memory
mulstore x y dest memory = do t ← mult2 x y; set? memory dest t

-- `main` of main.c, where `before` is what `d` holds at first: what it prints.
unfoldable pub product_main : ℤ → Option Bytes
product_main before = do
  memory ← mulstore (pos 2) (pos 3) 0 (before ∷ [])
  d ← get_elem? memory 0
  some (codes "2 * 3 --> " ++ (print_int d ++ (10 ∷ [])))

-- A cell that is written twice is as it was where the second value is the first there was.
set_back :
    (memory : Memory) (p : ℕ) (x y : ℤ)
    → get_elem? memory p ≡ some x
    → set (set memory p y) p x ≡ memory
set_back [] p x y at = refl
set_back (z ∷ memory) zero x y at = cc
set_back (z ∷ memory) (suc p) x y at = ap (λ (m : Memory). z ∷ m) (set_back memory p x y at)

module _ (memory : Memory) (p : ℕ) (inside : p < length memory) where
  -- `exchange` with a pointer into memory returns what is there, stores the new value there and
  -- nothing elsewhere, and a second `exchange` with the value that was returned puts memory back
  -- as it was and returns the new value.
  pub exchange-exchange :
      (y : ℤ)
      → (x : ℤ) × (m : Memory) × (exchange p y memory ≡ some (x, m))
        × (get_elem? memory p ≡ some x)
        × (get_elem? m p ≡ some y)
        × ((q : ℕ) → p ≢ q → get_elem? m q ≡ get_elem? memory q)
        × (exchange p x m ≡ some (y, memory))
  unfolding exchange
  exchange-exchange y =
      let (x, at) = get_elem?-total memory p inside in
      (
        x,
        set memory p y,
        rw at refl,
        at,
        get_elem?-set_self memory p y inside,
        λ q apart. get_elem?-set_ne memory y apart,
        rw (get_elem?-set_self memory p y inside, set_back memory p x y at) refl,
      )

  -- `mulstore` with a pointer into memory stores the product there and nothing elsewhere, where
  -- the product is a long.
  pub mulstore-product :
      (x y : ℤ)
      → Fits 64 (x *ℤ y)
      → (m : Memory) × (mulstore x y p memory ≡ some m)
        × (get_elem? m p ≡ some (x *ℤ y))
        × ((q : ℕ) → p ≢ q → get_elem? m q ≡ get_elem? memory q)
  unfolding mulstore mult2
  mulstore-product x y h =
      let (old, at) = get_elem?-total memory p inside in
      (
        set memory p (x *ℤ y),
        rw (checked64-some (x *ℤ y) h, at) refl,
        get_elem?-set_self memory p (x *ℤ y) inside,
        λ q apart. get_elem?-set_ne memory (x *ℤ y) apart,
      )

-- ===== src/FileIo/Steps.antt =====
-- How a program over the calls of the system ends, reasoned out step by step.
use stage.Base.{
  Bool-cases, sym, ◌∙◌, ap, inl, inr, ◌≢◌, ◌<◌, ◌++◌, length, length-append, suc, ℕ, ◌==◌, ◌≡◌,
  refl, Bool, true, false, Option, none, some, [], ◌∷◌, arith,
}
use stage.Base.Text.{Bytes}
pub use stage.Base.Text.Equal.{bytes_eq_refl, bytes_eq_sound, bytes_eq_comm}
use stage.FileIo.{
  Desc, Result, ok, exits, out_of_fuel, M, and_then, or_exit, or_exit_if_not, Returns, Succeeds,
  bytes_eq, store, assign,
}

module _ {W : Type 0} where
  -- The result has the value and state that `P` allows, or the exit that `E` allows.
  abbrev pub Ends : {A : Type 0} → (A → W → Type 0) → (ℕ → W → Type 0) → Result W A → Type 0
  Ends P E (ok a w) = P a w
  Ends P E (exits n w) = E n w
  Ends P E out_of_fuel = ⊥

  pub Ends-map :
      {A : Type 0} (P Q : A → W → Type 0) (E D : ℕ → W → Type 0) (r : Result W A)
      → Ends P E r
      → ((a : A) (w : W) → P a w → Q a w)
      → ((n : ℕ) (w : W) → E n w → D n w)
      → Ends Q D r
  Ends-map P Q E D (ok a w) h goes stops = goes a w h
  Ends-map P Q E D (exits n w) h goes stops = stops n w h
  Ends-map P Q E D out_of_fuel h goes stops = absurd h

  module _ (E : ℕ → W → Type 0) where
    pub and_then-Ends :
        {A B : Type 0} (P : B → W → Type 0) (r : Result W A) (k : A → M W B)
        → Ends (λ a w. Ends P E (k a w)) E r
        → Ends P E (and_then r k)
    unfolding and_then
    and_then-Ends P (ok a w) k h = h
    and_then-Ends P (exits n w) k h = h
    and_then-Ends P out_of_fuel k h = h

    pub Ends-weaken :
        {A : Type 0} (P Q : A → W → Type 0) (r : Result W A)
        → Ends P E r
        → ((a : A) (w : W) → P a w → Q a w)
        → Ends Q E r
    Ends-weaken P Q (ok a w) h next = next a w h
    Ends-weaken P Q (exits n w) h next = h
    Ends-weaken P Q out_of_fuel h next = absurd h

    module _ (F : Type 0) (fails : (w : W) → F → E 1 w) where
      pub or_exit-Ends :
          {A : Type 0} (P Q : A → W → Type 0) (r : Option A × W)
          → Returns F Q r
          → ((a : A) (w : W) → Q a w → P a w)
          → Ends P E (or_exit r)
      unfolding or_exit
      or_exit-Ends P Q (none, w) h next = fails w h
      or_exit-Ends P Q (some a, w) h next = next a w h

      pub or_exit_if_not-Ends :
          (P : Unit {0} → W → Type 0) (Q : W → Type 0) (r : Bool × W)
          → Succeeds F Q r
          → ((w : W) → Q w → P tt w)
          → Ends P E (or_exit_if_not r)
      unfolding or_exit_if_not
      or_exit_if_not-Ends P Q (false, w) h next = fails w h
      or_exit_if_not-Ends P Q (true, w) h next = next w h

pub store-under :
    (f g : Bytes → Option Bytes) (p c q : Bytes) → f q ≡ g q → store f p c q ≡ store g p c q
unfolding store
store-under f g p c q e = rw e refl

-- A round that reads a byte leaves less than before.
pub shorter :
    (s u rest : Bytes) (fuel : ℕ)
    → s ≢ []
    → rest ≡ s ++ u
    → length rest < suc fuel
    → length u < fuel
shorter [] u rest fuel ne cut lt = absurd (ne refl)
shorter (x ∷ s) u rest fuel ne cut lt = omega (arith, ap length cut, length-append s u)

-- Two descriptors differ where one is open and the other is not.
pub apart_if :
    {A : Type 0} (descs : ℕ → Option A) (d : A) (x y : ℕ)
    → descs x ≡ some d
    → descs y ≡ none
    → (x == y) ≡ false
apart_if descs d x y there free = elim (Bool-cases (x == y)) [
  | inl hit ↦ absurd (differ (ap descs (equal hit)))
  | inr miss ↦ miss
]
  where
    equal : (x == y) ≡ true → x ≡ y
    equal hit = ground arith

    differ : descs x ≡ descs y → ⊥
    differ e = cc

-- Storing what is there changes nothing.
pub store-same :
    (files : Bytes → Option Bytes) (p c q : Bytes) → files p ≡ some c → store files p c q ≡ files q
unfolding store
store-same files p c q there = elim (Bool-cases (bytes_eq p q)) [
  | inl hit ↦ rw hit (sym there ∙ ap files (bytes_eq_sound p q hit))
  | inr miss ↦ rw miss refl
]

module _ (files : Bytes → Option Bytes) (p : Bytes) where
  pub store_self : (c : Bytes) → store files p c p ≡ some c
  unfolding store
  store_self c = rw (bytes_eq_refl p)

  pub store-other : (c q : Bytes) → bytes_eq p q ≡ false → store files p c q ≡ files q
  unfolding store
  store-other c q h = rw h

  pub store-store :
      (g : Bytes → Option Bytes) (c d : Bytes)
      → ((q : Bytes) → g q ≡ store files p c q)
      → (q : Bytes) → store g p d q ≡ store files p d q
  unfolding store
  store-store g c d h q = ground (arith, h q)

module _ (descs : ℕ → Option Desc) (fd : ℕ) (d : Desc) where
  pub assign_self : assign descs fd d fd ≡ some d
  unfolding assign
  assign_self = ground arith

  pub assign-other : (x : ℕ) → (fd == x) ≡ false → assign descs fd d x ≡ descs x
  unfolding assign
  assign-other x h = rw h

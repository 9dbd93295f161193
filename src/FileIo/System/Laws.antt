-- ===== src/FileIo/System/Laws.antt =====
-- The concrete system has the documented behaviour, and none of its calls fails without a reason.
use stage.Base.{
  ℕ, zero, suc, ◌==◌, ◌≡◌, ◌≤◌, ◌⊎◌, inl, inr, refl, if◌then◌else◌, true, false, Option, none, some,
  List, [], ◌∷◌, ◌++◌, length, take, drop, set, arith,
}
use stage.Base.Text.{Bytes}
use stage.FileIo.{Flags, Desc, Documented, Returns, store, assign, opened}
use stage.FileIo.System.{
  System, slot, open_as, open_found, move, read_from, read_at, write_to, write_at, seek_to, seek_in,
  seek_at, close_at, system,
}

slot-set :
    (ds : List (Option Desc)) (fd : ℕ) (d : Desc) (e : Option Desc) (x : ℕ)
    → slot ds fd ≡ some d
    → slot (set ds fd e) x ≡ (if fd == x then e else slot ds x)
unfolding slot
slot-set [] fd d e x h = cc
slot-set (o ∷ ds) zero d e zero h = refl
slot-set (o ∷ ds) zero d e (suc x) h = ground arith
slot-set (o ∷ ds) (suc fd) d e zero h = ground arith
slot-set (o ∷ ds) (suc fd) d e (suc x) h = ground (arith, slot-set ds fd d e x h)

slot-end : (ds : List (Option Desc)) → slot ds (length ds) ≡ none
unfolding slot
slot-end [] = refl
slot-end (o ∷ ds) = slot-end ds

slot-append :
    (ds : List (Option Desc)) (e : Desc) (x : ℕ)
    → slot (ds ++ (some e ∷ [])) x ≡ assign (slot ds) (length ds) e x
unfolding slot assign
slot-append [] e zero = refl
slot-append [] e (suc x) = ground arith
slot-append (o ∷ ds) e zero = ground arith
slot-append (o ∷ ds) e (suc x) = ground (arith, slot-append ds e x)

chunk :
    (n : ℕ) (rest : Bytes)
    → ((u : Bytes) × (rest ≡ take 1 (take (suc n) rest) ++ u))
      × (length (take 1 (take (suc n) rest)) ≤ suc n)
      × (take 1 (take (suc n) rest) ≡ [] → rest ≡ [])
chunk n [] = (([], refl), omega arith, λ e. refl)
chunk n (x ∷ rest) = ((rest, refl), omega arith, λ e. cc)

module _ (f : Flags) (p : Bytes) (w : System) where
  abbrev IsOpen : ℕ → System → Type 0
  IsOpen fd w' =
      (slot w.descs fd ≡ none)
      × ((q : Bytes) → w'.files q ≡ store w.files p (opened f (w.files p)) q)
      × ((x : ℕ)
          → slot w'.descs x
            ≡ assign (slot w.descs) fd (record { path = p; offset = 0; append = f.append }) x)

  IsOpen-as : Returns ⊥ IsOpen (open_as f p w)
  unfolding open_as
  IsOpen-as = (slot-end w.descs, λ q. refl, λ x. slot-append w.descs _ x)

  IsOpen-found :
      (o : Option Bytes)
      → ((c : Bytes) × (o ≡ some c)) ⊎ (f.create ≡ true)
      → Returns ⊥ IsOpen (open_found f p w o)
  unfolding open_found opened
  IsOpen-found none (inl there) = cc
  IsOpen-found none (inr create) = rw create IsOpen-as
  IsOpen-found (some c) may = IsOpen-as

missing-found :
    (f : Flags) (p : Bytes) (w : System) (o : Option Bytes)
    → o ≡ none
    → f.create ≡ false
    → ((open_found f p w o).0 ≡ none)
      × ((q : Bytes) → (open_found f p w o).1.files q ≡ w.files q)
      × ((x : ℕ) → slot (open_found f p w o).1.descs x ≡ slot w.descs x)
      × ((open_found f p w o).1.enoent ≡ true)
unfolding open_found
missing-found f p w none missing plain = rw plain (refl, λ q. refl, λ x. refl, refl)
missing-found f p w (some c) missing plain = cc

-- A descriptor that moves.
move-assign :
    (fd offset : ℕ) (d : Desc) (w : System) (x : ℕ)
    → slot w.descs fd ≡ some d
    → slot (move fd d w offset).descs x ≡ assign (slot w.descs) fd (record d { offset = offset }) x
unfolding move assign
move-assign fd offset d w x h = slot-set w.descs fd d (some (record d { offset = offset })) x h

pub system-Documented : Documented system ⊥
unfolding read_at read_from write_at write_to seek_at seek_in seek_to close_at move
system-Documented = record {
  file = λ w. w.files;
  desc = λ w. slot w.descs;
  open_lem = λ f p w may. IsOpen-found f p w (w.files p) may;
  open_missing = λ f p w missing plain. missing-found f p w (w.files p) missing plain;
  read_lem = λ fd n d c w hd hc.
      rw (hd, hc)
        (
          (chunk n (drop d.offset c)).0,
          (chunk n (drop d.offset c)).1,
          (chunk n (drop d.offset c)).2,
          λ q. refl,
          λ x. move-assign fd _ d w x hd,
        );
  write_lem = λ fd b d c s w hd hc.
      rw (hd, hc) (omega arith, inl refl, λ e. (λ q. refl, λ x. move-assign fd _ d w x hd));
  write_none = λ fd d w hd. rw hd (refl, λ q. refl, λ x. refl);
  read_none = λ fd d w hd. rw hd (refl, λ q. refl, λ x. refl);
  seek_lem = λ fd t d c offset whence w hd hc e.
      rw (hd, hc, e) (refl, λ q. refl, λ x. move-assign fd _ d w x hd);
  seek_negative = λ fd t d c offset whence w hd hc e. rw (hd, hc, e) (refl, λ q. refl);
  close_lem = λ fd d w hd. rw hd (λ q. refl, λ x. slot-set w.descs fd d none x hd);
}

pub system-Documented-file : (w : System) (p : Bytes) → system-Documented.file w p ≡ w.files p
unfolding system-Documented
system-Documented-file w p = refl

pub system-Documented-desc : (w : System) (x : ℕ) → system-Documented.desc w x ≡ slot w.descs x
unfolding system-Documented
system-Documented-desc w x = refl

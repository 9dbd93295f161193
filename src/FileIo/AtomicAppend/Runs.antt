-- ===== src/FileIo/AtomicAppend/Runs.antt =====
-- stage0/tlpi/fileio/atomic_append.c: two processes that append to one file, in any interleaving.
use mathlib.Core.List.{append_assoc, append-nil}
use stage.Base.{
  some-injective, ==-swap, ℕ, zero, suc, ◌+◌, ◌==◌, ◌≡◌, ◌≤◌, refl, sym, ap, ◌∙◌, Bool, true, false,
  some, List, [], ◌∷◌, ◌++◌, replicate, arith,
}
use stage.Base.Text.{Bytes}
use stage.FileIo.{Kernel, Documented, Desc}
use stage.FileIo.AtomicAppend.{Pc, opening, seeking, writing, closing, exited, step, interleave}
use stage.FileIo.AtomicAppend.Progress.{fd_of, written, left, appender}
use stage.FileIo.AtomicAppend.Inv.{content, IsThere, Local, step-Effect}

suc-add : (m n : ℕ) → suc (m + n) ≡ suc m + n
suc-add m n = omega arith

add-add : (a b d e : ℕ) → d ≡ a + e → a + b + e ≡ d + b
add-add a b d e h = omega arith

replicate-add : (m n : ℕ) → replicate {A = ℕ} m 0 ++ replicate n 0 ≡ replicate (m + n) 0
replicate-add zero n = ap (λ i. replicate i 0) (omega arith)
replicate-add (suc m) n =
    ap (λ t. 0 ∷ t) (replicate-add m n) ∙ ap (λ i. replicate i 0) (suc-add m n)

-- The turns of one process.
unfoldable pub turns_of : Bool → List Bool → ℕ
turns_of b [] = 0
turns_of true (true ∷ turns) = suc (turns_of true turns)
turns_of true (false ∷ turns) = turns_of true turns
turns_of false (true ∷ turns) = turns_of false turns
turns_of false (false ∷ turns) = suc (turns_of false turns)

-- A process has not exited with a status other than 0.
abbrev pub IsFine : Pc → Type 0
IsFine (exited s) = s ≡ 0
IsFine a = Unit {0}

module _ {W : Type 0} (k : Kernel W) (l : Documented k ⊥) (p : Bytes) where
  module _ (n m : ℕ) (before : Bytes) where
    -- The file holds what it held, and a byte for each round that is done.
    pub record Inv (a b : Pc) (w : W) : Type 0 where
      pub one : Local k l p n a w
      pub two : Local k l p m b w
      pub apart : (x y : ℕ) → fd_of a ≡ some x → fd_of b ≡ some y → (x == y) ≡ false
      pub total : content k l p w ≡ before ++ replicate (written n a + written m b) 0

  -- A process that does not step keeps what holds of it.
  Local-kept :
      (m : ℕ) (b : Pc) (w w' : W)
      → Local k l p m b w
      → ((x : ℕ) (d : Desc) → fd_of b ≡ some x → l.desc w x ≡ some d → l.desc w' x ≡ some d)
      → (IsThere k l p w → IsThere k l p w')
      → Local k l p m b w'
  unfolding fd_of
  Local-kept m opening w w' h keep present = tt
  Local-kept m (seeking fd i) w w' h keep present = h
  Local-kept m (writing fd i) w w' h keep present =
      (h.0, ((h.1.0.0, keep fd _ refl h.1.0.1), present h.1.1))
  Local-kept m (closing fd) w w' h keep present = ((h.0.0, keep fd _ refl h.0.1), present h.1)
  Local-kept m (exited s) w w' h keep present = h

  Local-open :
      (m : ℕ) (b : Pc) (x : ℕ) (w : W)
      → Local k l p m b w
      → fd_of b ≡ some x
      → (d : Desc) × (l.desc w x ≡ some d)
  unfolding fd_of
  Local-open m opening x w h e = cc
  Local-open m (seeking fd i) x w h e = absurd h
  Local-open m (writing fd i) x w h e = (_, ap (l.desc w) (some-injective x fd (sym e)) ∙ h.1.0.1)
  Local-open m (closing fd) x w h e = (_, ap (l.desc w) (some-injective x fd (sym e)) ∙ h.0.1)
  Local-open m (exited s) x w h e = cc

  Inv-swap :
      (n m : ℕ) (before : Bytes) (a b : Pc) (w : W) → Inv n m before a b w → Inv m n before b a w
  Inv-swap n m before a b w i = record {
    one = i.two;
    two = i.one;
    apart = λ x y fb fa. ==-swap y x (i.apart y x fa fb);
    total = i.total ∙ ap (λ j. before ++ replicate j 0) (omega arith);
  }

  step-Inv :
      (n m : ℕ) (before : Bytes) (a b : Pc) (w : W)
      → Inv n m before a b w
      → Inv n m before (step k (appender p n) a w).0 b (step k (appender p n) a w).1
  step-Inv n m before a b w i =
      let e = step-Effect k l p n a w i.one in
      record {
        one = e.local;
        two =
            Local-kept m b w _ i.two
              (λ x d fb open_x. (e.others x d open_x (λ y fa. i.apart y x fa fb)).0) e.present;
        apart = λ x y fa fb.
            let o = Local-open m b y w i.two fb in
            (e.others y o.0 o.1 (λ z fz. i.apart z y fz fb)).1 x fa;
        total =
            e.appended
            ∙ ap (λ t. t ++ replicate e.amount 0) i.total
            ∙ append_assoc before (replicate (written n a + written m b) 0) (replicate e.amount 0)
            ∙ ap (λ t. before ++ t) (replicate-add (written n a + written m b) e.amount)
            ∙ ap (λ j. before ++ replicate j 0)
                (add-add (written n a) (written m b) _ e.amount e.counted);
      }

  abbrev InvOf : ℕ → ℕ → Bytes → Pc × Pc × W → Type 0
  InvOf n m before (a, b, w) = Inv n m before a b w

  interleave-Inv :
      (n m : ℕ) (before : Bytes) (turns : List Bool) (a b : Pc) (w : W)
      → Inv n m before a b w
      → InvOf n m before (interleave k (appender p n) (appender p m) turns (a, b, w))
  unfolding interleave
  interleave-Inv n m before [] a b w i = i
  interleave-Inv n m before (true ∷ turns) a b w i =
      interleave-Inv n m before turns _ b _ (step-Inv n m before a b w i)
  interleave-Inv n m before (false ∷ turns) a b w i =
      interleave-Inv n m before turns a _ _
        (Inv-swap m n before _ a _ (step-Inv m n before b a w (Inv-swap n m before a b w i)))

  start-Inv : (n m : ℕ) (w : W) → Inv n m (content k l p w) opening opening w
  unfolding fd_of written
  start-Inv n m w = record {
    one = tt;
    two = tt;
    apart = λ x y e. cc;
    total = sym (append-nil (content k l p w));
  }

  Local-IsFine : (n : ℕ) (a : Pc) (w : W) → Local k l p n a w → IsFine a
  Local-IsFine n opening w h = tt
  Local-IsFine n (seeking fd i) w h = tt
  Local-IsFine n (writing fd i) w h = tt
  Local-IsFine n (closing fd) w h = tt
  Local-IsFine n (exited s) w h = h

  -- A process without a step left has exited.
  Local-exited : (n : ℕ) (a : Pc) (w : W) → Local k l p n a w → left n a ≤ 0 → a ≡ exited 0
  unfolding left
  Local-exited n opening w h le = absurd (omega arith)
  Local-exited n (seeking fd i) w h le = absurd h
  Local-exited n (writing fd i) w h le = absurd (omega arith)
  Local-exited n (closing fd) w h le = absurd (omega arith)
  Local-exited n (exited s) w h le = ap exited h

  abbrev pub Exited : Pc × Pc × W → Type 0
  Exited (a, b, w) = (a ≡ exited 0) × (b ≡ exited 0)

  interleave-Exited :
      (n m : ℕ) (before : Bytes) (turns : List Bool) (a b : Pc) (w : W)
      → Inv n m before a b w
      → left n a ≤ turns_of true turns
      → left m b ≤ turns_of false turns
      → Exited (interleave k (appender p n) (appender p m) turns (a, b, w))
  unfolding interleave turns_of
  interleave-Exited n m before [] a b w i one two =
      (Local-exited n a w i.one one, Local-exited m b w i.two two)
  interleave-Exited n m before (true ∷ turns) a b w i one two =
      interleave-Exited n m before turns _ b _ (step-Inv n m before a b w i)
        (omega (arith, (step-Effect k l p n a w i.one).steps)) two
  interleave-Exited n m before (false ∷ turns) a b w i one two =
      interleave-Exited n m before turns a _ _
        (Inv-swap m n before _ a _ (step-Inv m n before b a w (Inv-swap n m before a b w i))) one
        (omega (arith, (step-Effect k l p m b w i.two).steps))

  abbrev pub Appended : ℕ → ℕ → W → Pc × Pc × W → Type 0
  Appended n m w (a, b, w') =
      (content k l p w' ≡ content k l p w ++ replicate (written n a + written m b) 0)
      × IsFine a
      × IsFine b

  Inv-Appended :
      (n m : ℕ) (w : W) (s : Pc × Pc × W) → InvOf n m (content k l p w) s → Appended n m w s
  Inv-Appended n m w (a, b, w') i = (i.total, Local-IsFine n a w' i.one, Local-IsFine m b w' i.two)

  -- Where no call fails, two processes that append to one file lose no byte of each other: after
  -- any interleaving of their calls the file holds what it held and a byte for each round that one
  -- of the two has done, and neither has exited with an error.
  pub interleave-Appended :
      (n m : ℕ) (turns : List Bool) (w : W)
      → Appended n m w (interleave k (appender p n) (appender p m) turns (opening, opening, w))
  interleave-Appended n m turns w =
      Inv-Appended n m w (interleave k (appender p n) (appender p m) turns (opening, opening, w))
        (interleave-Inv n m (content k l p w) turns opening opening w (start-Inv n m w))

  abbrev pub AllAppended : ℕ → W → Pc × Pc × W → Type 0
  AllAppended total w (a, b, w') =
      (a ≡ exited 0) × (b ≡ exited 0) × (content k l p w' ≡ content k l p w ++ replicate total 0)

  Appended-AllAppended :
      (n m : ℕ) (w : W) (s : Pc × Pc × W) → Appended n m w s → Exited s → AllAppended (n + m) w s
  unfolding written
  Appended-AllAppended n m w (a, b, w') h e = (
    e.0,
    e.1,
    h.0
        ∙ ap (λ x. content k l p w ++ replicate (written n x + written m b) 0) e.0
        ∙ ap (λ x. content k l p w ++ replicate (n + written m x) 0) e.1,
  )

  -- Where no call fails, and each of the two processes gets two turns and one for each of its
  -- rounds, both exit with status 0, however the turns are mixed, and the file holds what it held
  -- and every byte of both.
  pub interleave-AllAppended :
      (n m : ℕ) (turns : List Bool) (w : W)
      → n + 2 ≤ turns_of true turns
      → m + 2 ≤ turns_of false turns
      → AllAppended
          (n + m)
          w
          (interleave k (appender p n) (appender p m) turns (opening, opening, w))
  unfolding left
  interleave-AllAppended n m turns w one two =
      Appended-AllAppended n m w
        (interleave k (appender p n) (appender p m) turns (opening, opening, w))
        (interleave-Appended n m turns w)
        (interleave-Exited n m (content k l p w) turns opening opening w (start-Inv n m w) one two)

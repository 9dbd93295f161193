-- ===== src/FileIo/AtomicAppend/Inv.antt =====
-- stage0/tlpi/fileio/atomic_append.c: what a step does to the file where O_APPEND is set.
use mathlib.Core.List.{append-nil}
use stage.Base.{
  left_if, ==-swap, ℕ, suc, ◌+◌, ◌-◌, ◌==◌, ◌≡◌, ◌<◌, ◌≤◌, ◌⊎◌, inl, inr, refl, sym, ap, ◌∙◌, ltb,
  if◌then◌else◌, Bool, true, false, Option, none, some, [], ◌∷◌, ◌++◌, length, replicate,
  Bool-cases, arith,
}
use stage.Base.Int.{pos}
use stage.Base.Text.{Bytes}
use stage.FileIo.{Kernel, Documented, Desc, Returns, Succeeds, opened, overwrite, write_offset}
use stage.FileIo.Steps.{apart_if}
use stage.FileIo.Calls.Single.{Holds, Frame, open-Holds, write-Holds}
use stage.FileIo.AtomicAppend.{
  Pc, opening, seeking, writing, closing, exited, append_flags, enter_round, after_open, next_round,
  opened_pc, wrote_pc, closed_pc, step,
}
use stage.FileIo.AtomicAppend.Progress.{
  fd_of, written, overwrite-end, left_opening, left_writing, only_fd, left, suc-eq, appender,
}

module _ {W : Type 0} (k : Kernel W) (l : Documented k ⊥) (p : Bytes) where
  -- The content of the file; none where it is not there.
  abbrev pub content : W → Bytes
  content w = opened (append_flags false) (l.file w p)

  abbrev pub IsThere : W → Type 0
  IsThere w = (c : Bytes) × (l.file w p ≡ some c)

  abbrev pub IsOpen : ℕ → W → Type 0
  IsOpen fd w =
      ((o : ℕ) × (l.desc w fd ≡ some (record { path = p; offset = o; append = true }))) × IsThere w

  -- What holds of a process with `n` rounds that stands at `pc`.
  abbrev pub Local : ℕ → Pc → W → Type 0
  Local n opening w = Unit {0}
  Local n (seeking fd i) w = ⊥
  Local n (writing fd i) w = (i < n) × IsOpen fd w
  Local n (closing fd) w = IsOpen fd w
  Local n (exited s) w = s ≡ 0

  -- What a step from `a` to `a'` does, also to the open descriptors of others.
  pub record Effect (n : ℕ) (a a' : Pc) (w w' : W) : Type 0 where
    pub local : Local n a' w'
    pub amount : ℕ
    pub appended : content w' ≡ content w ++ replicate amount 0
    pub counted : written n a' ≡ written n a + amount
    pub steps : left n a' ≡ left n a - 1
    pub others :
        (x : ℕ) (d : Desc)
        → l.desc w x ≡ some d
        → ((y : ℕ) → fd_of a ≡ some y → (y == x) ≡ false)
        → (l.desc w' x ≡ some d) × ((y : ℕ) → fd_of a' ≡ some y → (y == x) ≡ false)
    pub present : IsThere w → IsThere w'

  -- The call after `open`, and after round `i`.
  enter_round-Local :
      (n fd i : ℕ) (w : W) → i ≤ n → IsOpen fd w → Local n (enter_round false (pos n) fd i) w
  unfolding enter_round
  enter_round-Local n fd i w le o = elim (Bool-cases (ltb (i + 0) (n + 0))) [
    | inl hit ↦ rw hit (ground arith, o)
    | inr miss ↦ rw miss o
  ]

  enter_round-written : (n fd i : ℕ) → i ≤ n → written n (enter_round false (pos n) fd i) ≡ i
  unfolding enter_round written
  enter_round-written n fd i le = ground arith

  enter_round-fd_of : (n fd i : ℕ) → fd_of (enter_round false (pos n) fd i) ≡ some fd
  unfolding enter_round fd_of
  enter_round-fd_of n fd i = ground arith

  enter_round-left : (n fd i : ℕ) → i ≤ n → left n (enter_round false (pos n) fd i) ≡ (n - i) + 1
  unfolding enter_round left
  enter_round-left n fd i le = ground arith

  opened-there : (o : Option Bytes) (c : Bytes) → o ≡ some c → opened (append_flags false) o ≡ c
  unfolding opened
  opened-there none c e = cc
  opened-there (some d) c e = cc

  -- Opening the file makes it, or leaves it as it is.
  opened_pc-Effect :
      (n : ℕ) (w : W) (r : Option ℕ × W)
      → Returns ⊥
          (λ fd w'.
            (l.desc w fd ≡ none)
            × Holds k ⊥ l fd (record { path = p; offset = 0; append = true }) (content w) w'
            × Frame k ⊥ l fd p w w')
          r
      → Effect n opening (opened_pc (appender p n) r).0 w (opened_pc (appender p n) r).1
  unfolding opened_pc after_open written left
  opened_pc-Effect n w (none, w') h = absurd h
  opened_pc-Effect n w (some fd, w') h =
      let there : IsThere w' = (content w, h.1.1) in
      record {
        local = enter_round-Local n fd 0 w' (omega arith) ((0, h.1.0), there);
        amount = 0;
        appended = opened-there (l.file w' p) (content w) h.1.1 ∙ sym (append-nil (content w));
        counted = enter_round-written n fd 0 (omega arith);
        steps = enter_round-left n fd 0 (omega arith) ∙ left_opening n;
        others = λ x d open_x _.
            let apart = ==-swap x fd (apart_if (l.desc w) d x fd open_x h.0) in
            (
              h.2.0 x apart ∙ open_x,
              only_fd (enter_round false (pos n) fd 0) fd x (enter_round-fd_of n fd 0) apart,
            );
        present = λ _. there;
      }

  -- A write appends a byte.
  wrote_pc-Effect :
      (n fd i o : ℕ) (c : Bytes) (w : W) (r : Option ℕ × W)
      → i < n
      → Holds k ⊥ l fd (record { path = p; offset = o; append = true }) c w
      → Returns ⊥
          (λ m w'.
            (m ≤ 1)
            × ((m ≡ 1) ⊎ ⊥)
            × (m ≡ 1
                → Holds k ⊥ l fd
                    (record { path = p; offset = length c + m; append = true })
                    (overwrite c (length c) (0 ∷ []))
                    w'
                  × Frame k ⊥ l fd p w w'))
          r
      → Effect n
          (writing fd i)
          (wrote_pc (appender p n) fd i r).0
          w
          (wrote_pc (appender p n) fd i r).1
  unfolding wrote_pc next_round written fd_of left
  wrote_pc-Effect n fd i o c w (none, w') lt held h = absurd h
  wrote_pc-Effect n fd i o c w (some m, w') lt held h =
      let one = left_if h.1 in
      let e : (m == 1) ≡ true = ground arith in
      rw e (
        let g = h.2 one in
        record {
          local =
              enter_round-Local n fd (suc i) w' (omega arith)
                ((length c + m, g.0.0), (overwrite c (length c) (0 ∷ []), g.0.1));
          amount = 1;
          appended =
              opened-there (l.file w' p) _ g.0.1
              ∙ overwrite-end c (0 ∷ [])
              ∙ ap (λ t. t ++ (0 ∷ [])) (sym (opened-there (l.file w p) c held.1));
          counted = enter_round-written n fd (suc i) (omega arith) ∙ suc-eq i;
          steps = enter_round-left n fd (suc i) (omega arith) ∙ left_writing n i lt;
          others = λ x d open_x apart. (
            g.1.0 x (apart fd refl) ∙ open_x,
            only_fd (enter_round false (pos n) fd (suc i)) fd x (enter_round-fd_of n fd (suc i))
                (apart fd refl),
          );
          present = λ _. (overwrite c (length c) (0 ∷ []), g.0.1);
        })

  closed_pc-Effect :
      (n fd : ℕ) (w : W) (r : Bool × W)
      → IsThere w
      → Succeeds ⊥
          (λ w'.
            ((q : Bytes) → l.file w' q ≡ l.file w q)
            × ((x : ℕ) → l.desc w' x ≡ (if fd == x then none else l.desc w x)))
          r
      → Effect n (closing fd) (closed_pc r).0 w (closed_pc r).1
  unfolding closed_pc written fd_of left
  closed_pc-Effect n fd w (false, w') there h = absurd h
  closed_pc-Effect n fd w (true, w') there h = record {
    local = refl;
    amount = 0;
    appended = ap (opened (append_flags false)) (h.0 p) ∙ sym (append-nil (content w));
    counted = omega arith;
    steps = refl;
    others = λ x d open_x apart. (h.1 x ∙ rw (apart fd refl) open_x, λ y e. cc);
    present = λ o. (o.0, h.0 p ∙ o.1);
  }

  -- Every step of a process that appends.
  pub step-Effect :
      (n : ℕ) (a : Pc) (w : W)
      → Local n a w
      → Effect n a (step k (appender p n) a w).0 w (step k (appender p n) a w).1
  unfolding step write_offset left
  step-Effect n opening w h =
      opened_pc-Effect n w (k.sys_open (append_flags false) p w)
        (open-Holds k ⊥ l (append_flags false) p w (inr refl))
  step-Effect n (seeking fd i) w h = absurd h
  step-Effect n (writing fd i) w h =
      wrote_pc-Effect n fd i h.1.0.0 h.1.1.0 w (k.sys_write fd (0 ∷ []) w) h.0 (h.1.0.1, h.1.1.1)
        (write-Holds k ⊥ l fd _ h.1.1.0 w (h.1.0.1, h.1.1.1) 0 [])
  step-Effect n (closing fd) w h =
      closed_pc-Effect n fd w (k.sys_close fd w) h.1 (l.close_lem fd _ w h.0.1)
  step-Effect n (exited s) w h = record {
    local = h;
    amount = 0;
    appended = sym (append-nil (content w));
    counted = omega arith;
    steps = refl;
    others = λ x d open_x apart. (open_x, apart);
    present = λ o. o;
  }

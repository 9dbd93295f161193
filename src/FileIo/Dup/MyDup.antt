-- ===== src/FileIo/Dup/MyDup.antt =====
-- stage0/tlpi/fileio/dup.c: `my_dup2` against what dup2 promises, and `my_dup`.
use stage.Base.{
  ℕ, ◌==◌, ◌≡◌, ◌≤◌, ◌<◌, refl, sym, ap, ◌∙◌, inl, inr, true, false, Bool-cases, Option, none, some,
  Option-cases, ltb, ==-swap, arith,
}
use stage.Base.Text.{Bytes}
use stage.FileIo.Calls.{returned}
use stage.FileIo.Console.{Console}
use stage.FileIo.Dup.{Duplicates, my_dup, same_fd, make_room, other_fd, my_dup2}
use stage.FileIo.Dup.Spec.{Shared, connect, connect_hit, Dup2, shares, fails}

connect_same :
    (t : ℕ → Option ℕ) (fd : ℕ) (a : Option ℕ) (x : ℕ) → t fd ≡ a → t x ≡ connect t fd a x
unfolding connect
connect_same t fd a x e = elim (Bool-cases (fd == x)) [
  | inl hit ↦ rw hit (ap t (sym (equal hit)) ∙ e)
  | inr miss ↦ rw miss refl
]
  where
    equal : (fd == x) ≡ true → fd ≡ x
    equal hit = ground arith

connect-under :
    (t u : ℕ → Option ℕ) (fd : ℕ) (a : Option ℕ) (x : ℕ)
    → ((fd == x) ≡ false → t x ≡ u x)
    → connect t fd a x ≡ connect u fd a x
unfolding connect
connect-under t u fd a x same = elim (Bool-cases (fd == x)) [
  | inl hit ↦ rw hit refl
  | inr miss ↦ rw miss (same miss)
]

-- A free place between two numbers that the search has passed.
lowest :
    (t : ℕ → Option ℕ) (n new : ℕ)
    → n ≤ new
    → t n ≡ none
    → ((m : ℕ) → n ≤ m → m < new → (j : ℕ) × (t m ≡ some j))
    → new ≡ n
lowest t n new le free passed = elim (Bool-cases (ltb n new)) [
  | inl below ↦ absurd (taken (passed n (omega arith) (ground arith)))
  | inr at ↦ ground arith
]
  where
    taken : (j : ℕ) × (t n ≡ some j) → ⊥
    taken (j, e) = cc

-- dup2 does not close a descriptor where the old one is not open.
not-Dup2 :
    (oldfd newfd i : ℕ) (t t' : ℕ → Option ℕ) (r : Option ℕ)
    → t oldfd ≡ none
    → t newfd ≡ some i
    → t' newfd ≡ none
    → ¬ Dup2 oldfd newfd t t' r
not-Dup2 oldfd newfd i t t' r closed open_i gone (shares j open_j result table) = cc
not-Dup2 oldfd newfd i t t' r closed open_i gone (fails shut result table) =
    let e = table newfd in cc

module _ {W : Type 0} (k : Duplicates W) (l : Shared k ⊥) (oldfd newfd : ℕ) where
  -- The table and the result after `my_dup2`.
  abbrev pub IsDup2 : W → Option ℕ × Console W → Type 0
  IsDup2 w (r, (w', out)) = Dup2 oldfd newfd (l.entry w) (l.entry w') r

  getfl-entry : (fd : ℕ) (w : W) (x : ℕ) → l.entry (k.f_getfl fd w).1 x ≡ l.entry w x
  getfl-entry fd w x = elim (Option-cases (l.entry w fd)) [
    | inl closed ↦ (l.getfl_closed fd w closed).1 x
    | inr (i, open_i) ↦ (l.getfl_lem fd i w open_i).2 x
  ]

  same_fd-IsDup2 :
      (w : W) (out : Bytes) (r : Option ℕ × W)
      → (oldfd == newfd) ≡ true
      → ((i : ℕ) → l.entry w oldfd ≡ some i → (f : ℕ) × (r.0 ≡ some f))
      → (l.entry w oldfd ≡ none → r.0 ≡ none)
      → ((x : ℕ) → l.entry r.1 x ≡ l.entry w x)
      → IsDup2 w ((same_fd k newfd r).0, ((same_fd k newfd r).1, out))
  unfolding same_fd
  same_fd-IsDup2 w out (none, w') same here gone kept = elim (Option-cases (l.entry w oldfd)) [
    | inl closed ↦ fails closed refl (λ x. l.ebadf_lem w' x ∙ kept x)
    | inr (i, open_i) ↦ absurd (differ (here i open_i))
  ]
    where
      differ : (f : ℕ) × (◌≡◌ {A = Option ℕ} none (some f)) → ⊥
      differ (f, e) = cc
  same_fd-IsDup2 w out (some f, w') same here gone kept = elim (Option-cases (l.entry w oldfd)) [
    | inl closed ↦ absurd (differ (gone closed))
    | inr (i, open_i) ↦ shares i open_i refl (λ x.
        kept x ∙ connect_same (l.entry w) newfd (some i) x (ap (l.entry w) (sym equal) ∙ open_i))
  ]
    where
      differ : some f ≡ none → ⊥
      differ e = cc

      equal : oldfd ≡ newfd
      equal = ground arith

  -- Where newfd is free, F_DUPFD takes it.
  other_fd-IsDup2 :
      (w w1 : W) (out : Bytes)
      → (oldfd == newfd) ≡ false
      → l.entry w1 newfd ≡ none
      → ((x : ℕ) → (newfd == x) ≡ false → l.entry w1 x ≡ l.entry w x)
      → (l.entry w oldfd ≡ none → l.entry w newfd ≡ none)
      → IsDup2 w (other_fd k oldfd newfd (w1, out))
  unfolding other_fd connect
  other_fd-IsDup2 w w1 out differ free kept closed_too = elim (Option-cases (l.entry w oldfd)) [
    | inl closed ↦
        let r = l.dupfd_closed oldfd newfd w1 (kept oldfd (==-swap oldfd newfd differ) ∙ closed) in
        fails closed r.0 (λ x. r.1 x ∙ elim (Bool-cases (newfd == x)) [
          | inl hit ↦
              let e : newfd ≡ x = ground arith in
              ap (l.entry w1) (sym e) ∙ free ∙ sym (closed_too closed) ∙ ap (l.entry w) e
          | inr miss ↦ kept x miss
        ])
    | inr (i, open_i) ↦
        let r =
          returned _ (k.f_dupfd oldfd newfd w1)
            (l.dupfd_lem oldfd newfd i w1 (kept oldfd (==-swap oldfd newfd differ) ∙ open_i)) in
        let new = lowest (l.entry w1) newfd r.0 r.3.0 free r.3.2 in
        rw r.2 (
          shares i open_i (ap some new) (λ x.
            r.3.3 x
            ∙ ap (λ n. connect (l.entry w1) n (some i) x) new
            ∙ connect-under (l.entry w1) (l.entry w) newfd (some i) x (kept x)))
  ]

  -- What `make_room` leaves: the new descriptor is free, and no other one differs.
  make_room-free :
      (w : W) (out : Bytes) (r : Option ℕ × W)
      → ((i : ℕ) → l.entry w newfd ≡ some i → (f : ℕ) × (r.0 ≡ some f))
      → (l.entry w newfd ≡ none → r.0 ≡ none)
      → ((x : ℕ) → l.entry r.1 x ≡ l.entry w x)
      → (l.entry (make_room k newfd r out).0 newfd ≡ none)
        × ((x : ℕ) → (newfd == x) ≡ false → l.entry (make_room k newfd r out).0 x ≡ l.entry w x)
  unfolding make_room connect
  make_room-free w out (none, w') here gone kept = elim (Option-cases (l.entry w newfd)) [
    | inl closed ↦ (kept newfd ∙ closed, λ x _. kept x)
    | inr (i, open_i) ↦ absurd (differ (here i open_i))
  ]
    where
      differ : (f : ℕ) × (◌≡◌ {A = Option ℕ} none (some f)) → ⊥
      differ (f, e) = cc
  make_room-free w out (some f, w') here gone kept = elim (Option-cases (l.entry w newfd)) [
    | inl closed ↦ absurd (differ (gone closed))
    | inr (i, open_i) ↦
        let closes = l.close_lem newfd i w' (kept newfd ∙ open_i) in
        (closes newfd ∙ connect_hit (l.entry w') newfd none, λ x miss. closes x ∙ rw miss (kept x))
  ]
    where
      differ : some f ≡ none → ⊥
      differ e = cc

  -- Before F_DUPFD the new descriptor is free, and no other one differs.
  room_made :
      (w : W) (out : Bytes)
      → (l.entry (make_room k newfd (k.f_getfl newfd w) out).0 newfd ≡ none)
        × ((x : ℕ)
            → (newfd == x) ≡ false
            → l.entry (make_room k newfd (k.f_getfl newfd w) out).0 x ≡ l.entry w x)
  room_made w out =
      make_room-free w out (k.f_getfl newfd w) (λ i open_i. (_, (l.getfl_lem newfd i w open_i).0))
        (λ closed. (l.getfl_closed newfd w closed).0) (getfl-entry newfd w)

  -- Where no call fails, and unless the old descriptor is closed and the new one is another that is
  -- open, `my_dup2` keeps the promise of dup2: an open old descriptor is shared under the new
  -- number, whatever that referred to before, and a closed one is refused.
  pub my_dup2-IsDup2 :
      (w : W) (out : Bytes)
      → (l.entry w oldfd ≡ none → (oldfd == newfd) ≡ false → l.entry w newfd ≡ none)
      → IsDup2 w (my_dup2 k oldfd newfd (w, out))
  unfolding my_dup2
  my_dup2-IsDup2 w out fair = elim (Bool-cases (oldfd == newfd)) [
    | inl same ↦ rw same (
        same_fd-IsDup2 w out (k.f_getfl oldfd w) same
          (λ i open_i. (_, (l.getfl_lem oldfd i w open_i).0))
          (λ closed. (l.getfl_closed oldfd w closed).0) (getfl-entry oldfd w))
    | inr differ ↦ rw differ (
        let room = room_made w out in
        other_fd-IsDup2 w (make_room k newfd (k.f_getfl newfd w) out).0
          (make_room k newfd (k.f_getfl newfd w) out).1 differ room.0 room.1
          (λ closed. fair closed differ))
  ]

  -- Where the old descriptor is closed and the new one is another that is open, `my_dup2` returns
  -- -1 and has closed the new descriptor, which dup2 would have left open.
  pub my_dup2_closes :
      (i : ℕ) (w : W) (out : Bytes)
      → l.entry w oldfd ≡ none
      → (oldfd == newfd) ≡ false
      → l.entry w newfd ≡ some i
      → ((my_dup2 k oldfd newfd (w, out)).0 ≡ none)
        × (l.entry (my_dup2 k oldfd newfd (w, out)).1.0 newfd ≡ none)
        × ¬ IsDup2 w (my_dup2 k oldfd newfd (w, out))
  unfolding my_dup2 other_fd
  my_dup2_closes i w out closed differ open_i =
      let room = room_made w out in
      let r = l.dupfd_closed oldfd newfd _ (room.1 oldfd (==-swap oldfd newfd differ) ∙ closed) in
      rw differ
        (r.0, r.1 newfd ∙ room.0, not-Dup2 oldfd newfd i _ _ _ closed open_i (r.1 newfd ∙ room.0))

  -- Where no call fails, `my_dup` of an open descriptor returns one that was free, which refers to the
  -- same, but always a higher one, even where a lower one is free.
  pub my_dup_above :
      (i : ℕ) (w : W)
      → l.entry w oldfd ≡ some i
      → (new : ℕ) × (w' : W) × (my_dup k oldfd w ≡ (some new, w'))
        × (oldfd < new)
        × (l.entry w new ≡ none)
        × ((x : ℕ) → l.entry w' x ≡ connect (l.entry w) new (some i) x)
  unfolding my_dup
  my_dup_above i w here =
      let r = returned _ (k.f_dupfd oldfd oldfd w) (l.dupfd_lem oldfd oldfd i w here) in
      (r.0, r.1, r.2, above r.0 r.3.0 r.3.1, r.3.1, r.3.3)
    where
      differ : l.entry w oldfd ≡ none → ⊥
      differ free = cc

      above : (new : ℕ) → oldfd ≤ new → l.entry w new ≡ none → oldfd < new
      above new le free = elim (Bool-cases (oldfd == new)) [
        | inl same ↦ let e : oldfd ≡ new = ground arith in absurd (differ (ap (l.entry w) e ∙ free))
        | inr apart ↦ ground arith
      ]

-- ===== src/Kilo/Input/Keys.antt =====
-- The byte sequences that `editorReadKey` of stage0/kilo/kilo.c takes for keys.
use stage.Base.{
  ℕ, ◌<◌, ◌≡◌, ◌≢◌, ◌∙◌, refl, ◌↔◌, ◌⊎◌, inl, inr, true, ◌==◌, Bool-cases, List, [], ◌∷◌, ◌++◌,
  arith, length,
}
use stage.Base.Int.{ℤ, pos, ltb_ℤ}
use stage.Kilo.{
  Read, byte, nothing, again, failed, escseq, char_int, arrow_left, arrow_right, arrow_up,
  arrow_down,
}
use stage.Kilo.Input.{
  KeyRead, key, died, waiting, arrow, read_final, read_sequence, editor_read_key,
}

pub data Direction : Type 0 where
  up down right left : Direction

-- The last byte of the sequence that a terminal sends for an arrow key.
abbrev pub letter : Direction → ℕ
letter up = b'A'
letter down = b'B'
letter right = b'C'
letter left = b'D'

abbrev pub key_code : Direction → ℤ
key_code up = arrow_up
key_code down = arrow_down
key_code right = arrow_right
key_code left = arrow_left

-- Reads that bring no byte and no error.
abbrev pub Idle : List Read → Type 0
Idle [] = Unit {0}
Idle (byte c ∷ reads) = ⊥
Idle (nothing ∷ reads) = Idle reads
Idle (again ∷ reads) = Idle reads
Idle (failed ∷ reads) = ⊥

-- Reads that end in the bytes ESC, '[' and the letter of a direction, and go on with `rest`.
abbrev pub sequence : Direction → List Read → List Read
sequence d rest = byte escseq ∷ byte b'[' ∷ byte (letter d) ∷ rest

pub editor_read_key-Idle :
    (idle reads : List Read) → Idle idle → editor_read_key (idle ++ reads) ≡ editor_read_key reads
unfolding editor_read_key
editor_read_key-Idle [] reads h = refl
editor_read_key-Idle (byte c ∷ idle) reads h = absurd h
editor_read_key-Idle (nothing ∷ idle) reads h = editor_read_key-Idle idle reads h
editor_read_key-Idle (again ∷ idle) reads h = editor_read_key-Idle idle reads h
editor_read_key-Idle (failed ∷ idle) reads h = absurd h

byte-char :
    (c : ℕ) (rest : List Read)
    → c ≢ escseq
    → editor_read_key (byte c ∷ rest) ≡ key (char_int c) rest
unfolding editor_read_key
byte-char c rest h = ground arith

read_key-sequence :
    (d : Direction) (rest : List Read) → editor_read_key (sequence d rest) ≡ key (key_code d) rest
unfolding editor_read_key read_sequence read_final arrow
read_key-sequence up rest = refl
read_key-sequence down rest = refl
read_key-sequence right rest = refl
read_key-sequence left rest = refl

-- An arrow's code, told from the number of a `char`.
abbrev IsArrow : ℤ → Type 0
IsArrow k = ltb_ℤ (pos 999) k ≡ true

-- The reads begin with a wait and then the sequence of the key `k`.
abbrev Spells : List Read → ℤ → List Read → Type 0
Spells reads k rest =
    (idle : List Read) × (d : Direction) × Idle idle
    × (reads ≡ idle ++ sequence d rest)
    × (k ≡ key_code d)

arrow-letter :
    (c : ℕ) → IsArrow (arrow c) → (d : Direction) × (c ≡ letter d) × (arrow c ≡ key_code d)
unfolding arrow
arrow-letter c h = elim (Bool-cases (c == b'A')) [
  | inl a ↦ (up, ground arith, ground arith)
  | inr na ↦ elim (Bool-cases (c == b'B')) [
    | inl b ↦ (down, ground arith, ground arith)
    | inr nb ↦ elim (Bool-cases (c == b'C')) [
      | inl c' ↦ (right, ground arith, ground arith)
      | inr nc ↦ (left, ground arith, ground arith)
    ]
  ]
]

key-injective : (j k : ℤ) (r s : List Read) → key j r ≡ key k s → (j ≡ k) × (r ≡ s)
key-injective j k r s e = (cc, cc)

not-key {ℓ} :
    {A : Type ℓ} (m : KeyRead) (k : ℤ) (s : List Read) → m ≡ waiting ⊎ (m ≡ died) → m ≡ key k s → A
not-key m k s (inl e) f = cc
not-key m k s (inr e) f = cc

read_final-Spells :
    (b c : ℕ) (reads rest : List Read) (k : ℤ)
    → read_final b (byte c ∷ reads) ≡ key k rest
    → IsArrow k
    → Spells (byte escseq ∷ byte b ∷ byte c ∷ reads) k rest
unfolding read_final
read_final-Spells b c reads rest k e h =
    let (same, tail) = key-injective _ k reads rest e in
    elim (Bool-cases (b == b'[')) [
      | inl open' ↦
          let value : arrow c ≡ k = rw open' at same in
          let (d, at, code) = arrow-letter c (rw (← value) at h) in
          ([], d, tt, ground arith, ground arith)
      | inr other ↦ absurd (ground arith)
    ]

char_int-not_arrow : (c : ℕ) → IsArrow (char_int c) → ⊥
unfolding char_int
char_int-not_arrow c h = ground arith

sequence-Spells :
    (reads rest : List Read) (k : ℤ)
    → read_sequence reads ≡ key k rest
    → IsArrow k
    → Spells (byte escseq ∷ reads) k rest
unfolding read_sequence read_final
sequence-Spells [] rest k e h = cc
sequence-Spells (byte b ∷ []) rest k e h = cc
sequence-Spells (byte b ∷ byte c ∷ reads) rest k e h = read_final-Spells b c reads rest k e h
sequence-Spells (byte b ∷ nothing ∷ reads) rest k e h = ground arith
sequence-Spells (byte b ∷ again ∷ reads) rest k e h = ground arith
sequence-Spells (byte b ∷ failed ∷ reads) rest k e h = ground arith
sequence-Spells (nothing ∷ reads) rest k e h = ground arith
sequence-Spells (again ∷ reads) rest k e h = ground arith
sequence-Spells (failed ∷ reads) rest k e h = ground arith

Idle-Spells :
    (r : Read) (reads rest : List Read) (k : ℤ)
    → Idle (r ∷ [])
    → Spells reads k rest
    → Spells (r ∷ reads) k rest
Idle-Spells (byte c) reads rest k h s = absurd h
Idle-Spells nothing reads rest k h (idle, d, i, e, c) = (nothing ∷ idle, d, i, rw e, c)
Idle-Spells again reads rest k h (idle, d, i, e, c) = (again ∷ idle, d, i, rw e, c)
Idle-Spells failed reads rest k h s = absurd h

editor_read_key-Spells :
    (reads rest : List Read) (k : ℤ)
    → editor_read_key reads ≡ key k rest
    → IsArrow k
    → Spells reads k rest
unfolding editor_read_key
editor_read_key-Spells [] rest k e h = cc
editor_read_key-Spells (byte c ∷ reads) rest k e h = elim (Bool-cases (c == escseq)) [
  | inl esc ↦
      let code : c ≡ escseq = ground arith in rw code (sequence-Spells reads rest k (rw esc at e) h)
  | inr plain ↦
      let (same, tail) = key-injective (char_int c) k reads rest (rw plain at e) in
      absurd (char_int-not_arrow c (rw (← same) at h))
]
editor_read_key-Spells (nothing ∷ reads) rest k e h =
    Idle-Spells nothing reads rest k tt (editor_read_key-Spells reads rest k e h)
editor_read_key-Spells (again ∷ reads) rest k e h =
    Idle-Spells again reads rest k tt (editor_read_key-Spells reads rest k e h)
editor_read_key-Spells (failed ∷ reads) rest k e h = cc

key_code-IsArrow : (d : Direction) → IsArrow (key_code d)
key_code-IsArrow up = refl
key_code-IsArrow down = refl
key_code-IsArrow right = refl
key_code-IsArrow left = refl

key_code-injective : (d d' : Direction) → key_code d ≡ key_code d' → d ≡ d'
key_code-injective d d' e = ground arith

-- `editorReadKey` returns an arrow key exactly when, after any wait, the bytes are ESC, '[' and
-- the letter of that arrow; it then leaves the reads behind the letter.
pub editor_read_key-arrow :
    (d : Direction) (reads rest : List Read)
    → (editor_read_key reads ≡ key (key_code d) rest)
      ↔ ((idle : List Read) × Idle idle × (reads ≡ idle ++ sequence d rest))
editor_read_key-arrow d reads rest = (
  λ e.
      let (idle, d', i, spelled, code) =
        editor_read_key-Spells reads rest (key_code d) e (key_code-IsArrow d) in
      (idle, i, rw (key_code-injective d d' code) spelled),
  λ (idle, i, e). rw (e, editor_read_key-Idle idle (sequence d rest) i) (read_key-sequence d rest),
)

-- Any byte but ESC, after any wait, is the key of its `char`.
pub editor_read_key-char :
    (idle rest : List Read) (c : ℕ)
    → Idle idle
    → c ≢ escseq
    → editor_read_key (idle ++ (byte c ∷ rest)) ≡ key (char_int c) rest
editor_read_key-char idle rest c i h =
    editor_read_key-Idle idle (byte c ∷ rest) i ∙ byte-char c rest h

-- A key takes at least one read.
pub length-editor_read_key :
    (reads rest : List Read) (k : ℤ)
    → editor_read_key reads ≡ key k rest
    → length rest < length reads
unfolding editor_read_key read_sequence read_final
length-editor_read_key [] rest k e = cc
length-editor_read_key (byte c ∷ []) rest k e = ground arith
length-editor_read_key (byte c ∷ byte b ∷ []) rest k e = ground arith
length-editor_read_key (byte c ∷ byte b ∷ byte a ∷ reads) rest k e = ground arith
length-editor_read_key (byte c ∷ byte b ∷ r ∷ reads) rest k e = ground arith
length-editor_read_key (byte c ∷ r ∷ reads) rest k e = ground arith
length-editor_read_key (nothing ∷ reads) rest k e =
    omega (arith, length-editor_read_key reads rest k e)
length-editor_read_key (again ∷ reads) rest k e =
    omega (arith, length-editor_read_key reads rest k e)
length-editor_read_key (failed ∷ reads) rest k e = cc

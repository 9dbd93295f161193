-- ===== src/Env/Spider.antt =====
-- stage0/tlpi/proc/setenv.c: `main`, and `unsetenv2` up to its loop, which the source does not
-- finish. What `unsetenv2` does is a parameter of `main`.
use stage.Base.{
  ℕ, ◌≡◌, Bool-cases, refl, ◌∙◌, ap, ◌⊎◌, inl, inr, ◌==◌, ◌&&◌, ◌||◌, ◌++◌, ◌∷◌, [], not,
  if◌then◌else◌, Bool, true, false, Option, none, some, length,
}
use stage.Base.Int.{ℤ, pos, negsuc, ltb_ℤ, eq_ℤ}
use stage.Base.Text.{Bytes, codes}
use stage.Base.Text.Equal.{bytes_eq, bytes_eq_refl}
use stage.FileIo.Steps.{store_self}
use stage.Env.{Environ, Documented, Calls, has_equals, is_name, is_set, setenv2}
use stage.Env.Assign.{Assigns, Failed, setenv2-Assigns}

-- How `unsetenv2` comes out in front of its loop: EINVAL, a call that fails, or the loop with the
-- string that it looks for at the start of each variable.
pub data Unset : Type 0 where
  invalid : Unset
  fails : Unset
  scans : Bytes → Unset

unfoldable pub invalid_name : Option Bytes → Bool
invalid_name none = true
invalid_name (some name) = length name == 0 || has_equals name

unfoldable pub unset_string : Option Bytes → Bytes
unset_string none = []
unset_string (some name) = name ++ (b'=' ∷ [])

unfoldable pub unsetenv2_start : Calls → Option Bytes → Unset
unfolding invalid_name unset_string
unsetenv2_start c name =
    if invalid_name name
    then invalid
    else if ltb_ℤ c.measured (pos 0)
    then fails
    else if not c.allocated
    then fails
    else if not (eq_ℤ c.printed c.measured)
    then fails
    else scans (unset_string name)

-- How `main` ends: an exit, an assertion that fails, or `strcmp` of a null pointer.
pub data SpiderEnd (E : Type 0) : Type 0 where
  exits : ℕ → E → SpiderEnd E
  aborts : SpiderEnd E
  faults : SpiderEnd E

module _ {E : Type 0} where
  -- `if (... == -1) exit(EXIT_FAILURE)`
  unfoldable pub or_failure : ℤ × E → (E → SpiderEnd E) → SpiderEnd E
  or_failure (r, e) go = if eq_ℤ r (negsuc 0) then exits 1 e else go e

  -- `assert(strcmp(getenv(...), value) == 0)`
  unfoldable pub assert_is : Option Bytes → Bytes → SpiderEnd E → SpiderEnd E
  assert_is none value next = faults
  assert_is (some found) value next = if bytes_eq found value then next else aborts

abbrev pub spider : Bytes
spider = codes "SPIDER"

spider-name : is_name spider ≡ true
unfolding is_name
spider-name = refl

is_none-kept : (value : Bytes) → (if is_set none then none else some value) ≡ some value
unfolding is_set
is_none-kept value = refl

is_some-kept :
    (text value : Bytes) → (if is_set (some text) then some text else some value) ≡ some text
unfolding is_set
is_some-kept text value = refl

module _ {E : Type 0} (n : Environ E) (unsetenv2 : Bytes → E → ℤ × E) where
  -- The rounds of `main`, last first.
  unfoldable pub unset_spider : E → SpiderEnd E
  unset_spider e = or_failure (unsetenv2 spider e) (λ e'. exits 0 e')

  unfoldable pub third_round : Calls → E → SpiderEnd E
  third_round c e =
      or_failure (setenv2 n c spider (codes "WOMAN") true e)
        (λ e'. assert_is (n.getenv e' spider) (codes "WOMAN") (unset_spider e'))

  unfoldable pub second_round : Calls → Calls → E → SpiderEnd E
  second_round c2 c3 e =
      or_failure (setenv2 n c2 spider (codes "WOMAN") false e)
        (λ e'. assert_is (n.getenv e' spider) (codes "MAN") (third_round c3 e'))

  -- `main`, from the environment that `environ = NULL` makes.
  unfoldable pub setenv_main : Calls → Calls → Calls → E → SpiderEnd E
  setenv_main c1 c2 c3 e =
      or_failure (setenv2 n c1 spider (codes "MAN") false e)
        (λ e'. assert_is (n.getenv e' spider) (codes "MAN") (second_round c2 c3 e'))

  -- Status 1 where something fails, or status 0 with SPIDER set to WOMAN in the environment `last`
  -- from which `unsetenv2` makes the one at the exit.
  abbrev pub HoldsAll : Type 0 → E → SpiderEnd E → Type 0
  HoldsAll F last (exits status e) =
      ((status ≡ 1) × F)
      ⊎ ((status ≡ 0)
          × (n.getenv last spider ≡ some (codes "WOMAN"))
          × ((unsetenv2 spider last).1 ≡ e))
  HoldsAll F last aborts = ⊥
  HoldsAll F last faults = ⊥

  asserted :
      (F : Type 0) (last : E) (found : Option Bytes) (value : Bytes) (next : SpiderEnd E)
      → found ≡ some value
      → HoldsAll F last next
      → HoldsAll F last (assert_is found value next)
  unfolding assert_is
  asserted F last found value next e h = rw (e, assert_is, bytes_eq_refl value) h

  -- A call that `setenv2` makes in the environment `e` for SPIDER and a value fails.
  abbrev pub Fails : Calls → Bytes → Bool → E → Type 0
  Fails c value overwrite e =
      Failed c (not overwrite && is_set (n.getenv e spider))
        (n.putenv (spider ++ (b'=' ∷ value)) e).0

  -- A round: `setenv2` fails, or the variable has the value that is asserted.
  round-HoldsAll :
      (F : Type 0) (last : E) (value text : Bytes) (overwrite : Bool) (c : Calls) (e : E)
      (r : ℤ × E) (next : E → SpiderEnd E)
      → (if not overwrite && is_set (n.getenv e spider) then n.getenv e spider else some value)
        ≡ some text
      → (Fails c value overwrite e → F)
      → Assigns n c spider value overwrite e spider value r
      → (n.getenv r.1 spider ≡ some text → HoldsAll F last (next r.1))
      → HoldsAll F last (or_failure r (λ e'. assert_is (n.getenv e' spider) text (next e')))
  unfolding or_failure
  round-HoldsAll F last value text overwrite c e (r, e') next is fail (inl (done, set)) go =
      let found : n.getenv e' spider ≡ some text =
        set spider spider-name
        ∙ ap (λ o. if not overwrite && is_set (n.getenv e spider) then n.getenv e spider else o)
            (store_self (n.getenv e) spider value)
        ∙ is in
      rw done (asserted F last (n.getenv e' spider) text (next e') found (go found))
  round-HoldsAll F last value text overwrite c e (r, e') next is fail (inr (miss, same, why)) go =
      rw miss (inl (refl, fail why))

  unset-HoldsAll :
      (F : Type 0) (e : E) (r : ℤ × E)
      → ((eq_ℤ r.0 (negsuc 0) ≡ true) → F)
      → n.getenv e spider ≡ some (codes "WOMAN")
      → (unsetenv2 spider e).1 ≡ r.1
      → HoldsAll F e (or_failure r (λ e'. exits 0 e'))
  unfolding or_failure
  unset-HoldsAll F e (r, e') fail set same = elim (Bool-cases (eq_ℤ r (negsuc 0))) [
    | inl bad ↦ rw bad (inl (refl, fail bad))
    | inr good ↦ rw good (inr (refl, set, same))
  ]

  module _ (c1 c2 c3 : Calls) (e : E) where
    -- The environments behind the calls of `setenv2`.
    abbrev pub first : E
    first = (setenv2 n c1 spider (codes "MAN") false e).1

    abbrev pub second : E
    second = (setenv2 n c2 spider (codes "WOMAN") false first).1

    abbrev pub third : E
    third = (setenv2 n c3 spider (codes "WOMAN") true second).1

    -- A call fails in the environment in which the run makes it.
    abbrev pub SomeFails : Type 0
    SomeFails =
        Fails c1 (codes "MAN") false e
        ⊎ Fails c2 (codes "WOMAN") false first
        ⊎ Fails c3 (codes "WOMAN") true second
        ⊎ (eq_ℤ (unsetenv2 spider third).0 (negsuc 0) ≡ true)

    -- From an environment without SPIDER no assertion of `main` fails and no null pointer is
    -- compared: the status is 1 only where, in the environment that the run has come to, a call that
    -- `setenv2` makes fails or `unsetenv2` does; otherwise it is 0, with SPIDER set to WOMAN in the
    -- environment in which `unsetenv2` is called, which makes the last one.
    pub setenv_main-HoldsAll :
        Documented n → n.getenv e spider ≡ none → HoldsAll SomeFails third (setenv_main c1 c2 c3 e)
    unfolding setenv_main second_round third_round unset_spider
    setenv_main-HoldsAll l fresh =
        let F = SomeFails in
        round-HoldsAll F third (codes "MAN") (codes "MAN") false c1 e
          (setenv2 n c1 spider (codes "MAN") false e) _ (rw fresh (is_none-kept _)) (λ f. inl f)
          (setenv2-Assigns n c1 spider (codes "MAN") false e l spider-name)
          (λ set1.
            round-HoldsAll F third (codes "WOMAN") (codes "MAN") false c2 first
              (setenv2 n c2 spider (codes "WOMAN") false first) _ (rw set1 (is_some-kept _ _))
              (λ f. inr (inl f))
              (setenv2-Assigns n c2 spider (codes "WOMAN") false first l spider-name)
              (λ set2.
                round-HoldsAll F third (codes "WOMAN") (codes "WOMAN") true c3 second
                  (setenv2 n c3 spider (codes "WOMAN") true second) _ refl (λ f. inr (inr (inl f)))
                  (setenv2-Assigns n c3 spider (codes "WOMAN") true second l spider-name)
                  (λ set3.
                    unset-HoldsAll F third (unsetenv2 spider third) (λ f. inr (inr (inr f))) set3
                      refl)))

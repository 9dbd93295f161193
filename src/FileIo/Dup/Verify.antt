-- ===== src/FileIo/Dup/Verify.antt =====
-- stage0/tlpi/fileio/verify_dup.c: what it prints.
use stage.Base.{
  ℕ, ◌+◌, ◌%◌, ◌==◌, ◌≡◌, refl, sym, ap, ◌∙◌, Bool, true, false, some, ◌++◌, left_if, ==-swap,
  arith,
}
use stage.Base.Int.{pos}
use stage.Base.Text.{Bytes, codes, print_nat}
use stage.FileIo.{Desc, ok, exits, Succeeds, seek_cur, and_then, ◌>>=◌, write_offset}
use stage.FileIo.Steps.{apart_if}
use stage.FileIo.Calls.{returned}
use stage.FileIo.Console.{called, done}
use stage.FileIo.Dup.{
  Duplicates, verify_flags, print_hex, verify_flags_of, verify_offsets, verify_close, verify_dup,
}
use stage.FileIo.Dup.Spec.{Shared, connect, connect_hit, connect-other}

-- What is printed behind `out`.
pub report : Bytes → ℕ → ℕ → Bytes
report out offset flags =
    ((out ++ (codes "offest: " ++ print_nat offset ++ codes "\n"))
      ++ (codes "access mode: " ++ print_hex (flags % 4) ++ codes "\n"))
    ++ (codes "flags: " ++ print_hex flags ++ codes "\n")

==_self : (n : ℕ) → (n == n) ≡ true
==_self n = ground arith

close_done :
    {W : Type 0} (r : Bool × W) → Succeeds ⊥ (λ w'. Unit {0}) r → (w' : W) × (r ≡ (true, w'))
close_done (false, w') h = absurd h
close_done (true, w') h = (w', refl)

module _ {W : Type 0} (k : Duplicates W) (l : Shared k ⊥) where
  -- Both descriptors refer to a description.
  record Pair (fd newfd i : ℕ) (d : Desc) (c : Bytes) (w : W) : Type 0 where
    one : l.entry w fd ≡ some i
    two : l.entry w newfd ≡ some i
    apart : (fd == newfd) ≡ false
    at : l.description w i ≡ some d
    there : l.file w d.path ≡ some c

  Pair-same :
      (fd newfd i : ℕ) (d : Desc) (c : Bytes) (w w' : W)
      → Pair fd newfd i d c w
      → ((q : Bytes) → l.file w' q ≡ l.file w q)
      → ((x : ℕ) → l.entry w' x ≡ l.entry w x)
      → ((j : ℕ) → l.description w' j ≡ l.description w j)
      → Pair fd newfd i d c w'
  Pair-same fd newfd i d c w w' a files entries descriptions = record {
    one = entries fd ∙ a.one;
    two = entries newfd ∙ a.two;
    apart = a.apart;
    at = descriptions i ∙ a.at;
    there = files d.path ∙ a.there;
  }

  verify_offsets-Pair :
      (fd newfd i : ℕ) (d : Desc) (c : Bytes) (w : W) (out : Bytes)
      → Pair fd newfd i d c w
      → (w' : W) × (verify_offsets k fd newfd (w, out)
          ≡ ok tt (w', out ++ (codes "offest: " ++ print_nat d.offset ++ codes "\n")))
        × Pair fd newfd i d c w'
  unfolding verify_offsets called and_then
  verify_offsets-Pair fd newfd i d c w out a =
      let r =
        returned _ (k.kernel.sys_lseek fd (pos 0) seek_cur w)
          (l.tell_lem fd i d c w a.one a.at a.there) in
      let b = Pair-same fd newfd i d c w r.1 a r.3.1 r.3.2 r.3.3 in
      let s =
        returned _ (k.kernel.sys_lseek newfd (pos 0) seek_cur r.1)
          (l.tell_lem newfd i d c r.1 b.two b.at b.there) in
      let told : k.kernel.sys_lseek fd (pos 0) seek_cur w ≡ (some d.offset, r.1) =
        r.2 ∙ ap (λ n. (some n, r.1)) r.3.0 in
      let again : k.kernel.sys_lseek newfd (pos 0) seek_cur r.1 ≡ (some d.offset, s.1) =
        s.2 ∙ ap (λ n. (some n, s.1)) s.3.0 in
      (
        s.1,
        rw (told, again, ==_self d.offset) refl,
        Pair-same fd newfd i d c r.1 s.1 b s.3.1 s.3.2 s.3.3,
      )

  verify_flags_of-Pair :
      (fd newfd i : ℕ) (d : Desc) (c : Bytes) (w : W) (out : Bytes)
      → Pair fd newfd i d c w
      → (w' : W) × (verify_flags_of k fd (w, out)
          ≡ ok tt (
            w',
            (out ++ (codes "access mode: " ++ print_hex (l.flags w i % 4) ++ codes "\n"))
                ++ (codes "flags: " ++ print_hex (l.flags w i) ++ codes "\n"),
          ))
        × Pair fd newfd i d c w'
  unfolding verify_flags_of called and_then
  verify_flags_of-Pair fd newfd i d c w out a =
      let r = l.getfl_lem fd i w a.one in
      let w1 = (k.f_getfl fd w).1 in
      let b = Pair-same fd newfd i d c w w1 a r.1 r.2 r.3 in
      let s = l.getfl_lem fd i w1 b.one in
      let told : k.f_getfl fd w ≡ (some (l.flags w i), w1) = ap (λ o. (o, w1)) r.0 in
      let again : k.f_getfl fd w1 ≡ (some (l.flags w i), (k.f_getfl fd w1).1) =
        ap (λ o. (o, (k.f_getfl fd w1).1)) (s.0 ∙ ap some (r.4 i)) in
      (_, rw (told, again, ==_self (l.flags w i)) refl, Pair-same fd newfd i d c w1 _ b s.1 s.2 s.3)

  verify_close-Pair :
      (fd newfd i : ℕ) (d : Desc) (c : Bytes) (w : W) (out : Bytes)
      → Pair fd newfd i d c w
      → (w' : W) × (verify_close k fd newfd (w, out) ≡ exits 0 (w', out))
  unfolding verify_close done and_then connect
  verify_close-Pair fd newfd i d c w out a =
      let (w1, e1) = close_done (k.kernel.sys_close fd w) (l.close_fails fd i w a.one) in
      let open_two : l.entry w1 newfd ≡ some i =
        ap (λ r. l.entry r.1 newfd) (sym e1) ∙ l.close_lem fd i w a.one newfd ∙ rw a.apart a.two in
      let (w2, e2) = close_done (k.kernel.sys_close newfd w1) (l.close_fails newfd i w1 open_two) in
      (w2, rw (e1, e2) refl)

  -- `main` behind `write`.
  verify_rest :
      (fd newfd i : ℕ) (d : Desc) (c : Bytes) (w : W) (out : Bytes)
      → Pair fd newfd i d c w
      → (w' : W) × (flags : ℕ) × ((verify_offsets k fd newfd >>= λ _.
              verify_flags_of k fd >>= λ _. verify_close k fd newfd)
            (w, out)
          ≡ exits 0 (w', report out d.offset flags))
  unfolding and_then report
  verify_rest fd newfd i d c w out a =
      let (w1, e1, a1) = verify_offsets-Pair fd newfd i d c w out a in
      let (w2, e2, a2) =
        verify_flags_of-Pair fd newfd i d c w1
          (out ++ (codes "offest: " ++ print_nat d.offset ++ codes "\n")) a1 in
      let (w3, e3) =
        verify_close-Pair fd newfd i d c w2
          (((out ++ (codes "offest: " ++ print_nat d.offset ++ codes "\n"))
              ++ (codes "access mode: " ++ print_hex (l.flags w1 i % 4) ++ codes "\n"))
            ++ (codes "flags: " ++ print_hex (l.flags w1 i) ++ codes "\n"))
          a2 in
      (w3, l.flags w1 i, rw (e1, e2, e3) refl)

  abbrev tfile_at : ℕ → Desc
  tfile_at o = record { path = codes "tfile"; offset = o; append = false }

  opened_twice :
      (w : W)
      → (fd : ℕ) × (newfd : ℕ) × (i : ℕ) × (c : Bytes) × (w1 : W) × (w2 : W) × (k.kernel.sys_open
            verify_flags
            (codes "tfile")
            w
          ≡ (some fd, w1))
        × (k.sys_dup fd w1 ≡ (some newfd, w2))
        × Pair fd newfd i (tfile_at 0) c w2
  opened_twice w =
      let (fd, w1, e1, (i, free, open_fd, at, there)) =
        returned _ (k.kernel.sys_open verify_flags (codes "tfile") w)
          (l.open_lem verify_flags (codes "tfile") w refl) in
      let (newfd, w2, e2, (free', table, files, descriptions)) =
        returned _ (k.sys_dup fd w1) (l.dup_lem fd i w1 open_fd) in
      let apart = apart_if (l.entry w1) i fd newfd open_fd free' in
      (
        fd,
        newfd,
        i,
        _,
        w1,
        w2,
        e1,
        e2,
        record {
          one =
              table fd
              ∙ connect-other (l.entry w1) newfd (some i) fd (==-swap fd newfd apart)
              ∙ open_fd;
          two = table newfd ∙ connect_hit (l.entry w1) newfd (some i);
          apart = apart;
          at = descriptions i ∙ at;
          there = files _ ∙ there;
        },
      )

  wrote_ten :
      (fd newfd i : ℕ) (c : Bytes) (w : W)
      → Pair fd newfd i (tfile_at 0) c w
      → (c' : Bytes) × (w' : W) × (k.kernel.sys_write fd (codes "test input") w ≡ (some 10, w'))
        × Pair fd newfd i (tfile_at 10) c' w'
  unfolding write_offset
  wrote_ten fd newfd i c w a =
      let (n, w', e, (all, there, table, at)) =
        returned _ (k.kernel.sys_write fd (codes "test input") w)
          (l.write_lem fd i b't' _ _ (codes "est input") w a.one a.at a.there) in
      let ten : n ≡ 10 = left_if all in
      (
        _,
        w',
        e ∙ ap (λ m. (some m, w')) ten,
        record {
          one = table fd ∙ a.one;
          two = table newfd ∙ a.two;
          apart = a.apart;
          at = at ∙ ap (λ m. some (tfile_at m)) (moved n ten);
          there = there;
        },
      )
    where
      moved : (n : ℕ) → n ≡ 10 → 0 + n ≡ 10
      moved n e = omega arith

  -- Where no call fails, `verify_dup` exits with status 0, prints that the offset is 10 and what the
  -- flags are, once, and finds no difference: the two descriptors share the offset that `write` has
  -- moved, and the flags are asked of one descriptor only.
  pub verify_dup-report :
      (w : W) (out : Bytes)
      → (w' : W) × (flags : ℕ) × (verify_dup k (w, out) ≡ exits 0 (w', report out 10 flags))
  unfolding verify_dup called and_then
  verify_dup-report w out =
      let (fd, newfd, i, c, w1, w2, e1, e2, a) = opened_twice w in
      let (c', w3, e3, a3) = wrote_ten fd newfd i c w2 a in
      let (w4, flags, e4) = verify_rest fd newfd i (tfile_at 10) c' w3 out a3 in
      (w4, flags, rw (e1, e2, e3) e4)

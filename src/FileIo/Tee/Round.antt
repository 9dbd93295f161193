-- ===== src/FileIo/Tee/Round.antt =====
-- stage0/tlpi/fileio/tee.c: the rounds of the loop, where no call fails and -a is not given.
use mathlib.Core.List.{append_assoc, append-nil}
use stage.Base.{
  ℕ, zero, suc, ◌+◌, ◌==◌, ◌≡◌, refl, sym, ap, ◌∙◌, false, Option, some, [], ◌∷◌, ◌++◌, length,
  drop, drop-nil, length-append, arith,
}
use stage.Base.Text.{Bytes}
use stage.FileIo.{Kernel, Documented, bytes_eq, store, assign}
use stage.FileIo.Steps.{
  store_self, store-other, store-under, bytes_eq_comm, assign_self, assign-other,
}

suc-add : (n m : ℕ) → suc (n + m) ≡ suc n + m
suc-add n m = omega arith

drop-drop : (m n : ℕ) (xs : Bytes) → drop m (drop n xs) ≡ drop (n + m) xs
drop-drop m zero xs = ap (λ i. drop i xs) (omega arith)
drop-drop m (suc n) [] = drop-nil m ∙ sym (drop-nil (suc n + m))
drop-drop m (suc n) (x ∷ xs) = drop-drop m n xs ∙ ap (λ i. drop i (x ∷ xs)) (suc-add n m)

-- Of the writes to two files the last ones count.
store-twice :
    (files : Bytes → Option Bytes) (p q a b c d x : Bytes)
    → store (store (store (store files p a) q b) p c) q d x ≡ store (store files p c) q d x
unfolding store
store-twice files p q a b c d x = ground arith

module _ {W : Type 0} (k : Kernel W) (l : Documented k ⊥) where
  -- The names of the standard input, of the standard output and of the file, and what they hold.
  module _ (files : Bytes → Option Bytes) (sin sout path skipped out old input : Bytes) where
    -- The files once `done` is copied, and no byte more.
    abbrev pub teed : Bytes → Bytes → Option Bytes
    teed done = store (store files sout (out ++ done)) path (done ++ drop (length done) old)

    abbrev pub IsTeed : Bytes → W → Type 0
    IsTeed done w = (q : Bytes) → l.file w q ≡ teed done q

    abbrev pub Teed : ℕ → W → Type 0
    Teed zero w = IsTeed input w
    Teed (suc n) w = ⊥

    module _ (stdin_there : files sin ≡ some (skipped ++ input))
        (out_in : bytes_eq sout sin ≡ false) (path_in : bytes_eq path sin ≡ false)
        (path_out : bytes_eq path sout ≡ false) (fd : ℕ) (fd_0 : (fd == 0) ≡ false)
        (fd_1 : (fd == 1) ≡ false) where
      pub record At (done rest : Bytes) (w : W) : Type 0 where
        pub split : input ≡ done ++ rest
        pub stdin :
            l.desc w 0
            ≡ some (record { path = sin; offset = length (skipped ++ done); append = false })
        pub stdout :
            l.desc w 1
            ≡ some (record { path = sout; offset = length (out ++ done); append = false })
        pub target :
            l.desc w fd ≡ some (record { path = path; offset = length done; append = false })
        pub holds : IsTeed done w

      pub At-stdin :
          (done rest : Bytes) (w : W)
          → At done rest w
          → l.file w sin ≡ some ((skipped ++ done) ++ rest)
      At-stdin done rest w a =
          a.holds sin
          ∙ store-other (store files sout (out ++ done)) path _ sin path_in
          ∙ store-other files sout (out ++ done) sin out_in
          ∙ stdin_there
          ∙ ap some (ap (λ v. skipped ++ v) a.split ∙ sym (append_assoc skipped done rest))

      -- `c` is read, and then written to the standard output.
      pub record Reads (c : ℕ) (done rest : Bytes) (w : W) : Type 0 where
        pub split : input ≡ (done ++ (c ∷ [])) ++ rest
        pub stdin :
            l.desc w 0
            ≡ some (record {
              path = sin;
              offset = length (skipped ++ (done ++ (c ∷ [])));
              append = false;
            })
        pub stdout :
            l.desc w 1
            ≡ some (record { path = sout; offset = length (out ++ done); append = false })
        pub target :
            l.desc w fd ≡ some (record { path = path; offset = length done; append = false })
        pub holds : IsTeed done w

      pub record Shows (c : ℕ) (done rest : Bytes) (w : W) : Type 0 where
        pub split : input ≡ (done ++ (c ∷ [])) ++ rest
        pub stdin :
            l.desc w 0
            ≡ some (record {
              path = sin;
              offset = length (skipped ++ (done ++ (c ∷ [])));
              append = false;
            })
        pub stdout :
            l.desc w 1
            ≡ some (record {
              path = sout;
              offset = length (out ++ (done ++ (c ∷ [])));
              append = false;
            })
        pub target :
            l.desc w fd ≡ some (record { path = path; offset = length done; append = false })
        pub holds : (q : Bytes) → l.file w q ≡ store (teed done) sout (out ++ (done ++ (c ∷ []))) q

      pub At-Reads :
          (c : ℕ) (done rest u : Bytes) (w w' : W)
          → At done rest w
          → rest ≡ c ∷ u
          → ((q : Bytes) → l.file w' q ≡ l.file w q)
          → ((x : ℕ)
              → l.desc w' x
                ≡ assign
                    (l.desc w)
                    0
                    (record {
                      path = sin;
                      offset = length ((skipped ++ done) ++ (c ∷ []));
                      append = false;
                    })
                    x)
          → Reads c done u w'
      At-Reads c done rest u w w' a cut same descs = record {
        split = a.split ∙ ap (λ v. done ++ v) cut ∙ sym (append_assoc done (c ∷ []) u);
        stdin =
            descs 0
            ∙ assign_self (l.desc w) 0 _
            ∙ ap (λ v. some (record { path = sin; offset = length v; append = false }))
                (append_assoc skipped done (c ∷ []));
        stdout = descs 1 ∙ assign-other (l.desc w) 0 _ 1 refl ∙ a.stdout;
        target = descs fd ∙ assign-other (l.desc w) 0 _ fd (ground (arith, fd_0)) ∙ a.target;
        holds = λ q. same q ∙ a.holds q;
      }

      pub Reads-stdout :
          (c : ℕ) (done rest : Bytes) (w : W)
          → Reads c done rest w
          → l.file w sout ≡ some ((out ++ done) ++ [])
      Reads-stdout c done rest w a =
          a.holds sout
          ∙ store-other (store files sout (out ++ done)) path _ sout path_out
          ∙ store_self files sout (out ++ done)
          ∙ ap some (sym (append-nil (out ++ done)))

      pub Reads-Shows :
          (c n : ℕ) (done rest : Bytes) (w w' : W)
          → Reads c done rest w
          → ((q : Bytes)
              → l.file w' q ≡ store (l.file w) sout (((out ++ done) ++ (c ∷ [])) ++ drop n []) q)
          → ((x : ℕ)
              → l.desc w' x
                ≡ assign
                    (l.desc w)
                    1
                    (record {
                      path = sout;
                      offset = length ((out ++ done) ++ (c ∷ []));
                      append = false;
                    })
                    x)
          → Shows c done rest w'
      Reads-Shows c n done rest w w' a files' descs = record {
        split = a.split;
        stdin = descs 0 ∙ assign-other (l.desc w) 1 _ 0 refl ∙ a.stdin;
        stdout =
            descs 1
            ∙ assign_self (l.desc w) 1 _
            ∙ ap (λ v. some (record { path = sout; offset = length v; append = false }))
                (append_assoc out done (c ∷ []));
        target = descs fd ∙ assign-other (l.desc w) 1 _ fd (ground (arith, fd_1)) ∙ a.target;
        holds = λ q.
            files' q
            ∙ store-under (l.file w) (teed done) sout _ q (a.holds q)
            ∙ ap (λ d. store (teed done) sout d q)
                (ap (λ t. ((out ++ done) ++ (c ∷ [])) ++ t) (drop-nil n)
                  ∙ append-nil ((out ++ done) ++ (c ∷ []))
                  ∙ append_assoc out done (c ∷ []));
      }

      pub Shows-target :
          (c : ℕ) (done rest : Bytes) (w : W)
          → Shows c done rest w
          → l.file w path ≡ some (done ++ drop (length done) old)
      Shows-target c done rest w a =
          a.holds path
          ∙ store-other (teed done) sout _ path (bytes_eq_comm sout path ∙ path_out)
          ∙ store_self (store files sout (out ++ done)) path _

      pub Shows-At :
          (c n : ℕ) (done rest : Bytes) (w w' : W)
          → Shows c done rest w
          → n ≡ 1
          → ((q : Bytes)
              → l.file w' q
                ≡ store (l.file w) path ((done ++ (c ∷ [])) ++ drop n (drop (length done) old)) q)
          → ((x : ℕ)
              → l.desc w' x
                ≡ assign
                    (l.desc w)
                    fd
                    (record { path = path; offset = length (done ++ (c ∷ [])); append = false })
                    x)
          → At (done ++ (c ∷ [])) rest w'
      Shows-At c n done rest w w' a one files' descs = record {
        split = a.split;
        stdin = descs 0 ∙ assign-other (l.desc w) fd _ 0 fd_0 ∙ a.stdin;
        stdout = descs 1 ∙ assign-other (l.desc w) fd _ 1 fd_1 ∙ a.stdout;
        target = descs fd ∙ assign_self (l.desc w) fd _;
        holds = λ q.
            files' q
            ∙ store-under (l.file w) (store (teed done) sout (out ++ (done ++ (c ∷ [])))) path _ q
                (a.holds q)
            ∙ store-twice files sout path _ _ _ _ q
            ∙ ap
                (λ t.
                  store (store files sout (out ++ (done ++ (c ∷ [])))) path
                    ((done ++ (c ∷ [])) ++ t) q)
                tail;
      }
        where
          tail : drop n (drop (length done) old) ≡ drop (length (done ++ (c ∷ []))) old
          tail =
              drop-drop n (length done) old
              ∙ ap (λ i. drop i old) (omega (arith, length-append done (c ∷ [])))

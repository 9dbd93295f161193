-- ===== src/FileIo/Readv.antt =====
-- stage0/tlpi/fileio/t_readv.c: reads into three buffers at once. The call of `readv` and the size of a
-- `struct stat` are parameters.
use stage.Base.{
  ℕ, suc, ◌+◌, ◌≡◌, refl, sym, ap, ◌∙◌, inl, ltb, if◌then◌else◌, false, Option, none, some, List,
  [], ◌∷◌, ◌++◌, length, arith,
}
use stage.Base.Text.{Bytes, codes, print_nat}
use stage.FileIo.{
  Flags, Kernel, Documented, M, exits, exit, and_then, ◌>>=◌, ◌>>◌, bytes_eq, opened,
}
use stage.FileIo.Calls.{returned}
use stage.FileIo.Calls.Single.{open-Holds, read-Holds}
use stage.FileIo.Console.{Console, call, called, print}

abbrev read_flags : Flags
read_flags = record { create = false; trunc = false; append = false }

-- The lengths of the buffers, and how many bytes they take.
unfoldable pub buffers : ℕ → List ℕ
buffers stat_size = stat_size ∷ 4 ∷ 100 ∷ []

unfoldable pub tot_required : List ℕ → ℕ
tot_required [] = 0
tot_required (n ∷ lengths) = n + tot_required lengths

unfoldable pub report_readv : ℕ → ℕ → Bytes
report_readv required num_read =
    (if ltb num_read required then codes "Read fewer bytes than requested\n" else [])
    ++ codes "total bytes requested: "
    ++ print_nat required
    ++ codes "; bytes read: "
    ++ print_nat num_read
    ++ codes "\n"

module _ {W : Type 0} (k : Kernel W) (readv : ℕ → List ℕ → W → Option Bytes × W)
    (stat_size : ℕ) where
  -- `main` behind the test of its arguments.
  unfoldable pub readv_file : Bytes → M (Console W) ℕ
  readv_file file = do
    fd ← call (k.sys_open read_flags file)
    buf ← call (readv fd (buffers stat_size))
    print (report_readv (tot_required (buffers stat_size)) (length buf))
    exit 0

  unfoldable pub t_readv : List Bytes → M (Console W) ℕ
  t_readv [] = exit 1
  t_readv (file ∷ []) = if bytes_eq file (codes "--help") then exit 1 else readv_file file
  t_readv (file ∷ more ∷ args) = exit 1

  opened-there : (o : Option Bytes) (c : Bytes) → o ≡ some c → opened read_flags o ≡ c
  unfolding opened
  opened-there none c e = cc
  opened-there (some d) c e = cc

  positive : (n : ℕ) × (tot_required (buffers stat_size) ≡ suc n)
  unfolding tot_required buffers
  positive = (stat_size + 103, omega arith)

  -- Where no call fails and `readv` reads as `read` does into one buffer, `t_readv` for a file that
  -- is there and not named --help exits with status 0 and reports how many bytes there are in the
  -- part of the file that was read, which is none only where the file is empty.
  pub t_readv-report :
      (l : Documented k ⊥) (p c : Bytes) (w : W) (out : Bytes)
      → ((fd : ℕ) (w' : W)
          → readv fd (buffers stat_size) w' ≡ k.sys_read fd (tot_required (buffers stat_size)) w')
      → l.file w p ≡ some c
      → bytes_eq p (codes "--help") ≡ false
      → (s : Bytes) × (u : Bytes) × (w' : W) × (t_readv (p ∷ []) (w, out)
          ≡ exits 0 (w', out ++ report_readv (tot_required (buffers stat_size)) (length s)))
        × (c ≡ s ++ u)
        × (s ≡ [] → c ≡ [])
  unfolding t_readv readv_file called and_then
  t_readv-report l p c w out reads there named =
      let (fd, w1, e1, (free, held, frame)) =
        returned _ (k.sys_open read_flags p w) (open-Holds k ⊥ l read_flags p w (inl (c, there))) in
      let whole = opened-there (l.file w p) c there in
      let (n, required) = positive in
      let (s, w2, e2, ((u, cut), le, end, held', still)) =
        returned _ (k.sys_read fd (suc n) w1) (read-Holds k ⊥ l fd _ _ w1 held n) in
      let ran : readv fd (buffers stat_size) w1 ≡ (some s, w2) =
        reads fd w1 ∙ ap (λ m. k.sys_read fd m w1) required ∙ e2 in
      (s, u, w2, rw (named, e1, ran) refl, sym whole ∙ cut, λ e. sym whole ∙ end e)

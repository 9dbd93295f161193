-- ===== src/Memalloc/Tests.antt =====
-- The theorems about stage0/tlpi/memalloc on a concrete heap.
use stage.Base.{ℕ, ◌≡◌, refl, some, List, [], ◌∷◌, length, take, drop, arith}
use stage.Base.Text.{print_nat}
use stage.Memalloc.{Heap, Texts, goes, free_loop}
use stage.Memalloc.Frees.{every, free_all, free_loop-every}

-- The state is the list of the blocks that were freed, the last one first.
abbrev heap : Heap (List ℕ)
heap = record { malloc = λ size w. (some 4096, w); free = λ p w. p ∷ w; sbrk_0 = λ w. 8192 }

abbrev texts : Texts
texts = record { get_int = λ any_base s. some (length s); print_ptr = print_nat }

free_loop-every_example :
    free_loop texts heap 6 (10 ∷ 20 ∷ 30 ∷ 40 ∷ 50 ∷ []) 5 2 1 [] []
    ≡ goes tt (free_all heap (every 1 0 (drop 1 (take 5 (10 ∷ 20 ∷ 30 ∷ 40 ∷ 50 ∷ [])))) []) []
free_loop-every_example =
    free_loop-every texts heap (10 ∷ 20 ∷ 30 ∷ 40 ∷ 50 ∷ []) 5 1 6 1 [] [] (omega arith)
      (omega arith) (omega arith)

every_test : every 1 0 (drop 1 (10 ∷ 20 ∷ 30 ∷ 40 ∷ 50 ∷ [])) ≡ 20 ∷ 40 ∷ []
unfolding every
every_test = refl

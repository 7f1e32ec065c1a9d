-- ===== src/Sorting.antt =====
-- DS_Algos/sorting: the sorts that exchange elements of an array in place.
-- `swap` stands in each of the four files that use it; it reads and writes through `load` and `store`,
-- so an index out of range is a fault.
pub mod Bubble
pub mod Heapsort
pub mod Quicksort
pub mod Selection
pub mod Insertion
use interview_questions.Prelude.{length, set, length-set, ℕ, ◌<◌, ◌≡◌, List}
use interview_questions.Prelude.Int.{ℤ}
use interview_questions.Prelude.Run.{Run, done, ◌>>=◌, ◌>>◌}
use interview_questions.Prelude.Arrays.{◌!◌, load, store, exchange, load-ok, store-ok}

unfoldable pub swap : List ℤ → ℕ → ℕ → Run (List ℤ)
swap arr i j = do tmp ← load arr i; v ← load arr j; b ← store arr i v; store b j tmp

pub swap-ok :
    (a : List ℤ) (i j : ℕ) → i < length a → j < length a → swap a i j ≡ done (exchange a i j)
unfolding swap exchange
swap-ok a i j p q =
    rw (load-ok a i p, load-ok a j q, store-ok a i (a ! j) p)
      (store-ok (set a i (a ! j)) j (a ! i) (rw length-set q))

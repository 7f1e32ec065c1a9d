-- ===== src/Sorting/Quicksort.antt =====
-- DS_Algos/sorting/quicksort/quicksort.c: `partition`, `quicksort_aux` and `quicksort`. The `for` counts
-- its rounds; a recursive call has fewer elements, and the fuel is their number plus one.
pub mod Range
pub mod Partition
pub mod Sorts
use interview_questions.Prelude.{
  ltb, leb, ℕ, zero, suc, ◌+◌, ◌-◌, ◌/◌, true, false, ◌&&◌, ◌||◌, List,
}
use interview_questions.Prelude.Int.{ℤ, leb_ℤ}
use interview_questions.Prelude.Run.{Run, done, no_fuel, ◌>>=◌, ◌>>◌, assert}
use interview_questions.Prelude.Arrays.{load}
use interview_questions.Sorting.{swap}

-- The `for` from `i` on, with `rounds` rounds left.
unfoldable pub split_loop : (rounds i low cursor : ℕ) → List ℤ → Run (List ℤ × ℕ)
split_loop zero i low cursor arr = done (arr, cursor)
split_loop (suc rounds) i low cursor arr = do
  x ← load arr i
  y ← load arr low
  elim (leb_ℤ x y) [
    | true ↦ swap arr i cursor >>= λ b. split_loop rounds (i + 1) low (cursor + 1) b
    | false ↦ split_loop rounds (i + 1) low cursor arr
  ]

unfoldable pub partition : List ℤ → (low high pivot : ℕ) → Run (List ℤ × ℕ)
partition arr low high pivot = do
  assert (leb low pivot && ltb pivot high)
  b ← swap arr low pivot
  (c, cursor) ← split_loop (high - (low + 1)) (low + 1) low (low + 1) b
  d ← swap c low (cursor - 1)
  done (d, cursor - 1)

unfoldable pub quicksort_aux : (fuel : ℕ) → List ℤ → (low high : ℕ) → Run (List ℤ)
quicksort_aux zero arr low high = no_fuel
quicksort_aux (suc fuel) arr low high = elim (ltb high low || leb (high - low) 1) [
  | true ↦ done arr
  | false ↦ do
    (b, pivot) ← partition arr low high ((low + high) / 2)
    c ← quicksort_aux fuel b low pivot
    quicksort_aux fuel c (pivot + 1) high
]

unfoldable pub quicksort : List ℤ → (arr_sz : ℕ) → Run (List ℤ)
quicksort arr arr_sz = quicksort_aux (suc arr_sz) arr 0 arr_sz

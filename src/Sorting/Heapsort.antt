-- ===== src/Sorting/Heapsort.antt =====
-- DS_Algos/sorting/heapsort/heapsort.c: `max_heapify`, `build_max_heap` and `heapsort`. The loop of
-- `max_heapify` takes the number of elements plus one as fuel, which is enough, since the index grows.
pub mod Sift
pub mod Sorts
use interview_questions.Prelude.{
  ltb, ◌==◌, if◌then◌else◌, ℕ, zero, suc, ◌+◌, ◌-◌, ◌*◌, ◌/◌, true, false, List,
}
use interview_questions.Prelude.Int.{ℤ, leb_ℤ}
use interview_questions.Prelude.Run.{Run, done, no_fuel, ◌>>=◌, ◌>>◌, assert}
use interview_questions.Prelude.Arrays.{load}
use interview_questions.Sorting.{swap}

-- One of the two tests of a round.
unfoldable pub larger : List ℤ → (arr_sz child largest : ℕ) → Run ℕ
larger arr arr_sz child largest = elim (ltb child arr_sz) [
  | true ↦ do x ← load arr child; y ← load arr largest; done (if leb_ℤ y x then child else largest)
  | false ↦ done largest
]

unfoldable pub largest_of : List ℤ → (arr_sz i : ℕ) → Run ℕ
largest_of arr arr_sz i = larger arr arr_sz (i * 2 + 1) i >>= larger arr arr_sz (i * 2 + 2)

unfoldable pub heapify : (fuel : ℕ) → List ℤ → (arr_sz i : ℕ) → Run (List ℤ)
heapify zero arr arr_sz i = no_fuel
heapify (suc fuel) arr arr_sz i = largest_of arr arr_sz i >>= λ largest. elim (largest == i) [
  | true ↦ done arr
  | false ↦ swap arr i largest >>= λ b. heapify fuel b arr_sz largest
]

abbrev pub max_heapify : List ℤ → (arr_sz i : ℕ) → Run (List ℤ)
max_heapify arr arr_sz i = heapify (suc arr_sz) arr arr_sz i

-- The `while` of `build_max_heap` and the call after it.
unfoldable pub build_from : List ℤ → (arr_sz i : ℕ) → Run (List ℤ)
build_from arr arr_sz zero = max_heapify arr arr_sz 0
build_from arr arr_sz (suc i) = max_heapify arr arr_sz (suc i) >>= λ b. build_from b arr_sz i

unfoldable pub build_max_heap : List ℤ → (arr_sz : ℕ) → Run (List ℤ)
build_max_heap arr arr_sz = assert (ltb 0 arr_sz) >> build_from arr arr_sz ((arr_sz - 1) / 2)

-- The `while` of `heapsort`.
unfoldable pub take_largest : List ℤ → (arr_sz : ℕ) → Run (List ℤ)
take_largest arr zero = done arr
take_largest arr (suc arr_sz) = do
  b ← swap arr 0 arr_sz
  c ← max_heapify b arr_sz 0
  take_largest c arr_sz

unfoldable pub heapsort : List ℤ → (arr_sz : ℕ) → Run (List ℤ)
heapsort arr arr_sz = build_max_heap arr arr_sz >>= λ b. take_largest b arr_sz

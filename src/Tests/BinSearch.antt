-- ===== src/Tests/BinSearch.antt =====
-- DS_Algos/bin_search on a small array.
use interview_questions.Prelude.{ℕ, zero, suc, ◌<◌, ◌≡◌, refl, List, [], ◌∷◌, arith}
use interview_questions.Prelude.Int.{ℤ, pos, negsuc, ◌≤ℤ◌, ◌<ℤ◌}
use interview_questions.Prelude.Run.{done, fault, Returns}
use interview_questions.Prelude.Arrays.{◌!◌, IsSorted, steps-IsSorted}
use interview_questions.BinSearch.{
  binary_search, bin_search_closest, bin_search_first_occurrence, bin_search_last_occurrence,
}
use interview_questions.BinSearch.Order.{Locates, FirstAt, LastAt}
use interview_questions.BinSearch.Traditional.{binary_search-Locates}
use interview_questions.BinSearch.First.{bin_search_first_occurrence-FirstAt}
use interview_questions.BinSearch.Last.{bin_search_last_occurrence-LastAt}
use interview_questions.BinSearch.Closest.{ClosestAt, IsSmall, bin_search_closest-ClosestAt}

abbrev table : List ℤ
table = negsuc 1 ∷ pos 3 ∷ pos 3 ∷ pos 8 ∷ []

steps : (i : ℕ) → suc i < 4 → table ! i ≤ℤ table ! suc i
steps zero h = omega arith
steps (suc zero) h = omega arith
steps (suc (suc zero)) h = omega arith
steps (suc (suc (suc i))) h = absurd (omega arith)

table-IsSorted : IsSorted table 4
table-IsSorted = steps-IsSorted table 4 steps

table-IsSmall : (i : ℕ) → i < 4 → IsSmall (table ! i)
table-IsSmall zero h = omega arith
table-IsSmall (suc zero) h = omega arith
table-IsSmall (suc (suc zero)) h = omega arith
table-IsSmall (suc (suc (suc zero))) h = omega arith
table-IsSmall (suc (suc (suc (suc i)))) h = absurd (omega arith)

hit : binary_search table 4 (pos 8) ≡ done (pos 3)
unfolding binary_search
hit = refl

first : bin_search_first_occurrence table 4 (pos 3) ≡ done (pos 1)
unfolding bin_search_first_occurrence
first = refl

last : bin_search_last_occurrence table 4 (pos 3) ≡ done (pos 2)
unfolding bin_search_last_occurrence
last = refl

closest : bin_search_closest table 4 (pos 6) ≡ done (pos 3)
unfolding bin_search_closest
closest = refl

-- The read of `arr[-1]`.
last_below : bin_search_last_occurrence table 4 (negsuc 8) ≡ fault
unfolding bin_search_last_occurrence
last_below = refl

binary_search-Locates_example : Returns (binary_search table 4 (pos 8)) (Locates table 4 (pos 8))
binary_search-Locates_example = binary_search-Locates table 4 (pos 8) table-IsSorted (omega arith)

bin_search_first_occurrence-FirstAt_example :
    Returns (bin_search_first_occurrence table 4 (pos 3)) (FirstAt table 4 (pos 3))
bin_search_first_occurrence-FirstAt_example =
    bin_search_first_occurrence-FirstAt table 4 (pos 3) table-IsSorted (omega arith)

bin_search_last_occurrence-LastAt_example :
    ((0 < 4)
      → (table ! 0) ≤ℤ pos 3
      → Returns (bin_search_last_occurrence table 4 (pos 3)) (LastAt table 4 (pos 3)))
    × (((j : ℕ) → j < 4 → pos 3 <ℤ table ! j) → bin_search_last_occurrence table 4 (pos 3) ≡ fault)
bin_search_last_occurrence-LastAt_example =
    bin_search_last_occurrence-LastAt table 4 (pos 3) table-IsSorted (omega arith)

bin_search_closest-ClosestAt_example :
    Returns (bin_search_closest table 4 (pos 6)) (ClosestAt table 4 (pos 6))
bin_search_closest-ClosestAt_example =
    bin_search_closest-ClosestAt table 4 (pos 6) table-IsSorted (omega arith) table-IsSmall
      (omega arith)

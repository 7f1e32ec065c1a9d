-- ===== src/Tests/Sorting.antt =====
-- DS_Algos/sorting on a small array.
use mathlib.Core.List.{Perm}
use interview_questions.Prelude.{ℕ, ◌≤◌, ◌≡◌, refl, List, [], ◌∷◌, arith}
use interview_questions.Prelude.Int.{ℤ, pos, negsuc}
use interview_questions.Prelude.Run.{done, fault, Returns}
use interview_questions.Prelude.Arrays.{◌!◌, IsSorted, load, store}
use interview_questions.Sorting.{swap}
use interview_questions.Sorting.Bubble.{bubblesort, bubblesort-sorts}
use interview_questions.Sorting.Insertion.{insertionsort, insert_from, shift, insertionsort-sorts}
use interview_questions.Sorting.Selection.{
  selectionsort, select_from, find_min, selectionsort-sorts,
}
use interview_questions.Sorting.Quicksort.{quicksort, quicksort_aux, partition, split_loop}
use interview_questions.Sorting.Quicksort.Sorts.{quicksort-sorts}
use interview_questions.Sorting.Heapsort.{
  heapsort, build_max_heap, build_from, take_largest, heapify, largest_of, larger,
}
use interview_questions.Sorting.Heapsort.Sorts.{heapsort-sorts}

abbrev sample : List ℤ
sample = pos 5 ∷ negsuc 2 ∷ pos 9 ∷ pos 0 ∷ []

bubblesort_runs : bubblesort sample 4 ≡ done (negsuc 2 ∷ pos 0 ∷ pos 5 ∷ pos 9 ∷ [])
unfolding bubblesort swap load store
bubblesort_runs = refl

bubblesort-sorts_example : Returns (bubblesort sample 4) (λ b. IsSorted b 4 × Perm b sample)
bubblesort-sorts_example = bubblesort-sorts sample 4 (omega arith)

heapsort_runs : heapsort sample 4 ≡ done (negsuc 2 ∷ pos 0 ∷ pos 5 ∷ pos 9 ∷ [])
unfolding heapsort build_max_heap build_from take_largest heapify largest_of larger swap load store
heapsort_runs = refl

-- `main` calls it for an array of no elements too.
heapsort_none : heapsort sample 0 ≡ fault
unfolding heapsort build_max_heap
heapsort_none = refl

heapsort-sorts_example : Returns (heapsort sample 4) (λ b. IsSorted b 4 × Perm b sample)
heapsort-sorts_example = heapsort-sorts sample 4 (omega arith) (omega arith)

quicksort_runs : quicksort sample 4 ≡ done (negsuc 2 ∷ pos 0 ∷ pos 5 ∷ pos 9 ∷ [])
unfolding quicksort quicksort_aux partition split_loop swap load store
quicksort_runs = refl

quicksort-sorts_example :
    Returns
      (quicksort sample 3)
      (λ b. IsSorted b 3 × Perm b sample × ((j : ℕ) → 3 ≤ j → b ! j ≡ sample ! j))
quicksort-sorts_example = quicksort-sorts sample 3 (omega arith)

selectionsort_runs : selectionsort sample 4 ≡ done (negsuc 2 ∷ pos 0 ∷ pos 5 ∷ pos 9 ∷ [])
unfolding selectionsort select_from find_min swap load store
selectionsort_runs = refl

selectionsort-sorts_example : Returns (selectionsort sample 3) (λ b. IsSorted b 3 × Perm b sample)
selectionsort-sorts_example = selectionsort-sorts sample 3 (omega arith)

insertionsort_runs : insertionsort sample 4 ≡ done (negsuc 2 ∷ pos 0 ∷ pos 5 ∷ pos 9 ∷ [])
unfolding insertionsort insert_from shift load store
insertionsort_runs = refl

insertionsort-sorts_example : Returns (insertionsort sample 3) (λ b. IsSorted b 3 × Perm b sample)
insertionsort-sorts_example = insertionsort-sorts sample 3 (omega arith)

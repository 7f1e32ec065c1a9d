-- ===== src/Sorting/Quicksort/Sorts.antt =====
-- DS_Algos/sorting/quicksort/quicksort.c: `quicksort` sorts.
use mathlib.Core.List.{Perm}
use native.Mathlib.Decide.{dec_lt}
use interview_questions.Prelude.{
  ltb, leb, length, ℕ, zero, suc, ◌+◌, ◌-◌, ◌/◌, ◌≤◌, ◌<◌, ◌≡◌, ◌∙◌, true, false, ◌||◌, List, arith,
}
use interview_questions.Prelude.Int.{ℤ, ◌≤ℤ◌}
use interview_questions.Prelude.Run.{Returns, Returns-bind, Returns-mono}
use interview_questions.Prelude.Arrays.{◌!◌, IsSorted, length-perm}
use interview_questions.Sorting.Quicksort.{partition, quicksort_aux, quicksort}
use interview_questions.Sorting.Quicksort.Range.{Moved, Moved-refl, Moved-trans, Moved-widen}
use interview_questions.Sorting.Quicksort.Partition.{partition-Partitioned}

IsSortedRange : (low high : ℕ) → List ℤ → Type 0
IsSortedRange low high a = (i j : ℕ) → low ≤ i → i ≤ j → j < high → a ! i ≤ℤ a ! j

-- The parts before and behind a place in order, and the element there between them.
join :
    (low high p : ℕ) (b c d : List ℤ)
    → low ≤ p
    → p < high
    → ((j : ℕ) → low ≤ j → j < p → b ! j ≤ℤ b ! p)
    → ((j : ℕ) → p < j → j < high → b ! p ≤ℤ b ! j)
    → Moved low p b c
    → IsSortedRange low p c
    → Moved (p + 1) high c d
    → IsSortedRange (p + 1) high d
    → IsSortedRange low high d
unfolding IsSortedRange
join low high p b c d from inside left right m sorted m' sorted' i j li ij jh =
    ground
      (arith, lower i, lower j, upper i, upper j, kept i, kept j, at_p, sorted i j, sorted' i j, ij)
  where
    at_p : d ! p ≡ b ! p
    at_p = m'.before p (omega arith) ∙ m.after p (omega arith)

    kept : (k : ℕ) → k < p → d ! k ≡ c ! k
    kept k lt = m'.before k (omega arith)

    lower : (k : ℕ) → low ≤ k → k < p → c ! k ≤ℤ b ! p
    lower k l lt = m.at_most (b ! p) left k l lt

    upper : (k : ℕ) → p + 1 ≤ k → k < high → b ! p ≤ℤ d ! k
    upper k l lt = m'.at_least (b ! p) (λ n l' r'. ground (arith, m.after n, right n)) k l lt

guard_holds : (low high : ℕ) → high ≤ low + 1 → (ltb high low || leb (high - low) 1) ≡ true
guard_holds low high short = ground arith

guard_fails : (low high : ℕ) → low + 1 < high → (ltb high low || leb (high - low) 1) ≡ false
guard_fails low high long = ground arith

quicksort_aux-sorts :
    (fuel : ℕ) (a : List ℤ) (low high : ℕ)
    → low ≤ high
    → high < fuel + low
    → high ≤ length a
    → Returns (quicksort_aux fuel a low high) (λ b. Moved low high a b × IsSortedRange low high b)
unfolding quicksort_aux IsSortedRange
quicksort_aux-sorts zero a low high le enough fits = absurd (omega arith)
quicksort_aux-sorts (suc fuel) a low high le enough fits = elim (dec_lt (low + 1) high) [
  | no short ↦
      rw (guard_holds low high (omega arith), Returns)
        (
          Moved-refl low high a,
          λ i j l ij r. (let here : i ≡ j = omega arith in ground (arith, here)),
        )
  | yes long ↦
      rw (guard_fails low high long, Returns)
        (Returns-bind _ _ (partition a low high ((low + high) / 2)) _
          (partition-Partitioned a low high ((low + high) / 2) (omega arith) (omega arith) fits)
          (λ r parts.
            let size = length-perm parts.moved.same in
            Returns-bind _ _ (quicksort_aux fuel r.0 low r.1) _
              (quicksort_aux-sorts fuel r.0 low r.1 parts.from (omega (arith, parts.inside))
                (omega (arith, size, parts.inside)))
              (λ c (m, sorted).
                let size' = length-perm m.same in
                Returns-mono _ _ (quicksort_aux fuel c (r.1 + 1) high)
                  (quicksort_aux-sorts fuel c (r.1 + 1) high (omega (arith, parts.inside))
                    (omega (arith, parts.from)) (omega (arith, size, size')))
                  (λ d (m', sorted'). (
                    Moved-trans low high a r.0 d parts.moved (
                        Moved-trans low high r.0 c d
                          (Moved-widen low high low r.1 r.0 c (omega arith)
                            (omega (arith, parts.inside)) m)
                          (Moved-widen low high (r.1 + 1) high c d (omega (arith, parts.from))
                            (omega arith) m')),
                    join low high r.1 r.0 c d parts.from parts.inside parts.left parts.right m
                        sorted m' sorted',
                  )))))
]

-- On an array of at least `n` elements `quicksort` returns; the first `n` elements of the result
-- ascend, the others are what they were, and the result is a rearrangement of the array.
pub quicksort-sorts :
    (a : List ℤ) (n : ℕ)
    → n ≤ length a
    → Returns (quicksort a n) (λ b. IsSorted b n × Perm b a × ((j : ℕ) → n ≤ j → b ! j ≡ a ! j))
unfolding quicksort IsSortedRange
quicksort-sorts a n fits =
    Returns-mono _ _ (quicksort_aux (suc n) a 0 n)
      (quicksort_aux-sorts (suc n) a 0 n (omega arith) (omega arith) fits)
      (λ b (m, sorted). ((λ i j le lt. sorted i j (omega arith) le lt), m.same, m.after))

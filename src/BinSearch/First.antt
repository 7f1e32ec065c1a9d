-- ===== src/BinSearch/First.antt =====
-- The loop of the searches for the first and the last occurrence, and the first of them.
use interview_questions.Prelude.{
  ◌==◌, if◌then◌else◌, Bool-cases, length, get_elem?, get_elem?-eq-get_or, ℕ, zero, suc, ◌+◌, ◌-◌,
  ◌/◌, ◌≤◌, ◌<◌, ◌≡◌, inl, inr, Bool, true, false, List, arith,
}
use interview_questions.Prelude.Int.{ℤ, pos, negsuc, ltb_ℤ, eqb_ℤ}
use interview_questions.Prelude.Arrays.{◌!◌, IsSorted}
use interview_questions.Prelude.Run.{done, ◌>>=◌, present, Returns, Returns-all, Returns-bind}
use interview_questions.BinSearch.{split, bin_search_first_occurrence}
use interview_questions.BinSearch.Order.{FirstAt}

-- `r` separates the indices where the test holds from those where it fails, at the index `i`.
abbrev pub SeparatesAt : List ℤ → ℕ → (ℤ → Bool) → ℕ → ℕ → Type 0
SeparatesAt a n up i r =
    (r ≤ n) × (i < r → up (a ! i) ≡ true) × (r ≤ i → i < n → up (a ! i) ≡ false)

module _ (a : List ℤ) (n : ℕ) (up : ℤ → Bool) (fits : n ≤ length a)
    (falls : (i j : ℕ) → i ≤ j → j < n → up (a ! j) ≡ true → up (a ! i) ≡ true) where
  split-SeparatesAt :
      (i fuel l1 r : ℕ)
      → r - l1 < fuel
      → l1 ≤ r
      → r ≤ n
      → (i < l1 → up (a ! i) ≡ true)
      → (r ≤ i → i < n → up (a ! i) ≡ false)
      → Returns (split fuel up a l1 r) (SeparatesAt a n up i)
  unfolding split
  split-SeparatesAt i zero l1 r enough le bound below above = absurd (omega arith)
  split-SeparatesAt i (suc fuel) l1 r enough le bound below above = ground (
    arith,
    get_elem?-eq-get_or a (l1 + (r + 1 - l1) / 2 - 1) (pos 0),
    falls i (l1 + (r + 1 - l1) / 2 - 1),
    falls (l1 + (r + 1 - l1) / 2 - 1) i,
    split-SeparatesAt i fuel (l1 + (r + 1 - l1) / 2) r,
    split-SeparatesAt i fuel l1 (l1 + (r + 1 - l1) / 2 - 1),
  )

  pub split-Separates : Returns (split (suc n) up a 0 n) (λ r. (i : ℕ) → SeparatesAt a n up i r)
  split-Separates = Returns-all (split (suc n) up a 0 n) (SeparatesAt a n up) (λ i.
      split-SeparatesAt i (suc n) 0 n (omega arith) (omega arith) (omega arith)
        (λ h. absurd (omega arith)) (λ h k. absurd (omega arith)))

-- The test of `bin_search_first_occurrence` falls along a sorted array.
ltb_ℤ_falls :
    (a : List ℤ) (n : ℕ) (val : ℤ)
    → IsSorted a n
    → (i j : ℕ) → i ≤ j
    → j < n
    → ltb_ℤ (a ! j) val ≡ true
    → ltb_ℤ (a ! i) val ≡ true
ltb_ℤ_falls a n val sorted i j le lt h = ground (arith, sorted i j)

module _ (a : List ℤ) (n : ℕ) (val : ℤ) (sorted : IsSorted a n) (fits : n ≤ length a) where
  FirstAt-Separates :
      (r : ℕ)
      → ((i : ℕ) → SeparatesAt a n (λ v. ltb_ℤ v val) i r)
      → Returns
          (if r == n
            then done (negsuc 0)
            else (present (get_elem? a r) >>= λ v. done (if eqb_ℤ v val then pos r else negsuc 0)))
          (FirstAt a n val)
  FirstAt-Separates r s = elim (Bool-cases (r == n)) [
    | inl e ↦ rw e (λ i lt h. ground (arith, s i))
    | inr e ↦
        rw (e, get_elem?-eq-get_or a r (pos 0) (ground (arith, s 0)))
          (elim (Bool-cases (eqb_ℤ (a ! r) val)) [
            | inl h ↦ rw h (ground (arith, s 0), ground arith, λ i lt q. ground (arith, s i))
            | inr h ↦ rw h (λ i lt q. ground (arith, s i, s r, sorted r i))
          ])
  ]

  -- On the first `n` elements of an array, in ascending order, `bin_search_first_occurrence` returns
  -- the smallest index that holds the value, or -1 if none of them is the value.
  pub bin_search_first_occurrence-FirstAt :
      Returns (bin_search_first_occurrence a n val) (FirstAt a n val)
  unfolding bin_search_first_occurrence
  bin_search_first_occurrence-FirstAt =
      Returns-bind (λ r. (i : ℕ) → SeparatesAt a n (λ v. ltb_ℤ v val) i r) (FirstAt a n val)
        (split (suc n) (λ v. ltb_ℤ v val) a 0 n) _
        (split-Separates a n (λ v. ltb_ℤ v val) fits (ltb_ℤ_falls a n val sorted)) FirstAt-Separates

-- ===== src/BinSearch/Last.antt =====
-- `bin_search_last_occurrence`, and its read of `arr[-1]`.
use interview_questions.Prelude.{
  ◌==◌, if◌then◌else◌, ne→==, Bool-cases, length, get_elem?-eq-get_or, ℕ, zero, suc, ◌+◌, ◌≤◌, ◌<◌,
  ◌≡◌, inl, inr, Bool, true, false, List, arith,
}
use interview_questions.Prelude.Int.{ℤ, pos, negsuc, ◌≤ℤ◌, ◌<ℤ◌, ltb_ℤ, eqb_ℤ}
use interview_questions.Prelude.Arrays.{◌!◌, IsSorted}
use interview_questions.Prelude.Run.{Run, done, fault, ◌>>=◌, Returns, Returns→done}
use interview_questions.BinSearch.{split, read_before, pred_ℤ, bin_search_last_occurrence}
use interview_questions.BinSearch.Order.{LastAt}
use interview_questions.BinSearch.First.{SeparatesAt, split-Separates}

-- The index `l` moves up to `m` unless `val < arr[m]`.
abbrev not_above : ℤ → ℤ → Bool
not_above val v = if ltb_ℤ val v then false else true

not_above_falls :
    (a : List ℤ) (n : ℕ) (val : ℤ)
    → IsSorted a n
    → (i j : ℕ) → i ≤ j
    → j < n
    → not_above val (a ! j) ≡ true
    → not_above val (a ! i) ≡ true
not_above_falls a n val sorted i j le lt h = ground (arith, sorted i j)

module _ (a : List ℤ) (n : ℕ) (val : ℤ) (sorted : IsSorted a n) (fits : n ≤ length a) where
  -- What follows the loop.
  after_split : ℕ → Run ℤ
  after_split l1 =
      if l1 == n + 1
      then done (negsuc 0)
      else (read_before a l1 >>= λ v. done (if eqb_ℤ v val then pred_ℤ l1 else negsuc 0))

  LastAt-Separates :
      (r : ℕ)
      → ((i : ℕ) → SeparatesAt a n (not_above val) i r)
      → (0 < n)
      → (a ! 0) ≤ℤ val
      → Returns (after_split r) (LastAt a n val)
  unfolding after_split read_before
  LastAt-Separates zero s pos_n first = ground (arith, s 0)
  LastAt-Separates (suc r) s pos_n first =
      rw
        (
          ne→== (suc r) (n + 1) (ground (arith, s 0)),
          get_elem?-eq-get_or a r (pos 0) (ground (arith, s 0)),
        )
        (elim (Bool-cases (eqb_ℤ (a ! r) val)) [
          | inl h ↦ rw h (ground (arith, s 0), ground arith, λ i gt lt q. ground (arith, s i))
          | inr h ↦ rw h (λ i lt q. ground (arith, s i, s r, sorted i r))
        ])

  fault-Separates :
      (r : ℕ)
      → ((i : ℕ) → SeparatesAt a n (not_above val) i r)
      → ((j : ℕ) → j < n → val <ℤ a ! j)
      → after_split r ≡ fault
  unfolding after_split read_before
  fault-Separates zero s above = ground arith
  fault-Separates (suc r) s above = ground (arith, s r, above r)

  -- On the first `n` elements of an array, in ascending order, `bin_search_last_occurrence` returns
  -- the largest index that holds the value, or -1 if none does, provided that `n` is not 0 and the
  -- first element is at most the value; if every element exceeds the value, and so where `n` is 0, it
  -- reads `arr[-1]` and faults.
  pub bin_search_last_occurrence-LastAt :
      ((0 < n) → (a ! 0) ≤ℤ val → Returns (bin_search_last_occurrence a n val) (LastAt a n val))
      × (((j : ℕ) → j < n → val <ℤ a ! j) → bin_search_last_occurrence a n val ≡ fault)
  unfolding bin_search_last_occurrence after_split
  bin_search_last_occurrence-LastAt =
      let separated = split-Separates a n (not_above val) fits (not_above_falls a n val sorted) in
      let (r, e, s) = Returns→done _ (split (suc n) (not_above val) a 0 n) separated in
      (λ p q. rw e (LastAt-Separates r s p q), λ above. rw e (fault-Separates r s above))

-- ===== src/BinSearch/Traditional.antt =====
-- The loop that two searches share, and the traditional binary search.
use interview_questions.Prelude.{
  length, get_elem?-eq-get_or, ℕ, zero, suc, ◌+◌, ◌-◌, ◌/◌, ◌≤◌, ◌<◌, ◌≡◌, List, arith,
}
use interview_questions.Prelude.Int.{ℤ, pos, negsuc, ◌<ℤ◌}
use interview_questions.Prelude.Arrays.{◌!◌, IsSorted}
use interview_questions.Prelude.Run.{done, Returns, Returns-all, Returns-bind}
use interview_questions.BinSearch.{Ended, found, crossed, narrow, binary_search}
use interview_questions.BinSearch.Order.{Locates}

-- What the end of the loop says: a hit, or a point that splits the array at `val`.
abbrev pub SplitsAt : List ℤ → ℕ → ℤ → ℕ → Ended → Type 0
SplitsAt a n val i (found p) = (p < n) × (a ! p ≡ val)
SplitsAt a n val i (crossed l h) =
    (l ≡ h) × (l ≤ n) × (i < l → a ! i <ℤ val) × (l ≤ i → i < n → val <ℤ a ! i)

module _ (a : List ℤ) (n : ℕ) (val : ℤ) (sorted : IsSorted a n) (fits : n ≤ length a) where
  narrow-SplitsAt :
      (i fuel l h : ℕ)
      → h - l < fuel
      → l ≤ h
      → h ≤ n
      → (i < l → a ! i <ℤ val)
      → (h ≤ i → i < n → val <ℤ a ! i)
      → Returns (narrow fuel a val l h) (SplitsAt a n val i)
  unfolding narrow
  narrow-SplitsAt i zero l h enough le bound below above = absurd (omega arith)
  narrow-SplitsAt i (suc fuel) l h enough le bound below above = ground (
    arith,
    get_elem?-eq-get_or a (l + (h - 1 - l) / 2) (pos 0),
    sorted i (l + (h - 1 - l) / 2),
    sorted (l + (h - 1 - l) / 2) i,
    narrow-SplitsAt i fuel (l + (h - 1 - l) / 2 + 1) h,
    narrow-SplitsAt i fuel l (l + (h - 1 - l) / 2),
  )

  pub narrow-Splits : Returns (narrow (suc n) a val 0 n) (λ e. (i : ℕ) → SplitsAt a n val i e)
  narrow-Splits = Returns-all (narrow (suc n) a val 0 n) (SplitsAt a n val) (λ i.
      narrow-SplitsAt i (suc n) 0 n (omega arith) (omega arith) (omega arith)
        (λ h. absurd (omega arith)) (λ h k. absurd (omega arith)))

  Locates-Splits :
      (e : Ended)
      → ((i : ℕ) → SplitsAt a n val i e)
      → Returns
          (elim e [ found mid ↦ done (pos mid) | crossed l h ↦ done (negsuc 0) ])
          (Locates a n val)
  Locates-Splits (found p) s = s 0
  Locates-Splits (crossed l h) s = λ i lt eq. ground (arith, s i)

  -- On the first `n` elements of an array, in ascending order, `binary_search` returns: an index below
  -- `n` that holds the value, or -1 if none of the `n` elements is the value. It reads nothing outside.
  pub binary_search-Locates : Returns (binary_search a n val) (Locates a n val)
  unfolding binary_search
  binary_search-Locates =
      Returns-bind (λ e. (i : ℕ) → SplitsAt a n val i e) (Locates a n val)
        (narrow (suc n) a val 0 n) _ narrow-Splits Locates-Splits

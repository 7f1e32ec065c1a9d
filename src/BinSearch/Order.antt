-- ===== src/BinSearch/Order.antt =====
-- What the searches promise: an index of the value, the first one, the last one.
use interview_questions.Prelude.{ℕ, zero, suc, ◌<◌, ◌≡◌, ◌≢◌, List}
use interview_questions.Prelude.Int.{ℤ, pos, negsuc}
use interview_questions.Prelude.Arrays.{◌!◌}

-- An index below `n` that holds `val`, or -1 where none of the first `n` elements is `val`.
abbrev pub Locates : List ℤ → ℕ → ℤ → ℤ → Type 0
Locates a n val (pos p) = (p < n) × (a ! p ≡ val)
Locates a n val (negsuc zero) = (i : ℕ) → i < n → a ! i ≢ val
Locates a n val (negsuc (suc k)) = ⊥

-- The smallest index below `n` that holds `val`, or -1 where none of the first `n` elements does.
abbrev pub FirstAt : List ℤ → ℕ → ℤ → ℤ → Type 0
FirstAt a n val (pos p) = (p < n) × (a ! p ≡ val) × ((i : ℕ) → i < p → a ! i ≢ val)
FirstAt a n val (negsuc k) = Locates a n val (negsuc k)

-- The largest such index.
abbrev pub LastAt : List ℤ → ℕ → ℤ → ℤ → Type 0
LastAt a n val (pos p) = (p < n) × (a ! p ≡ val) × ((i : ℕ) → p < i → i < n → a ! i ≢ val)
LastAt a n val (negsuc k) = Locates a n val (negsuc k)

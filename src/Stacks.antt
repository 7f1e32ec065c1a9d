-- ===== src/Stacks.antt =====
-- stacks_queues: what the stacks in arrays share, an array prefix read as a list with the top first.
use interview_questions.Prelude.{
  length, set, get_or-set_self, ℕ, ◌≤◌, ◌<◌, ◌≡◌, List, [], ◌∷◌, arith,
}
use interview_questions.Prelude.Int.{ℤ, pos}
use interview_questions.Prelude.Arrays.{◌!◌, get_or-set}
pub mod MinStack
pub mod SortStack
pub mod Rpn
pub mod ThreeStacks

-- The array holds the elements of the list, the last one at index 0.
abbrev pub Stacked : List ℤ → List ℤ → Type 0
Stacked arr [] = Unit {0}
Stacked arr (x ∷ xs) = (arr ! length xs ≡ x) × Stacked arr xs

-- A write above the elements keeps them.
pub Stacked-set :
    (arr xs : List ℤ) (i : ℕ) (v : ℤ)
    → length xs ≤ i
    → i < length arr
    → Stacked arr xs
    → Stacked (set arr i v) xs
Stacked-set arr [] i v above fits held = tt
Stacked-set arr (x ∷ xs) i v above fits held = (
  ground (arith, get_or-set arr i (length xs) v, held.0),
  Stacked-set arr xs i v (omega arith) fits held.1,
)

pub Stacked-push :
    (arr xs : List ℤ) (i : ℕ) (v : ℤ)
    → i ≡ length xs
    → i < length arr
    → Stacked arr xs
    → Stacked (set arr i v) (v ∷ xs)
Stacked-push arr xs i v e fits held = (
  rw e (get_or-set_self arr (length xs) v (pos 0) (omega arith)),
  Stacked-set arr xs i v (omega arith) fits held,
)

-- ===== src/Stacks/MinStack/Minima.antt =====
-- stacks_queues/stack_with_min/solution.c: the minima that the second stack has.
use interview_questions.Prelude.{
  if◌then◌else◌, Bool-cases, length, suc, ◌≤◌, ◌≡◌, refl, inl, inr, Bool, true, List, [], ◌∷◌,
  arith,
}
use interview_questions.Prelude.Int.{ℤ, leb_ℤ}
use interview_questions.Stacks.{Stacked}

-- The minimum of an element and a list.
abbrev pub smallest : ℤ → List ℤ → ℤ
smallest x [] = x
smallest x (y ∷ ys) = let m = smallest y ys in if leb_ℤ x m then x else m

-- The minima that a stack keeps: an element is kept when it is at most the last one kept.
abbrev pub is_kept : ℤ → List ℤ → Bool
is_kept x [] = true
is_kept x (m ∷ ms) = leb_ℤ x m

abbrev pub enter : ℤ → List ℤ → List ℤ
enter x ms = if is_kept x ms then x ∷ ms else ms

abbrev pub mins_of : List ℤ → List ℤ
mins_of [] = []
mins_of (x ∷ xs) = enter x (mins_of xs)

pub length-enter : (x : ℤ) (ms : List ℤ) → length (enter x ms) ≤ suc (length ms)
length-enter x ms = ground arith

pub length-mins_of : (xs : List ℤ) → length (mins_of xs) ≤ length xs
length-mins_of [] = omega arith
length-mins_of (x ∷ xs) = omega (arith, length-enter x (mins_of xs), length-mins_of xs)

pub enter-smallest :
    (x m : ℤ) (ms kept : List ℤ)
    → kept ≡ m ∷ ms
    → (rest : List ℤ) × (enter x kept ≡ (if leb_ℤ x m then x else m) ∷ rest)
enter-smallest x m ms kept e = (if leb_ℤ x m then m ∷ ms else ms, rw e (ground arith))

pub mins_of-smallest :
    (x : ℤ) (xs : List ℤ) → (rest : List ℤ) × (mins_of (x ∷ xs) ≡ smallest x xs ∷ rest)
mins_of-smallest x [] = ([], refl)
mins_of-smallest x (y ∷ ys) =
    let (ms, e) = mins_of-smallest y ys in enter-smallest x (smallest y ys) ms (mins_of (y ∷ ys)) e

pub Stacked-entered :
    (arr : List ℤ) (x : ℤ) (ms : List ℤ) → Stacked arr (enter x ms) → Stacked arr ms
Stacked-entered arr x ms h = elim (Bool-cases (is_kept x ms)) [
  | inl e ↦ (rw e at h).1
  | inr e ↦ rw e at h
]

-- The stack of minima empties with the stack itself.
pub mins_of-empty : (xs : List ℤ) → length (mins_of xs) ≡ 0 → length xs ≡ 0
mins_of-empty [] h = refl
mins_of-empty (x ∷ xs) h = absurd (ground (arith, mins_of-empty xs))

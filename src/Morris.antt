-- ===== src/Morris.antt =====
-- trees_graphs/traversal_without_recursion/solution.c: the traversals that keep no stack. A pointer is
-- an address or `none` for `NULL`, and an address that holds no node is not allocated.
pub mod Threads
pub mod Visits
pub mod Traversal
pub mod Driver
pub mod Place
pub mod Inserts
pub mod Stored
pub mod Transcript
use interview_questions.Prelude.{
  ◌==◌, if◌then◌else◌, ℕ, zero, suc, ◌+◌, ◌*◌, true, false, Option, none, some, List, [], ◌∷◌, ◌++◌,
}
use interview_questions.Prelude.Int.{ℤ}
use interview_questions.Prelude.Run.{Run, done, no_fuel, ◌>>=◌, present}

pub record Node : Type 0 where
  pub key : ℤ
  pub left : Option ℕ
  pub right : Option ℕ

abbrev pub Heap : Type 0
Heap = ℕ → Option Node

abbrev pub write : Heap → ℕ → Node → Heap
write h p n a = if a == p then some n else h a

-- The inner `while`.
unfoldable pub predecessor : (fuel : ℕ) → Heap → (curr predecessor : ℕ) → Run ℕ
predecessor zero h curr p = no_fuel
predecessor (suc fuel) h curr p = present (h p) >>= λ n. elim n.right [
  | none ↦ done p
  | some q ↦ elim (q == curr) [ true ↦ done p | false ↦ predecessor fuel h curr q ]
]

-- A round of the outer `while`: the heap, `curr` and what is printed.
unfoldable pub in_order_step : (fuel : ℕ) → Heap → (curr : ℕ) → Run (Heap × Option ℕ × List ℤ)
in_order_step fuel h curr = present (h curr) >>= λ n. elim n.left [
  | none ↦ done (h, n.right, n.key ∷ [])
  | some l ↦ predecessor fuel h curr l >>= λ p. present (h p) >>= λ m. elim m.right [
    | some q ↦
        let g = write h p (record m { right = none }) in
        present (g curr) >>= λ c. done (g, c.right, n.key ∷ [])
    | none ↦
        let g = write h p (record m { right = some curr }) in
        present (g curr) >>= λ c. done (g, c.left, [])
  ]
]

unfoldable pub pre_order_step : (fuel : ℕ) → Heap → (curr : ℕ) → Run (Heap × Option ℕ × List ℤ)
pre_order_step fuel h curr = present (h curr) >>= λ n. elim n.left [
  | none ↦ done (h, n.right, n.key ∷ [])
  | some l ↦ predecessor fuel h curr l >>= λ p. present (h p) >>= λ m. elim m.right [
    | some q ↦
        let g = write h p (record m { right = none }) in
        present (g curr) >>= λ c. done (g, c.right, [])
    | none ↦
        let g = write h p (record m { right = some curr }) in
        present (g curr) >>= λ c. done (g, c.left, n.key ∷ [])
  ]
]

-- The outer `while`.
unfoldable pub while_curr :
    (Heap → ℕ → Run (Heap × Option ℕ × List ℤ))
    → (fuel : ℕ) → Heap
    → (curr : Option ℕ) → (printed : List ℤ) → Run (Heap × List ℤ)
while_curr step zero h curr printed = no_fuel
while_curr step (suc fuel) h none printed = done (h, printed)
while_curr step (suc fuel) h (some a) printed =
    step h a >>= λ (g, curr, out). while_curr step fuel g curr (printed ++ out)

-- The fuel is the number of nodes.
unfoldable pub morris_in_order : (fuel : ℕ) → Heap → (root : Option ℕ) → Run (Heap × List ℤ)
morris_in_order fuel h root = while_curr (in_order_step fuel) (2 * fuel + 1) h root []

unfoldable pub morris_pre_order : (fuel : ℕ) → Heap → (root : Option ℕ) → Run (Heap × List ℤ)
morris_pre_order fuel h root = while_curr (pre_order_step fuel) (2 * fuel + 1) h root []

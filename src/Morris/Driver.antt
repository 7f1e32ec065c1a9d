-- ===== src/Morris/Driver.antt =====
-- trees_graphs/traversal_without_recursion/solution.c: the tree and the command loop. `malloc` picks the
-- address of a node, and a line of the input is the command that `sscanf` finds there.
use interview_questions.Prelude.{
  ◌==◌, if◌then◌else◌, ℕ, zero, suc, true, false, Option, none, some, List, [], ◌∷◌, ◌++◌,
}
use interview_questions.Prelude.Int.{ℤ, ltb_ℤ}
use interview_questions.Prelude.Run.{Run, done, no_fuel, ◌>>=◌, present}
use interview_questions.Morris.{Heap, write, morris_in_order, morris_pre_order}

pub data Command : Type 0 where
  insert_command : ℤ → Command
  dump_command : Command
  quit_command : Command
  invalid : Command
  blank : Command

pub data Reply : Type 0 where
  no_memory : Reply
  dump : (pre_order in_order : List ℤ) → Reply
  invalid_input : Reply

-- `destroy_tree_node`.
abbrev pub release : Heap → ℕ → Heap
release h p a = if a == p then none else h a

unfoldable pub destroy_tree : (fuel : ℕ) → Heap → (root : Option ℕ) → Run Heap
destroy_tree zero h root = no_fuel
destroy_tree (suc fuel) h none = done h
destroy_tree (suc fuel) h (some p) = do
  n ← present (h p)
  g ← destroy_tree fuel h n.left
  m ← present (g p)
  g' ← destroy_tree fuel g m.right
  present (g' p) >>= λ _. done (release g' p)

-- The `while` of `tree_insert`.
unfoldable pub find_prev : (fuel : ℕ) → Heap → (k : ℤ) → (prev curr : Option ℕ) → Run (Option ℕ)
find_prev zero h k prev curr = no_fuel
find_prev (suc fuel) h k prev none = done prev
find_prev (suc fuel) h k prev (some c) = present (h c) >>= λ n. elim (ltb_ℤ k n.key) [
  | true ↦ find_prev fuel h k (some c) n.left
  | false ↦ find_prev fuel h k (some c) n.right
]

-- What follows it.
unfoldable pub attach :
    Heap → (root : Option ℕ) → (k : ℤ) → (prev to_insert : Option ℕ) → Run (Heap × Option ℕ)
attach h root k none to_insert = done (h, to_insert)
attach h root k (some q) none = done (h, none)
attach h root k (some q) (some p) = present (h q) >>= λ n. elim (ltb_ℤ k n.key) [
  | true ↦ done (write h q (record n { left = some p }), root)
  | false ↦ done (write h q (record n { right = some p }), root)
]

-- `root = new_root`, or the message.
abbrev pub after_insert : (root new_root : Option ℕ) → List Reply → Option ℕ × List Reply
after_insert root none printed = (root, printed ++ no_memory ∷ [])
after_insert root (some p) printed = (some p, printed)

module _ (malloc : Heap → Option ℕ) where
  unfoldable pub new_tree_node : (k : ℤ) → (left right : Option ℕ) → Heap → Heap × Option ℕ
  new_tree_node k left right h = elim (malloc h) [
    | none ↦ (h, none)
    | some p ↦ (write h p (record { key = k; left = left; right = right }), some p)
  ]

  unfoldable pub tree_insert : (fuel : ℕ) → Heap → (root : Option ℕ) → ℤ → Run (Heap × Option ℕ)
  tree_insert fuel h root k = find_prev fuel h k none root >>= λ prev.
      let (g, to_insert) = new_tree_node k none none h in attach g root k prev to_insert

  -- `fuel` is for each loop.
  unfoldable pub main :
      (fuel : ℕ) → List Command → Heap → (root : Option ℕ) → List Reply → Run (List Reply)
  main fuel [] h root printed = destroy_tree fuel h root >>= λ g. done printed
  main fuel (insert_command key ∷ commands) h root printed =
      tree_insert fuel h root key >>= λ (g, new_root).
      let (root', printed') = after_insert root new_root printed in
      main fuel commands g root' printed'
  main fuel (dump_command ∷ commands) h root printed = morris_pre_order fuel h root >>= λ (g, pre).
      morris_in_order fuel g root >>= λ (g', in_order).
      main fuel commands g' root (printed ++ dump pre in_order ∷ [])
  main fuel (quit_command ∷ commands) h root printed =
      destroy_tree fuel h root >>= λ g. done printed
  main fuel (invalid ∷ commands) h root printed =
      main fuel commands h root (printed ++ invalid_input ∷ [])
  main fuel (blank ∷ commands) h root printed =
      destroy_tree fuel h root >>= λ g. done (printed ++ invalid_input ∷ [])

-- ===== src/Morris/Transcript.antt =====
-- trees_graphs/traversal_without_recursion/solution.c: the command loop against a search tree as a value.
use interview_questions.Prelude.{
  if◌then◌else◌, Bool-cases, ℕ, ◌+◌, ◌≤◌, ◌<◌, ◌≡◌, refl, ap, ◌∙◌, inl, inr, Option, none, some,
  List, [], ◌∷◌, ◌++◌, arith,
}
use interview_questions.Prelude.Int.{ℤ, ltb_ℤ}
use interview_questions.Prelude.Run.{done, ◌>>=◌, Returns→done}
use interview_questions.Bst.Shape.{Tree, leaf, node, keys, IsOrdered}
use interview_questions.Bst.Insert.{insert, insert_key}
use interview_questions.Bst.Insert.Order.{keys-insert, insert-IsOrdered}
use interview_questions.Morris.{Heap, morris_in_order}
use interview_questions.Morris.Threads.{size}
use interview_questions.Morris.Traversal.{pre_keys, morris-keys}
use interview_questions.Morris.Driver.{
  Command, insert_command, dump_command, quit_command, invalid, blank, Reply, dump, invalid_input,
  destroy_tree, after_insert, main,
}
use interview_questions.Morris.Stored.{
  IsStored, HasRoom, size-insert, tree_insert-IsStored, destroy_tree-frees,
}

-- The search tree, without addresses.
pub data KeyTree : Type 0 where
  no_keys : KeyTree
  key_node : ℤ → KeyTree → KeyTree → KeyTree

abbrev insert_node : ℤ → KeyTree → KeyTree
insert_node k no_keys = key_node k no_keys no_keys
insert_node k (key_node j l r) =
    if ltb_ℤ k j then key_node j (insert_node k l) r else key_node j l (insert_node k r)

abbrev pre_listing : KeyTree → List ℤ
pre_listing no_keys = []
pre_listing (key_node k l r) = k ∷ pre_listing l ++ pre_listing r

abbrev forget : Tree → KeyTree
forget leaf = no_keys
forget (node a k l r) = key_node k (forget l) (forget r)

forget-insert : (p : ℕ) (k : ℤ) (t : Tree) → forget (insert p k t) ≡ insert_node k (forget t)
unfolding insert
forget-insert p k leaf = refl
forget-insert p k (node a j l r) = elim (Bool-cases (ltb_ℤ k j)) [
  | inl lt ↦ rw lt (ap (λ x. key_node j x (forget r)) (forget-insert p k l))
  | inr ge ↦ rw ge (ap (λ x. key_node j (forget l) x) (forget-insert p k r))
]

pre_keys-forget : (t : Tree) → pre_keys t ≡ pre_listing (forget t)
pre_keys-forget leaf = refl
pre_keys-forget (node a k l r) = rw (pre_keys-forget l, pre_keys-forget r) refl

-- What is printed: the keys before those below them from the search tree, and those in order from a
-- list that is kept sorted.
abbrev transcript : List Command → KeyTree → (sorted : List ℤ) → List Reply → List Reply
transcript [] t sorted printed = printed
transcript (insert_command k ∷ commands) t sorted printed =
    transcript commands (insert_node k t) (insert_key k sorted) printed
transcript (dump_command ∷ commands) t sorted printed =
    transcript commands t sorted (printed ++ dump (pre_listing t) sorted ∷ [])
transcript (quit_command ∷ commands) t sorted printed = printed
transcript (invalid ∷ commands) t sorted printed =
    transcript commands t sorted (printed ++ invalid_input ∷ [])
transcript (blank ∷ commands) t sorted printed = printed ++ invalid_input ∷ []

-- The number of insertions.
abbrev inserts : List Command → ℕ
inserts [] = 0
inserts (insert_command k ∷ commands) = inserts commands + 1
inserts (dump_command ∷ commands) = inserts commands
inserts (quit_command ∷ commands) = inserts commands
inserts (invalid ∷ commands) = inserts commands
inserts (blank ∷ commands) = inserts commands

module _ (malloc : Heap → Option ℕ) (room fuel : ℕ) (has_room : HasRoom malloc room)
    (enough : room < fuel) where
  freed :
      (h : Heap) (t : Tree) (root : Option ℕ) (printed : List Reply)
      → IsStored h t root
      → size t ≤ room
      → (destroy_tree fuel h root >>= λ g. done printed) ≡ done printed
  freed h t root printed stored le =
      (let (g, e, same) = Returns→done _ (destroy_tree fuel h root) (
          destroy_tree-frees fuel h root t stored.segment stored.distinct
            (omega (arith, le, enough))) in
        ap (λ r. r >>= λ g. done printed) e)

  main-run :
      (commands : List Command) (h : Heap) (t : Tree) (root : Option ℕ) (printed : List Reply)
      → IsStored h t root
      → IsOrdered t
      → size t + inserts commands ≤ room
      → main malloc fuel commands h root printed
        ≡ done (transcript commands (forget t) (keys t) printed)
  unfolding main
  main-run [] h t root printed stored ordered le = freed h t root printed stored (omega (arith, le))
  main-run (quit_command ∷ commands) h t root printed stored ordered le =
      freed h t root printed stored (omega (arith, le))
  main-run (blank ∷ commands) h t root printed stored ordered le =
      freed h t root (printed ++ invalid_input ∷ []) stored (omega (arith, le))
  main-run (invalid ∷ commands) h t root printed stored ordered le =
      main-run commands h t root (printed ++ invalid_input ∷ []) stored ordered (omega (arith, le))
  main-run (dump_command ∷ commands) h t root printed stored ordered le =
      (let (in_order, pre_order) =
          morris-keys fuel h root t stored.segment stored.distinct (omega (arith, le, enough)) in
        ap
          (λ r. r >>= λ (g, pre). morris_in_order fuel g root >>= λ (g', keys').
            main malloc fuel commands g' root (printed ++ dump pre keys' ∷ []))
          pre_order
        ∙ ap
            (λ r. r >>= λ (g', keys').
              main malloc fuel commands g' root (printed ++ dump (pre_keys t) keys' ∷ []))
            in_order
        ∙ main-run commands h t root (printed ++ dump (pre_keys t) (keys t) ∷ []) stored ordered
            (omega (arith, le))
        ∙ ap (λ x. done (transcript commands (forget t) (keys t) (printed ++ dump x (keys t) ∷ [])))
            (pre_keys-forget t))
  main-run (insert_command k ∷ commands) h t root printed stored ordered le =
      (let (p, e, unused) = has_room h t root stored (omega (arith, le)) in
        let (g, q, run, stored') =
          tree_insert-IsStored malloc fuel h root k t p stored (omega (arith, le, enough)) e
            unused in
        ap
          (λ r. r >>= λ (g, new_root).
            let (root', printed') = after_insert root new_root printed in
            main malloc fuel commands g root' printed')
          run
        ∙ main-run commands g (insert p k t) (some q) printed stored'
            (insert-IsOrdered p k t ordered) (omega (arith, le, size-insert p k t))
        ∙ ap (λ x. done (transcript commands x (keys (insert p k t)) printed)) (forget-insert p k t)
        ∙ ap (λ x. done (transcript commands (insert_node k (forget t)) x printed))
            (keys-insert p k t ordered))

  -- If `malloc` gives the address of no node as long as fewer than `room` nodes are in use, and no more
  -- insertions are asked for than that, then the session ends, and each dump shows the keys inserted so far:
  -- those before the keys below them as a search tree as a value has them, and those in order from a list
  -- that is kept sorted. The fuel of each loop is above `room`.
  pub main-transcript :
      (commands : List Command)
      → inserts commands ≤ room
      → main malloc fuel commands (λ a. none) none [] ≡ done (transcript commands no_keys [] [])
  main-transcript commands le =
      main-run commands (λ a. none) leaf none []
        (record { segment = refl; distinct = tt; empty = λ x out. refl }) tt (omega (arith, le))

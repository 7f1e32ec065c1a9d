-- ===== src/Tests/Morris.antt =====
-- trees_graphs/traversal_without_recursion on small inputs.
use native.Mathlib.Decide.{ℕ_discrete}
use interview_questions.Prelude.{
  ◌==◌, if◌then◌else◌, ne→==, ℕ, ◌<◌, ◌≡◌, refl, ◌≢◌, ◌⊎◌, inl, inr, Bool, true, false, Option,
  none, some, List, [], ◌∷◌, arith,
}
use interview_questions.Prelude.Int.{pos}
use interview_questions.Prelude.Run.{done}
use interview_questions.Bst.Insert.{insert_key}
use interview_questions.Bst.Shape.{Tree, leaf, node, has, IsDistinct}
use interview_questions.Morris.{Node, Heap, morris_in_order, morris_pre_order}
use interview_questions.Morris.Threads.{node_of, size}
use interview_questions.Morris.Traversal.{morris-keys}
use interview_questions.Morris.Driver.{
  Command, insert_command, dump_command, blank, dump, invalid_input, main,
}
use interview_questions.Morris.Stored.{IsStored, HasRoom}
use interview_questions.Morris.Transcript.{main-transcript}

abbrev three_nodes : Heap
three_nodes a =
    if a == 1
    then some (node_of (pos 5) (some 0) (some 2))
    else if a == 0
    then some (node_of (pos 3) none none)
    else if a == 2
    then some (node_of (pos 8) none none)
    else none

abbrev three_keys : Tree
three_keys = node 1 (pos 5) (node 0 (pos 3) leaf leaf) (node 2 (pos 8) leaf leaf)

three_keys-IsDistinct : IsDistinct three_keys
three_keys-IsDistinct = (
  refl,
  refl,
  λ a h. ground (arith, h),
  (refl, refl, (λ a h. refl), tt, tt),
  (refl, refl, (λ a h. refl), tt, tt),
)

morris-keys_example :
    (morris_in_order 3 three_nodes (some 1) ≡ done (three_nodes, pos 3 ∷ pos 5 ∷ pos 8 ∷ []))
    × (morris_pre_order 3 three_nodes (some 1) ≡ done (three_nodes, pos 5 ∷ pos 3 ∷ pos 8 ∷ []))
morris-keys_example =
    morris-keys 3 three_nodes (some 1) three_keys
      (
        refl,
        some 0,
        some 2,
        refl,
        (refl, none, none, refl, refl, refl),
        (refl, none, none, refl, refl, refl),
      )
      three_keys-IsDistinct (omega arith)

-- Two addresses.
abbrev is_free : Option Node → Bool
is_free none = true
is_free (some n) = false

abbrev two_places : Heap → Option ℕ
two_places h = if is_free (h 0) then some 0 else if is_free (h 1) then some 1 else none

free_place :
    (h : Heap) (t : Tree) (root : Option ℕ)
    → IsStored h t root
    → size t < 2
    → (h 0 ≡ none) ⊎ (h 1 ≡ none)
free_place h leaf root stored lt = inl (stored.empty 0 refl)
free_place h (node a k leaf leaf) root stored lt = elim (ℕ_discrete 0 a) [
  | yes here ↦ inr (stored.empty 1 (not-has 1 (omega (arith, here))))
  | no other ↦ inl (stored.empty 0 (not-has 0 other))
]
  where
    not-has : (x : ℕ) → x ≢ a → has x (node a k leaf leaf) ≡ false
    not-has x ne = rw (ne→== x a ne) refl
free_place h (node a k (node b j l r) m) root stored lt = absurd (omega (arith, lt))
free_place h (node a k leaf (node b j l r)) root stored lt = absurd (omega (arith, lt))

two_places-HasRoom : HasRoom two_places 2
two_places-HasRoom h t root stored lt = elim (free_place h t root stored lt) [
  | inl first ↦ (0, rw first refl, first)
  | inr second ↦ elim (place (h 0)) [
    | inl first ↦ (0, rw first refl, first)
    | inr (n, taken) ↦ (1, rw (taken, second) refl, second)
  ]
]
  where
    place : (c : Option Node) → (c ≡ none) ⊎ ((n : Node) × (c ≡ some n))
    place none = inl refl
    place (some n) = inr (n, refl)

abbrev two_inserts : List Command
two_inserts = insert_command (pos 5) ∷ insert_command (pos 3) ∷ dump_command ∷ blank ∷ []

main-transcript_example :
    main two_places 3 two_inserts (λ a. none) none []
    ≡ done (dump (pos 5 ∷ pos 3 ∷ []) (pos 3 ∷ pos 5 ∷ []) ∷ invalid_input ∷ [])
unfolding insert_key
main-transcript_example =
    main-transcript two_places 2 3 two_places-HasRoom (omega arith) two_inserts (omega arith)

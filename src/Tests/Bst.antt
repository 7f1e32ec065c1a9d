-- ===== src/Tests/Bst.antt =====
-- DS_Algos/BST/unbalanced on a small tree.
use interview_questions.Prelude.{
  ◌==◌, if◌then◌else◌, ◌<◌, ◌≡◌, refl, ◌≢◌, true, false, none, some, arith,
}
use interview_questions.Prelude.Int.{ℤ, pos}
use interview_questions.Prelude.Run.{done}
use interview_questions.Bst.Heap.{Ptr, null, Heap, Malloc, IsFresh}
use interview_questions.Bst.Shape.{
  Tree, leaf, node, addr, cell, Holds, has, IsDistinct, keys, IsOrdered,
}
use interview_questions.Bst.Ops.{
  tree_minimum, tree_insert, tree_find, tree_delete_internal, destroy_tree, pre_order_traversal,
}
use interview_questions.Bst.Find.{count, key_at, head_or, tree_find_lem, tree_minimum_lem}
use interview_questions.Bst.Insert.{insert_key}
use interview_questions.Bst.Insert.Correct.{tree_insert_lem}
use interview_questions.Bst.Traverse.{trace, pre_order_traversal-trace, destroy_tree_lem}
use interview_questions.Bst.Delete.{parent_at, tree_delete_stale}

-- 5 at the root, 3 and 8 below it, at the addresses 1, 2 and 3.
abbrev small : Tree
small = node 1 (pos 5) (node 2 (pos 3) leaf leaf) (node 3 (pos 8) leaf leaf)

abbrev heap : Heap
heap a =
    if a == 1
    then some (cell (pos 5) 0 2 3)
    else if a == 2
    then some (cell (pos 3) 1 0 0)
    else if a == 3
    then some (cell (pos 8) 1 0 0)
    else none

heap-Holds : Holds heap null small
heap-Holds = (omega arith, refl, (omega arith, refl, tt, tt), (omega arith, refl, tt, tt))

small-IsDistinct : IsDistinct small
small-IsDistinct =
    (refl, refl, apart, (refl, refl, (λ a i. refl), tt, tt), (refl, refl, (λ a i. refl), tt, tt))
  where
    apart :
        (a : Ptr)
        → has a (node 2 (pos 3) leaf leaf) ≡ true
        → has a (node 3 (pos 8) leaf leaf) ≡ false
    apart a i = ground arith

small-IsOrdered : IsOrdered small
small-IsOrdered = omega arith

-- The lowest address above 3 that is free; there is room for one node.
abbrev next_address : Malloc
next_address h = elim (h 4) [ none ↦ some 4 | some n ↦ none ]

next_address-IsFresh : IsFresh next_address
next_address-IsFresh h p e = ground arith

tree_find_lem_example :
    (q : Ptr) × (tree_find 3 1 (pos 8) heap ≡ done (q, heap))
    × (q ≡ null → count (pos 8) small ≡ 0)
    × (q ≢ null → (0 < count (pos 8) small) × (key_at heap q ≡ some (pos 8)))
tree_find_lem_example =
    tree_find_lem heap null (pos 8) small 3 heap-Holds small-IsOrdered (omega arith)

tree_minimum_lem_example :
    (q : Ptr) × (tree_minimum 3 1 heap ≡ done (q, heap))
    × (small ≡ leaf → q ≡ null)
    × ((k : ℤ) → small ≢ leaf → key_at heap q ≡ some (head_or k (keys small)))
tree_minimum_lem_example = tree_minimum_lem heap null small 3 heap-Holds (omega arith)

tree_insert_lem_example :
    (next_address heap ≡ none → tree_insert next_address 3 1 (pos 4) heap ≡ done (null, heap))
    × ((p : Ptr)
        → next_address heap ≡ some p
        → (g : Heap) × (u : Tree) × (tree_insert next_address 3 1 (pos 4) heap ≡ done (addr u, g))
          × Holds g null u
          × IsDistinct u
          × IsOrdered u
          × (keys u ≡ insert_key (pos 4) (keys small)))
tree_insert_lem_example =
    tree_insert_lem next_address heap (pos 4) 3 small next_address-IsFresh heap-Holds
      small-IsDistinct small-IsOrdered (omega arith)

pre_order_traversal-trace_example : pre_order_traversal 3 1 heap ≡ done (trace small, heap)
pre_order_traversal-trace_example =
    pre_order_traversal-trace heap null small 3 heap-Holds (omega arith)

destroy_tree_lem_example :
    (g : Heap) × (destroy_tree 3 1 heap ≡ done (tt, g))
    × ((a : Ptr) → has a small ≡ true → g a ≡ none)
    × ((a : Ptr) → has a small ≡ false → g a ≡ heap a)
destroy_tree_lem_example =
    destroy_tree_lem heap null small 3 heap-Holds small-IsDistinct (omega arith)

tree_delete_stale_example :
    (g : Heap) × (tree_delete_internal 2 1 1 heap ≡ done (3, g))
    × (g 3 ≡ some (cell (pos 8) null 2 null))
    × (g 1 ≡ none)
    × (parent_at g 2 ≡ some 1)
tree_delete_stale_example =
    tree_delete_stale heap 1 2 3 (pos 5) (pos 8) null (omega arith) (omega arith) (omega arith)
      (omega arith) refl refl 1 (omega arith) (omega arith) refl

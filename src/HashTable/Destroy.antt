-- ===== src/HashTable/Destroy.antt =====
-- DS_Algos/hash_table/impl.c: `destroy_list` on a list with nodes.
use interview_questions.Prelude.{
  ==_refl, Option-cases, get_elem?, ℕ, suc, ◌≡◌, refl, inl, inr, some,
}
use interview_questions.Prelude.Run.{fault, ◌>>=◌}
use interview_questions.HashTable.{
  NodePtr, slot, node, HtNode, Table, read_node, write_cell, free_node, destroy_nodes, destroy_list,
}

-- The loop, at a node: it frees the next node before it goes there.
destroy_nodes-faults :
    (fuel : ℕ) (t : Table) (i p : ℕ) → destroy_nodes (suc (suc fuel)) t (slot i) (node p) ≡ fault
unfolding destroy_nodes read_node free_node write_cell
destroy_nodes-faults fuel t i p = elim (Option-cases (t.heap p)) [
  | inl e ↦ rw e refl
  | inr (n, e) ↦ rw e (after_read n.next)
]
  where
    after_read :
        (q : NodePtr) → (free_node t q >>= λ t1. destroy_nodes (suc fuel) t1 (slot i) q) ≡ fault
    after_read (slot j) = refl
    after_read (node q) = elim (Option-cases (t.heap q)) [
      | inl e ↦ rw e refl
      | inr (n, e) ↦ rw e (rw (==_refl q) refl)
    ]

-- On a slot whose list has a node, `destroy_list` reads a node that it has freed or frees the head:
-- it never returns, whatever the list is.
pub destroy_list-faults :
    (fuel : ℕ) (t : Table) (i p : ℕ) (h : HtNode)
    → get_elem? t.heads i ≡ some h
    → h.next ≡ node p
    → destroy_list (suc (suc fuel)) t (slot i) ≡ fault
unfolding destroy_list read_node
destroy_list-faults fuel t i p h head_is next_is =
    rw head_is (rw next_is (rw (destroy_nodes-faults fuel t i p) refl))

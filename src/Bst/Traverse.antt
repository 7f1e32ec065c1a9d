-- ===== src/Bst/Traverse.antt =====
-- `pre_order_traversal` and `destroy_tree` on a tree in the heap.
use mathlib.Core.Path.{fun_ext}
use interview_questions.Prelude.{
  ◌==◌, if◌then◌else◌, ne→==, ℕ, zero, suc, ◌<◌, ◌≡◌, refl, ap, ◌∙◌, Bool, true, false, ◌||◌,
  Option, none, List, [], ◌∷◌, ◌++◌, arith,
}
use interview_questions.Prelude.Int.{ℤ}
use interview_questions.Prelude.Run.{done}
use interview_questions.Bst.Heap.{
  Ptr, null, Node, Heap, write, load, bind-done, load-ok, destroy_tree_node-ok,
}
use interview_questions.Bst.Shape.{
  Tree, leaf, node, addr, cell, Holds, has, IsDistinct, height, frame, not_both,
}
use interview_questions.Bst.Ops.{
  destroy_tree, Line, pre_order_traversal, entered, left_side, right_side, leaving,
}

-- The trace of a tree.
abbrev pub trace : Tree → List Line
trace leaf = []
trace (node p k l r) = entered k ∷ left_side ∷ (trace l ++ right_side ∷ (trace r ++ leaving k ∷ []))

-- On a tree in the heap, and with more fuel than the tree is high, `pre_order_traversal` prints the
-- trace of that tree, and the heap does not change.
pub pre_order_traversal-trace :
    (h : Heap) (parent : Ptr) (t : Tree) (fuel : ℕ)
    → Holds h parent t
    → height t < fuel
    → pre_order_traversal fuel (addr t) h ≡ done (trace t, h)
unfolding pre_order_traversal
pre_order_traversal-trace h parent leaf zero s enough = absurd (omega arith)
pre_order_traversal-trace h parent leaf (suc fuel) s enough = refl
pre_order_traversal-trace h parent (node p k l r) zero s enough = absurd (omega arith)
pre_order_traversal-trace h parent (node p k l r) (suc fuel) s enough = ground (
  arith,
  load-ok h p (cell k parent (addr l) (addr r)) s.0 s.1,
  pre_order_traversal-trace h p l fuel s.2,
  pre_order_traversal-trace h p r fuel s.3,
)

-- The heap without the nodes of a tree.
abbrev pub without : Heap → Tree → Heap
without h t a = if has a t then none else h a

-- What is left of a heap is decided at each address.
split_heap :
    (h : Heap) (p : Ptr) (k : ℤ) (l r : Tree)
    → write (without (without h l) r) p none ≡ without h (node p k l r)
split_heap h p k l r = fun_ext λ a. unfold write in at_address (a == p) (has a l) (has a r) (h a)
  where
    at_address :
        (b c d : Bool) (o : Option Node)
        → (if b then none else if d then none else if c then none else o)
          ≡ (if b || (c || d) then none else o)
    at_address b c d o = ground arith

destroy_tree-without :
    (h : Heap) (parent : Ptr) (t : Tree) (fuel : ℕ)
    → Holds h parent t
    → IsDistinct t
    → height t < fuel
    → destroy_tree fuel (addr t) h ≡ done (tt, without h t)
unfolding destroy_tree
destroy_tree-without h parent leaf zero s d enough = absurd (omega arith)
destroy_tree-without h parent leaf (suc fuel) s d enough = refl
destroy_tree-without h parent (node p k l r) zero s d enough = absurd (omega arith)
destroy_tree-without h parent (node p k l r) (suc fuel) s d enough =
    rw (ne→== p null s.0, destroy_tree)
      (bind-done (load p) _ h h _ (load-ok h p (cell k parent (addr l) (addr r)) s.0 s.1)
        ∙ bind-done (destroy_tree fuel (addr l)) _ h _ tt
            (destroy_tree-without h p l fuel s.2 d.3 (omega arith))
        ∙ bind-done (destroy_tree fuel (addr r)) _ (without h l) _ tt (
            destroy_tree-without (without h l) p r fuel
              (frame h (without h l) p r (λ a i. rw (not_both (has a l) (has a r) (d.2 a) i)) s.3)
              d.4 (omega arith))
        ∙ destroy_tree_node-ok (without (without h l) r) p (cell k parent (addr l) (addr r)) s.0
            (rw (d.1, d.0) s.1)
        ∙ ap (λ g. done (tt, g)) (split_heap h p k l r))

-- On a tree at distinct addresses in the heap, and with more fuel than the tree is high,
-- `destroy_tree` ends, having freed every node of the tree once and no other.
pub destroy_tree_lem :
    (h : Heap) (parent : Ptr) (t : Tree) (fuel : ℕ)
    → Holds h parent t
    → IsDistinct t
    → height t < fuel
    → (g : Heap) × (destroy_tree fuel (addr t) h ≡ done (tt, g))
      × ((a : Ptr) → has a t ≡ true → g a ≡ none)
      × ((a : Ptr) → has a t ≡ false → g a ≡ h a)
destroy_tree_lem h parent t fuel s d enough =
    (without h t, destroy_tree-without h parent t fuel s d enough, (λ a i. rw i), λ a o. rw o)

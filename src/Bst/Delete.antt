-- ===== src/Bst/Delete.antt =====
-- `tree_delete` at a root whose right child has no left child.
use interview_questions.Prelude.{==_refl, ne→==, ℕ, suc, ◌≡◌, sym, ◌∙◌, ◌≢◌, Option, none, some}
use interview_questions.Prelude.Int.{ℤ}
use interview_questions.Prelude.Run.{done}
use interview_questions.Bst.Heap.{
  Ptr, null, Node, Heap, write, ◌>>◌, load, set_left, destroy_tree_node, write_self, write_ne,
  bind-done, load-ok, set_left-ok, set_parent-ok, destroy_tree_node-ok,
}
use interview_questions.Bst.Shape.{cell}
use interview_questions.Bst.Ops.{tree_minimum, transplant, splice, tree_delete_internal, leftmost}

-- The parent pointer of the node at an address.
abbrev pub parent_at : Heap → Ptr → Option Ptr
parent_at h p = elim (h p) [ none ↦ none | some n ↦ some n.parent ]

module _ (h : Heap) (p q s : Ptr) (k i : ℤ) (right : Ptr) (p_ne : p ≢ null) (q_ne : q ≢ null)
    (s_ne : s ≢ null) (ps : p ≢ s) (at_p : h p ≡ some (cell k null q s))
    (at_s : h s ≡ some (cell i p null right)) where
  -- The root `p` takes no part in what is written to `s`.
  kept : (c : Option Node) → write h s c p ≡ some (cell k null q s)
  kept c = write_ne h s p c ps ∙ at_p

  minimum_here : (fuel : ℕ) → tree_minimum (suc fuel) s h ≡ done (s, h)
  unfolding tree_minimum leftmost
  minimum_here fuel =
      rw (ne→== s null s_ne, leftmost)
        (bind-done (load s) _ h h (cell i p null right) (load-ok h s _ s_ne at_s))

  -- The two writes to the successor.
  abbrev linked : Heap
  linked = write h s (some (cell i p q right))

  abbrev raised : Heap
  raised = write linked s (some (cell i null q right))

  transplant_run : transplant p s linked ≡ done (tt, raised)
  unfolding transplant
  transplant_run =
      bind-done (load p) _ linked linked (cell k null q s) (load-ok linked p _ p_ne (kept _))
      ∙ bind-done (load p) _ linked linked (cell k null q s) (load-ok linked p _ p_ne (kept _))
      ∙ rw (ne→== s null s_ne)
          (set_parent-ok linked s null (cell i p q right) s_ne (write_self h s _))

  splice_run : (fuel : ℕ) → splice (suc fuel) p p h ≡ done (s, raised)
  unfolding splice
  splice_run fuel =
      bind-done (load p) _ h h (cell k null q s) (load-ok h p _ p_ne at_p)
      ∙ bind-done (tree_minimum (suc fuel) s) _ h h s (minimum_here fuel)
      ∙ rw (==_refl s) (
          bind-done (set_left s q >> transplant p s) _ h raised tt (
            bind-done (set_left s q) _ h linked tt
              (set_left-ok h s q (cell i p null right) s_ne at_s)
            ∙ transplant_run)
          ∙ bind-done (load s) _ raised raised (cell i null q right)
              (load-ok raised s _ s_ne (write_self linked s _)))

  delete_run : (fuel : ℕ) → tree_delete_internal (suc fuel) p p h ≡ done (s, write raised p none)
  unfolding tree_delete_internal
  delete_run fuel =
      bind-done (load p) _ h h (cell k null q s) (load-ok h p _ p_ne at_p)
      ∙ rw (ne→== q null q_ne, ne→== s null s_ne)
          (bind-done (splice (suc fuel) p p) _ h raised s (splice_run fuel)
            ∙ bind-done (destroy_tree_node p) _ raised (write raised p none) tt (
                destroy_tree_node-ok raised p (cell k null q s) p_ne
                  (write_ne linked s p _ ps ∙ kept _)))

  -- Take a root `p` with a left child `q` and a right child `s`, where `s` has no left child. Deleting
  -- `p` ends with the root `s`, whose left child is `q`; the address `p` is given back, and `q` still
  -- has `p` as its parent.
  pub tree_delete_stale :
      (fuel : ℕ)
      → p ≢ q
      → q ≢ s
      → parent_at h q ≡ some p
      → (g : Heap) × (tree_delete_internal (suc fuel) p p h ≡ done (s, g))
        × (g s ≡ some (cell i null q right))
        × (g p ≡ none)
        × (parent_at g q ≡ some p)
  tree_delete_stale fuel pq qs below = (
    write raised p none,
    delete_run fuel,
    write_ne raised p s none (λ e. ps (sym e)) ∙ write_self linked s _,
    write_self raised p none,
    rw
        (
          write_ne raised p q none (λ e. pq (sym e)),
          write_ne linked s q (some (cell i null q right)) qs,
          write_ne h s q (some (cell i p q right)) qs,
          parent_at,
        )
        below,
  )

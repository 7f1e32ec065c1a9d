-- ===== src/Bst/Insert/Correct.antt =====
-- `tree_insert` as a whole.
use interview_questions.Prelude.{ne→==, ℕ, ◌<◌, ◌≡◌, sym, ap, ◌∙◌, ◌≢◌, none, some, arith}
use interview_questions.Prelude.Int.{ℤ}
use interview_questions.Prelude.Run.{done}
use interview_questions.Bst.Heap.{
  Ptr, null, Heap, write, Malloc, IsFresh, new_tree_node, write_self, bind-done, new_tree_node-ok,
}
use interview_questions.Bst.Shape.{
  Tree, leaf, node, addr, cell, Holds, IsDistinct, keys, IsOrdered, height, not-has_of_none,
}
use interview_questions.Bst.Ops.{descend, attach, tree_insert}
use interview_questions.Bst.Insert.{insert, insert_key, above, descend-above, attach-Attached}
use interview_questions.Bst.Insert.Order.{keys-insert, insert-IsOrdered, insert-IsDistinct}

above-ne :
    (h : Heap) (parent prev : Ptr) (k : ℤ) (t : Tree)
    → prev ≢ null
    → Holds h parent t
    → above prev k t ≢ null
unfolding above
above-ne h parent prev k leaf ne s = ne
above-ne h parent prev k (node q j l r) ne s =
    ground (arith, above-ne h q q k l s.0 s.2, above-ne h q q k r s.0 s.3)

above-ne_null :
    (h : Heap) (prev : Ptr) (k : ℤ) (q : Ptr) (j : ℤ) (l r : Tree)
    → Holds h prev (node q j l r)
    → above null k (node q j l r) ≢ null
unfolding above
above-ne_null h prev k q j l r s =
    ground (arith, above-ne h q q k l s.0 s.2, above-ne h q q k r s.0 s.3)

addr-insert : (k : ℤ) (p q : Ptr) (j : ℤ) (l r : Tree) → addr (insert p k (node q j l r)) ≡ q
unfolding insert
addr-insert k p q j l r = ground arith

module _ (fresh : Malloc) (h : Heap) (k : ℤ) (fuel : ℕ) where
  insert_fails :
      (t : Tree)
      → fresh h ≡ none
      → Holds h null t
      → height t < fuel
      → tree_insert fresh fuel (addr t) k h ≡ done (null, h)
  unfolding tree_insert new_tree_node
  insert_fails t full s enough = ground (arith, descend-above h null null k t fuel s enough)

  abbrev Inserted : Ptr → Tree → Type 0
  Inserted p t =
      (g : Heap) × (tree_insert fresh fuel (addr t) k h ≡ done (addr (insert p k t), g))
      × Holds g null (insert p k t)

  module _ (p : Ptr) (taken : fresh h ≡ some p) (not_null : p ≢ null) (unused : h p ≡ none) where
    insert_first : 0 < fuel → Inserted p leaf
    unfolding insert above
    insert_first enough = (
      write h p (some (cell k null null null)),
      (unfold tree_insert in
          bind-done (descend fuel null null k) _ h h null
            (descend-above h null null k leaf fuel tt enough)
          ∙ new_tree_node-ok fresh k null null null h p taken),
      (not_null, write_self h p _, tt, tt),
    )

    insert_below :
        (q : Ptr) (j : ℤ) (l r : Tree)
        → Holds h null (node q j l r)
        → IsDistinct (node q j l r)
        → height (node q j l r) < fuel
        → Inserted p (node q j l r)
    insert_below q j l r s d enough =
        let (g, run, holds, same) = attach-Attached h p k unused not_null null (node q j l r) s d in
        let ne : above null k (node q j l r) ≢ null = above-ne_null h null k q j l r s in
        (
          g,
          (unfold tree_insert in
              bind-done (descend fuel null q k) _ h h _
                (descend-above h null null k (node q j l r) fuel s enough)
              ∙ rw (ne→== _ null ne) (
                  bind-done (new_tree_node fresh k null null (above null k (node q j l r))) _ h _ p
                    (new_tree_node-ok fresh k null null _ h p taken)
                  ∙ rw (ne→== p null not_null) (
                      bind-done (attach (above null k (node q j l r)) p k) _ _ g tt run
                      ∙ ap (λ a. done (a, g)) (sym (addr-insert k p q j l r))))),
          holds,
        )

  -- With `malloc` as it is documented, a tree in order in the heap, and more fuel than the tree is
  -- high, `tree_insert` returns. Where `malloc` fails, it returns `NULL` and the heap is as before.
  -- Otherwise it returns the root of a tree that the heap holds, with every parent pointer, at distinct
  -- addresses, in order, whose keys are those before with `k` behind all keys that are not above it.
  pub tree_insert_lem :
      (t : Tree)
      → IsFresh fresh
      → Holds h null t
      → IsDistinct t
      → IsOrdered t
      → height t < fuel
      → (fresh h ≡ none → tree_insert fresh fuel (addr t) k h ≡ done (null, h))
        × ((p : Ptr)
            → fresh h ≡ some p
            → (g : Heap) × (u : Tree) × (tree_insert fresh fuel (addr t) k h ≡ done (addr u, g))
              × Holds g null u
              × IsDistinct u
              × IsOrdered u
              × (keys u ≡ insert_key k (keys t)))
  tree_insert_lem t is_fresh s d ord enough = (
    λ full. insert_fails t full s enough,
    λ p taken.
        let (not_null, unused) = is_fresh h p taken in
        let (g, run, holds) = inserted t p taken not_null unused s d enough in
        (
          g,
          insert p k t,
          run,
          holds,
          insert-IsDistinct p k t (not-has_of_none h null p t s unused) d,
          insert-IsOrdered p k t ord,
          keys-insert p k t ord,
        ),
  )
    where
      inserted :
          (t : Tree) (p : Ptr)
          → fresh h ≡ some p
          → p ≢ null
          → h p ≡ none
          → Holds h null t
          → IsDistinct t
          → height t < fuel
          → Inserted p t
      inserted leaf p taken not_null unused s d enough = insert_first p taken not_null unused enough
      inserted (node q j l r) p taken not_null unused s d enough =
          insert_below p taken not_null unused q j l r s d enough

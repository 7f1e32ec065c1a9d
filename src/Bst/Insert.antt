-- ===== src/Bst/Insert.antt =====
-- `tree_insert` adds one key, in order, and keeps every pointer of the tree right.
pub mod Order
pub mod Correct
use mathlib.Core.Bool.{false≢true}
use native.Mathlib.Decide.{dec_lt}
use interview_questions.Prelude.{
  if◌then◌else◌, lt→ltb, le→not_ltb, ℕ, zero, suc, ◌+◌, ◌<◌, ◌≡◌, refl, sym, ap, ◌∙◌, ◌≢◌, true,
  false, Option, none, some, List, [], ◌∷◌, arith,
}
use interview_questions.Prelude.Int.{ℤ, pos_part, neg_part, ◌≤ℤ◌, ◌<ℤ◌, ltb_ℤ}
use interview_questions.Prelude.Run.{done}
use interview_questions.Bst.Heap.{
  Ptr, null, Node, Heap, write, store, set_left, set_right, write_self, write_ne, load-ok,
}
use interview_questions.Bst.Shape.{
  Tree, leaf, node, addr, cell, Holds, has, IsDistinct, height, frame, not-has_of_none,
  not-has-node, not_both,
}
use interview_questions.Bst.Ops.{descend, attach}

-- The tree with a new leaf at `p`.
unfoldable pub insert : Ptr → ℤ → Tree → Tree
insert p k leaf = node p k leaf leaf
insert p k (node q j l r) =
    if ltb_ℤ k j then node q j (insert p k l) r else node q j l (insert p k r)

-- The node below which it stands.
pub above : Ptr → ℤ → Tree → Ptr
above prev k leaf = prev
above prev k (node q j l r) = if ltb_ℤ k j then above q k l else above q k r

descend-above :
    (h : Heap) (parent prev : Ptr) (k : ℤ) (t : Tree) (fuel : ℕ)
    → Holds h parent t
    → height t < fuel
    → descend fuel prev (addr t) k h ≡ done (above prev k t, h)
unfolding descend above
descend-above h parent prev k leaf zero s enough = absurd (omega arith)
descend-above h parent prev k leaf (suc fuel) s enough = refl
descend-above h parent prev k (node p j l r) zero s enough = absurd (omega arith)
descend-above h parent prev k (node p j l r) (suc fuel) s enough = ground (
  arith,
  load-ok h p (cell j parent (addr l) (addr r)) s.0 s.1,
  descend-above h p p k l fuel s.2,
  descend-above h p p k r fuel s.3,
)

-- The heap after the new node was made and attached.
abbrev Attached : Heap → Ptr → ℤ → Ptr → Tree → Type 0
Attached h p k parent leaf = Unit
Attached h p k parent (node q j l r) =
    (g : Heap) × (attach (above null k (node q j l r)) p k
        (write h p (some (cell k (above null k (node q j l r)) null null)))
      ≡ done (tt, g))
    × Holds g parent (insert p k (node q j l r))
    × ((a : Ptr) → has a (node q j l r) ≡ false → a ≢ p → g a ≡ h a)

module _ (h : Heap) (p : Ptr) (k : ℤ) (unused : h p ≡ none) (not_null : p ≢ null) where
  used-ne : {a : Ptr} {n : Node} → h a ≡ some n → a ≢ p
  used-ne e same = some≢none (sym e ∙ (rw same unused))
    where
      some≢none : {c : Node} → some c ≡ none → ⊥
      some≢none q = cc

  has-ne : (parent a : Ptr) (t : Tree) → Holds h parent t → has a t ≡ true → a ≢ p
  has-ne parent a t s i same =
      false≢true (sym (sym i ∙ (rw same (not-has_of_none h parent p t s unused))))

  -- The new node, made below `q`.
  abbrev made : Ptr → Heap
  made q = write h p (some (cell k q null null))

  made_ne : (q : Ptr) {a : Ptr} → a ≢ p → made q a ≡ h a
  made_ne q ne = write_ne h p _ _ ne

  -- The attachment at a node whose side is empty.
  module _ (parent q : Ptr) (j : ℤ) where
    left_run :
        (r : Tree)
        → k <ℤ j
        → Holds h parent (node q j leaf r)
        → attach q p k (made q) ≡ done (tt, write (made q) q (some (cell j parent p (addr r))))
    left_run r lt s =
        let loaded =
          load-ok (made q) q (cell j parent null (addr r)) s.0 (made_ne q (used-ne s.1) ∙ s.1) in
        unfold attach set_left store in ground (arith, loaded)

    right_run :
        (l : Tree)
        → j ≤ℤ k
        → Holds h parent (node q j l leaf)
        → attach q p k (made q) ≡ done (tt, write (made q) q (some (cell j parent (addr l) p)))
    right_run l ge s =
        let loaded =
          load-ok (made q) q (cell j parent (addr l) null) s.0 (made_ne q (used-ne s.1) ∙ s.1) in
        unfold attach set_right store in ground (arith, loaded)

    -- A subtree that holds neither `q` nor the new node.
    beside :
        (c : Option Node) (t : Tree)
        → Holds h q t
        → has q t ≡ false
        → Holds (write (made q) q c) q t
    beside c t s apart =
        frame h (write (made q) q c) q t
          (λ a i.
            write_ne (made q) q a c (λ same. false≢true (sym (sym i ∙ (rw same apart))))
            ∙ made_ne q (has-ne q a t s i))
          s

    new_leaf : (c : Option Node) → p ≢ q → Holds (write (made q) q c) q (node p k leaf leaf)
    new_leaf c ne = (not_null, write_ne (made q) q p c ne ∙ write_self h p _, tt, tt)

    attach_left :
        (r : Tree)
        → k <ℤ j
        → Holds h parent (node q j leaf r)
        → has q r ≡ false
        → Attached h p k parent (node q j leaf r)
    unfolding above insert
    attach_left r lt s apart =
        let new = some (cell j parent p (addr r)) in
        rw (lt→ltb _ _ lt) (
          write (made q) q new,
          left_run r lt s,
          (
            s.0,
            write_self (made q) q new,
            new_leaf new (λ e. used-ne s.1 (sym e)),
            beside new r s.3 apart,
          ),
          λ a out ne. write_ne (made q) q a new (not-has-node a q j leaf r out).0 ∙ made_ne q ne,
        )

    attach_right :
        (l : Tree)
        → j ≤ℤ k
        → Holds h parent (node q j l leaf)
        → has q l ≡ false
        → Attached h p k parent (node q j l leaf)
    unfolding above insert
    attach_right l ge s apart =
        let new = some (cell j parent (addr l) p) in
        rw (le→not_ltb _ _ ge) (
          write (made q) q new,
          right_run l ge s,
          (
            s.0,
            write_self (made q) q new,
            beside new l s.2 apart,
            new_leaf new (λ e. used-ne s.1 (sym e)),
          ),
          λ a out ne. write_ne (made q) q a new (not-has-node a q j l leaf out).0 ∙ made_ne q ne,
        )

  addr-insert : (q : Ptr) (j : ℤ) (l r : Tree) → addr (insert p k (node q j l r)) ≡ q
  unfolding insert
  addr-insert q j l r = ground arith

  -- The attachment further down.
  module _ (parent q : Ptr) (j : ℤ) (q' : Ptr) (j' : ℤ) (l' r' : Tree) where
    -- A subtree beside the one that changes.
    aside :
        (g : Heap) (t : Tree)
        → Holds h q t
        → ((a : Ptr) → has a (node q' j' l' r') ≡ false → a ≢ p → g a ≡ h a)
        → ((a : Ptr) → has a t ≡ true → has a (node q' j' l' r') ≡ false)
        → Holds g q t
    aside g t s same apart = frame h g q t (λ a i. same a (apart a i) (has-ne q a t s i)) s

    attach_below_left :
        (r : Tree)
        → k <ℤ j
        → Holds h parent (node q j (node q' j' l' r') r)
        → IsDistinct (node q j (node q' j' l' r') r)
        → Attached h p k q (node q' j' l' r')
        → Attached h p k parent (node q j (node q' j' l' r') r)
    unfolding above insert
    attach_below_left r lt s d (g, run, holds, same) = rw (lt→ltb _ _ lt) (
      g,
      run,
      (
        s.0,
        same q d.0 (used-ne s.1)
            ∙ s.1
            ∙ ap (λ c. some (cell j parent c (addr r))) (sym (addr-insert q' j' l' r')),
        holds,
        aside g r s.3 same (λ a i. not_both _ _ (d.2 a) i),
      ),
      λ a out ne. same a (not-has-node a q j (node q' j' l' r') r out).1 ne,
    )

    attach_below_right :
        (l : Tree)
        → j ≤ℤ k
        → Holds h parent (node q j l (node q' j' l' r'))
        → IsDistinct (node q j l (node q' j' l' r'))
        → Attached h p k q (node q' j' l' r')
        → Attached h p k parent (node q j l (node q' j' l' r'))
    unfolding above insert
    attach_below_right l ge s d (g, run, holds, same) = rw (le→not_ltb _ _ ge) (
      g,
      run,
      (
        s.0,
        same q d.1 (used-ne s.1)
            ∙ s.1
            ∙ ap (λ c. some (cell j parent (addr l) c)) (sym (addr-insert q' j' l' r')),
        aside g l s.2 same d.2,
        holds,
      ),
      λ a out ne. same a (not-has-node a q j l (node q' j' l' r') out).2 ne,
    )

  attach_side_left :
      (parent q : Ptr) (j : ℤ) (l r : Tree)
      → k <ℤ j
      → Holds h parent (node q j l r)
      → IsDistinct (node q j l r)
      → Attached h p k q l
      → Attached h p k parent (node q j l r)
  attach_side_left parent q j leaf r lt s d below = attach_left parent q j r lt s d.1
  attach_side_left parent q j (node q' j' l' r') r lt s d below =
      attach_below_left parent q j q' j' l' r' r lt s d below

  attach_side_right :
      (parent q : Ptr) (j : ℤ) (l r : Tree)
      → j ≤ℤ k
      → Holds h parent (node q j l r)
      → IsDistinct (node q j l r)
      → Attached h p k q r
      → Attached h p k parent (node q j l r)
  attach_side_right parent q j l leaf ge s d below = attach_right parent q j l ge s d.0
  attach_side_right parent q j l (node q' j' l' r') ge s d below =
      attach_below_right parent q j q' j' l' r' l ge s d below

  attach-Attached :
      (parent : Ptr) (t : Tree) → Holds h parent t → IsDistinct t → Attached h p k parent t
  attach-Attached parent leaf s d = tt
  attach-Attached parent (node q j l r) s d =
      elim (dec_lt (pos_part k + neg_part j) (pos_part j + neg_part k)) [
        | yes lt ↦ attach_side_left parent q j l r lt s d (attach-Attached q l s.2 d.3)
        | no ge ↦ attach_side_right parent q j l r (omega arith) s d (attach-Attached q r s.3 d.4)
      ]

-- The keys after an insertion: `k` behind all keys that are not above it.
unfoldable pub insert_key : ℤ → List ℤ → List ℤ
insert_key k [] = k ∷ []
insert_key k (x ∷ xs) = if ltb_ℤ k x then k ∷ x ∷ xs else x ∷ insert_key k xs

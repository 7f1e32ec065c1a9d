-- ===== src/Morris/Inserts.antt =====
-- trees_graphs/traversal_without_recursion/solution.c: `tree_insert` and `destroy_tree` on a tree.
use mathlib.Core.Bool.{false≢true}
use mathlib.Core.Path.{subst}
use interview_questions.Prelude.{
  if◌then◌else◌, ==_refl, Bool-cases, ℕ, ◌≡◌, refl, sym, ap, ◌∙◌, ◌≢◌, inl, inr, Bool, true, false,
  Option, none, some, arith,
}
use interview_questions.Prelude.Int.{ℤ, ltb_ℤ}
use interview_questions.Prelude.Run.{done}
use interview_questions.Bst.Shape.{Tree, leaf, node, has, IsDistinct, not-has-node, not_both}
use interview_questions.Bst.Insert.{insert}
use interview_questions.Morris.{Node, Heap, write}
use interview_questions.Morris.Threads.{
  node_of, IsSegment, IsSegment-frame, write_other, write_same,
}
use interview_questions.Morris.Driver.{attach}
use interview_questions.Morris.Place.{has-IsSegment, above}

module _ (h : Heap) (p : ℕ) (k : ℤ) (root : Option ℕ) (unused : h p ≡ none) where
  abbrev made : Heap
  made = write h p (node_of k none none)

  -- The new node is attached below the tree at `at`.
  abbrev Attached : Tree → Option ℕ → Option ℕ → Type 0
  Attached t at prev =
      (g : Heap) × (attach made root k prev (some p) ≡ done (g, root))
      × IsSegment g (insert p k t) at none
      × ((x : ℕ) → has x t ≡ false → x ≢ p → g x ≡ h x)

  made_ne : (x : ℕ) → x ≢ p → made x ≡ h x
  made_ne x ne = write_other h p x (node_of k none none) ne

  made_self : made p ≡ some (node_of k none none)
  made_self = write_same h p (node_of k none none)

  used-ne : (x : ℕ) (t : Tree) (at to : Option ℕ) → IsSegment h t at to → has x t ≡ true → x ≢ p
  used-ne x t at to s inside same =
      false≢true (sym (has-IsSegment h p t at to s unused) ∙ ap (λ y. has y t) (sym same) ∙ inside)

  -- A tree that holds neither `q` nor the new node.
  beside :
      (q : ℕ) (n : Node) (t : Tree) (at to : Option ℕ)
      → IsSegment h t at to
      → has q t ≡ false
      → IsSegment (write made q n) t at to
  beside q n t at to s apart =
      IsSegment-frame h (write made q n) t at to
        (λ x inside.
          write_other made q x n
            (λ same. false≢true (sym apart ∙ ap (λ y. has y t) (sym same) ∙ inside))
          ∙ made_ne x (used-ne x t at to s inside))
        s

  new_leaf :
      (q : ℕ) (n : Node) → p ≢ q → IsSegment (write made q n) (node p k leaf leaf) (some p) none
  new_leaf q n ne = (refl, none, none, write_other made q p n ne ∙ made_self, refl, refl)

  attach_left :
      (a : ℕ) (j : ℤ) (r : Tree) (at : Option ℕ)
      → ltb_ℤ k j ≡ true
      → IsSegment h (node a j leaf r) at none
      → IsDistinct (node a j leaf r)
      → Attached (node a j leaf r) at (some a)
  unfolding insert attach
  attach_left a j r at lt s distinct =
      (let (here, pl, pr, e, sl, sr) = s in
        let ne : a ≢ p = used-ne a (node a j leaf r) at none s (rw (==_refl a) refl) in
        let loaded : made a ≡ some (node_of j pl pr) = made_ne a ne ∙ e in
        rw (lt, Attached)
          (
            write made a (node_of j (some p) pr),
            ground (arith, loaded, lt),
            (
              here,
              some p,
              pr,
              write_same made a (node_of j (some p) pr),
              new_leaf a _ (λ same. ne (sym same)),
              beside a _ r pr none sr distinct.1,
            ),
            λ x out other.
                write_other made a x _ (not-has-node x a j leaf r out).0 ∙ made_ne x other,
          ))

  attach_right :
      (a : ℕ) (j : ℤ) (l : Tree) (at : Option ℕ)
      → ltb_ℤ k j ≡ false
      → IsSegment h (node a j l leaf) at none
      → IsDistinct (node a j l leaf)
      → Attached (node a j l leaf) at (some a)
  unfolding insert attach
  attach_right a j l at lt s distinct =
      (let (here, pl, pr, e, sl, sr) = s in
        let ne : a ≢ p = used-ne a (node a j l leaf) at none s (rw (==_refl a) refl) in
        let loaded : made a ≡ some (node_of j pl pr) = made_ne a ne ∙ e in
        rw (lt, Attached)
          (
            write made a (node_of j pl (some p)),
            ground (arith, loaded, lt),
            (
              here,
              pl,
              some p,
              write_same made a (node_of j pl (some p)),
              beside a _ l pl none sl distinct.0,
              new_leaf a _ (λ same. ne (sym same)),
            ),
            λ x out other.
                write_other made a x _ (not-has-node x a j l leaf out).0 ∙ made_ne x other,
          ))

  inside_left :
      (a : ℕ) (j : ℤ) (l r : Tree) (at pl pr q : Option ℕ)
      → ltb_ℤ k j ≡ true
      → at ≡ some a
      → h a ≡ some (node_of j pl pr)
      → IsSegment h r pr none
      → a ≢ p
      → IsDistinct (node a j l r)
      → Attached l pl q
      → Attached (node a j l r) at q
  unfolding insert
  inside_left a j l r at pl pr q lt here e sr ne distinct (g, run, seg, same) =
      rw (lt, Attached)
        (
          g,
          run,
          (
            here,
            pl,
            pr,
            same a distinct.0 ne ∙ e,
            seg,
            IsSegment-frame h g r pr none
                (λ x inside.
                  same x (not_both (has x l) (has x r) (distinct.2 x) inside)
                    (used-ne x r pr none sr inside))
                sr,
          ),
          λ x out other. same x (not-has-node x a j l r out).1 other,
        )

  inside_right :
      (a : ℕ) (j : ℤ) (l r : Tree) (at pl pr q : Option ℕ)
      → ltb_ℤ k j ≡ false
      → at ≡ some a
      → h a ≡ some (node_of j pl pr)
      → IsSegment h l pl none
      → a ≢ p
      → IsDistinct (node a j l r)
      → Attached r pr q
      → Attached (node a j l r) at q
  unfolding insert
  inside_right a j l r at pl pr q ge here e sl ne distinct (g, run, seg, same) =
      rw (ge, Attached)
        (
          g,
          run,
          (
            here,
            pl,
            pr,
            same a distinct.1 ne ∙ e,
            IsSegment-frame h g l pl none
                (λ x inside. same x (distinct.2 x inside) (used-ne x l pl none sl inside)) sl,
            seg,
          ),
          λ x out other. same x (not-has-node x a j l r out).2 other,
        )

  abbrev is_node : Tree → Bool
  is_node leaf = false
  is_node (node a j l r) = true

  left_side :
      (a : ℕ) (j : ℤ) (l r : Tree) (at : Option ℕ)
      → ltb_ℤ k j ≡ true
      → IsSegment h (node a j l r) at none
      → IsDistinct (node a j l r)
      → (is_node l ≡ true
          → (pl : Option ℕ) → IsSegment h l pl none
          → Attached l pl (above (some a) k l))
      → Attached (node a j l r) at (above (some a) k l)
  left_side a j leaf r at lt s distinct below = attach_left a j r at lt s distinct
  left_side a j (node b i m n) r at lt (here, pl, pr, e, sl, sr) distinct below =
      inside_left a j (node b i m n) r at pl pr _ lt here e sr
        (used-ne a (node a j (node b i m n) r) at none (here, pl, pr, e, sl, sr)
          (rw (==_refl a) refl))
        distinct (below refl pl sl)

  right_side :
      (a : ℕ) (j : ℤ) (l r : Tree) (at : Option ℕ)
      → ltb_ℤ k j ≡ false
      → IsSegment h (node a j l r) at none
      → IsDistinct (node a j l r)
      → (is_node r ≡ true
          → (pr : Option ℕ) → IsSegment h r pr none
          → Attached r pr (above (some a) k r))
      → Attached (node a j l r) at (above (some a) k r)
  right_side a j l leaf at ge s distinct below = attach_right a j l at ge s distinct
  right_side a j l (node b i m n) at ge (here, pl, pr, e, sl, sr) distinct below =
      inside_right a j l (node b i m n) at pl pr _ ge here e sl
        (used-ne a (node a j l (node b i m n)) at none (here, pl, pr, e, sl, sr)
          (rw (==_refl a) refl))
        distinct (below refl pr sr)

  pub attach-Attached :
      (t : Tree) (at prev : Option ℕ)
      → is_node t ≡ true
      → IsSegment h t at none
      → IsDistinct t
      → Attached t at (above prev k t)
  attach-Attached leaf at prev some_node s distinct = absurd (ground (arith, some_node))
  attach-Attached (node a j l r) at prev some_node s distinct = elim (Bool-cases (ltb_ℤ k j)) [
    | inl lt ↦
        subst (Attached (node a j l r) at)
          (ap (λ b. if b then above (some a) k l else above (some a) k r) (sym lt))
          (left_side a j l r at lt s distinct
            (λ full pl sl. attach-Attached l pl (some a) full sl distinct.3))
    | inr ge ↦
        subst (Attached (node a j l r) at)
          (ap (λ b. if b then above (some a) k l else above (some a) k r) (sym ge))
          (right_side a j l r at ge s distinct
            (λ full pr sr. attach-Attached r pr (some a) full sr distinct.4))
  ]

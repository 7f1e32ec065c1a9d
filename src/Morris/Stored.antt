-- ===== src/Morris/Stored.antt =====
-- trees_graphs/traversal_without_recursion/solution.c: insertion and freeing where the heap holds a tree.
use mathlib.Core.Path.{subst}
use interview_questions.Prelude.{
  ne→==, Bool-cases, ℕ, zero, suc, ◌+◌, ◌<◌, ◌≡◌, refl, sym, ap, ◌∙◌, ◌≢◌, inl, inr, false, Option,
  none, some, arith,
}
use interview_questions.Prelude.Int.{ℤ, ltb_ℤ}
use interview_questions.Prelude.Run.{done, ◌>>=◌, present, Returns, Returns-bind}
use interview_questions.Bst.Shape.{Tree, leaf, node, has, IsDistinct, not-has-node, not_both}
use interview_questions.Bst.Insert.{insert}
use interview_questions.Bst.Insert.Order.{has-insert, insert-IsDistinct}
use interview_questions.Morris.{Heap, write}
use interview_questions.Morris.Threads.{
  node_of, IsSegment, size, IsSegment-frame, write_other, write_same,
}
use interview_questions.Morris.Driver.{destroy_tree, attach, new_tree_node, tree_insert}
use interview_questions.Morris.Place.{has-IsSegment, above, find_prev-above}
use interview_questions.Morris.Inserts.{attach-Attached}

-- The heap holds the tree and nothing else.
pub record IsStored (h : Heap) (t : Tree) (root : Option ℕ) : Type 0 where
  pub segment : IsSegment h t root none
  pub distinct : IsDistinct t
  pub empty : (x : ℕ) → has x t ≡ false → h x ≡ none

-- `malloc` finds an address for each of `room` nodes.
abbrev pub HasRoom : (Heap → Option ℕ) → ℕ → Type 0
HasRoom malloc room =
    (h : Heap) (t : Tree) (root : Option ℕ)
    → IsStored h t root
    → size t < room
    → (p : ℕ) × (malloc h ≡ some p) × (h p ≡ none)

pub size-insert : (p : ℕ) (k : ℤ) (t : Tree) → size (insert p k t) ≡ size t + 1
unfolding insert
size-insert p k leaf = omega arith
size-insert p k (node a j l r) = elim (Bool-cases (ltb_ℤ k j)) [
  | inl lt ↦ rw lt (omega (arith, size-insert p k l))
  | inr ge ↦ rw ge (omega (arith, size-insert p k r))
]

new_tree_node-made :
    (malloc : Heap → Option ℕ) (k : ℤ) (h : Heap) (p : ℕ)
    → malloc h ≡ some p
    → new_tree_node malloc k none none h ≡ (write h p (node_of k none none), some p)
unfolding new_tree_node
new_tree_node-made malloc k h p e = rw (e, new_tree_node) refl

tree_insert-attach :
    (malloc : Heap → Option ℕ) (fuel : ℕ) (h : Heap) (root : Option ℕ) (k : ℤ) (t : Tree) (p : ℕ)
    → IsSegment h t root none
    → size t < fuel
    → malloc h ≡ some p
    → tree_insert malloc fuel h root k
      ≡ attach (write h p (node_of k none none)) root k (above none k t) (some p)
unfolding tree_insert
tree_insert-attach malloc fuel h root k t p s lt e =
    ap
      (λ r. r >>= λ prev.
        let (g, to_insert) = new_tree_node malloc k none none h in attach g root k prev to_insert)
      (find_prev-above fuel h k none root t s lt)
    ∙ ap (λ (g, to_insert). attach g root k (above none k t) to_insert)
        (new_tree_node-made malloc k h p e)

not-has-insert :
    (x p : ℕ) (k : ℤ) (t : Tree) → has x (insert p k t) ≡ false → (x ≢ p) × (has x t ≡ false)
not-has-insert x p k t out =
    (ground (arith, has-insert x p k t, out), ground (arith, has-insert x p k t, out))

-- The new node is in place, and the root is that of the tree.
pub tree_insert-IsStored :
    (malloc : Heap → Option ℕ) (fuel : ℕ) (h : Heap) (root : Option ℕ) (k : ℤ) (t : Tree) (p : ℕ)
    → IsStored h t root
    → size t < fuel
    → malloc h ≡ some p
    → h p ≡ none
    → (g : Heap) × (q : ℕ) × (tree_insert malloc fuel h root k ≡ done (g, some q))
      × IsStored g (insert p k t) (some q)
unfolding insert attach
tree_insert-IsStored malloc fuel h root k leaf p stored lt e unused = (
  write h p (node_of k none none),
  p,
  tree_insert-attach malloc fuel h root k leaf p stored.segment lt e,
  record {
    segment = (refl, none, none, write_same h p (node_of k none none), refl, refl);
    distinct = insert-IsDistinct p k leaf refl tt;
    empty = λ x out.
        write_other h p x (node_of k none none) (not-has-node x p k leaf leaf out).0
        ∙ stored.empty x refl;
  },
)
tree_insert-IsStored malloc fuel h root k (node a j l r) p stored lt e unused =
    (let (g, run, seg, same) =
        attach-Attached h p k root unused (node a j l r) root none refl stored.segment
          stored.distinct in
      (
        g,
        a,
        tree_insert-attach malloc fuel h root k (node a j l r) p stored.segment lt e
            ∙ run
            ∙ ap (λ x. done (g, x)) stored.segment.0,
        record {
          segment =
              subst (λ x. IsSegment g (insert p k (node a j l r)) x none) stored.segment.0 seg;
          distinct =
              insert-IsDistinct p k (node a j l r)
                (has-IsSegment h p (node a j l r) root none stored.segment unused) stored.distinct;
          empty = λ x out.
              (let (ne, old) = not-has-insert x p k (node a j l r) out in
                same x old ne ∙ stored.empty x old);
        },
      ))

-- Each node of the tree is freed once, and no other.
pub destroy_tree-frees :
    (fuel : ℕ) (h : Heap) (root : Option ℕ) (t : Tree)
    → IsSegment h t root none
    → IsDistinct t
    → size t < fuel
    → Returns (destroy_tree fuel h root) (λ g. (x : ℕ) → has x t ≡ false → g x ≡ h x)
unfolding destroy_tree
destroy_tree-frees zero h root t s distinct lt = absurd (omega (arith, lt))
destroy_tree-frees (suc fuel) h root leaf s distinct lt =
    subst
      (λ p. Returns (destroy_tree (suc fuel) h p) (λ g. (x : ℕ) → has x leaf ≡ false → g x ≡ h x))
      (sym s) (λ x out. refl)
destroy_tree-frees (suc fuel) h root (node a k l r) (at, pl, pr, e, sl, sr) distinct lt =
    subst
      (λ p.
        Returns (destroy_tree (suc fuel) h p)
          (λ g. (x : ℕ) → has x (node a k l r) ≡ false → g x ≡ h x))
      (sym at)
      (Returns-bind (λ n. n ≡ node_of k pl pr) _ (present (h a)) _ (rw (e, Returns) refl)
        (λ n same_n.
          Returns-bind (λ g. (x : ℕ) → has x l ≡ false → g x ≡ h x) _ (destroy_tree fuel h n.left) _
            (subst
              (λ c.
                Returns (destroy_tree fuel h c.left) (λ g. (x : ℕ) → has x l ≡ false → g x ≡ h x))
              (sym same_n) (destroy_tree-frees fuel h pl l sl distinct.3 (omega (arith, lt))))
            (λ g freed.
              Returns-bind (λ m. m ≡ node_of k pl pr) _ (present (g a)) _
                (rw (freed a distinct.0 ∙ e, Returns) refl)
                (λ m same_m.
                  Returns-bind (λ g'. (x : ℕ) → has x r ≡ false → g' x ≡ g x) _
                    (destroy_tree fuel g m.right) _
                    (subst
                      (λ c.
                        Returns (destroy_tree fuel g c.right)
                          (λ g'. (x : ℕ) → has x r ≡ false → g' x ≡ g x))
                      (sym same_m)
                      (destroy_tree-frees fuel g pr r
                        (IsSegment-frame h g r pr none
                          (λ x inside. freed x (not_both (has x l) (has x r) (distinct.2 x) inside))
                          sr)
                        distinct.4 (omega (arith, lt))))
                    (λ g' freed'.
                      Returns-bind (λ c. Unit {0}) _ (present (g' a)) _
                        (rw (freed' a distinct.1 ∙ freed a distinct.0 ∙ e, Returns) tt)
                        (λ c u x out.
                          let (ne, out_l, out_r) = not-has-node x a k l r out in
                          rw (ne→== x a ne) (freed' x out_r ∙ freed x out_l)))))))

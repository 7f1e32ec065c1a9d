-- ===== src/Morris/Place.antt =====
-- trees_graphs/traversal_without_recursion/solution.c: where `tree_insert` puts a node.
use interview_questions.Prelude.{
  if◌then◌else◌, ne→==, ℕ, zero, suc, ◌<◌, ◌≡◌, refl, sym, ap, ◌∙◌, ◌≢◌, false, Option, none, some,
  arith,
}
use interview_questions.Prelude.Int.{ℤ, ltb_ℤ}
use interview_questions.Prelude.Run.{done}
use interview_questions.Bst.Shape.{Tree, leaf, node, has}
use interview_questions.Morris.{Node, Heap}
use interview_questions.Morris.Threads.{IsSegment, size}
use interview_questions.Morris.Driver.{find_prev}

-- An address with no node is not in the tree.
pub has-IsSegment :
    (h : Heap) (p : ℕ) (t : Tree) (at k : Option ℕ)
    → IsSegment h t at k
    → h p ≡ none
    → has p t ≡ false
has-IsSegment h p leaf at k s unused = refl
has-IsSegment h p (node a j l r) at k (here, pl, pr, e, sl, sr) unused =
    rw (ne→== p a other, has-IsSegment h p l pl none sl unused, has-IsSegment h p r pr k sr unused)
      refl
  where
    other : p ≢ a
    other same = some≢none (sym e ∙ ap h (sym same) ∙ unused)
      where
        some≢none : {n : Node} → some n ≡ none → ⊥
        some≢none q = cc

-- The node below which the new one stands.
abbrev pub above : Option ℕ → ℤ → Tree → Option ℕ
above prev k leaf = prev
above prev k (node a j l r) = if ltb_ℤ k j then above (some a) k l else above (some a) k r

pub find_prev-above :
    (fuel : ℕ) (h : Heap) (k : ℤ) (prev p : Option ℕ) (t : Tree)
    → IsSegment h t p none
    → size t < fuel
    → find_prev fuel h k prev p ≡ done (above prev k t)
unfolding find_prev
find_prev-above zero h k prev p t s lt = absurd (omega (arith, lt))
find_prev-above (suc fuel) h k prev p leaf s lt = ap (find_prev (suc fuel) h k prev) s
find_prev-above (suc fuel) h k prev p (node a j l r) (at, pl, pr, e, sl, sr) lt =
    ap (find_prev (suc fuel) h k prev) at
    ∙ ground (
      arith,
      e,
      find_prev-above fuel h k (some a) pl l sl (omega (arith, lt)),
      find_prev-above fuel h k (some a) pr r sr (omega (arith, lt)),
    )

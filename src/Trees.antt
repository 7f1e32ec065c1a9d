-- ===== src/Trees.antt =====
-- trees_graphs: programs on binary trees that share one shape of node, a key and two pointers. A
-- pointer to a finite tree is the tree.
--   is_bst/solution.c, is_subtree/solution.c, left_sum/solution.c
use interview_questions.Prelude.{
  if◌then◌else◌, min, max, Bool, true, false, ◌&&◌, ◌||◌, not, Option, none, some, List, [], ◌∷◌,
  ◌++◌,
}
use interview_questions.Prelude.Int.{ℤ, pos, ◌+ℤ◌, ltb_ℤ, eqb_ℤ}
use interview_questions.Prelude.Run.{as_int, int_min, int_max, Run, done, ◌>>=◌, ◌>>◌}
pub mod IsBst
pub mod IsSubtree
pub mod LeftSum

pub data Tree : Type 0 where
  null : Tree
  tree_node : ℤ → Tree → Tree → Tree

-- is_bst/solution.c.
unfoldable pub is_bst_aux : Tree → (min max : ℤ) → Bool
is_bst_aux null min max = true
is_bst_aux (tree_node key left right) min max =
    if not (ltb_ℤ min key && ltb_ℤ key max)
    then false
    else (if not (is_bst_aux left min key) then false else is_bst_aux right key max)

unfoldable pub is_bst : Tree → Bool
is_bst root = is_bst_aux root int_min int_max

-- is_subtree/solution.c.
unfoldable pub subtree_equal : Tree → Tree → Bool
subtree_equal null null = true
subtree_equal null (tree_node key left right) = false
subtree_equal (tree_node key left right) null = false
subtree_equal (tree_node key1 left1 right1) (tree_node key2 left2 right2) =
    eqb_ℤ key1 key2 && (subtree_equal left1 left2 && subtree_equal right1 right2)

unfoldable pub is_subtree : Tree → Tree → Bool
is_subtree null null = true
is_subtree null (tree_node key left right) = false
is_subtree (tree_node key left right) small =
    subtree_equal (tree_node key left right) small
    || (is_subtree left small || is_subtree right small)

-- left_sum/solution.c: the sum, and the tree that is left; a sum outside of `int` is a fault.
unfoldable pub tree_sum : Tree → Run (ℤ × Tree)
tree_sum null = done (pos 0, null)
tree_sum (tree_node value left right) = do
  (l, left') ← tree_sum left
  value' ← as_int (value +ℤ l)
  (r, right') ← tree_sum right
  sum ← as_int (value' +ℤ r)
  done (sum, tree_node value' left' right')

abbrev pub child_data : Tree → Option ℤ
child_data null = none
child_data (tree_node value left right) = some value

-- The lines of `print_tree`: a node and its children, `none` for "NULL".
unfoldable pub print_tree : Tree → List (ℤ × Option ℤ × Option ℤ)
print_tree null = []
print_tree (tree_node value left right) =
    (value, child_data left, child_data right) ∷ print_tree left ++ print_tree right

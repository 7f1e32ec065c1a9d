-- ===== src/Tests/Trees.antt =====
-- trees_graphs on small trees.
use interview_questions.Prelude.{◌≡◌, ◌↔◌, true, arith}
use interview_questions.Prelude.Int.{pos}
use interview_questions.Prelude.Run.{int_min, int_max, done}
use interview_questions.Trees.{Tree, null, tree_node, is_bst, is_subtree, tree_sum}
use interview_questions.Trees.IsBst.{IsSearchTree, AllAbove, AllBelow, is_bst_iff}
use interview_questions.Trees.IsSubtree.{Occurs, is_subtree_iff}
use interview_questions.Trees.LeftSum.{total, with_left_sums, tree_sum_lem}

abbrev low : Tree
low = tree_node (pos 1) null null

abbrev sample : Tree
sample = tree_node (pos 4) low (tree_node (pos 9) null null)

is_bst_iff_example :
    (is_bst sample ≡ true)
    ↔ (IsSearchTree sample × AllAbove int_min sample × AllBelow int_max sample)
is_bst_iff_example = is_bst_iff sample

is_subtree_iff_example : (is_subtree sample low ≡ true) ↔ Occurs sample low
is_subtree_iff_example = is_subtree_iff sample low

tree_sum_lem_example : tree_sum sample ≡ done (total sample, with_left_sums sample)
tree_sum_lem_example = tree_sum_lem sample (omega arith)

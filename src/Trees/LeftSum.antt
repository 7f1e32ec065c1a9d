-- ===== src/Trees/LeftSum.antt =====
-- trees_graphs/left_sum/solution.c: what `tree_sum` returns and leaves.
use interview_questions.Prelude.{ℕ, ◌+◌, ◌≤◌, ◌≡◌, refl, arith}
use interview_questions.Prelude.Int.{ℤ, pos, pos_part, neg_part, ◌+ℤ◌}
use interview_questions.Prelude.Run.{as_int, done}
use interview_questions.Trees.{Tree, null, tree_node, tree_sum}

abbrev pub total : Tree → ℤ
total null = pos 0
total (tree_node d l r) = (d +ℤ total l) +ℤ total r

-- Each value plus all the values to its left.
abbrev pub with_left_sums : Tree → Tree
with_left_sums null = null
with_left_sums (tree_node d l r) = tree_node (d +ℤ total l) (with_left_sums l) (with_left_sums r)

abbrev pub abs : ℤ → ℕ
abs n = pos_part n + neg_part n

abbrev pub abs_sum : Tree → ℕ
abs_sum null = 0
abs_sum (tree_node d l r) = abs d + abs_sum l + abs_sum r

abs-+ℤ : (a b : ℤ) → abs (a +ℤ b) ≤ abs a + abs b
unfolding ◌+ℤ◌
abs-+ℤ a b = ground arith

abs-total : (t : Tree) → abs (total t) ≤ abs_sum t
abs-total null = omega arith
abs-total (tree_node d l r) =
    omega (arith, abs-+ℤ d (total l), abs-+ℤ (d +ℤ total l) (total r), abs-total l, abs-total r)

as_int-ok : (n : ℤ) → abs n ≤ 2147483647 → as_int n ≡ done n
as_int-ok n h = ground arith

-- Where the absolute values add up to an `int`, `tree_sum` returns the sum of all values, and each
-- value of the tree that it leaves is the old one plus all the old ones of the left subtree.
pub tree_sum_lem :
    (t : Tree) → abs_sum t ≤ 2147483647 → tree_sum t ≡ done (total t, with_left_sums t)
unfolding tree_sum
tree_sum_lem null small = refl
tree_sum_lem (tree_node d l r) small =
    let a = abs-+ℤ d (total l) in
    let b = abs-+ℤ (d +ℤ total l) (total r) in
    let c = abs-total l in
    let e = abs-total r in
    rw (tree_sum_lem l (omega arith)) (
      rw (as_int-ok (d +ℤ total l) (omega arith)) (
        rw (tree_sum_lem r (omega arith))
          (rw (as_int-ok ((d +ℤ total l) +ℤ total r) (omega arith)) refl)))

-- ===== src/Trees/IsBst.antt =====
-- trees_graphs/is_bst/solution.c against the definition of a search tree.
use interview_questions.Prelude.{min, max, ◌≡◌, refl, ◌↔◌, true, arith}
use interview_questions.Prelude.Int.{ℤ, ◌≤ℤ◌, ◌<ℤ◌}
use interview_questions.Prelude.Run.{int_min, int_max}
use interview_questions.Trees.{Tree, null, tree_node, is_bst_aux, is_bst}

-- Every key is above `v`; every key is below `v`.
abbrev pub AllAbove : ℤ → Tree → Type 0
AllAbove v null = Unit {0}
AllAbove v (tree_node k l r) = (v <ℤ k) × AllAbove v l × AllAbove v r

abbrev pub AllBelow : ℤ → Tree → Type 0
AllBelow v null = Unit {0}
AllBelow v (tree_node k l r) = (k <ℤ v) × AllBelow v l × AllBelow v r

-- At every node the keys to the left are smaller and those to the right are larger.
abbrev pub IsSearchTree : Tree → Type 0
IsSearchTree null = Unit {0}
IsSearchTree (tree_node k l r) = AllBelow k l × AllAbove k r × IsSearchTree l × IsSearchTree r

AllAbove-mono : (v w : ℤ) (t : Tree) → w ≤ℤ v → AllAbove v t → AllAbove w t
AllAbove-mono v w null le h = tt
AllAbove-mono v w (tree_node k l r) le h =
    (omega (arith, h.0), AllAbove-mono v w l le h.1, AllAbove-mono v w r le h.2)

AllBelow-mono : (v w : ℤ) (t : Tree) → v ≤ℤ w → AllBelow v t → AllBelow w t
AllBelow-mono v w null le h = tt
AllBelow-mono v w (tree_node k l r) le h =
    (omega (arith, h.0), AllBelow-mono v w l le h.1, AllBelow-mono v w r le h.2)

Within : ℤ → ℤ → Tree → Type 0
Within min max t = IsSearchTree t × AllAbove min t × AllBelow max t

-- The two guards of a node.
guards :
    (k min max : ℤ) (l r : Tree)
    → is_bst_aux (tree_node k l r) min max ≡ true
    → (min <ℤ k) × (k <ℤ max) × (is_bst_aux l min k ≡ true) × (is_bst_aux r k max ≡ true)
unfolding is_bst_aux
guards k min max l r h = (ground arith, ground arith, ground arith, ground arith)

accepted :
    (k min max : ℤ) (l r : Tree)
    → min <ℤ k
    → k <ℤ max
    → is_bst_aux l min k ≡ true
    → is_bst_aux r k max ≡ true
    → is_bst_aux (tree_node k l r) min max ≡ true
unfolding is_bst_aux
accepted k min max l r above below left right = ground arith

is_bst_aux-Within : (t : Tree) (min max : ℤ) → is_bst_aux t min max ≡ true → Within min max t
unfolding Within
is_bst_aux-Within null min max h = (tt, tt, tt)
is_bst_aux-Within (tree_node k l r) min max h =
    let (above, below, left, right) = guards k min max l r h in
    let (search_l, above_l, below_l) = is_bst_aux-Within l min k left in
    let (search_r, above_r, below_r) = is_bst_aux-Within r k max right in
    (
      (below_l, above_r, search_l, search_r),
      (above, above_l, AllAbove-mono k min r (omega arith) above_r),
      (below, AllBelow-mono k max l (omega arith) below_l, below_r),
    )

Within-is_bst_aux : (t : Tree) (min max : ℤ) → Within min max t → is_bst_aux t min max ≡ true
unfolding Within is_bst_aux
Within-is_bst_aux null min max h = refl
Within-is_bst_aux (tree_node k l r) min max ((below_l, above_r, search_l, search_r), above, below) =
    accepted k min max l r above.0 below.0 (Within-is_bst_aux l min k (search_l, above.1, below_l))
      (Within-is_bst_aux r k max (search_r, above_r, below.2))

-- `is_bst` answers yes exactly on the search trees all of whose keys are above the smallest `int`
-- and below the largest: a search tree that has one of the two as a key is refused.
pub is_bst_iff :
    (t : Tree) → (is_bst t ≡ true) ↔ (IsSearchTree t × AllAbove int_min t × AllBelow int_max t)
unfolding is_bst Within
is_bst_iff t = (is_bst_aux-Within t int_min int_max, Within-is_bst_aux t int_min int_max)

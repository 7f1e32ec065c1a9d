-- ===== src/Trees/IsSubtree.antt =====
-- trees_graphs/is_subtree/solution.c against the definition of a subtree.
use interview_questions.Prelude.{Bool-cases, ◌≡◌, refl, ◌↔◌, ◌⊎◌, inl, inr, true, arith}
use interview_questions.Prelude.Int.{eqb_ℤ_iff}
use interview_questions.Trees.{Tree, null, tree_node, subtree_equal, is_subtree}

-- The tree is cut off at a node of the big tree, or is the empty tree at a leaf.
abbrev pub Occurs : Tree → Tree → Type 0
Occurs null small = small ≡ null
Occurs (tree_node k l r) small = (small ≡ tree_node k l r) ⊎ (Occurs l small ⊎ Occurs r small)

subtree_equal_sound : (t u : Tree) → subtree_equal t u ≡ true → u ≡ t
unfolding subtree_equal
subtree_equal_sound null null h = refl
subtree_equal_sound null (tree_node k l r) h = absurd (ground (arith, h))
subtree_equal_sound (tree_node k l r) null h = absurd (ground (arith, h))
subtree_equal_sound (tree_node k l r) (tree_node k' l' r') h =
    ground (arith, eqb_ℤ_iff k k', subtree_equal_sound l l', subtree_equal_sound r r')

subtree_equal_refl : (t : Tree) → subtree_equal t t ≡ true
unfolding subtree_equal
subtree_equal_refl null = refl
subtree_equal_refl (tree_node k l r) = ground (arith, subtree_equal_refl l, subtree_equal_refl r)

is_subtree_sound : (big small : Tree) → is_subtree big small ≡ true → Occurs big small
unfolding is_subtree
is_subtree_sound null null h = refl
is_subtree_sound null (tree_node k l r) h = absurd (ground (arith, h))
is_subtree_sound (tree_node k l r) small h =
    elim (Bool-cases (subtree_equal (tree_node k l r) small)) [
      | inl e ↦ inl (subtree_equal_sound (tree_node k l r) small e)
      | inr e ↦ inr (elim (Bool-cases (is_subtree l small)) [
        | inl f ↦ inl (is_subtree_sound l small f)
        | inr f ↦ inr (is_subtree_sound r small (ground (arith, h, e, f)))
      ])
    ]

is_subtree_complete : (big small : Tree) → Occurs big small → is_subtree big small ≡ true
unfolding is_subtree
is_subtree_complete null small e = rw e refl
is_subtree_complete (tree_node k l r) small (inl e) =
    rw e (rw (subtree_equal_refl (tree_node k l r)) refl)
is_subtree_complete (tree_node k l r) small (inr (inl o)) =
    ground (arith, is_subtree_complete l small o)
is_subtree_complete (tree_node k l r) small (inr (inr o)) =
    ground (arith, is_subtree_complete r small o)

-- `is_subtree` answers yes exactly where the small tree is the big tree cut off at some node, or is
-- empty.
pub is_subtree_iff : (big small : Tree) → (is_subtree big small ≡ true) ↔ Occurs big small
is_subtree_iff big small = (is_subtree_sound big small, is_subtree_complete big small)

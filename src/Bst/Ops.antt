-- ===== src/Bst/Ops.antt =====
-- The operations of bst.c. A loop that follows pointers takes fuel, which bounds its rounds, and a
-- recursive function fuel that bounds its depth.
use interview_questions.Prelude.{
  ◌==◌, if◌then◌else◌, ℕ, zero, suc, true, false, List, [], ◌∷◌, ◌++◌,
}
use interview_questions.Prelude.Int.{ℤ, ltb_ℤ, eqb_ℤ}
use interview_questions.Bst.Heap.{
  Ptr, null, M, pure, out_of_fuel, ◌>>=◌, ◌>>◌, load, set_left, set_right, set_parent, Malloc,
  new_tree_node, destroy_tree_node,
}

-- `for (; root->left != NULL; root = root->left);`
unfoldable pub leftmost : ℕ → Ptr → M Ptr
leftmost zero root = out_of_fuel
leftmost (suc fuel) root = do
  n ← load root
  elim (n.left == null) [ true ↦ pure root | false ↦ leftmost fuel n.left ]

unfoldable pub rightmost : ℕ → Ptr → M Ptr
rightmost zero root = out_of_fuel
rightmost (suc fuel) root = do
  n ← load root
  elim (n.right == null) [ true ↦ pure root | false ↦ rightmost fuel n.right ]

unfoldable pub tree_minimum : ℕ → Ptr → M Ptr
unfolding leftmost
tree_minimum fuel root = if root == null then pure null else leftmost fuel root

unfoldable pub tree_maximum : ℕ → Ptr → M Ptr
unfolding rightmost
tree_maximum fuel root = if root == null then pure null else rightmost fuel root

-- The `while` of `tree_insert`, which ends with `prev`.
unfoldable pub descend : ℕ → (prev curr : Ptr) → ℤ → M Ptr
descend zero prev curr k = out_of_fuel
descend (suc fuel) prev curr k = elim (curr == null) [
  | true ↦ pure prev
  | false ↦ load curr >>= λ n. elim (ltb_ℤ k n.key) [
    | true ↦ descend fuel curr n.left k
    | false ↦ descend fuel curr n.right k
  ]
]

-- What follows it where `prev` is a node: the new node becomes one of its children.
unfoldable pub attach : Ptr → Ptr → ℤ → M (Unit {0})
attach prev to_insert k = do
  n ← load prev
  if ltb_ℤ k n.key then set_left prev to_insert else set_right prev to_insert

unfoldable pub tree_insert : Malloc → ℕ → Ptr → ℤ → M Ptr
tree_insert fresh fuel root k = do
  prev ← descend fuel null root k
  if prev == null then new_tree_node fresh k null null null else (do
    to_insert ← new_tree_node fresh k null null prev
    if to_insert == null then pure null else (do attach prev to_insert k; pure root))

unfoldable pub tree_find : ℕ → Ptr → ℤ → M Ptr
tree_find zero root k = out_of_fuel
tree_find (suc fuel) root k = elim (root == null) [
  | true ↦ pure null
  | false ↦ load root >>= λ n. elim (eqb_ℤ n.key k) [
    | true ↦ pure root
    | false ↦ elim (ltb_ℤ k n.key) [
      | true ↦ tree_find fuel n.left k
      | false ↦ tree_find fuel n.right k
    ]
  ]
]

-- The first `if` of `transplant`: the parent of `u` takes `v` in place of `u`.
unfoldable pub replace_child : (parent u v : Ptr) → M (Unit {0})
replace_child parent u v = do
  p ← load parent
  if u == p.left then set_left parent v else set_right parent v

unfoldable pub transplant : Ptr → Ptr → M (Unit {0})
unfolding replace_child
transplant u v = do
  n ← load u
  if n.parent == null then pure tt else replace_child n.parent u v
  m ← load u
  if v == null then pure tt else set_parent v m.parent

-- The branch of `tree_delete_internal` where the node has both children.
unfoldable pub splice : ℕ → (root to_del : Ptr) → M Ptr
splice fuel root to_del = do
  d ← load to_del
  successor ← tree_minimum fuel d.right
  if successor == d.right then (do set_left successor d.left; transplant to_del successor) else (do
    s ← load successor
    transplant successor s.right
    d' ← load to_del
    set_right successor d'.right
    set_left successor d'.left
    s' ← load successor
    set_parent s'.right successor
    set_parent s'.left successor
    transplant to_del successor)
  s'' ← load successor
  pure (if s''.parent == null then successor else root)

unfoldable pub tree_delete_internal : ℕ → (root to_del : Ptr) → M Ptr
tree_delete_internal fuel root to_del = do
  d ← load to_del
  newroot ←
      if d.left == null
      then (do
        transplant to_del d.right
        d' ← load to_del
        pure (if d'.parent == null then d'.right else root))
      else if d.right == null
      then (do
        transplant to_del d.left
        d' ← load to_del
        pure (if d'.parent == null then d'.left else root))
      else splice fuel root to_del
  destroy_tree_node to_del
  pure newroot

unfoldable pub tree_delete : ℕ → Ptr → ℤ → M Ptr
tree_delete fuel root k = do
  to_delete ← tree_find fuel root k
  if to_delete == null then pure root else tree_delete_internal fuel root to_delete

-- `while (p != NULL && root != p->left) { root = p; p = root->parent; }`
unfoldable pub climb_left : ℕ → (root p : Ptr) → M Ptr
climb_left zero root p = out_of_fuel
climb_left (suc fuel) root p = elim (p == null) [
  | true ↦ pure null
  | false ↦
      load p >>= λ n. elim (root == n.left) [ true ↦ pure p | false ↦ climb_left fuel p n.parent ]
]

unfoldable pub climb_right : ℕ → (root p : Ptr) → M Ptr
climb_right zero root p = out_of_fuel
climb_right (suc fuel) root p = elim (p == null) [
  | true ↦ pure null
  | false ↦
      load p >>= λ n. elim (root == n.right) [ true ↦ pure p | false ↦ climb_right fuel p n.parent ]
]

unfoldable pub tree_successor : ℕ → Ptr → M Ptr
unfolding climb_left
tree_successor fuel root = if root == null then pure null else (do
  n ← load root
  if n.right == null then climb_left fuel root n.parent else tree_minimum fuel n.right)

unfoldable pub tree_predecessor : ℕ → Ptr → M Ptr
unfolding climb_right
tree_predecessor fuel root = if root == null then pure null else (do
  n ← load root
  if n.left == null then climb_right fuel root n.parent else tree_maximum fuel n.left)

unfoldable pub destroy_tree : ℕ → Ptr → M (Unit {0})
destroy_tree zero root = out_of_fuel
destroy_tree (suc fuel) root = elim (root == null) [
  | true ↦ pure tt
  | false ↦ load root >>= λ n.
      destroy_tree fuel n.left >> (destroy_tree fuel n.right >> destroy_tree_node root)
]

-- The lines that `pre_order_traversal` prints.
pub data Line : Type 0 where
  entered : ℤ → Line
  left_side : Line
  right_side : Line
  leaving : ℤ → Line

unfoldable pub pre_order_traversal : ℕ → Ptr → M (List Line)
pre_order_traversal zero root = out_of_fuel
pre_order_traversal (suc fuel) root = elim (root == null) [
  | true ↦ pure []
  | false ↦ load root >>= λ n. pre_order_traversal fuel n.left >>= λ l.
      pre_order_traversal fuel n.right >>= λ r.
      pure (entered n.key ∷ left_side ∷ (l ++ right_side ∷ (r ++ leaving n.key ∷ [])))
]

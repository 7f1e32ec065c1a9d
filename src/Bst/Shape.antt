-- ===== src/Bst/Shape.antt =====
-- When the heap holds a tree.
use mathlib.Core.Bool.{false≢true}
use native.Mathlib.Decide.{ℕ_discrete}
use interview_questions.Prelude.{
  ◌==◌, ==_refl, ne→==, ℕ, suc, max, ◌≡◌, refl, sym, ◌∙◌, ◌≢◌, Bool, true, false, ◌||◌, none, some,
  List, [], ◌∷◌, ◌++◌, arith,
}
use interview_questions.Prelude.Int.{ℤ, ◌≤ℤ◌, ◌<ℤ◌}
use interview_questions.Bst.Heap.{Ptr, null, Node, Heap}

-- A tree with the address of each node.
pub data Tree : Type 0 where
  leaf : Tree
  node : Ptr → ℤ → Tree → Tree → Tree

abbrev pub addr : Tree → Ptr
addr leaf = null
addr (node p k l r) = p

abbrev pub cell : ℤ → (parent left right : Ptr) → Node
cell k parent left right = record { key = k; parent = parent; left = left; right = right }

-- The heap holds `t` below `parent`: keys, children and parent pointers are those of `t`.
abbrev pub Holds : Heap → Ptr → Tree → Type 0
Holds h parent leaf = Unit
Holds h parent (node p k l r) =
    (p ≢ null) × (h p ≡ some (cell k parent (addr l) (addr r))) × Holds h p l × Holds h p r

abbrev pub has : Ptr → Tree → Bool
has a leaf = false
has a (node p k l r) = (a == p) || (has a l || has a r)

-- No address stands twice in the tree.
abbrev pub IsDistinct : Tree → Type 0
IsDistinct leaf = Unit
IsDistinct (node p k l r) =
    (has p l ≡ false)
    × (has p r ≡ false)
    × ((a : Ptr) → has a l ≡ true → has a r ≡ false)
    × IsDistinct l
    × IsDistinct r

-- The keys in order.
abbrev pub keys : Tree → List ℤ
keys leaf = []
keys (node p k l r) = keys l ++ k ∷ keys r

abbrev pub All : (ℤ → Type 0) → Tree → Type 0
All P leaf = Unit
All P (node p k l r) = P k × All P l × All P r

-- Below a key on the left, and not below it on the right.
abbrev pub IsOrdered : Tree → Type 0
IsOrdered leaf = Unit
IsOrdered (node p k l r) = All (λ j. j <ℤ k) l × All (λ j. k ≤ℤ j) r × IsOrdered l × IsOrdered r

abbrev pub height : Tree → ℕ
height leaf = 0
height (node p k l r) = suc (max (height l) (height r))

-- What the tree does not hold may change.
pub frame :
    (h g : Heap) (parent : Ptr) (t : Tree)
    → ((a : Ptr) → has a t ≡ true → g a ≡ h a)
    → Holds h parent t
    → Holds g parent t
frame h g parent leaf same s = tt
frame h g parent (node p k l r) same s = (
  s.0,
  same p (rw (==_refl p)) ∙ s.1,
  frame h g p l (λ a i. same a (ground arith)) s.2,
  frame h g p r (λ a i. same a (ground arith)) s.3,
)

-- An address with no node is not in the tree.
pub not-has_of_none :
    (h : Heap) (parent a : Ptr) (t : Tree) → Holds h parent t → h a ≡ none → has a t ≡ false
not-has_of_none h parent a leaf s e = refl
not-has_of_none h parent a (node p k l r) s e = elim (ℕ_discrete a p) [
  | yes same ↦ absurd (some≢none (sym s.1 ∙ (rw (← same) e)))
  | no other ↦ rw (ne→== a p other, not-has_of_none h p a l s.2 e, not-has_of_none h p a r s.3 e)
]
  where
    some≢none : {c : Node} → some c ≡ none → ⊥
    some≢none q = cc

pub not-has-node :
    (a q : Ptr) (j : ℤ) (l r : Tree)
    → has a (node q j l r) ≡ false
    → (a ≢ q) × (has a l ≡ false) × (has a r ≡ false)
not-has-node a q j l r e = elim (ℕ_discrete a q) [
  | yes same ↦ absurd (false≢true (sym e ∙ rw (same, ==_refl q)))
  | no other ↦
      let both = parts (has a l) (has a r) (rw (ne→== a q other) at e) in (other, both.0, both.1)
]
  where
    parts : (b c : Bool) → (b || c) ≡ false → (b ≡ false) × (c ≡ false)
    parts b c h = ground arith

-- Two facts that exclude each other.
pub not_both : (b c : Bool) → (b ≡ true → c ≡ false) → c ≡ true → b ≡ false
not_both b c h e = ground arith

-- ===== src/Bst/Find.antt =====
-- `tree_find`, `tree_minimum` and `tree_maximum` on a tree in the heap.
use mathlib.Core.List.{append_assoc}
use interview_questions.Prelude.{
  if◌then◌else◌, ne→==, Bool-cases, ℕ, zero, suc, ◌+◌, ◌<◌, ◌≡◌, refl, ap, ◌∙◌, ◌≢◌, inl, inr,
  Option, none, some, List, [], ◌∷◌, ◌++◌, arith,
}
use interview_questions.Prelude.Int.{ℤ, ◌≤ℤ◌, ◌<ℤ◌, ltb_ℤ, eqb_ℤ, eqb_ℤ_iff}
use interview_questions.Prelude.Run.{done}
use interview_questions.Bst.Heap.{Ptr, null, Heap, load-ok}
use interview_questions.Bst.Shape.{
  Tree, leaf, node, addr, cell, Holds, keys, All, IsOrdered, height,
}
use interview_questions.Bst.Ops.{tree_minimum, tree_find, leftmost}

-- How often the key stands in the tree.
abbrev pub count : ℤ → Tree → ℕ
count k leaf = 0
count k (node p j l r) = (if eqb_ℤ j k then 1 else 0) + count k l + count k r

-- The address that the search for `k` ends at.
find_addr : ℤ → Tree → Ptr
find_addr k leaf = null
find_addr k (node p j l r) =
    if eqb_ℤ j k then p else if ltb_ℤ k j then find_addr k l else find_addr k r

tree_find-find_addr :
    (h : Heap) (parent : Ptr) (k : ℤ) (t : Tree) (fuel : ℕ)
    → Holds h parent t
    → height t < fuel
    → tree_find fuel (addr t) k h ≡ done (find_addr k t, h)
unfolding tree_find find_addr
tree_find-find_addr h parent k leaf zero s enough = absurd (omega arith)
tree_find-find_addr h parent k leaf (suc fuel) s enough = refl
tree_find-find_addr h parent k (node p j l r) zero s enough = absurd (omega arith)
tree_find-find_addr h parent k (node p j l r) (suc fuel) s enough = ground (
  arith,
  load-ok h p (cell j parent (addr l) (addr r)) s.0 s.1,
  tree_find-find_addr h p k l fuel s.2,
  tree_find-find_addr h p k r fuel s.3,
)

All→count : (k j : ℤ) (t : Tree) → All (λ i. i <ℤ j) t → j ≤ℤ k → count k t ≡ 0
All→count k j leaf below le = refl
All→count k j (node p i l r) below le =
    ground (arith, All→count k j l below.1, All→count k j r below.2)

All→count_above : (k j : ℤ) (t : Tree) → All (λ i. j ≤ℤ i) t → k <ℤ j → count k t ≡ 0
All→count_above k j leaf above lt = refl
All→count_above k j (node p i l r) above lt =
    ground (arith, All→count_above k j l above.1, All→count_above k j r above.2)

-- The key at an address.
abbrev pub key_at : Heap → Ptr → Option ℤ
key_at h p = elim (h p) [ none ↦ none | some n ↦ some n.key ]

find_addr_absent :
    (h : Heap) (parent : Ptr) (k : ℤ) (t : Tree)
    → Holds h parent t
    → IsOrdered t
    → find_addr k t ≡ null
    → count k t ≡ 0
unfolding find_addr
find_addr_absent h parent k leaf s ord e = refl
find_addr_absent h parent k (node p j l r) s ord e = elim (Bool-cases (eqb_ℤ j k)) [
  | inl same ↦ absurd (s.0 (rw same at e))
  | inr other ↦ elim (Bool-cases (ltb_ℤ k j)) [
    | inl lt ↦
        let ih = find_addr_absent h p k l s.2 ord.2 (rw (other, lt) at e) in
        rw other (omega (arith, ih, All→count_above k j r ord.1 (ground arith)))
    | inr ge ↦
        let ih = find_addr_absent h p k r s.3 ord.3 (rw (other, ge) at e) in
        rw other (omega (arith, ih, All→count k j l ord.0 (ground arith)))
  ]
]

find_addr_present :
    (h : Heap) (parent : Ptr) (k : ℤ) (t : Tree)
    → Holds h parent t
    → find_addr k t ≢ null
    → (0 < count k t) × (key_at h (find_addr k t) ≡ some k)
unfolding find_addr
find_addr_present h parent k leaf s ne = absurd (ne refl)
find_addr_present h parent k (node p j l r) s ne = elim (Bool-cases (eqb_ℤ j k)) [
  | inl e ↦ rw e (omega arith, rw (s.1, key_at) (ap some ((eqb_ℤ_iff j k).0 e)))
  | inr e ↦ elim (Bool-cases (ltb_ℤ k j)) [
    | inl lt ↦
        let ih = find_addr_present h p k l s.2 (rw (e, lt) at ne) in
        rw (e, lt) (omega (arith, ih.0), ih.1)
    | inr ge ↦
        let ih = find_addr_present h p k r s.3 (rw (e, ge) at ne) in
        rw (e, ge) (omega (arith, ih.0), ih.1)
  ]
]

-- On a tree in order that the heap holds, and with more fuel than the tree is high, `tree_find`
-- returns without changing the heap: `NULL` if the key does not occur, and otherwise an address
-- where the heap has a node with that key.
pub tree_find_lem :
    (h : Heap) (parent : Ptr) (k : ℤ) (t : Tree) (fuel : ℕ)
    → Holds h parent t
    → IsOrdered t
    → height t < fuel
    → (q : Ptr) × (tree_find fuel (addr t) k h ≡ done (q, h))
      × (q ≡ null → count k t ≡ 0)
      × (q ≢ null → (0 < count k t) × (key_at h q ≡ some k))
tree_find_lem h parent k t fuel s ord enough = (
  find_addr k t,
  tree_find-find_addr h parent k t fuel s enough,
  find_addr_absent h parent k t s ord,
  find_addr_present h parent k t s,
)

-- The address of the node that is leftmost, below `p`, which is a node.
first_addr : Ptr → Tree → Ptr
first_addr p leaf = p
first_addr p (node q k l r) = first_addr q l

leftmost-first_addr :
    (h : Heap) (parent p : Ptr) (k : ℤ) (l r : Tree) (fuel : ℕ)
    → Holds h parent (node p k l r)
    → height l < fuel
    → leftmost fuel p h ≡ done (first_addr p l, h)
unfolding leftmost first_addr
leftmost-first_addr h parent p k l r zero s enough = absurd (omega arith)
leftmost-first_addr h parent p k leaf r (suc fuel) s enough =
    ground (arith, load-ok h p (cell k parent null (addr r)) s.0 s.1)
leftmost-first_addr h parent p k (node q j l l') r (suc fuel) s enough = ground (
  arith,
  load-ok h p (cell k parent q (addr r)) s.0 s.1,
  s.2.0,
  leftmost-first_addr h p q j l l' fuel s.2,
)

-- The smallest key in the tree, `d` if there is none.
abbrev pub head_or : ℤ → List ℤ → ℤ
head_or d [] = d
head_or d (x ∷ xs) = x

head_or-append :
    (xs : List ℤ) (x d e : ℤ) (ys : List ℤ) → head_or e (xs ++ x ∷ ys) ≡ head_or d (xs ++ x ∷ ys)
head_or-append [] x d e ys = refl
head_or-append (y ∷ xs) x d e ys = refl

first_addr-key :
    (h : Heap) (parent p : Ptr) (k : ℤ) (l r : Tree) (rest : List ℤ)
    → Holds h parent (node p k l r)
    → key_at h (first_addr p l) ≡ some (head_or k (keys l ++ k ∷ rest))
unfolding first_addr
first_addr-key h parent p k leaf r rest s = rw (s.1, key_at)
first_addr-key h parent p k (node q j l l') r rest s = rw append_assoc (
    first_addr-key h p q j l l' (keys l' ++ k ∷ rest) s.2
    ∙ ap some (head_or-append (keys l) j k j (keys l' ++ k ∷ rest)))

-- On a tree that the heap holds, and with more fuel than the tree is high, `tree_minimum` returns
-- `NULL` for the empty tree, and otherwise an address of a node with the first key in order; the heap
-- does not change.
pub tree_minimum_lem :
    (h : Heap) (parent : Ptr) (t : Tree) (fuel : ℕ)
    → Holds h parent t
    → height t < fuel
    → (q : Ptr) × (tree_minimum fuel (addr t) h ≡ done (q, h))
      × (t ≡ leaf → q ≡ null)
      × ((k : ℤ) → t ≢ leaf → key_at h q ≡ some (head_or k (keys t)))
tree_minimum_lem h parent leaf fuel s enough =
    unfold tree_minimum in (null, refl, (λ e. refl), λ k ne. absurd (ne refl))
tree_minimum_lem h parent (node p k l r) fuel s enough = (
  first_addr p l,
  tree_minimum-ok,
  (λ e. absurd (node≢leaf e)),
  λ d ne.
      first_addr-key h parent p k l r (keys r) s ∙ ap some (head_or-append (keys l) k d k (keys r)),
)
  where
    node≢leaf : node p k l r ≡ leaf → ⊥
    node≢leaf e = cc

    tree_minimum-ok : tree_minimum fuel p h ≡ done (first_addr p l, h)
    tree_minimum-ok =
        unfold tree_minimum in
        rw (ne→== p null s.0) (leftmost-first_addr h parent p k l r fuel s (omega arith))

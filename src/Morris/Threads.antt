-- ===== src/Morris/Threads.antt =====
-- trees_graphs/traversal_without_recursion/solution.c: trees whose last right pointer leads back up.
use interview_questions.Prelude.Run.{Run, done}
use mathlib.Core.Bool.{false≢true}
use interview_questions.Prelude.{
  ◌==◌, ==_refl, ne→==, ℕ, zero, suc, ◌+◌, ◌≤◌, ◌≡◌, refl, sym, ap, ◌∙◌, ◌≢◌, ◌⊎◌, inl, inr, true,
  false, Option, none, some, arith,
}
use interview_questions.Prelude.Int.{ℤ}
use interview_questions.Bst.Shape.{Tree, leaf, node, has, IsDistinct, not-has-node}
use interview_questions.Morris.{Node, Heap, write, predecessor}

abbrev pub node_of : ℤ → (left right : Option ℕ) → Node
node_of k left right = record { key = k; left = left; right = right }

-- The tree stands at `p`, and `k` takes the place of its last right pointer.
abbrev pub IsSegment : Heap → Tree → (p k : Option ℕ) → Type 0
IsSegment h leaf p k = p ≡ k
IsSegment h (node a key l r) p k =
    (p ≡ some a)
    × (pl : Option ℕ) × (pr : Option ℕ) × (h a ≡ some (node_of key pl pr))
    × IsSegment h l pl none
    × IsSegment h r pr k

-- The last node in order, `a` if there is none.
abbrev pub last_of : ℕ → Tree → ℕ
last_of a leaf = a
last_of a (node b key l r) = last_of b r

abbrev pub size : Tree → ℕ
size leaf = 0
size (node a key l r) = size l + size r + 1

pub IsSegment-frame :
    (h g : Heap) (t : Tree) (p k : Option ℕ)
    → ((a : ℕ) → has a t ≡ true → g a ≡ h a)
    → IsSegment h t p k
    → IsSegment g t p k
IsSegment-frame h g leaf p k same s = s
IsSegment-frame h g (node a key l r) p k same (at, pl, pr, e, sl, sr) = (
  at,
  pl,
  pr,
  same a (rw (==_refl a)) ∙ e,
  IsSegment-frame h g l pl none (λ b i. same b (ground arith)) sl,
  IsSegment-frame h g r pr k (λ b i. same b (ground arith)) sr,
)

pub write_other : (h : Heap) (p a : ℕ) (n : Node) → a ≢ p → write h p n a ≡ h a
write_other h p a n ne = rw (ne→== a p ne) refl

pub write_same : (h : Heap) (p : ℕ) (n : Node) → write h p n p ≡ some n
write_same h p n = rw (==_refl p) refl

-- The last node is in the tree.
pub has-last_of : (a : ℕ) (key : ℤ) (l r : Tree) → has (last_of a r) (node a key l r) ≡ true
has-last_of a key l leaf = rw (==_refl a) refl
has-last_of a key l (node b j m n) = ground (arith, has-last_of b j m n)

-- Its cell.
pub last_cell :
    (h : Heap) (a : ℕ) (key : ℤ) (l r : Tree) (p k : Option ℕ)
    → IsSegment h (node a key l r) p k
    → (j : ℤ) × (q : Option ℕ) × (h (last_of a r) ≡ some (node_of j q k))
last_cell h a key l leaf p k (at, pl, pr, e, sl, sr) =
    (key, pl, e ∙ ap (λ x. some (node_of key pl x)) sr)
last_cell h a key l (node b j m n) p k (at, pl, pr, e, sl, sr) = last_cell h b j m n pr k sr

pub outside : (a b : ℕ) (t : Tree) → has a t ≡ false → has b t ≡ true → b ≢ a
outside a b t absent yes' e = absurd (false≢true (sym absent ∙ ap (λ x. has x t) (sym e) ∙ yes'))

-- A change of the last right pointer.
pub thread :
    (h : Heap) (a : ℕ) (key : ℤ) (l r : Tree) (p k k' : Option ℕ) (j : ℤ) (q : Option ℕ)
    → IsSegment h (node a key l r) p k
    → IsDistinct (node a key l r)
    → h (last_of a r) ≡ some (node_of j q k)
    → IsSegment (write h (last_of a r) (node_of j q k')) (node a key l r) p k'
thread h a key l leaf p k k' j q (at, pl, pr, e, sl, sr) distinct cell_e = (
  at,
  pl,
  k',
  write_same h a (node_of j q k') ∙ keep,
  IsSegment-frame h _ l pl none (λ c inside. write_other h a c _ (outside a c l distinct.0 inside))
      sl,
  refl,
)
  where
    keep : ◌≡◌ {A = Option Node} (some (node_of j q k')) (some (node_of key pl k'))
    keep = cc
thread h a key l (node b i m n) p k k' j q (at, pl, pr, e, sl, sr) distinct cell_e = (
  at,
  pl,
  pr,
  write_other h (last_of b n) a _
        (λ same. outside a (last_of b n) (node b i m n) distinct.1 (has-last_of b i m n) (sym same))
      ∙ e,
  IsSegment-frame h _ l pl none
      (λ c inside. write_other h (last_of b n) c _ (λ same.
        outside c (last_of b n) (node b i m n) (distinct.2 c inside) (has-last_of b i m n)
          (sym same)))
      sl,
  thread h b i m n pr k k' j q sr distinct.4 cell_e,
)

abbrev stops : (fuel : ℕ) → Heap → (curr p : ℕ) → Option ℕ → Run ℕ
stops fuel h curr p none = done p
stops fuel h curr p (some q) = elim (q == curr) [
  | true ↦ done p
  | false ↦ predecessor fuel h curr q
]

next :
    (fuel : ℕ) (h : Heap) (curr p : ℕ) (n : Node)
    → h p ≡ some n
    → predecessor (suc fuel) h curr p ≡ stops fuel h curr p n.right
unfolding predecessor
next fuel h curr p n e = rw (e, predecessor) (by_case n.right)
  where
    by_case :
        (x : Option ℕ)
        → elim x [
          | none ↦ done p
          | some q ↦ elim (q == curr) [ true ↦ done p | false ↦ predecessor fuel h curr q ]
        ]
          ≡ stops fuel h curr p x
    by_case none = refl
    by_case (some q) = refl

-- The loop from a tree stops at its last node, if that has no child or leads to `curr`.
pub predecessor-last_of :
    (fuel : ℕ) (h : Heap) (curr a : ℕ) (key : ℤ) (l r : Tree) (p k : Option ℕ)
    → IsSegment h (node a key l r) p k
    → has curr (node a key l r) ≡ false
    → (k ≡ none) ⊎ (k ≡ some curr)
    → size (node a key l r) ≤ fuel
    → predecessor fuel h curr a ≡ done (last_of a r)
unfolding predecessor
predecessor-last_of zero h curr a key l r p k s absent ends le = absurd (omega (arith, le))
predecessor-last_of (suc fuel) h curr a key l leaf p k (at, pl, pr, e, sl, sr) absent (inl none_k)
      le =
    next fuel h curr a (node_of key pl pr) e ∙ ap (λ x. stops fuel h curr a x) (sr ∙ none_k)
predecessor-last_of (suc fuel) h curr a key l leaf p k (at, pl, pr, e, sl, sr) absent (inr some_k)
      le =
    next fuel h curr a (node_of key pl pr) e
    ∙ ap (λ x. stops fuel h curr a x) (sr ∙ some_k)
    ∙ ap (λ b. elim b [ true ↦ done a | false ↦ predecessor fuel h curr curr ]) (==_refl curr)
predecessor-last_of (suc fuel) h curr a key l (node b i m n) p k (at, pl, pr, e, sl, sr) absent ends
      le =
    next fuel h curr a (node_of key pl pr) e
    ∙ ap (λ x. stops fuel h curr a x) (sr.0)
    ∙ ap (λ c. elim c [ true ↦ done a | false ↦ predecessor fuel h curr b ])
        (ne→== b curr λ same.
          (not-has-node curr b i m n (not-has-node curr a key l (node b i m n) absent).2).0
            (sym same))
    ∙ predecessor-last_of fuel h curr b i m n pr k sr
        (not-has-node curr a key l (node b i m n) absent).2 ends (omega (arith, le))

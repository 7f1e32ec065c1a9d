-- ===== src/Boggle/Words/Count.antt =====
-- recursion_dp/boggle_board/solution.c: the count of the children of a node.
use native.Mathlib.Decide.{dec_lt, ℕ_discrete}
use interview_questions.Prelude.{
  if◌then◌else◌, ==_refl, ne→==, Bool-cases, ℕ, zero, suc, ◌+◌, ◌≤◌, ◌<◌, ◌≡◌, refl, sym, ap, ◌∙◌,
  ◌≢◌, inl, inr, true, false, arith,
}
use interview_questions.Boggle.Words.{Trie, null, trie_node, new_node, is_null, put_child}

-- The number of children among the first `k`.
abbrev pub count : (k : ℕ) → (ℕ → Trie) → ℕ
count zero f = 0
count (suc k) f = count k f + (if is_null (f k) then 0 else 1)

abbrev pub IsCounted : Trie → Type 0
IsCounted null = Unit {0}
IsCounted (trie_node s n f) = (n ≡ count 26 f) × ((i : ℕ) → IsCounted (f i))

pub count-le : (k : ℕ) (f : ℕ → Trie) → count k f ≤ k
count-le zero f = omega arith
count-le (suc k) f = elim (Bool-cases (is_null (f k))) [
  | inl e ↦ rw e (omega (arith, count-le k f))
  | inr e ↦ rw e (omega (arith, count-le k f))
]

pub count-node : (k i : ℕ) (f : ℕ → Trie) → i < k → is_null (f i) ≡ false → 0 < count k f
count-node zero i f lt e = absurd (omega arith)
count-node (suc k) i f lt e = elim (dec_lt i k) [
  | yes lt' ↦ omega (arith, count-node k i f lt' e)
  | no ge ↦ (let same : i ≡ k = omega arith in rw (rw same at e) (omega arith))
]

pub put_child_self : (f : ℕ → Trie) (i : ℕ) (t : Trie) → put_child f i t i ≡ t
put_child_self f i t = rw (==_refl i) refl

pub put_child-ne : (f : ℕ → Trie) (i j : ℕ) (t : Trie) → i ≢ j → put_child f i t j ≡ f j
put_child-ne f i j t ne = rw (ne→== i j ne) refl

-- The children from `k` on do not count.
count-beyond : (k i : ℕ) (f : ℕ → Trie) (t : Trie) → k ≤ i → count k (put_child f i t) ≡ count k f
count-beyond zero i f t le = refl
count-beyond (suc k) i f t le =
    rw (count-beyond k i f t (omega arith)) (rw (ne→== i k (omega arith)) refl)

pub count-new :
    (k i : ℕ) (f : ℕ → Trie) (t : Trie)
    → i < k
    → is_null (f i) ≡ true
    → is_null t ≡ false
    → count k (put_child f i t) ≡ count k f + 1
count-new zero i f t lt old new = absurd (omega arith)
count-new (suc k) i f t lt old new = elim (ℕ_discrete i k) [
  | yes here ↦
      let last : put_child f i t k ≡ t = ap (put_child f i t) (sym here) ∙ put_child_self f i t in
      let old' : is_null (f k) ≡ true = ap (λ j. is_null (f j)) (sym here) ∙ old in
      rw (last, new, old', count-beyond k i f t (omega (arith, here))) (omega arith)
  | no other ↦
      rw (put_child-ne f i k t other, count-new k i f t (omega (arith, other)) old new)
        (omega arith)
]

pub count-kept :
    (k i : ℕ) (f : ℕ → Trie) (t : Trie)
    → is_null t ≡ is_null (f i)
    → count k (put_child f i t) ≡ count k f
count-kept zero i f t same = refl
count-kept (suc k) i f t same = elim (ℕ_discrete i k) [
  | yes here ↦
      let last : put_child f i t k ≡ t = ap (put_child f i t) (sym here) ∙ put_child_self f i t in
      let old' : is_null t ≡ is_null (f k) = same ∙ ap (λ j. is_null (f j)) here in
      rw (last, old', count-beyond k i f t (omega (arith, here))) refl
  | no other ↦ rw (put_child-ne f i k t other, count-kept k i f t same) refl
]

count-null : (k : ℕ) → count k (λ i. null) ≡ 0
count-null zero = refl
count-null (suc k) = omega (arith, count-null k)

pub new_node-IsCounted : IsCounted new_node
new_node-IsCounted = (sym (count-null 26), λ i. tt)

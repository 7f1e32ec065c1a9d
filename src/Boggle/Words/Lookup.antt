-- ===== src/Boggle/Words/Lookup.antt =====
-- recursion_dp/boggle_board/solution.c: `word_score` and `delete_word` on the trie as a function.
use mathlib.Core.Path.{subst}
use interview_questions.Prelude.{
  if◌then◌else◌, ==_iff, Bool-cases, ℕ, ◌-◌, ◌<◌, ◌≡◌, refl, sym, ap, ◌∙◌, inl, inr, Bool, true,
  false, ◌&&◌, List, [], ◌∷◌, arith,
}
use interview_questions.Prelude.Int.{ℤ, eqb_ℤ, eqb_ℤ_iff}
use interview_questions.Prelude.Run.{done, ◌>>=◌, Returns, Returns-bind}
use interview_questions.Boggle.Words.{
  Trie, null, trie_node, no_score, is_null, put_child, is_leaf_word, after_delete, delete_word_aux,
  delete_word, word_score,
}
use interview_questions.Boggle.Words.Count.{count, IsCounted, count-node, count-kept}
use interview_questions.Boggle.Words.Scores.{
  score_of, IsLower, same_word, Scored, index_of-ok, Scored-child, null-scores, set_here,
}

word_score-child :
    (s : ℤ) (n : ℕ) (f : ℕ → Trie) (c : ℕ) (w : List ℕ) (b : Bool)
    → IsLower (c ∷ w)
    → is_null (f (c - 97)) ≡ b
    → word_score (trie_node s n f) (c ∷ w)
      ≡ elim b [ true ↦ done no_score | false ↦ word_score (f (c - 97)) w ]
unfolding word_score
word_score-child s n f c w b lower e =
    ap (λ r. r >>= λ i. elim (is_null (f i)) [ true ↦ done no_score | false ↦ word_score (f i) w ])
      (index_of-ok c lower.0 lower.1)
    ∙ ap (λ x. elim x [ true ↦ done no_score | false ↦ word_score (f (c - 97)) w ]) e

pub word_score-score_of :
    (t : Trie) (w : List ℕ) → is_null t ≡ false → IsLower w → word_score t w ≡ done (score_of t w)
unfolding word_score
word_score-score_of null w node lower = absurd (ground (arith, node))
word_score-score_of (trie_node s n f) [] node lower = refl
word_score-score_of (trie_node s n f) (c ∷ w) node lower =
    elim (Bool-cases (is_null (f (c - 97)))) [
      | inl e ↦
          word_score-child s n f c w true lower e ∙ ap done (sym (null-scores (f (c - 97)) e w))
      | inr e ↦
          word_score-child s n f c w false lower e ∙ word_score-score_of (f (c - 97)) w e lower.2
    ]

-- A word that is not there.
absent :
    (s : ℤ) (n : ℕ) (f : ℕ → Trie) (c : ℕ) (w v : List ℕ)
    → is_null (f (c - 97)) ≡ true
    → score_of (trie_node s n f) v
      ≡ (if same_word v (c ∷ w) then no_score else score_of (trie_node s n f) v)
absent s n f c w [] e = refl
absent s n f c w (d ∷ v) e = elim (Bool-cases (same_word (d ∷ v) (c ∷ w))) [
  | inl same ↦
      let letter : d ≡ c = (==_iff d c).0 (ground (arith, same)) in
      rw (same, if◌then◌else◌)
        (null-scores (f (d - 97)) (ap (λ x. is_null (f (x - 97))) letter ∙ e) v)
  | inr other ↦ rw (other, if◌then◌else◌) refl
]

pub Deleted : Trie → List ℕ → Bool × Trie → Type 0
Deleted t w r = Scored t r.1 w no_score × (r.0 ≡ true → is_leaf_word r.1 ≡ false)

after :
    (s : ℤ) (n : ℕ) (f : ℕ → Trie) (c : ℕ) (w : List ℕ) (ret : Bool) (t : Trie)
    → IsLower (c ∷ w)
    → IsCounted (trie_node s n f)
    → is_null (f (c - 97)) ≡ false
    → Scored (f (c - 97)) t w no_score
    → (ret ≡ true → is_leaf_word t ≡ false)
    → Deleted (trie_node s n f) (c ∷ w) (after_delete s n f (c - 97) ret t)
unfolding Deleted
after s n f c w ret t lower counted node scored leaf =
    rw (kept ret leaf, if◌then◌else◌)
      (
        Scored-child s n n f (f (c - 97)) t c w no_score lower.0 lower.1 (λ v. refl)
            (counted.0 ∙ sym same) counted.1 scored,
        λ h. ground (arith, full),
      )
  where
    same : count 26 (put_child f (c - 97) t) ≡ count 26 f
    same = count-kept 26 (c - 97) f t (scored.node ∙ sym node)

    full : 0 < n
    full = subst (λ x. 0 < x) (sym counted.0) (count-node 26 (c - 97) f (omega (arith, lower)) node)

    kept : (b : Bool) → (b ≡ true → is_leaf_word t ≡ false) → (b && is_leaf_word t) ≡ false
    kept true leaf' = leaf' refl
    kept false leaf' = refl

delete_word_aux-Deleted :
    (t : Trie) (w : List ℕ)
    → is_null t ≡ false
    → IsCounted t
    → IsLower w
    → Returns (delete_word_aux t w) (Deleted t w)
unfolding delete_word_aux Deleted
delete_word_aux-Deleted null w node counted lower = absurd (ground (arith, node))
delete_word_aux-Deleted (trie_node s n f) [] node counted lower =
    elim (Bool-cases (eqb_ℤ s no_score)) [
      | inl e ↦
          rw (e, Returns)
            (
              subst (λ x. Scored (trie_node s n f) (trie_node x n f) [] no_score)
                  (sym ((eqb_ℤ_iff s no_score).0 e)) (set_here no_score s n f counted),
              λ h. absurd (ground (arith, h)),
            )
      | inr e ↦ rw (e, Returns) (set_here no_score s n f counted, λ h. ground (arith, h))
    ]
delete_word_aux-Deleted (trie_node s n f) (c ∷ w) node counted lower =
    rw (index_of-ok c lower.0 lower.1, delete_word_aux)
      (elim (Bool-cases (is_null (f (c - 97)))) [
        | inl e ↦
            rw (e, Returns)
              (
                record { node = refl; counted = counted; scores = λ v low. absent s n f c w v e },
                λ h. absurd (ground (arith, h)),
              )
        | inr e ↦
            rw (e, Returns)
              (Returns-bind _ _ (delete_word_aux (f (c - 97)) w) _
                (delete_word_aux-Deleted (f (c - 97)) w e (counted.1 (c - 97)) lower.2)
                (λ (ret, t) (scored, leaf). after s n f c w ret t lower counted e scored leaf))
      ])

pub delete_word-Scored :
    (t : Trie) (w : List ℕ)
    → is_null t ≡ false
    → IsCounted t
    → IsLower w
    → Returns (delete_word t w) (λ t'. Scored t t' w no_score)
unfolding delete_word Deleted
delete_word-Scored t w node counted lower =
    Returns-bind _ _ (delete_word_aux t w) _ (delete_word_aux-Deleted t w node counted lower)
      (λ r deleted. deleted.0)

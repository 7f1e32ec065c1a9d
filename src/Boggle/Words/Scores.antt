-- ===== src/Boggle/Words/Scores.antt =====
-- recursion_dp/boggle_board/solution.c: the trie as a function from words to scores.
use native.Mathlib.Decide.{ℕ_discrete}
use mathlib.Core.Path.{subst}
use interview_questions.Prelude.{
  ◌==◌, if◌then◌else◌, ==_refl, ne→==, Bool-cases, ℕ, ◌+◌, ◌-◌, ◌%◌, ◌^◌, ◌≤◌, ◌<◌, ◌≡◌, refl, sym,
  ap, ◌∙◌, inl, inr, Bool, true, false, ◌&&◌, List, [], ◌∷◌, ◌++◌, arith,
}
use interview_questions.Prelude.Int.{ℤ}
use interview_questions.Prelude.Run.{done, Returns, Returns-bind}
use interview_questions.Boggle.Words.{
  Trie, null, trie_node, no_score, new_node, is_null, index_of, put_child, grow, insert_word,
}
use interview_questions.Boggle.Words.Count.{
  count, IsCounted, count-le, count-new, count-kept, put_child_self, put_child-ne,
  new_node-IsCounted,
}

abbrev pub score_of : Trie → List ℕ → ℤ
score_of null w = no_score
score_of (trie_node s n f) [] = s
score_of (trie_node s n f) (c ∷ w) = score_of (f (c - 97)) w

-- The letters from `a` to `z`.
abbrev pub IsLower : List ℕ → Type 0
IsLower [] = Unit {0}
IsLower (c ∷ w) = (97 ≤ c) × (c < 123) × IsLower w

pub IsLower-append : (v : List ℕ) (c : ℕ) → IsLower v → 97 ≤ c → c < 123 → IsLower (v ++ c ∷ [])
IsLower-append [] c lower le lt = (le, lt, tt)
IsLower-append (d ∷ v) c lower le lt = (lower.0, lower.1, IsLower-append v c lower.2 le lt)

abbrev pub same_word : List ℕ → List ℕ → Bool
same_word [] [] = true
same_word [] (d ∷ w) = false
same_word (c ∷ v) [] = false
same_word (c ∷ v) (d ∷ w) = (c == d) && same_word v w

-- `t'` is `t` with the score of one word set.
pub record Scored (t t' : Trie) (w : List ℕ) (s : ℤ) : Type 0 where
  pub node : is_null t' ≡ false
  pub counted : IsCounted t'
  pub scores :
      (v : List ℕ) → IsLower v → score_of t' v ≡ (if same_word v w then s else score_of t v)

pub index_of-ok : (c : ℕ) → 97 ≤ c → c < 123 → index_of c ≡ done (c - 97)
unfolding index_of
index_of-ok c le lt = ground arith

-- A change of one child is a change of the node.
pub Scored-child :
    (s : ℤ) (n m : ℕ) (f : ℕ → Trie) (u t : Trie) (c : ℕ) (w : List ℕ) (score : ℤ)
    → 97 ≤ c
    → c < 123
    → ((v : List ℕ) → score_of u v ≡ score_of (f (c - 97)) v)
    → m ≡ count 26 (put_child f (c - 97) t)
    → ((i : ℕ) → IsCounted (f i))
    → Scored u t w score
    → Scored (trie_node s n f) (trie_node s m (put_child f (c - 97) t)) (c ∷ w) score
Scored-child s n m f u t c w score le lt same counts kept scored = record {
  node = refl;
  counted = (
    counts,
    λ i. elim (ℕ_discrete (c - 97) i) [
      | yes here ↦
          rw (ap (put_child f (c - 97) t) (sym here) ∙ put_child_self f (c - 97) t) scored.counted
      | no other ↦ rw (put_child-ne f (c - 97) i t other) (kept i)
    ],
  );
  scores = λ v lower. at v lower;
}
  where
    at_letter :
        (v : List ℕ)
        → IsLower v
        → score_of (trie_node s m (put_child f (c - 97) t)) (c ∷ v)
          ≡ (if same_word (c ∷ v) (c ∷ w) then score else score_of (trie_node s n f) (c ∷ v))
    at_letter v lower =
        ap (λ x. score_of x v) (put_child_self f (c - 97) t)
        ∙ scored.scores v lower
        ∙ ap (λ x. if same_word v w then score else x) (same v)
        ∙ ap (λ b. if b && same_word v w then score else score_of (f (c - 97)) v) (sym (==_refl c))

    at :
        (v : List ℕ)
        → IsLower v
        → score_of (trie_node s m (put_child f (c - 97) t)) v
          ≡ (if same_word v (c ∷ w) then score else score_of (trie_node s n f) v)
    at [] lower = refl
    at (d ∷ v) lower = elim (ℕ_discrete (c - 97) (d - 97)) [
      | yes here ↦
          let letter : d ≡ c = omega (arith, here, lower) in
          subst
            (λ x.
              score_of (trie_node s m (put_child f (c - 97) t)) (x ∷ v)
              ≡ (if same_word (x ∷ v) (c ∷ w) then score else score_of (trie_node s n f) (x ∷ v)))
            (sym letter) (at_letter v (lower.2))
      | no other ↦
          ap (λ x. score_of x v) (put_child-ne f (c - 97) (d - 97) t other)
          ∙ ap (λ b. if b && same_word v w then score else score_of (f (d - 97)) v)
              (sym (ne→== d c (λ e. other (ap (λ x. x - 97) (sym e)))))
    ]

pub new_node-scores : (v : List ℕ) → score_of new_node v ≡ no_score
new_node-scores [] = refl
new_node-scores (c ∷ v) = refl

pub null-scores : (t : Trie) → is_null t ≡ true → (v : List ℕ) → score_of t v ≡ no_score
null-scores null e v = refl
null-scores (trie_node s n f) e v = absurd (ground (arith, e))

pub set_here :
    (score s : ℤ) (n : ℕ) (f : ℕ → Trie)
    → IsCounted (trie_node s n f)
    → Scored (trie_node s n f) (trie_node score n f) [] score
set_here score s n f counted = record { node = refl; counted = counted; scores = λ v lower. at v }
  where
    at :
        (v : List ℕ)
        → score_of (trie_node score n f) v
          ≡ (if same_word v [] then score else score_of (trie_node s n f) v)
    at [] = refl
    at (c ∷ v) = refl

-- No child for the first letter.
abbrev IsFresh : Trie → List ℕ → Type 0
IsFresh null w = Unit {0}
IsFresh (trie_node s n f) [] = Unit {0}
IsFresh (trie_node s n f) (c ∷ w) = is_null (f (c - 97)) ≡ true

IsFresh-new_node : (w : List ℕ) → IsFresh new_node w
IsFresh-new_node [] = tt
IsFresh-new_node (c ∷ w) = refl

module _ (has_memory : List ℕ → Bool) (some_memory : (w : List ℕ) → has_memory w ≡ true)
    (score : ℤ) where
  grow-Scored :
      (t : Trie) (w : List ℕ)
      → is_null t ≡ false
      → IsCounted t
      → IsLower w
      → IsFresh t w
      → Returns (grow has_memory score t w) (λ t'. Scored t t' w score)
  unfolding grow
  grow-Scored null w node counted lower fresh = absurd (ground (arith, node))
  grow-Scored (trie_node s n f) [] node counted lower fresh = set_here score s n f counted
  grow-Scored (trie_node s n f) (c ∷ w) node counted lower fresh =
      rw (index_of-ok c lower.0 lower.1, some_memory w, grow)
        (Returns-bind _ _ (grow has_memory score new_node w) _
          (grow-Scored new_node w refl new_node-IsCounted lower.2 (IsFresh-new_node w))
          (λ t scored.
            Scored-child s n ((n + 1) % 2 ^ 32) f new_node t c w score lower.0 lower.1
              (λ v. new_node-scores v ∙ sym (null-scores (f (c - 97)) fresh v))
              (omega (
                arith,
                counted.0,
                count-le 26 f,
                count-new 26 (c - 97) f t (omega (arith, lower)) fresh scored.node,
              ))
              counted.1 scored))

  pub insert_word-Scored :
      (t : Trie) (w : List ℕ)
      → is_null t ≡ false
      → IsCounted t
      → IsLower w
      → Returns (insert_word has_memory score t w) (λ t'. Scored t t' w score)
  unfolding insert_word
  insert_word-Scored null w node counted lower = absurd (ground (arith, node))
  insert_word-Scored (trie_node s n f) [] node counted lower = set_here score s n f counted
  insert_word-Scored (trie_node s n f) (c ∷ w) node counted lower =
      rw (index_of-ok c lower.0 lower.1, insert_word)
        (elim (Bool-cases (is_null (f (c - 97)))) [
          | inl e ↦ rw (e, Returns) (grow-Scored (trie_node s n f) (c ∷ w) refl counted lower e)
          | inr e ↦
              rw (e, Returns)
                (Returns-bind _ _ (insert_word has_memory score (f (c - 97)) w) _
                  (insert_word-Scored (f (c - 97)) w e (counted.1 (c - 97)) lower.2)
                  (λ t scored.
                    Scored-child s n n f (f (c - 97)) t c w score lower.0 lower.1 (λ v. refl)
                      (counted.0 ∙ sym (count-kept 26 (c - 97) f t (scored.node ∙ sym e))) counted.1
                      scored))
        ])

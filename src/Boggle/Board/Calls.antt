-- ===== src/Boggle/Board/Calls.antt =====
-- recursion_dp/boggle_board/solution.c: the three kinds of calls of `find_best_word_aux`.
use interview_questions.Prelude.{
  if◌then◌else◌, ℕ, zero, suc, ◌≡◌, ap, ◌∙◌, true, false, none, some, List, [], ◌∷◌, ◌++◌,
}
use interview_questions.Prelude.Int.{ℤ, eqb_ℤ}
use interview_questions.Prelude.Run.{Run, done, ◌>>=◌}
use interview_questions.Boggle.Words.Scores.{IsLower}
use interview_questions.Boggle.Words.{no_score}
use interview_questions.Boggle.Board.{
  is_outside, letter_at, steps, Best, try_steps, find_best_word_aux,
}
use interview_questions.Boggle.Board.Trace.{IsInside, is_outside-IsInside}
use interview_questions.Boggle.Board.Better.{elim_true, elim_false}

module _ (value : List ℕ → ℤ) (score : List ℕ → Run ℤ)
    (scores : (w : List ℕ) → IsLower w → score w ≡ done (value w)) (board : List (List ℕ))
    (n : ℕ) where
  pub single-call :
      (left : ℕ) (r c : ℤ) (word : List ℕ) (l : ℕ)
      → IsInside n r
      → IsInside n c
      → letter_at board r c ≡ done l
      → IsLower (word ++ l ∷ [])
      → find_best_word_aux score board n (suc left) r c word
        ≡ elim (eqb_ℤ (value (word ++ l ∷ [])) no_score) [
          | true ↦ done (no_score, none)
          | false ↦
              try_steps
                (λ r' c'. find_best_word_aux score board n left r' c' (word ++ l ∷ []))
                steps
                r
                c
                (value (word ++ l ∷ []), some (word ++ l ∷ []))
        ]
  unfolding find_best_word_aux
  single-call left r c word l row col letter lower =
      elim_false _ _ _ (is_outside-IsInside n r c row col)
      ∙ ap (λ x. x >>= λ l. score (word ++ l ∷ []) >>= λ s. next l s) letter
      ∙ ap (λ x. x >>= λ s. next l s) (scores (word ++ l ∷ []) lower)
    where
      next : ℕ → ℤ → Run Best
      next l s = elim (eqb_ℤ s no_score) [
        | true ↦ done (no_score, none)
        | false ↦
            try_steps (λ r' c'. find_best_word_aux score board n left r' c' (word ++ l ∷ [])) steps
              r c (s, some (word ++ l ∷ []))
      ]

  pub outside-call :
      (left : ℕ) (r c : ℤ) (word : List ℕ)
      → is_outside n r c ≡ true
      → find_best_word_aux score board n left r c word ≡ done (no_score, none)
  unfolding find_best_word_aux
  outside-call zero r c word e = elim_true _ _ _ e
  outside-call (suc left) r c word e = elim_true _ _ _ e

  pub full-call :
      (r c : ℤ) (word : List ℕ)
      → is_outside n r c ≡ false
      → IsLower word
      → find_best_word_aux score board n zero r c word
        ≡ done (value word, if eqb_ℤ (value word) no_score then none else some word)
  unfolding find_best_word_aux
  full-call r c word e lower =
      elim_false _ _ _ e
      ∙ ap (λ x. x >>= λ s. done (s, if eqb_ℤ s no_score then none else some word))
          (scores word lower)

-- ===== src/Boggle/Board/Search.antt =====
-- recursion_dp/boggle_board/solution.c: `find_best_word` against all the words on the board.
use native.Mathlib.Decide.{ℕ_discrete}
use mathlib.Core.Path.{subst}
use interview_questions.Prelude.{
  length, ℕ, zero, suc, ◌+◌, ◌≤◌, ◌<◌, ◌≡◌, refl, sym, ap, ◌≢◌, Option, none, some, List, [], ◌++◌,
  arith,
}
use interview_questions.Prelude.Int.{ℤ, pos, negsuc, pos_part, neg_part, ◌≤ℤ◌, eq_of_parts}
use interview_questions.Prelude.Run.{Run, done, Returns, Returns-bind, Returns-mono}
use interview_questions.Boggle.Words.Scores.{IsLower}
use interview_questions.Boggle.Words.{no_score}
use interview_questions.Boggle.Board.{
  Best, better, find_best_word_aux, search_row, search_rows, find_best_word,
}
use interview_questions.Boggle.Board.Trace.{IsFull, Trace, Trace-IsInside}
use interview_questions.Boggle.Board.Better.{
  better-fst, IsAchieved, IsAchieved-mono, better-IsAchieved,
}
use interview_questions.Boggle.Board.Best.{find_best_word_aux-best, IsBound}

module _ (value : List ℕ → ℤ) (board : List (List ℕ)) (n : ℕ) where
  -- A word along a path, which fits `word_buffer`.
  abbrev pub IsTraced : List ℕ → Type 0
  IsTraced w = (r : ℤ) × (c : ℤ) × Trace board n r c w × (length w ≤ 1023)

  abbrev pub IsBest : Option (List ℕ) → Type 0
  IsBest none = (w : List ℕ) → IsTraced w → value w ≡ negsuc 0
  IsBest (some w) =
      IsTraced w × (value w ≢ negsuc 0) × ((v : List ℕ) → IsTraced v → value v ≤ℤ value w)

module _ (value : List ℕ → ℤ) (score : List ℕ → Run ℤ)
    (scores : (w : List ℕ) → IsLower w → score w ≡ done (value w))
    (valid : (w : List ℕ) → negsuc 0 ≤ℤ value w)
    (prefixes : (v w : List ℕ) → v ≢ [] → value v ≡ negsuc 0 → value (v ++ w) ≡ negsuc 0)
    (board : List (List ℕ)) (n : ℕ) (full : IsFull board n) where
  -- From the places of row `i` from `j` on.
  abbrev IsRowBound : (i : ℕ) → (from to : ℕ) → ℤ → Type 0
  IsRowBound i from to x =
      (j : ℕ)
      → from ≤ j
      → j < to
      → IsBound value score scores valid prefixes board n full 1023 (pos i) (pos j) [] x

  place-best :
      (i j : ℕ) (best : Best)
      → i < n
      → j < n
      → IsAchieved value (IsTraced value board n) best
      → Returns (find_best_word_aux score board n 1023 (pos i) (pos j) []) (λ b.
        IsAchieved value (IsTraced value board n) (better best b)
        × IsBound value score scores valid prefixes board n full 1023
            (pos i)
            (pos j)
            []
            (better best b).0)
  place-best i j best row col best' =
      Returns-mono _ _ (find_best_word_aux score board n 1023 (pos i) (pos j) [])
        (find_best_word_aux-best value score scores valid prefixes board n full 1023 (pos i) (pos j)
          [] (omega (arith, row), omega (arith, row)) (omega (arith, col), omega (arith, col)) tt)
        (λ b (achieved, bound). (
          better-IsAchieved value (IsTraced value board n) best b best' (
              IsAchieved-mono value _ (IsTraced value board n) b
                (λ w (v, e, trace, le).
                  subst (IsTraced value board n) (sym e) (pos i, pos j, trace, le))
                achieved),
          λ v trace le. omega (arith, bound v trace le, better-fst best b),
        ))

  search_row-IsBest :
      (rounds i j : ℕ) (best : Best)
      → i < n
      → j + rounds ≡ n
      → IsAchieved value (IsTraced value board n) best
      → Returns (search_row score board n rounds i j best) (λ b.
        IsAchieved value (IsTraced value board n) b × (best.0 ≤ℤ b.0) × IsRowBound i j n b.0)
  unfolding search_row
  search_row-IsBest zero i j best row all best' =
      (best', omega arith, λ j' le lt. absurd (omega (arith, le, lt, all)))
  search_row-IsBest (suc rounds) i j best row all best' =
      Returns-bind _ _ (find_best_word_aux score board n 1023 (pos i) (pos j) []) _
        (place-best i j best row (omega (arith, all)) best')
        (λ b (achieved, bound).
          Returns-mono _ _ (search_row score board n rounds i (j + 1) (better best b))
            (search_row-IsBest rounds i (j + 1) (better best b) row (omega (arith, all)) achieved)
            (λ b' (achieved', le, bounds). (
              achieved',
              omega (arith, le, better-fst best b),
              λ j' from to. elim (ℕ_discrete j j') [
                | yes e ↦
                    subst
                      (λ k.
                        IsBound value score scores valid prefixes board n full 1023 (pos i) (pos k)
                          [] b'.0)
                      e (λ v trace short. omega (arith, bound v trace short, le))
                | no other ↦ bounds j' (omega (arith, other, from)) to
              ],
            )))

  search_rows-IsBest :
      (rounds i : ℕ) (best : Best)
      → i + rounds ≡ n
      → IsAchieved value (IsTraced value board n) best
      → Returns (search_rows score board n rounds i best) (λ b.
        IsAchieved value (IsTraced value board n) b
        × (best.0 ≤ℤ b.0)
        × ((i' : ℕ) → i ≤ i' → i' < n → IsRowBound i' 0 n b.0))
  unfolding search_rows
  search_rows-IsBest zero i best all best' =
      (best', omega arith, λ i' le lt. absurd (omega (arith, le, lt, all)))
  search_rows-IsBest (suc rounds) i best all best' =
      Returns-bind _ _ (search_row score board n n i 0 best) _
        (search_row-IsBest n i 0 best (omega (arith, all)) (omega arith) best')
        (λ b (achieved, le, bound).
          Returns-mono _ _ (search_rows score board n rounds (i + 1) b)
            (search_rows-IsBest rounds (i + 1) b (omega (arith, all)) achieved)
            (λ b' (achieved', le', bounds). (
              achieved',
              omega (arith, le, le'),
              λ i' from to. elim (ℕ_discrete i i') [
                | yes e ↦
                    subst (λ k. IsRowBound k 0 n b'.0) e
                      (λ j from' to' v trace short.
                        omega (arith, bound j from' to' v trace short, le'))
                | no other ↦ bounds i' (omega (arith, other, from)) to
              ],
            )))

  -- Where `score` returns for each word of lower-case letters, no score is below -1, and no word behind a
  -- prefix of one letter or more with the score -1 has another score, the search returns on a board of n
  -- rows of n lower-case letters, and what it returns is the best word: one that a path over places that
  -- touch spells, of at most 1023 letters, with a score that is not -1 and that no such word exceeds;
  -- or none, where no such word has a score but -1.
  pub find_best_word-IsBest : Returns (find_best_word score board n) (IsBest value board n)
  unfolding find_best_word
  find_best_word-IsBest =
      Returns-bind _ _ (search_rows score board n n 0 (no_score, none)) _
        (search_rows-IsBest n 0 (no_score, none) (omega arith) refl)
        (λ (x, w) (achieved, le, bounds). best x w achieved bounds)
    where
      bounded :
          (x : ℤ)
          → ((i : ℕ) → 0 ≤ i → i < n → IsRowBound i 0 n x)
          → (w : List ℕ) → IsTraced value board n w
          → value w ≤ℤ x
      bounded x bounds w (pos r, pos c, trace, short) =
          (let (row, col) = Trace-IsInside board n (pos r) (pos c) w trace in
            bounds r (omega arith) (omega (arith, row)) c (omega arith) (omega (arith, col)) w trace
              short)
      bounded x bounds w (pos r, negsuc c, trace, short) =
          (let (row, col) = Trace-IsInside board n (pos r) (negsuc c) w trace in
            absurd (omega (arith, col)))
      bounded x bounds w (negsuc r, c, trace, short) =
          (let (row, col) = Trace-IsInside board n (negsuc r) c w trace in
            absurd (omega (arith, row)))

      best :
          (x : ℤ) (w : Option (List ℕ))
          → IsAchieved value (IsTraced value board n) (x, w)
          → ((i : ℕ) → 0 ≤ i → i < n → IsRowBound i 0 n x)
          → IsBest value board n w
      best x none achieved bounds = λ w traced. eq_of_parts (value w) no_score (
          omega
            (arith, bounded x bounds w traced, valid w, ap pos_part achieved, ap neg_part achieved))
      best x (some w) (e, valid', traced) bounds =
          (traced, valid', λ v traced'. subst (λ y. value v ≤ℤ y) e (bounded x bounds v traced'))

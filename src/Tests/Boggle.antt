-- ===== src/Tests/Boggle.antt =====
-- recursion_dp/boggle_board on small inputs.
use interview_questions.Prelude.{
  ◌==◌, if◌then◌else◌, ℕ, zero, suc, ◌-◌, ◌≡◌, refl, ◌≢◌, Bool, true, false, none, List, [], ◌∷◌,
  ◌++◌, arith,
}
use interview_questions.Prelude.Int.{pos, negsuc, ◌≤ℤ◌}
use interview_questions.Prelude.Run.{done, ◌>>=◌, Returns}
use interview_questions.Boggle.{
  Command, word_command, prefixes_command, remove_command, search_command, quit_command,
  no_such_word, the_score, Session, main,
}
use interview_questions.Boggle.Dictionary.{main-dictionary}
use interview_questions.Boggle.Words.{
  Trie, null, trie_node, new_node, index_of, delete_word_aux, delete_word, word_score,
}
use interview_questions.Boggle.Board.{
  next_letter, fill_row, fill_rows, generate_board_aux, letter_at, find_best_word,
}
use interview_questions.Boggle.Board.Trace.{IsFull}
use interview_questions.Boggle.Words.Lookup.{word_score-score_of}
use interview_questions.Boggle.Words.Scores.{score_of, IsLower}
use interview_questions.Boggle.Board.Search.{IsBest, find_best_word-IsBest}

-- The word `ab`, then `abc` with its prefixes: the score of `ab` is lost.
abbrev two_words : List Command
two_words =
    word_command 5 (97 ∷ 98 ∷ [])
    ∷ search_command (97 ∷ 98 ∷ [])
    ∷ prefixes_command 7 (97 ∷ 98 ∷ 99 ∷ [])
    ∷ search_command (97 ∷ 98 ∷ [])
    ∷ remove_command (97 ∷ 98 ∷ 99 ∷ [])
    ∷ search_command (97 ∷ 98 ∷ 99 ∷ [])
    ∷ quit_command
    ∷ []

abbrev empty_session : Session
empty_session = record { board = none; board_dim = 0; trie = new_node }

ab-IsLower : IsLower (97 ∷ 98 ∷ [])
ab-IsLower = (omega arith, omega arith, (omega arith, omega arith, tt))

abc-IsLower : IsLower (97 ∷ 98 ∷ 99 ∷ [])
abc-IsLower = (omega arith, omega arith, (omega arith, omega arith, (omega arith, omega arith, tt)))

main-dictionary_example :
    main (λ w. true) two_words empty_session []
    ≡ done (
        the_score (97 ∷ 98 ∷ []) (pos 5)
        ∷ the_score (97 ∷ 98 ∷ []) (pos 0)
        ∷ no_such_word (97 ∷ 98 ∷ 99 ∷ [])
        ∷ [])
main-dictionary_example =
    main-dictionary (λ w. true) (λ w. refl) two_words
      (
        omega arith,
        (ab-IsLower, omega arith),
        (
          (ab-IsLower, omega arith),
          (
            omega arith,
            (abc-IsLower, omega arith),
            (
              (ab-IsLower, omega arith),
              ((abc-IsLower, omega arith), ((abc-IsLower, omega arith), tt)),
            ),
          ),
        ),
      )

-- `a` has the score 1, and `ab` the score 5.
abbrev behind_ab : Trie
behind_ab = trie_node (pos 5) 0 (λ i. null)

abbrev behind_a : Trie
behind_a = trie_node (pos 1) 1 (λ i. if i == 1 then behind_ab else null)

abbrev two_scores : Trie
two_scores = trie_node (negsuc 0) 1 (λ i. if i == 0 then behind_a else null)

-- No score is below -1, and nothing is known behind an unknown word.
record IsClosed (t : Trie) : Type 0 where
  valid : (w : List ℕ) → negsuc 0 ≤ℤ score_of t w
  closed : (v w : List ℕ) → score_of t v ≡ negsuc 0 → score_of t (v ++ w) ≡ negsuc 0

null-IsClosed : IsClosed null
null-IsClosed = record { valid = λ w. omega arith; closed = λ v w h. refl }

node-IsClosed :
    (n known : ℕ) (f : ℕ → Trie) → ((i : ℕ) → IsClosed (f i)) → IsClosed (trie_node (pos known) n f)
node-IsClosed n known f below = record { valid = λ w. valid w; closed = λ v w h. closed v w h }
  where
    valid : (w : List ℕ) → negsuc 0 ≤ℤ score_of (trie_node (pos known) n f) w
    valid [] = omega arith
    valid (c ∷ w) = (below (c - 97)).valid w

    closed :
        (v w : List ℕ)
        → score_of (trie_node (pos known) n f) v ≡ negsuc 0
        → score_of (trie_node (pos known) n f) (v ++ w) ≡ negsuc 0
    closed [] w h = absurd cc
    closed (c ∷ v) w h = (below (c - 97)).closed v w h

either-IsClosed : (b : Bool) (t : Trie) → IsClosed t → IsClosed (if b then t else null)
either-IsClosed true t closed = closed
either-IsClosed false t closed = null-IsClosed

first-IsClosed : (i : ℕ) → IsClosed (if i == 0 then behind_a else null)
first-IsClosed i = either-IsClosed (i == 0) behind_a (
    node-IsClosed 1 1 _
      (λ j. either-IsClosed (j == 1) behind_ab (node-IsClosed 0 5 _ (λ k. null-IsClosed))))

scores-valid : (w : List ℕ) → negsuc 0 ≤ℤ score_of two_scores w
scores-valid [] = omega arith
scores-valid (c ∷ w) = (first-IsClosed (c - 97)).valid w

scores-prefix :
    (v w : List ℕ)
    → v ≢ []
    → score_of two_scores v ≡ negsuc 0
    → score_of two_scores (v ++ w) ≡ negsuc 0
scores-prefix [] w some_letter h = absurd (some_letter refl)
scores-prefix (c ∷ v) w some_letter h = (first-IsClosed (c - 97)).closed v w h

abbrev square : List (List ℕ)
square = (97 ∷ 98 ∷ []) ∷ (99 ∷ 100 ∷ []) ∷ []

square-IsFull : IsFull square 2
unfolding letter_at
square-IsFull zero zero le le' = (97, omega arith, omega arith, refl)
square-IsFull zero (suc zero) le le' = (98, omega arith, omega arith, refl)
square-IsFull (suc zero) zero le le' = (99, omega arith, omega arith, refl)
square-IsFull (suc zero) (suc zero) le le' = (100, omega arith, omega arith, refl)
square-IsFull zero (suc (suc j)) le le' = absurd (omega (arith, le'))
square-IsFull (suc zero) (suc (suc j)) le le' = absurd (omega (arith, le'))
square-IsFull (suc (suc i)) j le le' = absurd (omega (arith, le))

find_best_word-IsBest_example :
    Returns
      (find_best_word (word_score two_scores) square 2)
      (IsBest (score_of two_scores) square 2)
find_best_word-IsBest_example =
    find_best_word-IsBest (score_of two_scores) (word_score two_scores)
      (λ w lower. word_score-score_of two_scores w refl lower) scores-valid scores-prefix square 2
      square-IsFull

abbrev children_left : Trie → ℕ
children_left null = 0
children_left (trie_node s n f) = n

-- Nothing is freed: the node of the removed word stays.
keeps_node :
    (delete_word
        (trie_node (negsuc 0) 1 (λ i. if i == 0 then trie_node (pos 5) 0 (λ j. null) else null))
        (97 ∷ [])
      >>= λ t. done (children_left t))
    ≡ done 1
unfolding delete_word delete_word_aux index_of
keeps_node = refl

-- A letter is used three times on a board of two rows.
uses_letter_thrice :
    generate_board_aux 2 (97 ∷ 97 ∷ 97 ∷ 98 ∷ []) ≡ done ((97 ∷ 97 ∷ []) ∷ (97 ∷ 98 ∷ []) ∷ [])
unfolding generate_board_aux fill_rows fill_row next_letter index_of
uses_letter_thrice = refl

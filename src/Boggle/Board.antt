-- ===== src/Boggle/Board.antt =====
-- recursion_dp/boggle_board/solution.c: the board, and the search for the word with the best score.
-- `word_buff` up to `buff_i` is the list of the characters there: the calls below write behind it only.
pub mod Trace
pub mod Better
pub mod Calls
pub mod Best
pub mod Search
use interview_questions.Prelude.{
  ltb, if◌then◌else◌, get_elem?, set, replicate, ℕ, zero, suc, ◌+◌, Bool, true, false, ◌||◌, Option,
  none, some, List, [], ◌∷◌, ◌++◌,
}
use interview_questions.Prelude.Int.{ℤ, pos, negsuc, ◌+ℤ◌, ltb_ℤ, eqb_ℤ}
use interview_questions.Prelude.Run.{Run, done, fault, no_fuel, ◌>>=◌, ◌>>◌, present}
use interview_questions.Boggle.Words.{no_score, index_of}

-- `while (letters_used[...] > n) letter = letter_gen()`, with the letters that `letter_gen` gives.
unfoldable pub next_letter : (n : ℕ) → (letters_used letters : List ℕ) → Run (ℕ × List ℕ)
next_letter n letters_used [] = no_fuel
next_letter n letters_used (letter ∷ letters) = do
  index ← index_of letter
  used ← present (get_elem? letters_used index)
  elim (ltb n used) [ true ↦ next_letter n letters_used letters | false ↦ done (letter, letters) ]

-- The two `for`s over `n` rows of `n`, as one over the places in a row, then over the rows.
unfoldable pub fill_row :
    (rounds n : ℕ) → (letters_used letters row : List ℕ) → Run (List ℕ × List ℕ × List ℕ)
fill_row zero n letters_used letters row = done (row, letters_used, letters)
fill_row (suc rounds) n letters_used letters row = do
  (letter, rest) ← next_letter n letters_used letters
  index ← index_of letter
  used ← present (get_elem? letters_used index)
  fill_row rounds n (set letters_used index (used + 1)) rest (row ++ letter ∷ [])

unfoldable pub fill_rows :
    (rounds n : ℕ) → (letters_used letters : List ℕ) → List (List ℕ) → Run (List (List ℕ))
fill_rows zero n letters_used letters board = done board
fill_rows (suc rounds) n letters_used letters board = do
  (row, used, rest) ← fill_row n n letters_used letters []
  fill_rows rounds n used rest (board ++ row ∷ [])

unfoldable pub generate_board_aux : (n : ℕ) → (letters : List ℕ) → Run (List (List ℕ))
generate_board_aux n letters = fill_rows n n (replicate 26 0) letters []

-- `row < 0 || row == board_dims || col < 0 || col == board_dims`.
abbrev pub is_outside : (board_dims : ℕ) → (row col : ℤ) → Bool
is_outside board_dims row col =
    ltb_ℤ row (pos 0)
    || eqb_ℤ row (pos board_dims)
    || ltb_ℤ col (pos 0)
    || eqb_ℤ col (pos board_dims)

-- `board[row][col]`, behind the test.
unfoldable pub letter_at : List (List ℕ) → (row col : ℤ) → Run ℕ
letter_at board (pos row) (pos col) =
    present (get_elem? board row) >>= λ cells. present (get_elem? cells col)
letter_at board row col = fault

-- The pairs `(i, j)` of the two `for`s.
abbrev pub steps : List (ℤ × ℤ)
steps =
    (negsuc 0, negsuc 0)
    ∷ (negsuc 0, pos 0)
    ∷ (negsuc 0, pos 1)
    ∷ (pos 0, negsuc 0)
    ∷ (pos 0, pos 1)
    ∷ (pos 1, negsuc 0)
    ∷ (pos 1, pos 0)
    ∷ (pos 1, pos 1)
    ∷ []

-- `*best_score` and the word that is returned.
abbrev pub Best : Type 0
Best = ℤ × Option (List ℕ)

-- `if (score > best_so_far)`.
abbrev pub better : Best → Best → Best
better (best_so_far, best_word) (score, w) =
    if ltb_ℤ best_so_far score then (score, w) else (best_so_far, best_word)

unfoldable pub try_steps : (ℤ → ℤ → Run Best) → List (ℤ × ℤ) → (row col : ℤ) → Best → Run Best
try_steps search [] row col best = done best
try_steps search ((i, j) ∷ ds) row col best =
    search (row +ℤ i) (col +ℤ j) >>= λ b. try_steps search ds row col (better best b)

module _ (score : List ℕ → Run ℤ) (board : List (List ℕ)) (board_dims : ℕ) where
  -- `left` is `buff_sz-1 - buff_i`.
  unfoldable pub find_best_word_aux : (left : ℕ) → (row col : ℤ) → (word : List ℕ) → Run Best
  find_best_word_aux zero row col word = elim (is_outside board_dims row col) [
    | true ↦ done (no_score, none)
    | false ↦ score word >>= λ s. done (s, if eqb_ℤ s no_score then none else some word)
  ]
  find_best_word_aux (suc left) row col word = elim (is_outside board_dims row col) [
    | true ↦ done (no_score, none)
    | false ↦ do
      letter ← letter_at board row col
      s ← score (word ++ letter ∷ [])
      elim (eqb_ℤ s no_score) [
        | true ↦ done (no_score, none)
        | false ↦
            try_steps (λ r c. find_best_word_aux left r c (word ++ letter ∷ [])) steps row col
              (s, some (word ++ letter ∷ []))
      ]
  ]

  -- The two `for`s of `find_best_word`; `word_buffer` has 1024 places.
  unfoldable pub search_row : (rounds i j : ℕ) → Best → Run Best
  search_row zero i j best = done best
  search_row (suc rounds) i j best = find_best_word_aux 1023 (pos i) (pos j) [] >>= λ b.
      search_row rounds i (j + 1) (better best b)

  unfoldable pub search_rows : (rounds i : ℕ) → Best → Run Best
  search_rows zero i best = done best
  search_rows (suc rounds) i best =
      search_row board_dims i 0 best >>= λ b. search_rows rounds (i + 1) b

  unfoldable pub find_best_word : Run (Option (List ℕ))
  find_best_word = search_rows board_dims 0 (no_score, none) >>= λ b. done b.1

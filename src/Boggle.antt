-- ===== src/Boggle.antt =====
-- recursion_dp/boggle_board/solution.c: the command loop. `letters` are those that `rand` or `scanf`
-- gives, and `has_memory` says whether `malloc` succeeds.
pub mod Words
pub mod Board
pub mod Expected
pub mod Dictionary
use interview_questions.Prelude.{
  ltb, if◌then◌else◌, length, ℕ, ◌-◌, ◌%◌, ◌^◌, Bool, Option, none, some, List, [], ◌∷◌, ◌++◌,
}
use interview_questions.Prelude.Int.{ℤ, pos, negsuc, eqb_ℤ}
use interview_questions.Prelude.Run.{Run, done, fault, ◌>>=◌, ◌>>◌}
use interview_questions.Boggle.Words.{
  Trie, no_score, insert_word, delete_word, word_score, print_words,
}
use interview_questions.Boggle.Board.{generate_board_aux, find_best_word}

pub data Command : Type 0 where
  inject_command : (board_dim : ℕ) (letters : List ℕ) → Command
  print_command : Command
  generate_command : (board_dim : ℕ) (letters : List ℕ) → Command
  word_command : (word_score : ℕ) (word : List ℕ) → Command
  prefixes_command : (word_score : ℕ) (word : List ℕ) → Command
  remove_command : (word : List ℕ) → Command
  search_command : (word : List ℕ) → Command
  dump_command : Command
  best_command : Command
  quit_command : Command
  unrecognized : Command

pub data Reply : Type 0 where
  no_board : Reply
  the_board : List (List ℕ) → Reply
  no_such_word : List ℕ → Reply
  the_score : List ℕ → ℤ → Reply
  known_words : List (List ℕ × ℤ) → Reply
  no_words : Reply
  best_word : List ℕ → Reply
  not_understood : Reply

pub record Session : Type 0 where
  pub board : Option (List (List ℕ))
  pub board_dim : ℕ
  pub trie : Trie

-- `find_best_word` with no board reads none where `board_dim` is 0.
abbrev pub cells : Option (List (List ℕ)) → List (List ℕ)
cells none = []
cells (some board) = board

abbrev pub score_reply : List ℕ → ℤ → Reply
score_reply word s = if eqb_ℤ s no_score then no_such_word word else the_score word s

abbrev pub best_reply : Option (List ℕ) → Reply
best_reply none = no_words
best_reply (some w) = best_word w

abbrev pub board_reply : Option (List (List ℕ)) → Reply
board_reply none = no_board
board_reply (some board) = the_board board

abbrev pub with_trie : Session → Trie → Session
with_trie s t = record s { trie = t }

-- `scanf` with `%s` writes the characters and a NUL to `word_buff`, which has 512 places.
unfoldable pub scan_word : List ℕ → Run (List ℕ)
scan_word word = if ltb (length word) 512 then done word else fault

-- A `size_t` given to a parameter of type `int`: the lowest 32 bits, as gcc converts it.
unfoldable pub to_int : ℕ → ℤ
to_int n = if ltb (n % 2 ^ 32) (2 ^ 31) then pos (n % 2 ^ 32) else negsuc (2 ^ 32 - 1 - n % 2 ^ 32)

module _ (has_memory : List ℕ → Bool) where
  -- The `for` of `A`: the prefixes of one character or more, the shortest first.
  unfoldable pub insert_prefixes : Trie → (before after : List ℕ) → Run Trie
  insert_prefixes trie before [] = done trie
  insert_prefixes trie before (c ∷ after) =
      insert_word has_memory (pos 0) trie before >>= λ t. insert_prefixes t (before ++ c ∷ []) after

  unfoldable pub insert_all : ℤ → Trie → (word : List ℕ) → Run Trie
  insert_all word_score trie [] = insert_word has_memory word_score trie []
  insert_all word_score trie (c ∷ word) =
      insert_prefixes trie (c ∷ []) word >>= λ t. insert_word has_memory word_score t (c ∷ word)

  unfoldable pub main : List Command → Session → List Reply → Run (List Reply)
  main [] s printed = done printed
  main (inject_command dim letters ∷ commands) s printed = generate_board_aux dim letters >>= λ b.
      main commands (record s { board = some b; board_dim = dim }) printed
  main (generate_command dim letters ∷ commands) s printed = generate_board_aux dim letters >>= λ b.
      main commands (record s { board = some b; board_dim = dim }) printed
  main (print_command ∷ commands) s printed = main commands s (printed ++ board_reply s.board ∷ [])
  main (word_command score word ∷ commands) s printed = do
    word_buff ← scan_word word
    t ← insert_word has_memory (to_int score) s.trie word_buff
    main commands (with_trie s t) printed
  main (prefixes_command score word ∷ commands) s printed = do
    word_buff ← scan_word word
    t ← insert_all (to_int score) s.trie word_buff
    main commands (with_trie s t) printed
  main (remove_command word ∷ commands) s printed = do
    word_buff ← scan_word word
    t ← delete_word s.trie word_buff
    main commands (with_trie s t) printed
  main (search_command word ∷ commands) s printed = do
    word_buff ← scan_word word
    n ← word_score s.trie word_buff
    main commands s (printed ++ score_reply word_buff n ∷ [])
  main (dump_command ∷ commands) s printed =
      print_words s.trie [] >>= λ words. main commands s (printed ++ known_words words ∷ [])
  main (best_command ∷ commands) s printed =
      find_best_word (word_score s.trie) (cells s.board) s.board_dim >>= λ w.
      main commands s (printed ++ best_reply w ∷ [])
  main (quit_command ∷ commands) s printed = done printed
  main (unrecognized ∷ commands) s printed = main commands s (printed ++ not_understood ∷ [])

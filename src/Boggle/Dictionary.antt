-- ===== src/Boggle/Dictionary.antt =====
-- recursion_dp/boggle_board/solution.c: the commands on the words, against a function from words to
-- scores.
use interview_questions.Prelude.Run.{
  Run, done, ◌>>=◌, Returns, Returns→done, Returns-bind, Returns-mono,
}
use interview_questions.Prelude.{
  if◌then◌else◌, lt→ltb, length, ℕ, ◌%◌, ◌^◌, ◌<◌, ◌≡◌, refl, ap, ◌∙◌, Bool, true, false, none,
  List, [], ◌∷◌, ◌++◌, arith,
}
use interview_questions.Prelude.Int.{ℤ, pos, negsuc}
use interview_questions.Boggle.{
  Command, inject_command, print_command, generate_command, word_command, prefixes_command,
  remove_command, search_command, dump_command, best_command, quit_command, unrecognized, Reply,
  no_board, not_understood, Session, insert_prefixes, insert_all, score_reply, board_reply,
  with_trie, main, scan_word, to_int,
}
use interview_questions.Boggle.Words.{
  Trie, no_score, new_node, is_null, insert_word, delete_word, word_score,
}
use interview_questions.Boggle.Words.Count.{IsCounted, new_node-IsCounted}
use interview_questions.Boggle.Words.Scores.{
  score_of, IsLower, IsLower-append, same_word, Scored, new_node-scores, insert_word-Scored,
}
use interview_questions.Boggle.Words.Lookup.{word_score-score_of, delete_word-Scored}
use interview_questions.Boggle.Expected.{
  Scores, set_score, set_prefixes, dictionary, visited, visited-set_prefixes, set_prefixes-empty,
  IsOnWords, answer, answer-score_reply,
}

record Rep (t : Trie) (g : Scores) : Type 0 where
  node : is_null t ≡ false
  counted : IsCounted t
  scores : (v : List ℕ) → IsLower v → score_of t v ≡ g v

Rep-set :
    (t t' : Trie) (g : Scores) (w : List ℕ) (s : ℤ)
    → Rep t g
    → Scored t t' w s
    → Rep t' (set_score g w s)
Rep-set t t' g w s rep scored = record {
  node = scored.node;
  counted = scored.counted;
  scores = λ v lower.
      scored.scores v lower ∙ ap (λ x. if same_word v w then s else x) (rep.scores v lower);
}

Rep-new_node : Rep new_node (λ w. no_score)
Rep-new_node = record {
  node = refl;
  counted = new_node-IsCounted;
  scores = λ v lower. new_node-scores v;
}

to_int-pos : (n : ℕ) → n < 2 ^ 31 → to_int n ≡ pos n
unfolding to_int
to_int-pos n lt =
    (let same : n % 2 ^ 32 ≡ n = omega (arith, lt) in rw same (rw (lt→ltb n (2 ^ 31) lt) refl))

scanned :
    {A : Type 0} (w : List ℕ) → length w < 512 → (k : List ℕ → Run A) → (scan_word w >>= k) ≡ k w
unfolding scan_word
scanned w lt k = rw (lt→ltb (length w) 512 lt) refl

module _ (has_memory : List ℕ → Bool) (some_memory : (w : List ℕ) → has_memory w ≡ true) where
  insert_prefixes-Rep :
      (before after : List ℕ) (t : Trie) (g : Scores)
      → Rep t g
      → IsLower before
      → IsLower after
      → Returns
          (insert_prefixes has_memory t before after)
          (λ t'. Rep t' (λ v. if visited before after v then pos 0 else g v))
  unfolding insert_prefixes
  insert_prefixes-Rep before [] t g rep low low' = rep
  insert_prefixes-Rep before (c ∷ after) t g rep low low' =
      Returns-bind _ _ (insert_word has_memory (pos 0) t before) _
        (insert_word-Scored has_memory some_memory (pos 0) t before rep.node rep.counted low)
        (λ t' scored.
          Returns-mono _ _ (insert_prefixes has_memory t' (before ++ c ∷ []) after)
            (insert_prefixes-Rep (before ++ c ∷ []) after t' (set_score g before (pos 0))
              (Rep-set t t' g before (pos 0) rep scored) (IsLower-append before c low low'.0 low'.1)
              low'.2)
            (λ u rep'. record {
              node = rep'.node;
              counted = rep'.counted;
              scores = λ v lower. rep'.scores v lower ∙ either v;
            }))
    where
      either :
          (v : List ℕ)
          → (if visited (before ++ c ∷ []) after v then pos 0 else set_score g before (pos 0) v)
            ≡ (if visited before (c ∷ after) v then pos 0 else g v)
      either v = ground arith

  insert_all-Rep :
      (s : ℤ) (t : Trie) (w : List ℕ) (g : Scores)
      → Rep t g
      → IsLower w
      → Returns (insert_all has_memory s t w) (λ t'. Rep t' (set_score (set_prefixes g w) w s))
  unfolding insert_all
  insert_all-Rep s t [] g rep low =
      Returns-mono _ _ (insert_word has_memory s t [])
        (insert_word-Scored has_memory some_memory s t [] rep.node rep.counted low)
        (λ t' scored.
          Rep-set t t' (set_prefixes g []) [] s
            (record {
              node = rep.node;
              counted = rep.counted;
              scores = λ v lower. rep.scores v lower ∙ set_prefixes-empty g v;
            })
            scored)
  insert_all-Rep s t (c ∷ w) g rep low =
      Returns-bind _ _ (insert_prefixes has_memory t (c ∷ []) w) _
        (insert_prefixes-Rep (c ∷ []) w t g rep (low.0, low.1, tt) low.2)
        (λ t' rep'.
          Returns-mono _ _ (insert_word has_memory s t' (c ∷ w))
            (insert_word-Scored has_memory some_memory s t' (c ∷ w) rep'.node rep'.counted low)
            (λ u scored.
              Rep-set t' u (set_prefixes g (c ∷ w)) (c ∷ w) s
                (record {
                  node = rep'.node;
                  counted = rep'.counted;
                  scores = λ v lower.
                      rep'.scores v lower
                      ∙ ap (λ b. if b then pos 0 else g v) (visited-set_prefixes c w v);
                })
                scored))

  main-run :
      (commands : List Command) (s : Session) (g : Scores) (printed : List Reply)
      → s.board ≡ none
      → Rep s.trie g
      → IsOnWords commands
      → main has_memory commands s printed ≡ done (dictionary commands g printed)
  unfolding main
  main-run [] s g printed no_b rep on = refl
  main-run (inject_command dim letters ∷ commands) s g printed no_b rep on = absurd on
  main-run (generate_command dim letters ∷ commands) s g printed no_b rep on = absurd on
  main-run (dump_command ∷ commands) s g printed no_b rep on = absurd on
  main-run (best_command ∷ commands) s g printed no_b rep on = absurd on
  main-run (quit_command ∷ commands) s g printed no_b rep on = refl
  main-run (unrecognized ∷ commands) s g printed no_b rep on =
      main-run commands s g (printed ++ not_understood ∷ []) no_b rep on
  main-run (print_command ∷ commands) s g printed no_b rep on =
      ap (λ b. main has_memory commands s (printed ++ board_reply b ∷ [])) no_b
      ∙ main-run commands s g (printed ++ no_board ∷ []) no_b rep on
  main-run (word_command score w ∷ commands) s g printed no_b rep on =
      (let (t, eq, scored) = Returns→done _ (insert_word has_memory (pos score) s.trie w) (
          insert_word-Scored has_memory some_memory (pos score) s.trie w rep.node rep.counted
            on.1.0) in
        scanned w on.1.1 (λ v. insert_word has_memory (to_int score) s.trie v >>= λ t.
        main has_memory commands (with_trie s t) printed)
        ∙ ap
            (λ n. insert_word has_memory n s.trie w >>= λ t.
              main has_memory commands (with_trie s t) printed)
            (to_int-pos score on.0)
        ∙ ap (λ r. r >>= λ t. main has_memory commands (with_trie s t) printed) eq
        ∙ main-run commands (with_trie s t) (set_score g w (pos score)) printed no_b
            (Rep-set s.trie t g w (pos score) rep scored) on.2)
  main-run (prefixes_command score w ∷ commands) s g printed no_b rep on =
      (let (t, eq, rep') =
          Returns→done _ (insert_all has_memory (pos score) s.trie w)
            (insert_all-Rep (pos score) s.trie w g rep on.1.0) in
        scanned w on.1.1 (λ v. insert_all has_memory (to_int score) s.trie v >>= λ t.
        main has_memory commands (with_trie s t) printed)
        ∙ ap
            (λ n. insert_all has_memory n s.trie w >>= λ t.
              main has_memory commands (with_trie s t) printed)
            (to_int-pos score on.0)
        ∙ ap (λ r. r >>= λ t. main has_memory commands (with_trie s t) printed) eq
        ∙ main-run commands (with_trie s t) (set_score (set_prefixes g w) w (pos score)) printed
            no_b rep' on.2)
  main-run (remove_command w ∷ commands) s g printed no_b rep on =
      (let (t, eq, scored) =
          Returns→done _ (delete_word s.trie w)
            (delete_word-Scored s.trie w rep.node rep.counted on.0.0) in
        scanned w on.0.1
          (λ v. delete_word s.trie v >>= λ t. main has_memory commands (with_trie s t) printed)
        ∙ ap (λ r. r >>= λ t. main has_memory commands (with_trie s t) printed) eq
        ∙ main-run commands (with_trie s t) (set_score g w (negsuc 0)) printed no_b
            (Rep-set s.trie t g w (negsuc 0) rep scored) on.1)
  main-run (search_command w ∷ commands) s g printed no_b rep on =
      scanned w on.0.1 (λ v.
        word_score s.trie v >>= λ n. main has_memory commands s (printed ++ score_reply v n ∷ []))
      ∙ ap (λ r. r >>= λ n. main has_memory commands s (printed ++ score_reply w n ∷ []))
          (word_score-score_of s.trie w rep.node on.0.0)
      ∙ ap (λ n. main has_memory commands s (printed ++ score_reply w n ∷ [])) (rep.scores w on.0.0)
      ∙ ap (λ r. main has_memory commands s (printed ++ r ∷ [])) (answer-score_reply w (g w))
      ∙ main-run commands s g (printed ++ answer w (g w) ∷ []) no_b rep on.1

  -- Of commands that insert, remove and look up words of at most 511 lower-case letters, with scores below
  -- 2^31, that ask for the board or that are not understood, the session with the trie, from the
  -- empty one and without a board, prints what the dictionary prints: a function from words to scores, in
  -- which an insertion or a removal changes the score of one word, and an insertion of prefixes
  -- also gives the score 0 to each shorter prefix that is not empty, if memory never runs out.
  -- No such run faults.
  pub main-dictionary :
      (commands : List Command)
      → IsOnWords commands
      → main has_memory commands (record { board = none; board_dim = 0; trie = new_node }) []
        ≡ done (dictionary commands (λ w. negsuc 0) [])
  main-dictionary commands on =
      main-run commands (record { board = none; board_dim = 0; trie = new_node }) (λ w. negsuc 0) []
        refl Rep-new_node on

-- ===== src/Boggle/Expected.antt =====
-- recursion_dp/boggle_board/solution.c: what the commands on words are to print.
use interview_questions.Prelude.{
  ◌==◌, if◌then◌else◌, length, ℕ, zero, suc, ◌^◌, ◌<◌, ◌≡◌, refl, ap, ◌∙◌, Bool, true, false, ◌&&◌,
  ◌||◌, not, List, [], ◌∷◌, ◌++◌, arith,
}
use interview_questions.Prelude.Int.{ℤ, pos, negsuc}
use interview_questions.Boggle.{
  Command, inject_command, print_command, generate_command, word_command, prefixes_command,
  remove_command, search_command, dump_command, best_command, quit_command, unrecognized, Reply,
  no_board, no_such_word, the_score, not_understood, score_reply,
}
use interview_questions.Boggle.Words.Scores.{IsLower, same_word}

abbrev pub Scores : Type 0
Scores = List ℕ → ℤ

abbrev pub set_score : Scores → List ℕ → ℤ → Scores
set_score g w s v = if same_word v w then s else g v

abbrev is_prefix : List ℕ → List ℕ → Bool
is_prefix v [] = false
is_prefix [] (c ∷ w) = true
is_prefix (d ∷ v) (c ∷ w) = (d == c) && is_prefix v w

abbrev is_empty_word : List ℕ → Bool
is_empty_word [] = true
is_empty_word (c ∷ w) = false

-- The prefixes that are shorter and not empty get the score 0.
abbrev pub set_prefixes : Scores → List ℕ → Scores
set_prefixes g w v = if not (is_empty_word v) && is_prefix v w then pos 0 else g v

abbrev pub answer : List ℕ → ℤ → Reply
answer w (pos n) = the_score w (pos n)
answer w (negsuc zero) = no_such_word w
answer w (negsuc (suc n)) = the_score w (negsuc (suc n))

-- There is no board, and the commands that are not described end the list.
abbrev pub dictionary : List Command → Scores → List Reply → List Reply
dictionary [] g printed = printed
dictionary (inject_command dim letters ∷ commands) g printed = printed
dictionary (generate_command dim letters ∷ commands) g printed = printed
dictionary (print_command ∷ commands) g printed = dictionary commands g (printed ++ no_board ∷ [])
dictionary (word_command s w ∷ commands) g printed =
    dictionary commands (set_score g w (pos s)) printed
dictionary (prefixes_command s w ∷ commands) g printed =
    dictionary commands (set_score (set_prefixes g w) w (pos s)) printed
dictionary (remove_command w ∷ commands) g printed =
    dictionary commands (set_score g w (negsuc 0)) printed
dictionary (search_command w ∷ commands) g printed =
    dictionary commands g (printed ++ answer w (g w) ∷ [])
dictionary (dump_command ∷ commands) g printed = printed
dictionary (best_command ∷ commands) g printed = printed
dictionary (quit_command ∷ commands) g printed = printed
dictionary (unrecognized ∷ commands) g printed =
    dictionary commands g (printed ++ not_understood ∷ [])

pub answer-score_reply : (w : List ℕ) (s : ℤ) → score_reply w s ≡ answer w s
answer-score_reply w (pos n) = ground arith
answer-score_reply w (negsuc zero) = refl
answer-score_reply w (negsuc (suc n)) = ground arith

-- A word of lower-case letters that fits the buffer.
abbrev pub IsWord : List ℕ → Type 0
IsWord w = IsLower w × (length w < 512)

-- The commands on one word, with a score that is an `int`, and those that change nothing.
abbrev pub IsOnWords : List Command → Type 0
IsOnWords [] = Unit {0}
IsOnWords (inject_command dim letters ∷ commands) = ⊥
IsOnWords (generate_command dim letters ∷ commands) = ⊥
IsOnWords (print_command ∷ commands) = IsOnWords commands
IsOnWords (word_command s w ∷ commands) = (s < 2 ^ 31) × IsWord w × IsOnWords commands
IsOnWords (prefixes_command s w ∷ commands) = (s < 2 ^ 31) × IsWord w × IsOnWords commands
IsOnWords (remove_command w ∷ commands) = IsWord w × IsOnWords commands
IsOnWords (search_command w ∷ commands) = IsWord w × IsOnWords commands
IsOnWords (dump_command ∷ commands) = ⊥
IsOnWords (best_command ∷ commands) = ⊥
IsOnWords (quit_command ∷ commands) = IsOnWords commands
IsOnWords (unrecognized ∷ commands) = IsOnWords commands

-- The words that `insert_prefixes` inserts.
abbrev pub visited : (before after v : List ℕ) → Bool
visited before [] v = false
visited before (c ∷ after) v = same_word v before || visited (before ++ c ∷ []) after v

visited-empty : (c : ℕ) (before after : List ℕ) → visited (c ∷ before) after [] ≡ false
visited-empty c before [] = refl
visited-empty c before (d ∷ after) = visited-empty c (before ++ d ∷ []) after

visited-first :
    (c : ℕ) (before after : List ℕ) (d : ℕ) (v : List ℕ)
    → visited (c ∷ before) after (d ∷ v) ≡ ((d == c) && visited before after v)
visited-first c before [] d v = ground arith
visited-first c before (e ∷ after) d v =
    ground (arith, visited-first c (before ++ e ∷ []) after d v)

visited-is_prefix : (w v : List ℕ) → visited [] w v ≡ is_prefix v w
visited-is_prefix [] v = refl
visited-is_prefix (c ∷ w) [] = refl
visited-is_prefix (c ∷ w) (d ∷ v) =
    visited-first c [] w d v ∙ ap (λ b. (d == c) && b) (visited-is_prefix w v)

pub visited-set_prefixes :
    (c : ℕ) (w v : List ℕ) → visited (c ∷ []) w v ≡ (not (is_empty_word v) && is_prefix v (c ∷ w))
visited-set_prefixes c w [] = visited-empty c [] w
visited-set_prefixes c w (d ∷ v) =
    visited-first c [] w d v ∙ ap (λ b. (d == c) && b) (visited-is_prefix w v)

pub set_prefixes-empty : (g : Scores) (v : List ℕ) → g v ≡ set_prefixes g [] v
set_prefixes-empty g [] = refl
set_prefixes-empty g (c ∷ v) = refl

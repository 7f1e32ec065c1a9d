-- ===== src/Tests/LruCache.antt =====
-- misc/lru_cache on small sessions.
use interview_questions.Prelude.{◌≡◌, refl, List, [], ◌∷◌, arith}
use interview_questions.Prelude.Int.{pos}
use interview_questions.Prelude.Run.{done, ◌>>=◌, Returns}
use interview_questions.LruCache.{
  Command, insert_command, get_command, quit_command, inserted, found, not_cached, new_cache,
  line_of, insert, get, main,
}
use interview_questions.LruCache.Line.{
  find_by_key, swap, sift_up, pick, smallest_of, sift_down, extract_min, insert_entry, increase_key,
  insert_line, get_line,
}
use interview_questions.LruCache.Session.{lru}
use interview_questions.LruCache.Session.Replies.{Served, main-lru}

-- One line of two ways: the third key takes the place of the second, which was used less recently.
abbrev commands : List Command
commands =
    insert_command 1 (pos 10)
    ∷ insert_command 3 (pos 30)
    ∷ get_command 1
    ∷ insert_command 5 (pos 50)
    ∷ get_command 3
    ∷ get_command 1
    ∷ quit_command
    ∷ []

main-lru_example :
    Returns
      (new_cache 2 2 >>= λ cache. main commands cache [])
      (Served 2 (lru 2 1 commands (λ place. []) []))
main-lru_example =
    main-lru 2 2 commands (omega arith) (omega arith) (omega arith) (refl, (refl, (refl, tt)))

replies_of_commands :
    lru 2 1 commands (λ place. []) []
    ≡ inserted 1 (pos 10)
      ∷ inserted 3 (pos 30)
      ∷ found 1 (pos 10)
      ∷ inserted 5 (pos 50)
      ∷ not_cached 3
      ∷ found 1 (pos 10)
      ∷ []
replies_of_commands = refl

abbrev twice : List Command
twice = insert_command 1 (pos 10) ∷ insert_command 1 (pos 20) ∷ get_command 1 ∷ []

-- A key that is inserted again keeps its old value for `get`.
stale_value :
    (new_cache 2 2 >>= λ cache. main twice cache [] >>= λ r. done r.1)
    ≡ done (inserted 1 (pos 10) ∷ inserted 1 (pos 20) ∷ found 1 (pos 10) ∷ [])
unfolding new_cache main insert get line_of insert_line find_by_key insert_entry increase_key
    sift_up sift_down pick smallest_of swap get_line extract_min
stale_value = refl

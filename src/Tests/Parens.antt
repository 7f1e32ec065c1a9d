-- ===== src/Tests/Parens.antt =====
-- recursion_dp/redundant_parens and stacks_queues/array_as_3stacks on small inputs.
use interview_questions.Prelude.{◌≡◌, refl, true, none, some, [], ◌∷◌, arith}
use interview_questions.Prelude.Int.{pos, negsuc}
use interview_questions.Prelude.Run.{done, ◌>>=◌}
use interview_questions.Parens.{can_drop, higher_prio}
use interview_questions.Parens.Needed.{evaluate_behind, operate, can_drop_lem}
use interview_questions.Stacks.ThreeStacks.{Stacks, StackNode, push, pop}
use interview_questions.Stacks.ThreeStacks.RoundTrip.{push-pop}

-- 4 - 5 + (3 - 2) + 6: the operators are 0 and 1, and the one behind is 0.
dropped : can_drop (some 0) (some 0) 1 ≡ true
unfolding can_drop higher_prio
dropped = refl

can_drop_lem_example :
    evaluate_behind (some 0) (pos 4) (negsuc 4) (operate 1 (pos 3) (pos 2)) ((0, pos 6) ∷ [])
    ≡ evaluate_behind (some 0) (pos 4) (negsuc 4) (pos 3) ((1, pos 2) ∷ (0, pos 6) ∷ [])
can_drop_lem_example =
    can_drop_lem (some 0) 1 (pos 4) (negsuc 4) (pos 3) (pos 2) ((0, pos 6) ∷ []) (omega arith)
      (λ e. absurd cc) (omega arith) dropped

-- 3 * (1 / 2) is 0 and 3 * 1 / 2 is 1, yet the parentheses are found redundant.
dropped_before_division : can_drop (some 2) none 3 ≡ true
unfolding can_drop higher_prio
dropped_before_division = refl

abbrev free_node : StackNode
free_node = record { value = pos 0; below = none }

-- Two nodes, both free.
abbrev two_free : Stacks
two_free = record {
  stacks_array = free_node ∷ record { value = pos 0; below = some 0 } ∷ [];
  top = none ∷ none ∷ none ∷ some 1 ∷ [];
}

push-pop_example :
    (push two_free 2 (pos 6) >>= λ t. pop t 2)
    ≡ done (
      pos 6,
      record two_free { stacks_array = free_node ∷ record { value = pos 6; below = some 0 } ∷ [] },
    )
push-pop_example =
    push-pop two_free 2 1 none (record { value = pos 0; below = some 0 }) (pos 6)
      (λ e. absurd (omega arith)) refl refl refl

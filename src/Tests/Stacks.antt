-- ===== src/Tests/Stacks.antt =====
-- stacks_queues on small inputs.
use mathlib.Core.List.{Perm}
use interview_questions.Prelude.{
  replicate, length-replicate, suc, ◌≡◌, refl, ap, some, List, [], ◌∷◌, arith,
}
use interview_questions.Prelude.Int.{ℤ, pos, negsuc, ◌-ℤ◌, ◌*ℤ◌}
use interview_questions.Prelude.Run.{done, ◌>>=◌, Returns}
use interview_questions.Stacks.MinStack.{
  StackWithMin, Command, push_command, pop_command, min_command, main,
}
use interview_questions.Stacks.MinStack.Refines.{list_loop, main_lem}
use interview_questions.Stacks.SortStack as sorting
use interview_questions.Stacks.SortStack.Moves.{Represents}
use interview_questions.Stacks.SortStack.Sorts.{IsDescending, sort_stack-sorts}
use interview_questions.Stacks.Rpn as rpn
use interview_questions.Stacks.Rpn.Evaluates.{Expr, value, binary, postfix, value_of, eval_expr_lem}

abbrev fresh_stack : StackWithMin
fresh_stack = record {
  stack = replicate 1024 (pos 7);
  top = 5;
  mins = replicate 1024 (pos 3);
  mins_top = 9;
}

abbrev commands : List Command
commands =
    push_command (pos 4) ∷ push_command (pos 2) ∷ min_command ∷ pop_command ∷ min_command ∷ []

main_lem_example :
    main (some fresh_stack) commands ≡ (list_loop commands [] [] >>= λ printed. done (some printed))
main_lem_example =
    main_lem fresh_stack commands (length-replicate 1024 (pos 7)) (length-replicate 1024 (pos 3))

abbrev three : sorting.Stack
three = record { values = pos 5 ∷ negsuc 1 ∷ pos 9 ∷ replicate 253 (pos 0); top = 3 }

abbrev empty : sorting.Stack
empty = record { values = replicate 256 (pos 0); top = 0 }

three-Represents : Represents three (pos 9 ∷ negsuc 1 ∷ pos 5 ∷ [])
three-Represents = record {
  size = ap (λ n. suc (suc (suc n))) (length-replicate 253 (pos 0));
  top_is = refl;
  held = (refl, (refl, (refl, tt)));
}

empty-Represents : Represents empty []
empty-Represents = record { size = length-replicate 256 (pos 0); top_is = refl; held = tt }

sort_stack-sorts_example : Returns (sorting.sort_stack three empty) (λ r.
    (zs : List ℤ) × Represents r.0 zs
    × Represents r.1 []
    × IsDescending zs
    × Perm zs (pos 9 ∷ negsuc 1 ∷ pos 5 ∷ []))
sort_stack-sorts_example =
    sort_stack-sorts three empty (pos 9 ∷ negsuc 1 ∷ pos 5 ∷ []) three-Represents empty-Represents
      (omega arith)

-- (7 - 2) * 3
abbrev product : Expr
product = binary 42 (binary 45 (value (pos 7)) (value (pos 2))) (value (pos 3))

abbrev zeros : List ℤ
zeros = replicate 1024 (pos 0)

eval_expr_lem_example :
    (rpn.eval_expr (postfix product []) (record { stack = zeros; stack_pointer = 0 }) >>= λ r.
    done r.0)
    ≡ value_of product
eval_expr_lem_example = eval_expr_lem product zeros (length-replicate 1024 (pos 0)) (omega arith)

product_runs : value_of product ≡ done (pos 15)
unfolding rpn.apply ◌-ℤ◌ ◌*ℤ◌
product_runs = refl

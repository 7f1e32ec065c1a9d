-- ===== src/Stacks/Rpn.antt =====
-- stacks_queues/rpn_calculator/solution.c: the calculator. What `sscanf` makes of a line is a list of
-- tokens: a number where `%d` reads one, else a character. A result that is no 32-bit `int` is
-- undefined behaviour, a `fault`. The stack is static: it keeps its contents from line to line.
use interview_questions.Prelude.{
  ltb, ◌==◌, if◌then◌else◌, replicate, ℕ, ◌+◌, ◌-◌, ◌/◌, not, List, [], ◌∷◌, ◌++◌,
}
use interview_questions.Prelude.Int.{ℤ, pos, pos_part, neg_part, sub_ℕ, ◌+ℤ◌, ◌-ℤ◌, ◌*ℤ◌, eqb_ℤ}
use interview_questions.Prelude.Run.{as_int, Run, done, fault, ◌>>=◌, ◌>>◌, assert}
use interview_questions.Prelude.Arrays.{load, store}
pub mod Evaluates

abbrev pub stack_sz : ℕ
stack_sz = 1024

pub data Token : Type 0 where
  number : ℤ → Token
  operator : ℕ → Token

pub record Stack : Type 0 where
  pub stack : List ℤ
  pub stack_pointer : ℕ

unfoldable pub push : Stack → ℤ → Run Stack
push s n = do
  assert (ltb s.stack_pointer stack_sz)
  stack ← store s.stack s.stack_pointer n
  done (record { stack = stack; stack_pointer = s.stack_pointer + 1 })

unfoldable pub pop : Stack → Run (ℤ × Stack)
pop s = do
  assert (ltb 0 s.stack_pointer)
  n ← load s.stack (s.stack_pointer - 1)
  done (n, record { stack = s.stack; stack_pointer = s.stack_pointer - 1 })

-- C's division rounds towards zero.
unfoldable pub quotient : ℤ → ℤ → ℤ
quotient a b =
    sub_ℕ (pos_part a / pos_part b + neg_part a / neg_part b)
      (pos_part a / neg_part b + neg_part a / pos_part b)

-- The `switch`: the characters + - * / by their codes.
unfoldable pub apply : ℕ → ℤ → ℤ → Run ℤ
apply op left right =
    if op == 43
    then as_int (left +ℤ right)
    else if op == 45
    then as_int (left -ℤ right)
    else if op == 42
    then as_int (left *ℤ right)
    else if op == 47
    then (assert (not (eqb_ℤ right (pos 0))) >> as_int (quotient left right))
    else fault

-- `while (1)`.
unfoldable pub eval_tokens : List Token → Stack → Run Stack
eval_tokens [] s = done s
eval_tokens (number val ∷ expr) s = push s val >>= λ s'. eval_tokens expr s'
eval_tokens (operator op ∷ expr) s = do
  (right, s1) ← pop s
  (left, s2) ← pop s1
  n ← apply op left right
  s3 ← push s2 n
  eval_tokens expr s3

unfoldable pub eval_expr : List Token → Stack → Run (ℤ × Stack)
eval_expr expr s = eval_tokens expr s >>= λ s'. pop s'

-- `main`: lines without a token are passed over.
unfoldable pub main_loop : List (List Token) → Stack → List ℤ → Run (List ℤ)
main_loop [] s printed = done printed
main_loop ([] ∷ lines) s printed = main_loop lines s printed
main_loop ((t ∷ expr) ∷ lines) s printed =
    eval_expr (t ∷ expr) s >>= λ r. main_loop lines r.1 (printed ++ r.0 ∷ [])

unfoldable pub main : List (List Token) → Run (List ℤ)
main lines = main_loop lines (record { stack = replicate stack_sz (pos 0); stack_pointer = 0 }) []

-- ===== src/Stacks/MinStack.antt =====
-- stacks_queues/stack_with_min/solution.c: the stack with `min`, and its command loop.
use interview_questions.Prelude.{
  ltb, ◌==◌, if◌then◌else◌, ℕ, ◌+◌, ◌-◌, Bool, true, Option, none, some, List, [], ◌∷◌, ◌++◌,
}
use interview_questions.Prelude.Int.{ℤ, leb_ℤ, eqb_ℤ}
use interview_questions.Prelude.Run.{Run, done, ◌>>=◌, ◌>>◌, assert}
use interview_questions.Prelude.Arrays.{load, store}
pub mod Minima
pub mod Refines

abbrev pub max_stack_sz : ℕ
max_stack_sz = 1024

pub record StackWithMin : Type 0 where
  pub stack : List ℤ
  pub top : ℕ
  pub mins : List ℤ
  pub mins_top : ℕ

-- `malloc` fails or gives a record with arbitrary contents.
unfoldable pub new_stack : Option StackWithMin → Option StackWithMin
new_stack none = none
new_stack (some res) = some (record res { top = 0; mins_top = 0 })

unfoldable pub is_new_min : StackWithMin → ℤ → Run Bool
is_new_min s element =
    if s.mins_top == 0
    then done true
    else load s.mins (s.mins_top - 1) >>= λ m. done (leb_ℤ element m)

unfoldable pub push : StackWithMin → ℤ → Run StackWithMin
push s element = do
  assert (ltb s.top max_stack_sz)
  stack ← store s.stack s.top element
  b ← is_new_min s element
  if b
      then (do
        mins ← store s.mins s.mins_top element
        done (record { stack = stack; top = s.top + 1; mins = mins; mins_top = s.mins_top + 1 }))
      else done (record { stack = stack; top = s.top + 1; mins = s.mins; mins_top = s.mins_top })

-- `s->top == 0 || ret == s->mins[s->mins_top-1]`, after the decrement of `top`.
unfoldable pub leaves_min : StackWithMin → ℤ → Run Bool
leaves_min s ret =
    if s.top == 1 then done true else load s.mins (s.mins_top - 1) >>= λ m. done (eqb_ℤ ret m)

unfoldable pub pop : StackWithMin → Run (ℤ × StackWithMin)
pop s = do
  assert (ltb 0 s.top)
  ret ← load s.stack (s.top - 1)
  assert (ltb 0 s.mins_top)
  b ← leaves_min s ret
  done (
    ret,
    record {
      stack = s.stack;
      top = s.top - 1;
      mins = s.mins;
      mins_top = if b then s.mins_top - 1 else s.mins_top;
    },
  )

unfoldable pub min : StackWithMin → Run ℤ
min s = do assert (ltb 0 s.mins_top); load s.mins (s.mins_top - 1)

-- An input line as `sscanf` and `strcmp` tell it apart; any other word ends the loop.
-- The words are short enough for the buffer `op`.
pub data Command : Type 0 where
  push_command : ℤ → Command
  pop_command : Command
  min_command : Command
  other : Command

-- What `main` prints for a command.
pub data Reply : Type 0 where
  pushed : ℤ → Reply
  popped : ℤ → Reply
  minimum : ℤ → Reply

unfoldable pub command_loop : List Command → StackWithMin → List Reply → Run (List Reply)
command_loop [] s printed = done printed
command_loop (push_command value ∷ lines) s printed =
    push s value >>= λ s'. command_loop lines s' (printed ++ pushed value ∷ [])
command_loop (pop_command ∷ lines) s printed =
    pop s >>= λ r. command_loop lines r.1 (printed ++ popped r.0 ∷ [])
command_loop (min_command ∷ lines) s printed =
    min s >>= λ m. command_loop lines s (printed ++ minimum m ∷ [])
command_loop (other ∷ lines) s printed = done printed

-- `none` is the exit with "out of memory".
unfoldable pub main : Option StackWithMin → List Command → Run (Option (List Reply))
main fresh lines = elim (new_stack fresh) [
  | none ↦ done none
  | some s ↦ command_loop lines s [] >>= λ printed. done (some printed)
]

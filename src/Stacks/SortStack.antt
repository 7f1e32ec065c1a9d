-- ===== src/Stacks/SortStack.antt =====
-- stacks_queues/sort_stack/solution.c: the stack in an array, its sort with a second stack, and the
-- command loop. The loops take the number of elements they can move plus one as fuel.
use interview_questions.Prelude.{
  ltb, ◌==◌, if◌then◌else◌, replicate, ℕ, zero, suc, ◌+◌, ◌-◌, Bool, List, [], ◌∷◌, ◌++◌,
}
use interview_questions.Prelude.Int.{ℤ, pos, ltb_ℤ}
use interview_questions.Prelude.Run.{Run, done, no_fuel, ◌>>=◌, ◌>>◌, assert}
use interview_questions.Prelude.Arrays.{load, store}
pub mod Moves
pub mod Sorts

abbrev pub stack_sz : ℕ
stack_sz = 256

pub record Stack : Type 0 where
  pub values : List ℤ
  pub top : ℕ

unfoldable pub init_stack : Stack → Stack
init_stack s = record s { top = 0 }

unfoldable pub push : Stack → ℤ → Run Stack
push s val = do
  assert (ltb s.top stack_sz)
  values ← store s.values s.top val
  done (record { values = values; top = s.top + 1 })

unfoldable pub pop : Stack → Run (ℤ × Stack)
pop s = do
  assert (ltb 0 s.top)
  v ← load s.values (s.top - 1)
  done (v, record { values = s.values; top = s.top - 1 })

unfoldable pub peek : Stack → Run ℤ
peek s = do assert (ltb 0 s.top); load s.values (s.top - 1)

unfoldable pub is_empty : Stack → Bool
is_empty s = s.top == 0

-- `print_stack`: the numbers that it prints, with `i` left.
unfoldable pub print_from : ℕ → Stack → Run (List ℤ)
print_from zero s = done []
print_from (suc i) s = do v ← load s.values i; vs ← print_from i s; done (v ∷ vs)

unfoldable pub print_stack : Stack → Run (List ℤ)
print_stack s = print_from s.top s

-- `push(to, pop(from))`.
unfoldable pub move : Stack → Stack → Run (Stack × Stack)
move from to = do (v, from') ← pop from; to' ← push to v; done (from', to')

-- `while (!is_empty(stack))`.
unfoldable pub move_all : (fuel : ℕ) → Stack → Stack → Run (Stack × Stack)
move_all zero stack aux = no_fuel
move_all (suc fuel) stack aux =
    if is_empty stack then done (stack, aux) else move stack aux >>= λ r. move_all fuel r.0 r.1

-- `while (!is_empty(stack) && peek(stack) > to_insert)`, with the count of moved elements.
unfoldable pub make_room : (fuel popped : ℕ) → ℤ → Stack → Stack → Run (ℕ × Stack × Stack)
make_room zero popped to_insert stack aux = no_fuel
make_room (suc fuel) popped to_insert stack aux =
    if is_empty stack then done (popped, stack, aux) else (do
      v ← peek stack
      if ltb_ℤ to_insert v
          then move stack aux >>= (λ r. make_room fuel (popped + 1) to_insert r.0 r.1)
          else done (popped, stack, aux))

-- `while (popped != 0)`.
unfoldable pub move_back : (popped : ℕ) → Stack → Stack → Run (Stack × Stack)
move_back zero stack aux = done (stack, aux)
move_back (suc popped) stack aux = move aux stack >>= λ r. move_back popped r.1 r.0

-- `while (!is_empty(aux))`.
unfoldable pub insert_all : (fuel : ℕ) → Stack → Stack → Run (Stack × Stack)
insert_all zero stack aux = no_fuel
insert_all (suc fuel) stack aux = if is_empty aux then done (stack, aux) else (do
  (to_insert, aux1) ← pop aux
  (popped, stack1, aux2) ← make_room (suc stack.top) 0 to_insert stack aux1
  stack2 ← push stack1 to_insert
  (stack3, aux3) ← move_back popped stack2 aux2
  insert_all fuel stack3 aux3)

unfoldable pub sort_stack : Stack → Stack → Run (Stack × Stack)
sort_stack stack aux = move_all (suc stack.top) stack aux >>= λ r. insert_all (suc r.1.top) r.0 r.1

-- An input line as `sscanf` and `strcmp` tell it apart; any other word ends the loop.
-- The words are short enough for the buffer `op`.
pub data Command : Type 0 where
  push_command : ℤ → Command
  pop_command : Command
  sort_command : Command
  other : Command

pub data Reply : Type 0 where
  pushed : ℤ → Reply
  popped : ℤ → Reply
  sorted : List ℤ → Reply

unfoldable pub command_loop : List Command → Stack → Stack → List Reply → Run (List Reply)
command_loop [] main_stack aux_stack printed = done printed
command_loop (push_command value ∷ lines) main_stack aux_stack printed =
    push main_stack value >>= λ s. command_loop lines s aux_stack (printed ++ pushed value ∷ [])
command_loop (pop_command ∷ lines) main_stack aux_stack printed =
    pop main_stack >>= λ r. command_loop lines r.1 aux_stack (printed ++ popped r.0 ∷ [])
command_loop (sort_command ∷ lines) main_stack aux_stack printed = do
  (s, aux) ← sort_stack main_stack (init_stack aux_stack)
  values ← print_stack s
  command_loop lines s aux (printed ++ sorted values ∷ [])
command_loop (other ∷ lines) main_stack aux_stack printed = done printed

-- Static storage is zero.
unfoldable pub main : List Command → Run (List Reply)
main lines =
    let zeroed : Stack = record { values = replicate stack_sz (pos 0); top = 0 } in
    command_loop lines (init_stack zeroed) zeroed []

-- ===== src/Stacks/ThreeStacks.antt =====
-- stacks_queues/array_as_3stacks/solution.c: three stacks and a list of free nodes in one array. A
-- node pointer is an index of the array, `none` for `NULL`; stack number 3 is the free list.
use interview_questions.Prelude.{
  ltb, if◌then◌else◌, length, get_elem?, set, replicate, ℕ, zero, suc, ◌+◌, Option, none, some,
  List, [], ◌∷◌, ◌++◌,
}
use interview_questions.Prelude.Int.{ℤ}
use interview_questions.Prelude.Run.{Run, done, fault, ◌>>=◌, ◌>>◌, present}
pub mod RoundTrip

abbrev pub array_sz : ℕ
array_sz = 1024

pub record StackNode : Type 0 where
  pub value : ℤ
  pub below : Option ℕ

pub record Stacks : Type 0 where
  pub stacks_array : List StackNode
  pub top : List (Option ℕ)

-- Accesses to `s->top[stack_no]` and to a node.
unfoldable pub set_top : Stacks → ℕ → Option ℕ → Run Stacks
set_top s stack_no p =
    if ltb stack_no (length s.top) then done (record s { top = set s.top stack_no p }) else fault

unfoldable pub set_below : Stacks → ℕ → Option ℕ → Run Stacks
set_below s n p = do
  cell ← present (get_elem? s.stacks_array n)
  done (record s { stacks_array = set s.stacks_array n (record cell { below = p }) })

unfoldable pub set_value : Stacks → ℕ → ℤ → Run Stacks
set_value s n v = do
  cell ← present (get_elem? s.stacks_array n)
  done (record s { stacks_array = set s.stacks_array n (record cell { value = v }) })

unfoldable pub push_internal : Stacks → ℕ → ℕ → Run Stacks
push_internal s stack_no n = do
  p ← present (get_elem? s.top stack_no)
  s1 ← set_below s n p
  set_top s1 stack_no (some n)

unfoldable pub pop_internal : Stacks → ℕ → Run (ℕ × Stacks)
pop_internal s stack_no = do
  p ← present (get_elem? s.top stack_no)
  ret ← present p
  cell ← present (get_elem? s.stacks_array ret)
  s1 ← set_top s stack_no cell.below
  done (ret, s1)

-- `for (i = 0; ...)` over the nodes, with `rounds` rounds left.
unfoldable pub free_nodes : (rounds i : ℕ) → Stacks → Run Stacks
free_nodes zero i s = done s
free_nodes (suc rounds) i s = push_internal s 3 i >>= λ s1. free_nodes rounds (i + 1) s1

-- `malloc` fails or gives arrays of 1024 nodes and 4 pointers with arbitrary contents.
unfoldable pub create_stacks : Option Stacks → Run (Option Stacks)
create_stacks none = done none
create_stacks (some ret) =
    free_nodes (length ret.stacks_array) 0 (record ret { top = replicate (length ret.top) none })
    >>= λ s. done (some s)

unfoldable pub push : Stacks → ℕ → ℤ → Run Stacks
push s stack_no value = do
  (new_node, s1) ← pop_internal s 3
  s2 ← set_value s1 new_node value
  push_internal s2 stack_no new_node

unfoldable pub pop : Stacks → ℕ → Run (ℤ × Stacks)
pop s stack_no = do
  (popped, s1) ← pop_internal s stack_no
  s2 ← push_internal s1 3 popped
  cell ← present (get_elem? s2.stacks_array popped)
  done (cell.value, s2)

-- An input line as `sscanf` tells it apart; an empty line is no command.
pub data Command : Type 0 where
  push_command : ℕ → ℤ → Command
  pop_command : ℕ → Command
  quit : Command
  invalid : Command
  blank : Command

pub data Reply : Type 0 where
  pushed : ℤ → ℕ → Reply
  popped : ℕ → ℤ → Reply
  ignored : Reply

unfoldable pub command_loop : List Command → Stacks → List Reply → Run (List Reply)
command_loop [] s printed = done printed
command_loop (push_command stack_no value ∷ lines) s printed =
    push s stack_no value >>= λ s1. command_loop lines s1 (printed ++ pushed value stack_no ∷ [])
command_loop (pop_command stack_no ∷ lines) s printed =
    pop s stack_no >>= λ r. command_loop lines r.1 (printed ++ popped stack_no r.0 ∷ [])
command_loop (quit ∷ lines) s printed = done printed
command_loop (invalid ∷ lines) s printed = command_loop lines s (printed ++ ignored ∷ [])
command_loop (blank ∷ lines) s printed = command_loop lines s printed

-- `none` is the exit with "out of memory".
unfoldable pub main : Option Stacks → List Command → Run (Option (List Reply))
main memory lines = create_stacks memory >>= λ r. elim r [
  | none ↦ done none
  | some s ↦ command_loop lines s [] >>= λ printed. done (some printed)
]

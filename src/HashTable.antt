-- ===== src/HashTable.antt =====
-- DS_Algos/hash_table/impl.c: a hash table with circular doubly linked lists. A node is the head of
-- a slot, which is part of the table, or has an address from `malloc`; `malloc` is a parameter that
-- picks a free address or fails. Reading or freeing what is not allocated is undefined behaviour.
use interview_questions.Prelude.{
  ltb, ◌==◌, if◌then◌else◌, length, get_elem?, set, ℕ, zero, suc, ◌+◌, ◌-◌, ◌%◌, ◌^◌, Bool, true,
  false, Option, none, some, List, [], ◌∷◌, ◌++◌,
}
use interview_questions.Prelude.Int.{ℤ, pos, negsuc, eqb_ℤ}
use interview_questions.Prelude.Run.{Run, done, fault, no_fuel, ◌>>=◌, ◌>>◌, assert, present}
pub mod Destroy

abbrev pub hash_table_sz : ℕ
hash_table_sz = 941

pub data NodePtr : Type 0 where
  slot : ℕ → NodePtr
  node : ℕ → NodePtr

pub record HtNode : Type 0 where
  pub value : ℤ
  pub key : ℤ
  pub next : NodePtr
  pub prev : NodePtr

-- The heads and the heap.
pub record Table : Type 0 where
  pub heads : List HtNode
  pub heap : ℕ → Option HtNode

abbrev pub Malloc : Type 0
Malloc = (ℕ → Option HtNode) → Option ℕ

unfoldable pub read_node : Table → NodePtr → Run HtNode
read_node t (slot i) = present (get_elem? t.heads i)
read_node t (node p) = present (t.heap p)

unfoldable pub write_cell : (ℕ → Option HtNode) → ℕ → Option HtNode → ℕ → Option HtNode
write_cell heap p c q = if q == p then c else heap q

unfoldable pub write_node : Table → NodePtr → HtNode → Run Table
write_node t (slot i) n =
    if ltb i (length t.heads) then done (record t { heads = set t.heads i n }) else fault
write_node t (node p) n =
    present (t.heap p) >>= λ _. done (record t { heap = write_cell t.heap p (some n) })

unfoldable pub set_next : Table → NodePtr → NodePtr → Run Table
set_next t p q = read_node t p >>= λ n. write_node t p (record n { next = q })

unfoldable pub set_prev : Table → NodePtr → NodePtr → Run Table
set_prev t p q = read_node t p >>= λ n. write_node t p (record n { prev = q })

-- `none` is `NULL`.
unfoldable pub new_node : Malloc → Table → ℤ → ℤ → Option NodePtr × Table
new_node fresh t v k = elim (fresh t.heap) [
  | none ↦ (none, t)
  | some p ↦ (
    some (node p),
    record t {
      heap =
          write_cell t.heap p (some (record { value = v; key = k; next = node p; prev = node p }));
    },
  )
]

-- `free` of what `malloc` did not give is undefined behaviour.
unfoldable pub free_node : Table → NodePtr → Run Table
free_node t (slot i) = fault
free_node t (node p) =
    present (t.heap p) >>= λ _. done (record t { heap = write_cell t.heap p none })

unfoldable pub insert_after : Table → NodePtr → NodePtr → Run Table
insert_after t new head = do
  h ← read_node t head
  t1 ← set_next t new h.next
  t2 ← set_prev t1 new head
  h2 ← read_node t2 head
  t3 ← set_prev t2 h2.next new
  set_next t3 head new

unfoldable pub delete_node : Table → NodePtr → Run Table
delete_node t p = do
  n ← read_node t p
  t1 ← set_next t n.prev n.next
  n1 ← read_node t1 p
  t2 ← set_prev t1 n1.next n1.prev
  free_node t2 p

abbrev pub same_node : NodePtr → NodePtr → Bool
same_node (slot i) (slot j) = i == j
same_node (node p) (node q) = p == q
same_node _ _ = false

-- `while (cursor != head)`. A round frees a node, so that one more than the number of nodes is
-- enough fuel.
unfoldable pub destroy_nodes : (fuel : ℕ) → Table → (head cursor : NodePtr) → Run Table
destroy_nodes zero t head cursor = no_fuel
destroy_nodes (suc fuel) t head cursor =
    if same_node cursor head
    then done t
    else (do n ← read_node t cursor; t1 ← free_node t n.next; destroy_nodes fuel t1 head n.next)

unfoldable pub destroy_list : (fuel : ℕ) → Table → NodePtr → Run Table
destroy_list fuel t head = do
  h ← read_node t head
  t1 ← destroy_nodes fuel t head h.next
  t2 ← set_prev t1 head head
  set_next t2 head head

-- The conversion of an `int` to `unsigned` adds 2^32 to a negative number.
unfoldable pub hash_key : ℤ → ℕ
hash_key (pos n) = n % 2 ^ 32 % hash_table_sz
hash_key (negsuc n) = (2 ^ 32 - suc n) % hash_table_sz

-- `for (i = 0; i < HASH_TABLE_SZ; i++)` on memory with arbitrary contents.
unfoldable pub init_heads : (i : ℕ) → List HtNode → List HtNode
init_heads i [] = []
init_heads i (h ∷ heads) = record h { next = slot i; prev = slot i } ∷ init_heads (suc i) heads

-- `malloc` of the table: `none`, or heads with arbitrary contents.
unfoldable pub new_table : Option (List HtNode) → (ℕ → Option HtNode) → Option Table
new_table none heap = none
new_table (some heads) heap = some (record { heads = init_heads 0 heads; heap = heap })

unfoldable pub free_slots : (rounds i fuel : ℕ) → Table → Run Table
free_slots zero i fuel t = done t
free_slots (suc rounds) i fuel t =
    destroy_list fuel t (slot i) >>= λ t1. free_slots rounds (i + 1) fuel t1

unfoldable pub free_table : (fuel : ℕ) → Table → Run Table
free_table fuel t = free_slots hash_table_sz 0 fuel t

unfoldable pub insert : Malloc → Table → ℤ → ℤ → Run (Bool × Table)
insert fresh t k value = do
  assert (ltb (hash_key k) hash_table_sz)
  let (p, t1) = new_node fresh t value k
  elim p [
    | none ↦ done (false, t1)
    | some q ↦ insert_after t1 q (slot (hash_key k)) >>= λ t2. done (true, t2)
  ]

-- `for (cursor = head->next; ...)`: the fuel is the number of nodes plus one.
unfoldable pub find_from : (fuel : ℕ) → Table → (head cursor : NodePtr) → ℤ → Run NodePtr
find_from zero t head cursor k = no_fuel
find_from (suc fuel) t head cursor k = if same_node cursor head then done cursor else (do
  n ← read_node t cursor
  if eqb_ℤ n.key k then done cursor else find_from fuel t head n.next k)

unfoldable pub find_internal : (fuel : ℕ) → Table → NodePtr → ℤ → Run NodePtr
find_internal fuel t head k = read_node t head >>= λ h. find_from fuel t head h.next k

-- The item that `find` writes to `*out`, `none` where it returns 0.
unfoldable pub find : (fuel : ℕ) → Table → ℤ → Run (Option ℤ)
find fuel t k = do
  assert (ltb (hash_key k) hash_table_sz)
  element ← find_internal fuel t (slot (hash_key k)) k
  if same_node element (slot (hash_key k))
      then done none
      else (read_node t element >>= λ n. done (some n.value))

unfoldable pub delete : (fuel : ℕ) → Table → ℤ → Run Table
delete fuel t k = do
  assert (ltb (hash_key k) hash_table_sz)
  element ← find_internal fuel t (slot (hash_key k)) k
  if same_node element (slot (hash_key k)) then done t else delete_node t element

-- An input line as `sscanf` tells it apart.
pub data Command : Type 0 where
  insert_command : ℤ → ℤ → Command
  delete_command : ℤ → Command
  search_command : ℤ → Command
  invalid : Command

pub data Reply : Type 0 where
  no_memory : Reply
  item : ℤ → ℤ → Reply
  no_item : ℤ → Reply

unfoldable pub command_loop :
    Malloc → (fuel : ℕ) → List Command → Table → List Reply → Run (List Reply)
command_loop fresh fuel [] t printed = done printed
command_loop fresh fuel (insert_command k v ∷ lines) t printed = do
  (inserted, t1) ← insert fresh t k v
  elim inserted [
    | true ↦ command_loop fresh fuel lines t1 printed
    | false ↦ done (printed ++ no_memory ∷ [])
  ]
command_loop fresh fuel (delete_command k ∷ lines) t printed =
    delete fuel t k >>= λ t1. command_loop fresh fuel lines t1 printed
command_loop fresh fuel (search_command k ∷ lines) t printed = do
  r ← find fuel t k
  let reply : Reply = (elim r [ none ↦ no_item k | some v ↦ item k v ])
  command_loop fresh fuel lines t (printed ++ reply ∷ [])
command_loop fresh fuel (invalid ∷ lines) t printed = fault

-- `none` is the exit with "out of memory"; a bucket has at most one node for each line.
unfoldable pub main : Malloc → Option (List HtNode) → List Command → Run (Option (List Reply))
main fresh memory lines = elim (new_table memory (λ p. none)) [
  | none ↦ done none
  | some t ↦ command_loop fresh (suc (length lines)) lines t [] >>= λ printed. done (some printed)
]

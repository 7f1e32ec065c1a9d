-- ===== src/Bst/Driver.antt =====
-- `main` of bst.c: the command loop. Reading a line and `sscanf` are not in the program: a line is of
-- an abstract type, `scan_key c line` is `sscanf(line, " c %d", &key)` and `scan_op line` is
-- `sscanf(line, " %c", &op)`. The lines are those that `fgets` returns before the end of the input.
use interview_questions.Prelude.{
  ◌==◌, if◌then◌else◌, ℕ, Bool, true, false, Option, none, some, List, [], ◌∷◌, ◌++◌,
}
use interview_questions.Prelude.Int.{ℤ}
use interview_questions.Bst.Heap.{Ptr, null, Node, M, pure, ◌>>=◌, ◌>>◌, load, Malloc}
use interview_questions.Bst.Ops.{
  tree_minimum, tree_maximum, tree_insert, tree_find, tree_delete, tree_successor, tree_predecessor,
  destroy_tree, Line, pre_order_traversal,
}

-- What `main` prints for a command.
pub data Reply : Type 0 where
  no_memory : Reply
  no_such_key : ℤ → Reply
  found_key : ℤ → (left right parent : Option ℤ) → Reply
  has_no_predecessor : ℤ → Reply
  predecessor : ℤ → ℤ → Reply
  has_no_successor : ℤ → Reply
  successor : ℤ → ℤ → Reply
  maximum : ℤ → ℤ → Reply
  minimum : ℤ → ℤ → Reply
  dump : List Line → Reply
  invalid_input : Reply

-- What `main` keeps between the rounds, apart from the heap.
pub record Session : Type 0 where
  pub root : Ptr
  pub printed : List Reply
  pub finish : Bool

abbrev print : Session → Reply → Session
print s r = record s { printed = s.printed ++ r ∷ [] }

-- The key of a node behind a pointer that may be `NULL`.
key_of : Ptr → M (Option ℤ)
key_of p = if p == null then pure none else (load p >>= λ n. pure (some n.key))

insert_command : Malloc → ℕ → Session → ℤ → M Session
insert_command fresh fuel s key = do
  new_root ← tree_insert fresh fuel s.root key
  pure (if new_root == null then print s no_memory else record s { root = new_root })

remove_command : ℕ → Session → ℤ → M Session
remove_command fuel s key = do root ← tree_delete fuel s.root key; pure (record s { root = root })

-- The body of the commands that look a key up first: F, P, S, H and L.
with_node : ℕ → Session → ℤ → (Ptr → Node → M Reply) → M Session
with_node fuel s key body = do
  p ← tree_find fuel s.root key
  if p == null
      then pure (print s (no_such_key key))
      else (do n ← load p; r ← body p n; pure (print s r))

find_reply : ℤ → Ptr → Node → M Reply
find_reply key p n = do
  left ← key_of n.left
  right ← key_of n.right
  parent ← key_of n.parent
  pure (found_key key left right parent)

-- `n2` may be `NULL`, which has a reply of its own.
neighbour_reply : M Ptr → (ℤ → Reply) → (ℤ → ℤ → Reply) → Node → M Reply
neighbour_reply neighbour absent present n = do
  p ← neighbour
  if p == null then pure (absent n.key) else (load p >>= λ m. pure (present n.key m.key))

-- Of a node that was found `n2` is read without a test.
extreme_reply : M Ptr → (ℤ → ℤ → Reply) → Node → M Reply
extreme_reply extreme reply n = do p ← extreme; m ← load p; pure (reply n.key m.key)

-- The last branch: one character, or the end of the loop at a line with none.
op_command : ℕ → Session → Option ℕ → M Session
op_command fuel s none = pure (record (print s invalid_input) { finish = true })
op_command fuel s (some op) =
    if op == b'D'
    then (pre_order_traversal fuel s.root >>= λ lines. pure (print s (dump lines)))
    else pure (if op == b'Q' then record s { finish = true } else print s invalid_input)

module _ {Text : Type 0} (fresh : Malloc) (scan_key : ℕ → Text → Option ℤ)
    (scan_op : Text → Option ℕ) (fuel : ℕ) where
  -- The body of the `while`, for a line that was read.
  command : Session → Text → M Session
  command s line = elim (scan_key b'I' line) [
    | some key ↦ insert_command fresh fuel s key
    | none ↦ elim (scan_key b'R' line) [
      | some key ↦ remove_command fuel s key
      | none ↦ elim (scan_key b'F' line) [
        | some key ↦ with_node fuel s key (find_reply key)
        | none ↦ elim (scan_key b'P' line) [
          | some key ↦
              with_node fuel s key
                (λ p n. neighbour_reply (tree_predecessor fuel p) has_no_predecessor predecessor n)
          | none ↦ elim (scan_key b'S' line) [
            | some key ↦
                with_node fuel s key
                  (λ p n. neighbour_reply (tree_successor fuel p) has_no_successor successor n)
            | none ↦ elim (scan_key b'H' line) [
              | some key ↦
                  with_node fuel s key (λ p n. extreme_reply (tree_maximum fuel p) maximum n)
              | none ↦ elim (scan_key b'L' line) [
                | some key ↦
                    with_node fuel s key (λ p n. extreme_reply (tree_minimum fuel p) minimum n)
                | none ↦ op_command fuel s (scan_op line)
              ]
            ]
          ]
        ]
      ]
    ]
  ]

  -- `while (!finish)`, over the lines that are read.
  commands : Session → List Text → M Session
  commands s [] = pure s
  commands s (line ∷ lines) = elim s.finish [
    | true ↦ pure s
    | false ↦ command s line >>= λ s'. commands s' lines
  ]

  pub main : List Text → M (List Reply)
  main lines = do
    s ← commands (record { root = null; printed = []; finish = false }) lines
    destroy_tree fuel s.root
    pure s.printed

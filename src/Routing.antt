-- ===== src/Routing.antt =====
-- knowledge_based/networking/routing/rtable.c: a routing table as a binary trie. A pointer to a trie
-- is the trie: no node has two parents. An address is a number below 2^32, and a mask with one bit
-- set is that power of two, or 0 once the bit is shifted out; `1 << 31` is 2^31.
use interview_questions.Prelude.{
  ltb, ◌==◌, if◌then◌else◌, length, ℕ, zero, suc, ◌+◌, ◌-◌, ◌/◌, ◌%◌, ◌^◌, Bool, true, false, ◌||◌,
  Option, none, some, List, [], ◌∷◌, ◌++◌,
}
use interview_questions.Prelude.Run.{Run, done, fault, no_fuel, ◌>>=◌, ◌>>◌, assert, present}
pub mod Bits
pub mod Exact
pub mod Visit
pub mod Longest

-- `null` is `NULL`; the children on 0 and on 1 stand last.
pub data Trie : Type 0 where
  null : Trie
  trie_node : (is_end : Bool) (dest : ℕ) → Trie → Trie → Trie

unfoldable pub set_defl_gateway : ℕ → Trie → Run Trie
set_defl_gateway ip null = fault
set_defl_gateway ip (trie_node e d a b) = done (trie_node e ip a b)

-- `root` before any call.
abbrev pub initial_root : Trie
initial_root = trie_node true (2 ^ 32 - 1) null null

-- `!!(ip & curr_mask)`.
unfoldable pub bit_at : ℕ → ℕ → ℕ
bit_at ip mask = if mask == 0 then 0 else ip / mask % 2

abbrev pub child : ℕ → Trie → Trie → Trie
child bit a b = if bit == 0 then a else b

abbrev pub put_child : ℕ → Bool → ℕ → Trie → Trie → Trie → Trie
put_child bit e d a b sub = if bit == 0 then trie_node e d sub b else trie_node e d a sub

unfoldable pub mask_limit : ℕ → ℕ
mask_limit cidr_val = if ltb cidr_val 32 then 2 ^ (31 - cidr_val) else 0

abbrev pub is_null : Trie → Bool
is_null null = true
is_null (trie_node e d a b) = false

-- `malloc` at a mask: `none` where it fails, else the contents of `dest` before it is written.
module _ (malloc : ℕ → Option ℕ) (mask_lim ip dest : ℕ) where
  -- The second `while`, from a node on, and the two assignments after it.
  unfoldable pub grow : (fuel mask : ℕ) → Trie → Run Trie
  grow zero mask t = no_fuel
  grow (suc fuel) mask null = fault
  grow (suc fuel) mask (trie_node e d a b) = elim (mask == mask_lim) [
    | true ↦ done (trie_node true dest a b)
    | false ↦ present (malloc mask) >>= λ junk.
        grow fuel (mask / 2) (trie_node false junk null null) >>= λ sub.
        done (put_child (bit_at ip mask) e d a b sub)
  ]

  -- The first `while`.
  unfoldable pub walk : (fuel mask : ℕ) → Trie → Run Trie
  walk zero mask t = no_fuel
  walk (suc fuel) mask null = fault
  walk (suc fuel) mask (trie_node e d a b) =
      elim (mask == mask_lim || is_null (child (bit_at ip mask) a b)) [
        | true ↦ grow (suc fuel) mask (trie_node e d a b)
        | false ↦ walk fuel (mask / 2) (child (bit_at ip mask) a b) >>= λ sub.
            done (put_child (bit_at ip mask) e d a b sub)
      ]

-- The mask is shifted out after 32 rounds.
unfoldable pub add_entry : (ℕ → Option ℕ) → (ip cidr_val dest : ℕ) → Trie → Run Trie
add_entry malloc ip cidr_val dest root = walk malloc (mask_limit cidr_val) ip dest 33 (2 ^ 31) root

-- The body of the `while`, at the child that was tested; `last` is `last_word->dest`.
unfoldable pub visit : (mask ip last : ℕ) → Trie → ℕ
visit mask ip last null = last
visit mask ip last (trie_node e d a b) =
    let last' = if e then d else last in
    elim (bit_at ip (mask / 2) == 0) [
      | true ↦ visit (mask / 2) ip last' a
      | false ↦ visit (mask / 2) ip last' b
    ]

unfoldable pub lookup : ℕ → Trie → Run ℕ
lookup ip null = fault
lookup ip (trie_node e d a b) = done (visit (2 ^ 31) ip d (child (bit_at ip (2 ^ 31)) a b))

-- The rest is the program for tests. `sprintf` writes the digits of the four bytes with dots; the
-- buffer has 12 places, and the terminating NUL takes one.
unfoldable pub decimal : ℕ → List ℕ
decimal n =
    if ltb n 10
    then (48 + n) ∷ []
    else if ltb n 100
    then (48 + n / 10) ∷ (48 + n % 10) ∷ []
    else (48 + n / 100) ∷ (48 + n / 10 % 10) ∷ (48 + n % 10) ∷ []

unfoldable pub ip_to_str : ℕ → Run (List ℕ)
ip_to_str ip =
    let text =
      decimal (ip / 2 ^ 24 % 256)
      ++ 46 ∷ decimal (ip / 2 ^ 16 % 256)
      ++ 46 ∷ decimal (ip / 2 ^ 8 % 256)
      ++ 46 ∷ decimal (ip % 256) in
    assert (ltb (length text) 12) >> done text

-- The lines of `print_table`: the depth, and the address of an end.
unfoldable pub print_table : Trie → (depth : ℕ) → Run (List (ℕ × Option (List ℕ)))
print_table null depth = done []
print_table (trie_node e d a b) depth = do
  dest ← if e then ip_to_str d >>= (λ s. done (some s)) else done none
  left ← print_table a (depth + 1)
  right ← print_table b (depth + 1)
  done ((depth, dest) ∷ left ++ right)

-- A command as `scanf` reads it, with addresses read by `read_ip`.
pub data Command : Type 0 where
  gateway : ℕ → Command
  entry : (ip cidr_val dest : ℕ) → Command
  query : ℕ → Command
  print : Command
  quit : Command
  unrecognized : Command

pub data Reply : Type 0 where
  next_hop : List ℕ → List ℕ → Reply
  table : List (ℕ × Option (List ℕ)) → Reply
  no_command : Reply

-- The length of a prefix is converted to `uint8_t`.
unfoldable pub main : (ℕ → Option ℕ) → List Command → Trie → List Reply → Run (List Reply)
main malloc [] root printed = done printed
main malloc (gateway ip ∷ commands) root printed =
    set_defl_gateway ip root >>= λ t. main malloc commands t printed
main malloc (entry ip c d ∷ commands) root printed =
    add_entry malloc ip (c % 256) d root >>= λ t. main malloc commands t printed
main malloc (query ip ∷ commands) root printed = do
  res ← lookup ip root
  from ← ip_to_str ip
  to ← ip_to_str res
  main malloc commands root (printed ++ next_hop from to ∷ [])
main malloc (print ∷ commands) root printed =
    print_table root 0 >>= λ lines. main malloc commands root (printed ++ table lines ∷ [])
main malloc (quit ∷ commands) root printed = done printed
main malloc (unrecognized ∷ commands) root printed =
    main malloc commands root (printed ++ no_command ∷ [])

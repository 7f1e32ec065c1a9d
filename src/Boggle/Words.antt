-- ===== src/Boggle/Words.antt =====
-- recursion_dp/boggle_board/solution.c: the trie of words with scores. A word is its characters without
-- the terminating NUL, and a pointer to a node is the node: no node has two parents. `children` has 26
-- places, and an index out of range is undefined behaviour.
pub mod Count
pub mod Scores
pub mod Lookup
use interview_questions.Prelude.{
  ltb, ◌==◌, if◌then◌else◌, length, ℕ, zero, suc, ◌+◌, ◌-◌, ◌%◌, ◌^◌, Bool, true, false, ◌&&◌, not,
  List, [], ◌∷◌, ◌++◌,
}
use interview_questions.Prelude.Int.{ℤ, negsuc, eqb_ℤ}
use interview_questions.Prelude.Run.{Run, done, fault, ◌>>=◌, ◌>>◌, assert}

-- `null` is `NULL`.
pub data Trie : Type 0 where
  null : Trie
  trie_node : (score : ℤ) (children_count : ℕ) (children : ℕ → Trie) → Trie

-- The score -1 means that there is no such word.
abbrev pub no_score : ℤ
no_score = negsuc 0

abbrev pub new_node : Trie
new_node = trie_node no_score 0 (λ i. null)

abbrev pub is_null : Trie → Bool
is_null null = true
is_null (trie_node s n f) = false

-- `(unsigned char) (c-'a')`, checked.
unfoldable pub index_of : ℕ → Run ℕ
index_of c = if ltb ((c + 256 - 97) % 256) 26 then done ((c + 256 - 97) % 256) else fault

abbrev pub put_child : (ℕ → Trie) → ℕ → Trie → ℕ → Trie
put_child children index t i = if index == i then t else children i

-- `has_memory` says at the rest of the word whether `malloc` succeeds there.
module _ (has_memory : List ℕ → Bool) (score : ℤ) where
  -- The second `while` and what follows.
  unfoldable pub grow : Trie → List ℕ → Run Trie
  grow null word = fault
  grow (trie_node s n f) [] = done (trie_node score n f)
  grow (trie_node s n f) (c ∷ word) = do
    index ← index_of c
    assert (has_memory word)
    t ← grow new_node word
    done (trie_node s ((n + 1) % 2 ^ 32) (put_child f index t))

  -- The first `while`, from a node on.
  unfoldable pub insert_word : Trie → List ℕ → Run Trie
  insert_word null word = fault
  insert_word (trie_node s n f) [] = done (trie_node score n f)
  insert_word (trie_node s n f) (c ∷ word) = index_of c >>= λ index. elim (is_null (f index)) [
    | true ↦ grow (trie_node s n f) (c ∷ word)
    | false ↦ insert_word (f index) word >>= λ t. done (trie_node s n (put_child f index t))
  ]

abbrev pub is_leaf_word : Trie → Bool
is_leaf_word null = false
is_leaf_word (trie_node s n f) = (n == 0) && not (eqb_ℤ s no_score)

-- The result of the recursive call, with the child.
abbrev pub after_delete : ℤ → ℕ → (ℕ → Trie) → ℕ → Bool → Trie → Bool × Trie
after_delete s n f index ret t =
    if ret && is_leaf_word t
    then (ret, trie_node s ((n + 2 ^ 32 - 1) % 2 ^ 32) (put_child f index null))
    else (ret, trie_node s n (put_child f index t))

unfoldable pub delete_word_aux : Trie → List ℕ → Run (Bool × Trie)
delete_word_aux null word = fault
delete_word_aux (trie_node s n f) [] =
    if not (eqb_ℤ s no_score)
    then done (true, trie_node no_score n f)
    else done (false, trie_node s n f)
delete_word_aux (trie_node s n f) (c ∷ word) = index_of c >>= λ index. elim (is_null (f index)) [
  | true ↦ done (false, trie_node s n f)
  | false ↦ delete_word_aux (f index) word >>= λ (ret, t). done (after_delete s n f index ret t)
]

unfoldable pub delete_word : Trie → List ℕ → Run Trie
delete_word root word = delete_word_aux root word >>= λ r. done r.1

unfoldable pub word_score : Trie → List ℕ → Run ℤ
word_score null [] = done no_score
word_score null (c ∷ word) = fault
word_score (trie_node s n f) [] = done s
word_score (trie_node s n f) (c ∷ word) = index_of c >>= λ index. elim (is_null (f index)) [
  | true ↦ done no_score
  | false ↦ word_score (f index) word
]

-- A `for` over the children, with `rounds` left.
abbrev pub each_child : (rounds i : ℕ) → (ℕ → Run (List (List ℕ × ℤ))) → Run (List (List ℕ × ℤ))
each_child zero i body = done []
each_child (suc rounds) i body = do
  first ← body i
  rest ← each_child rounds (i + 1) body
  done (first ++ rest)

-- `print_words` with the characters in `curr_word` before `buff_i`; the array has 512.
unfoldable pub print_words : Trie → (curr_word : List ℕ) → Run (List (List ℕ × ℤ))
print_words null curr_word = done []
print_words (trie_node s n f) curr_word = do
  assert (ltb (length curr_word) 512)
  below ← each_child 26 0 (λ i. print_words (f i) (curr_word ++ (97 + i) ∷ []))
  done (if not (eqb_ℤ s no_score) then (curr_word, s) ∷ below else below)

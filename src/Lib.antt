-- ===== src/Lib.antt =====
-- Models of programs of the repository, a collection of independent C programs (one directory to a
-- problem), and theorems about them. Each program is a set of functions and a `main` that reads
-- commands; the programs share no code, so each has a module of its own here, and only `Prelude` is
-- shared.
--
-- What a run of a C function ends with is a value of `Run` (Prelude/Run): a result, `fault` for
-- undefined behaviour or a failed assertion, or `no_fuel`, which only the models have, where a loop
-- takes fuel. A theorem about such a run says that it ends as stated, so that it shows the fuel to be
-- enough.
-- An `int` is an integer; a program whose sums can leave 32 bits has a fault there, except where the
-- file says otherwise. `malloc` is a parameter, and so is what `scanf` and `sscanf` read: a line is
-- the command or the tokens that they tell apart.
--
-- Prelude: comparisons, lists as C arrays, integers, runs, arrays of `int` in place.
-- BinSearch: DS_Algos/bin_search/binary_search.c, its four searches (narrow, split, pick_closest are
--   the loops and the last step). The fuel is the length of the array plus one.
-- Sorting, Sorting/Bubble: DS_Algos/sorting/bubblesort/bubblesort.c (swap, bubblesort; pass is the
--   `for`, while_swapped the `while`, with the number of elements plus one as fuel).
-- Sorting/Heapsort: DS_Algos/sorting/heapsort/heapsort.c (heapify is the loop of max_heapify,
--   build_from that of build_max_heap, take_largest that of heapsort; the fuel is the number of
--   elements plus one). Sift is about max_heapify, Sorts about the rest.
-- Sorting/Quicksort: DS_Algos/sorting/quicksort/quicksort.c (split_loop is the loop of partition);
--   Range is about changes of a part of an array, Partition about partition, Sorts about the
--   recursion, whose fuel is the number of elements plus one.
-- Sorting/Selection: DS_Algos/sorting/selectionsort/selectionsort.c (find_min and select_from are
--   the two loops).
-- Sorting/Insertion: DS_Algos/sorting/insertionsort/insertionsort.c (shift and insert_from are the
--   two loops).
-- Bst: DS_Algos/BST/unbalanced/bst.c. Heap has the nodes in memory and the field accesses, Ops each
--   function, Driver the command loop, Shape the trees that the heap holds, and the others the
--   theorems. The fuel of a walk is the height of the tree.
-- Bits: bit_manipulation/bits_set/solution.c (bits_table, bits_set, main).
-- Bits/Division: bit_manipulation/division/solution.c (while_mask is the loop, shift_in a shift in
--   it). The mask has 32 bits, and 33 is the fuel.
-- Boggle: recursion_dp/boggle_board/solution.c. Words has the trie (grow is the second loop of
--   insert_word), Board the boards and the search, Boggle itself main. Words/Count, Scores and
--   Lookup are about the trie as a function from words to scores; Expected says what main is to
--   print, and Dictionary that it does; Board/Trace says which words are on a board, and Better,
--   Calls, Best and Search are about the search. A `size_t` score is converted to `int` as gcc does.
--   The memory for a board and for `strdup` does not run out.
-- Morris: trees_graphs/traversal_without_recursion/solution.c. Morris itself has the traversals (a
--   step is a round of the outer loop, whose fuel is twice the number of nodes plus one), Driver the
--   other functions. Threads says when the heap holds a tree with a last pointer that leads back up,
--   Visits what a round does, Traversal is about the whole, Place, Inserts and Stored about
--   tree_insert and destroy_tree, Transcript about main.
-- Kleene: recursion_dp/kleene_star/solution.c (step, dfa, nfa_prepare_visit, kleene_closure, main).
-- Stacks/MinStack, Stacks/SortStack, Stacks/Rpn, Stacks/ThreeStacks:
--   stacks_queues/stack_with_min/solution.c, stacks_queues/array_as_3stacks/solution.c,
--   stacks_queues/sort_stack/solution.c and stacks_queues/rpn_calculator/solution.c, each with the
--   operations of the source by their names; Stacks has what a stack in an array is. A loop of
--   sort_stack takes one more than the elements of the stack that it empties as fuel.
-- Parens: recursion_dp/redundant_parens/solution.c (char_to_op, higher_prio, merge_seen,
--   redundant_parens and its last test can_drop, expr to factor, eval_expr). The fuel is the length
--   of the string plus one.
-- Graph: DS_Algos/graphs/adj_list/adjacency_list.c; Queue has the queue of bfs, Traverse the
--   searches and main. The fuel comes from the sizes of the static arrays.
-- HashTable: DS_Algos/hash_table/impl.c, each function by its name.
-- Trees: trees_graphs/is_bst, is_subtree and left_sum, solution.c each; a pointer to a tree is the
--   tree.
-- Routing: knowledge_based/networking/routing/rtable.c (set_defl_gateway, add_entry with its loops
--   walk and grow, lookup with its loop visit, ip_to_str, print_table, main). Bits has the bits of
--   an address, Exact add_entry against the prefixes of the trie, Visit the loop of lookup, Longest
--   lookup. An address has 32 bits; 33 is the fuel of add_entry.
-- Threads: threads/semaphores/semaphore.c (Semaphore), threads/work_queue/wqueue_condvars.c
--   (WorkQueue) and threads/barriers/barrier.c (Barrier), each as a relation of steps between states
--   of any number of threads; in WorkQueue each access of the list is a step, Jobs is about the
--   jobs, and Counted shows that it is a semaphore that counts them.
-- LruCache: misc/lru_cache/solution.cpp. Line has CacheLine (insert_line, get_line and update_line
--   are its insert, get and update; insert_entry its private insert), LruCache the cache and main.
--   Heap, Heap/Down and Heap/Moves are about the heap, Spec says what the policy is, Order is about
--   the entries in the order of use, Policy that a line follows it, Session that the cache does. The
--   fuel of a sift is the number of entries plus one.
-- Tests: runs on small inputs.
--
-- Not modelled: the other C programs, the scripts, the Linux examples, which are
-- input and output, and the documents. The `main` functions of binary_search.c, bubblesort.c, of
-- redundant_parens and of the three tree programs only read and print, and are left out.
pub mod Prelude
pub mod BinSearch
pub mod Sorting
pub mod Bst
mod Tests
pub mod Bits
pub mod Kleene
pub mod Stacks
pub mod Graph
pub mod HashTable
pub mod Trees
pub mod Parens
pub mod Routing
pub mod Threads
pub mod LruCache
pub mod Boggle
pub mod Morris

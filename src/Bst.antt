-- ===== src/Bst.antt =====
-- DS_Algos/BST/unbalanced/bst.c: a binary search tree of `malloc`ed nodes with parent pointers.
-- `Heap` has the nodes and the commands on them, `Ops` the functions of the file but `main`, which is
-- in `Driver`; `Shape` says when the heap holds a tree.
pub mod Heap
pub mod Ops
pub mod Shape
pub mod Find
pub mod Insert
pub mod Traverse
pub mod Delete
pub mod Driver

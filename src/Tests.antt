-- ===== src/Tests.antt =====
-- Runs of the models on small inputs, and each theorem with hypotheses at an input that meets them.
mod BinSearch
mod Boggle
mod Morris
mod Sorting
mod Stacks
mod Automata
mod Graph
mod Trees
mod Parens
mod Bst
mod Routing
mod Threads
mod LruCache
mod Division

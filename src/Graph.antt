-- ===== src/Graph.antt =====
-- DS_Algos/graphs/adj_list/adjacency_list.c: graphs with circular adjacency lists.
-- A vertex pointer is the index of the vertex in the one graph of `main`, `none` for `NULL`; a list
-- node is the sentinel in a vertex or an entry of `nodes_store`.
use interview_questions.Prelude.{
  ltb, leb, if◌then◌else◌, length, get_elem?, set, ℕ, zero, suc, ◌+◌, Bool, false, ◌&&◌, Option,
  none, some, List,
}
use interview_questions.Prelude.Run.{Run, done, fault, ◌>>=◌, ◌>>◌, assert, present}
pub mod Traverse
pub mod Queue

abbrev pub max_list_nodes : ℕ
max_list_nodes = 256

abbrev pub max_vertices : ℕ
max_vertices = 128

pub data NodePtr : Type 0 where
  sentinel : ℕ → NodePtr
  stored : ℕ → NodePtr

pub record ListNode : Type 0 where
  pub vertex : Option ℕ
  pub next : NodePtr

pub record GraphVertex : Type 0 where
  pub value : ℕ
  pub visited : Bool
  pub neighbors : ListNode

-- The static store of list nodes and the graph.
pub record Graph : Type 0 where
  pub nodes_store : List ListNode
  pub next_alloc : ℕ
  pub vertices : List GraphVertex
  pub vertices_sz : ℕ

unfoldable pub vertex_at : Graph → ℕ → Run GraphVertex
vertex_at g i = present (get_elem? g.vertices i)

unfoldable pub put_vertex : Graph → ℕ → GraphVertex → Run Graph
put_vertex g i v =
    if ltb i (length g.vertices) then done (record g { vertices = set g.vertices i v }) else fault

unfoldable pub read_node : Graph → NodePtr → Run ListNode
read_node g (sentinel i) = vertex_at g i >>= λ v. done v.neighbors
read_node g (stored j) = present (get_elem? g.nodes_store j)

unfoldable pub write_node : Graph → NodePtr → ListNode → Run Graph
write_node g (sentinel i) n = vertex_at g i >>= λ v. put_vertex g i (record v { neighbors = n })
write_node g (stored j) n =
    if ltb j (length g.nodes_store)
    then done (record g { nodes_store = set g.nodes_store j n })
    else fault

unfoldable pub list_insert_after : Graph → NodePtr → NodePtr → Run Graph
list_insert_after g new_node after_this = do
  a ← read_node g after_this
  n ← read_node g new_node
  g1 ← write_node g new_node (record n { next = a.next })
  a1 ← read_node g1 after_this
  write_node g1 after_this (record a1 { next = new_node })

unfoldable pub list_init_node : Graph → Option ℕ → NodePtr → Run Graph
list_init_node g v n = write_node g n (record { vertex = v; next = n })

unfoldable pub new_list_node : Graph → Option ℕ → Run (NodePtr × Graph)
new_list_node g vertex = do
  assert (ltb g.next_alloc max_list_nodes)
  g1 ← list_init_node g vertex (stored g.next_alloc)
  done (stored g.next_alloc, record g1 { next_alloc = g.next_alloc + 1 })

-- `g->vertices[i].visited = b` and `g->vertices[i].value = n`.
unfoldable pub set_visited : Graph → ℕ → Bool → Run Graph
set_visited g i b = vertex_at g i >>= λ v. put_vertex g i (record v { visited = b })

unfoldable pub set_value : Graph → ℕ → ℕ → Run Graph
set_value g i n = vertex_at g i >>= λ v. put_vertex g i (record v { value = n })

-- `for (i = 0; i < g->vertices_sz; i++)`, with `rounds` rounds left.
unfoldable pub clear_visited : (rounds i : ℕ) → Graph → Run Graph
clear_visited zero i g = done g
clear_visited (suc rounds) i g = set_visited g i false >>= λ g1. clear_visited rounds (i + 1) g1

unfoldable pub prepare_traversal : Graph → Run Graph
prepare_traversal g = clear_visited g.vertices_sz 0 g

unfoldable pub init_vertices : (rounds i : ℕ) → Graph → Run Graph
init_vertices zero i g = done g
init_vertices (suc rounds) i g = do
  g1 ← set_value g i i
  g2 ← list_init_node g1 none (sentinel i)
  init_vertices rounds (i + 1) g2

unfoldable pub initialize_graph : Graph → ℕ → Run Graph
initialize_graph g vertices = do
  assert (ltb 0 vertices && leb vertices max_vertices)
  init_vertices vertices 0 (record g { vertices_sz = vertices })

unfoldable pub add_edge : Graph → ℕ → ℕ → Run Graph
add_edge g from to = do
  assert (ltb from g.vertices_sz)
  assert (ltb to g.vertices_sz)
  (node, g1) ← new_list_node g (some to)
  list_insert_after g1 node (sentinel from)

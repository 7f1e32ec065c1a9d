-- ===== src/Graph/Traverse.antt =====
-- DS_Algos/graphs/adj_list/adjacency_list.c: the traversals and `main`. A call visits a vertex that
-- was not visited, and a loop passes each list node once, so that a fuel of the number of vertices
-- and of the number of list nodes plus two is enough; both loops take the larger bound.
use interview_questions.Prelude.{
  ◌==◌, if◌then◌else◌, ℕ, zero, suc, ◌+◌, Bool, true, false, List, [], ◌∷◌, ◌++◌,
}
use interview_questions.Prelude.Run.{Run, done, fault, no_fuel, ◌>>=◌, present}
use interview_questions.Graph.{
  max_list_nodes, max_vertices, NodePtr, sentinel, stored, Graph, vertex_at, read_node, set_visited,
  prepare_traversal, initialize_graph, add_edge,
}
use interview_questions.Graph.Queue.{Queue, enqueue, dequeue, is_queue_empty}

pub data Event : Type 0 where
  dfs_entered : ℕ → Event
  dfs_exited : ℕ → Event
  bfs_entered : ℕ → Event
  bfs_exited : ℕ → Event

-- The graph, the queue and what was printed.
pub record Search : Type 0 where
  pub graph : Graph
  pub queue : Queue
  pub printed : List Event

unfoldable pub print : Search → Event → Search
print s e = record s { printed = s.printed ++ e ∷ [] }

unfoldable pub mark : Search → ℕ → Run Search
mark s v = set_visited s.graph v true >>= λ g. done (record s { graph = g })

abbrev pub same_node : NodePtr → NodePtr → Bool
same_node (sentinel i) (sentinel j) = i == j
same_node (stored i) (stored j) = i == j
same_node _ _ = false

-- `list_for_each(&v->neighbors, neighbor_node)`, `body` on the neighbor.
unfoldable pub list_for_each :
    (fuel : ℕ) → (Search → ℕ → Run Search) → (head cursor : NodePtr) → Search → Run Search
list_for_each zero body head cursor s = no_fuel
list_for_each (suc fuel) body head cursor s = if same_node cursor head then done s else (do
  n ← read_node s.graph cursor
  neighbor ← present n.vertex
  s1 ← body s neighbor
  n1 ← read_node s1.graph cursor
  list_for_each fuel body head n1.next s1)

abbrev pub list_fuel : ℕ
list_fuel = max_list_nodes + 2

unfoldable pub dfs_aux : (fuel : ℕ) → Search → ℕ → Run Search
dfs_aux zero s v = no_fuel
dfs_aux (suc fuel) s v = do
  vertex ← vertex_at s.graph v
  s1 ← mark (print s (dfs_entered vertex.value)) v
  first ← read_node s1.graph (sentinel v)
  s2 ←
      list_for_each list_fuel
        (λ t neighbor. vertex_at t.graph neighbor >>= λ n. elim n.visited [
          | true ↦ done t
          | false ↦ dfs_aux fuel t neighbor
        ])
        (sentinel v) first.next s1
  done (print s2 (dfs_exited vertex.value))

-- `for (i = 0; i < g->vertices_sz; i++)` of `dfs` and of `bfs`.
unfoldable pub from_each : (rounds i : ℕ) → (Search → ℕ → Run Search) → Search → Run Search
from_each zero i search s = done s
from_each (suc rounds) i search s = do
  v ← vertex_at s.graph i
  s1 ← if v.visited then done s else search s i
  from_each rounds (i + 1) search s1

unfoldable pub dfs : Search → Run Search
dfs s = do
  g ← prepare_traversal s.graph
  from_each g.vertices_sz 0 (λ t v. dfs_aux (suc max_vertices) t v) (record s { graph = g })

unfoldable pub enqueue_unvisited : Search → ℕ → Run Search
enqueue_unvisited s neighbor = do
  n ← vertex_at s.graph neighbor
  if n.visited
      then done s
      else (do s1 ← mark s neighbor; q ← enqueue s1.queue neighbor; done (record s1 { queue = q }))

-- `while (!is_queue_empty())`.
unfoldable pub drain : (fuel : ℕ) → Search → Run Search
drain zero s = no_fuel
drain (suc fuel) s = if is_queue_empty s.queue then done s else (do
  (v, q) ← dequeue s.queue
  vertex ← vertex_at s.graph v
  let s1 = print (record s { queue = q }) (bfs_entered vertex.value)
  first ← read_node s1.graph (sentinel v)
  s2 ← list_for_each list_fuel enqueue_unvisited (sentinel v) first.next s1
  drain fuel (print s2 (bfs_exited vertex.value)))

unfoldable pub bfs_aux : Search → ℕ → Run Search
bfs_aux s v = do
  q ← enqueue s.queue v
  s1 ← mark (record s { queue = q }) v
  drain (suc (suc max_vertices)) s1

unfoldable pub bfs : Search → Run Search
bfs s = do g ← prepare_traversal s.graph; from_each g.vertices_sz 0 bfs_aux (record s { graph = g })

-- `while (edges--)`: an edge that is not in the input leaves `from` and `to` uninitialised.
unfoldable pub read_edges : (edges : ℕ) → Graph → List ℕ → Run (Graph × List ℕ)
read_edges zero g nums = done (g, nums)
read_edges (suc edges) g (from ∷ to ∷ nums) = add_edge g from to >>= λ g1. read_edges edges g1 nums
read_edges (suc edges) g _ = fault

-- `main` on the numbers of the input; a round reads two numbers at least.
unfoldable pub main : (fuel : ℕ) → Search → List ℕ → Run Search
main zero s nums = no_fuel
main (suc fuel) s (vertices ∷ edges ∷ nums) = do
  g ← initialize_graph s.graph vertices
  (g1, rest) ← read_edges edges g nums
  s1 ← dfs (record s { graph = g1 })
  s2 ← bfs s1
  main fuel s2 rest
main (suc fuel) s _ = done s

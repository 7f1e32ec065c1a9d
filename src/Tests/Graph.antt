-- ===== src/Tests/Graph.antt =====
-- DS_Algos/graphs/adj_list and DS_Algos/hash_table on small inputs.
use interview_questions.Prelude.{
  ◌==◌, if◌then◌else◌, replicate, length-replicate, ℕ, ◌≡◌, refl, false, none, some, List, [], ◌∷◌,
  arith,
}
use interview_questions.Prelude.Int.{pos}
use interview_questions.Prelude.Run.{done, fault}
use interview_questions.Graph.Queue.{QueueOp, put, get, ring_queue, list_queue, queue-fifo}
use interview_questions.HashTable as table
use interview_questions.HashTable.Destroy.{destroy_list-faults}

abbrev calls : List QueueOp
calls = put 4 ∷ put 5 ∷ get ∷ put 6 ∷ get ∷ []

abbrev zeros : List ℕ
zeros = replicate 128 0

queue-fifo_example :
    ring_queue calls (record { bfs_queue = zeros; head = 127; tail = 127; elem_count = 0 }) []
    ≡ list_queue calls [] []
queue-fifo_example = queue-fifo calls zeros 127 (length-replicate {A = ℕ} 128 0) (omega arith)

calls_run : list_queue calls [] [] ≡ done (false, 4 ∷ 5 ∷ [])
calls_run = refl

-- One slot with one node, at address 1.
abbrev head : table.HtNode
head = record { value = pos 0; key = pos 0; next = table.node 1; prev = table.node 1 }

abbrev one_node : table.Table
one_node = record {
  heads = head ∷ [];
  heap = λ p.
      if p == 1
      then some (record { value = pos 8; key = pos 3; next = table.slot 0; prev = table.slot 0 })
      else none;
}

destroy_list-faults_example : table.destroy_list 2 one_node (table.slot 0) ≡ fault
destroy_list-faults_example = destroy_list-faults 0 one_node 0 1 head refl refl

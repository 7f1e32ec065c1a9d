-- ===== src/Graph/Queue.antt =====
-- DS_Algos/graphs/adj_list/adjacency_list.c: the queue of `bfs`, a ring of 128 places.
use native.Mathlib.Decide.{dec_lt}
use interview_questions.Prelude.{
  ltb, ◌==◌, if◌then◌else◌, lt→ltb, le→not_ltb, length, get_elem?, set, length-append, length-set,
  get_elem?-eq-get_or, get_or-set_self, get_elem?-set_ne, ℕ, ◌+◌, ◌-◌, ◌%◌, ◌≤◌, ◌<◌, ◌≡◌, refl, ap,
  ◌∙◌, Bool, some, List, [], ◌∷◌, ◌++◌, arith,
}
use interview_questions.Prelude.Run.{
  Run, done, fault, ◌>>=◌, ◌>>◌, assert, present, Returns, Returns→done,
}
use interview_questions.Graph.{max_vertices}

pub record Queue : Type 0 where
  pub bfs_queue : List ℕ
  pub head : ℕ
  pub tail : ℕ
  pub elem_count : ℕ

unfoldable pub enqueue : Queue → ℕ → Run Queue
enqueue q v = do
  assert (ltb q.elem_count max_vertices)
  if ltb q.tail (length q.bfs_queue)
      then done (record {
        bfs_queue = set q.bfs_queue q.tail v;
        head = q.head;
        tail = (q.tail + 1) % max_vertices;
        elem_count = q.elem_count + 1;
      })
      else fault

unfoldable pub dequeue : Queue → Run (ℕ × Queue)
dequeue q = do
  assert (ltb 0 q.elem_count)
  v ← present (get_elem? q.bfs_queue q.head)
  done (
    v,
    record {
      bfs_queue = q.bfs_queue;
      head = (q.head + 1) % max_vertices;
      tail = q.tail;
      elem_count = q.elem_count - 1;
    },
  )

unfoldable pub is_queue_empty : Queue → Bool
is_queue_empty q = q.elem_count == 0

-- The ring holds the elements of a list, the first one at index `i`.
abbrev Ring : List ℕ → ℕ → List ℕ → Type 0
Ring a i [] = Unit {0}
Ring a i (x ∷ xs) = (get_elem? a i ≡ some x) × Ring a ((i + 1) % max_vertices) xs

record Represents (q : Queue) (xs : List ℕ) : Type 0 where
  size : length q.bfs_queue ≡ max_vertices
  count : q.elem_count ≡ length xs
  head_in : q.head < max_vertices
  tail_is : q.tail ≡ (q.head + length xs) % max_vertices
  held : Ring q.bfs_queue q.head xs

get_elem?-set_self : (a : List ℕ) (i v : ℕ) → i < length a → get_elem? (set a i v) i ≡ some v
get_elem?-set_self a i v lt =
    get_elem?-eq-get_or (set a i v) i 0 (omega (arith, length-set a i v))
    ∙ ap some (get_or-set_self a i v 0 lt)

Ring-push :
    (a xs : List ℕ) (i t v : ℕ)
    → length a ≡ max_vertices
    → i < max_vertices
    → length xs < max_vertices
    → t ≡ (i + length xs) % max_vertices
    → Ring a i xs
    → Ring (set a t v) i (xs ++ v ∷ [])
Ring-push a [] i t v size lt room e held =
    let same : t ≡ i = omega arith in (rw same (get_elem?-set_self a i v (omega arith)), tt)
Ring-push a (x ∷ xs) i t v size lt room e held = (
  get_elem?-set_ne a t i v (omega arith) ∙ held.0,
  Ring-push a xs ((i + 1) % max_vertices) t v size (omega arith) (omega arith) (omega arith) held.1,
)

pub data QueueOp : Type 0 where
  put : ℕ → QueueOp
  get : QueueOp

-- What the calls of `dequeue` return, and what is left.
abbrev pub ring_queue : List QueueOp → Queue → List ℕ → Run (Bool × List ℕ)
ring_queue [] q taken = done (is_queue_empty q, taken)
ring_queue (put v ∷ ops) q taken = enqueue q v >>= λ q'. ring_queue ops q' taken
ring_queue (get ∷ ops) q taken = dequeue q >>= λ r. ring_queue ops r.1 (taken ++ r.0 ∷ [])

-- The same calls on a list: first in, first out, with room for 128 elements.
abbrev pub list_queue : List QueueOp → List ℕ → List ℕ → Run (Bool × List ℕ)
list_queue [] xs taken = done (length xs == 0, taken)
list_queue (put v ∷ ops) xs taken =
    assert (ltb (length xs) max_vertices) >> list_queue ops (xs ++ v ∷ []) taken
list_queue (get ∷ ops) [] taken = fault
list_queue (get ∷ ops) (x ∷ xs) taken = list_queue ops xs (taken ++ x ∷ [])

enqueue_lem :
    (q : Queue) (xs : List ℕ) (v : ℕ)
    → Represents q xs
    → length xs < max_vertices
    → Returns (enqueue q v) (λ q'. Represents q' (xs ++ v ∷ []))
unfolding enqueue
enqueue_lem q xs v rep room = rw (lt→ltb q.elem_count max_vertices (omega (arith, rep.count))) (
    rw (lt→ltb q.tail (length q.bfs_queue) (omega (arith, rep.tail_is, rep.size))) (record {
      size = length-set q.bfs_queue q.tail v ∙ rep.size;
      count = omega (arith, rep.count, length-append xs (v ∷ []));
      head_in = rep.head_in;
      tail_is = omega (arith, rep.tail_is, length-append xs (v ∷ []));
      held =
          Ring-push q.bfs_queue xs q.head q.tail v rep.size rep.head_in room rep.tail_is rep.held;
    }))

dequeue_lem :
    (q : Queue) (x : ℕ) (xs : List ℕ)
    → Represents q (x ∷ xs)
    → Returns (dequeue q) (λ r. (r.0 ≡ x) × Represents r.1 xs)
unfolding dequeue
dequeue_lem q x xs rep = rw (lt→ltb 0 q.elem_count (omega (arith, rep.count))) (
    rw (rep.held.0) (
      refl,
      record {
        size = rep.size;
        count = omega (arith, rep.count);
        head_in = omega arith;
        tail_is = omega (arith, rep.tail_is, rep.head_in);
        held = rep.held.1;
      },
    ))

enqueue-full : (q : Queue) (v : ℕ) → max_vertices ≤ q.elem_count → enqueue q v ≡ fault
unfolding enqueue
enqueue-full q v full = rw (le→not_ltb q.elem_count max_vertices full) refl

dequeue-empty : (q : Queue) → q.elem_count ≡ 0 → dequeue q ≡ fault
unfolding dequeue
dequeue-empty q e = rw (le→not_ltb 0 q.elem_count (omega arith)) refl

ring_queue_lem :
    (ops : List QueueOp) (q : Queue) (xs taken : List ℕ)
    → Represents q xs
    → ring_queue ops q taken ≡ list_queue ops xs taken
unfolding is_queue_empty
ring_queue_lem [] q xs taken rep = rw rep.count refl
ring_queue_lem (put v ∷ ops) q xs taken rep = elim (dec_lt (length xs) max_vertices) [
  | yes room ↦
      let (q', e, rep') = Returns→done _ (enqueue q v) (enqueue_lem q xs v rep room) in
      rw e (
        rw (lt→ltb (length xs) max_vertices room) (ring_queue_lem ops q' (xs ++ v ∷ []) taken rep'))
  | no full ↦
      rw (enqueue-full q v (omega (arith, rep.count)))
        (rw (le→not_ltb (length xs) max_vertices (omega arith)) refl)
]
ring_queue_lem (get ∷ ops) q [] taken rep = rw (dequeue-empty q rep.count) refl
ring_queue_lem (get ∷ ops) q (x ∷ xs) taken rep =
    let (r, e, left) = Returns→done _ (dequeue q) (dequeue_lem q x xs rep) in
    rw e (rw left.0 (ring_queue_lem ops r.1 xs _ left.1))

-- Started empty at any place of a ring of 128 elements with any contents, the queue of `bfs` gives
-- for every sequence of calls what a list of at most 128 elements gives, first in, first out, and
-- fails an assertion exactly where that list is full or empty.
pub queue-fifo :
    (ops : List QueueOp) (ring : List ℕ) (head : ℕ)
    → length ring ≡ max_vertices
    → head < max_vertices
    → ring_queue ops (record { bfs_queue = ring; head = head; tail = head; elem_count = 0 }) []
      ≡ list_queue ops [] []
queue-fifo ops ring head size lt =
    ring_queue_lem ops _ [] []
      (record { size = size; count = refl; head_in = lt; tail_is = omega arith; held = tt })

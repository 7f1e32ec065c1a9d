-- ===== src/Threads/WorkQueue.antt =====
-- threads/work_queue/wqueue_condvars.c: `get_job` and `insert_job` on the shared list, by the
-- workers and the boss, one constructor of `Step` to an access of `workq`. A job is named by a number.
-- A thread that has read `workq` keeps what it read, whatever the others write since.
use interview_questions.Prelude.{
  get_elem?, set, replicate, ℕ, ◌≡◌, ◌≢◌, Bool, true, false, some, List, [], ◌∷◌,
}
pub mod Jobs
pub mod Counted

-- Where a thread stands: outside; at the test of the `while`, with the lock; asleep in
-- `pthread_cond_wait`; awake, about to take the lock again; behind `ret = workq`; behind the read of
-- `workq->next`; behind `workq = workq->next`; behind the lock of `insert_job`; behind
-- `new_job->next = workq`; behind `workq = new_job`; before `pthread_cond_signal`.
pub data Pc : Type 0 where
  idle : Pc
  testing : Pc
  asleep : Pc
  woken : Pc
  holding : (ret : ℕ) → Pc
  advancing : (ret : ℕ) (next : List ℕ) → Pc
  took : Pc
  entered : Pc
  linking : (new_job : ℕ) (next : List ℕ) → Pc
  added : Pc
  signaling : Pc

-- `inserted` and `taken` are for the statements only, the last one first.
pub record System : Type 0 where
  pub workq : List ℕ
  pub locked : Bool
  pub pcs : List Pc
  pub inserted : List ℕ
  pub taken : List ℕ

abbrev pub start : (threads : ℕ) → System
start threads = record {
  workq = [];
  locked = false;
  pcs = replicate threads idle;
  inserted = [];
  taken = [];
}

pub data Step (s t : System) : Type 0 where
  -- get_job
  lock_get :
      (i : ℕ)
      → get_elem? s.pcs i ≡ some idle
      → s.locked ≡ false
      → t ≡ record s { locked = true; pcs = set s.pcs i testing }
      → Step s t
  cond_wait :
      (i : ℕ)
      → get_elem? s.pcs i ≡ some testing
      → s.workq ≡ []
      → t ≡ record s { locked = false; pcs = set s.pcs i asleep }
      → Step s t
  relock :
      (i : ℕ)
      → get_elem? s.pcs i ≡ some woken
      → s.locked ≡ false
      → t ≡ record s { locked = true; pcs = set s.pcs i testing }
      → Step s t
  read_head :
      (i ret : ℕ) (rest : List ℕ)
      → get_elem? s.pcs i ≡ some testing
      → s.workq ≡ ret ∷ rest
      → t ≡ record s { pcs = set s.pcs i (holding ret) }
      → Step s t
  read_next :
      (i ret first : ℕ) (next : List ℕ)
      → get_elem? s.pcs i ≡ some (holding ret)
      → s.workq ≡ first ∷ next
      → t ≡ record s { pcs = set s.pcs i (advancing ret next) }
      → Step s t
  take_job :
      (i ret : ℕ) (next : List ℕ)
      → get_elem? s.pcs i ≡ some (advancing ret next)
      → t ≡ record s { workq = next; pcs = set s.pcs i took; taken = ret ∷ s.taken }
      → Step s t
  unlock_get :
      (i : ℕ)
      → get_elem? s.pcs i ≡ some took
      → t ≡ record s { locked = false; pcs = set s.pcs i idle }
      → Step s t
  -- insert_job
  lock_insert :
      (i : ℕ)
      → get_elem? s.pcs i ≡ some idle
      → s.locked ≡ false
      → t ≡ record s { locked = true; pcs = set s.pcs i entered }
      → Step s t
  link_job :
      (i new_job : ℕ)
      → get_elem? s.pcs i ≡ some entered
      → t ≡ record s { pcs = set s.pcs i (linking new_job s.workq) }
      → Step s t
  put_job :
      (i new_job : ℕ) (next : List ℕ)
      → get_elem? s.pcs i ≡ some (linking new_job next)
      → t ≡ record s {
        workq = new_job ∷ next;
        pcs = set s.pcs i added;
        inserted = new_job ∷ s.inserted;
      }
      → Step s t
  unlock_insert :
      (i : ℕ)
      → get_elem? s.pcs i ≡ some added
      → t ≡ record s { locked = false; pcs = set s.pcs i signaling }
      → Step s t
  signal_one :
      (i j : ℕ)
      → get_elem? s.pcs i ≡ some signaling
      → get_elem? s.pcs j ≡ some asleep
      → t ≡ record s { pcs = set (set s.pcs i idle) j woken }
      → Step s t
  signal_none :
      (i : ℕ)
      → get_elem? s.pcs i ≡ some signaling
      → ((j : ℕ) → get_elem? s.pcs j ≢ some asleep)
      → t ≡ record s { pcs = set s.pcs i idle }
      → Step s t
  -- A sleeper that wakes up without a signal.
  spurious :
      (i : ℕ)
      → get_elem? s.pcs i ≡ some asleep
      → t ≡ record s { pcs = set s.pcs i woken }
      → Step s t

pub data Reach (s : System) : System → Type 0 where
  here : Reach s s
  later : {t u : System} → Reach s t → Step t u → Reach s u

-- ===== src/Threads/Barrier.antt =====
-- threads/barriers/barrier.c: `thread_barrier_init` and `thread_barrier_wait`. What a thread does
-- between `pthread_mutex_lock` and the call that gives the lock up is one step: the counter is read
-- and written under the lock only. `unsigned long long` has 64 bits.
use interview_questions.Prelude.{
  get_elem?, set, replicate, ℕ, suc, ◌+◌, ◌%◌, ◌^◌, ◌≡◌, ◌≢◌, Bool, true, false, some, List, map,
}
use interview_questions.Threads.{total}
pub mod Groups

-- Outside; behind `pthread_mutex_lock`; in `pthread_cond_wait`; awake, about to take the lock again;
-- before `pthread_mutex_unlock`.
pub data Pc : Type 0 where
  idle : Pc
  entered : Pc
  asleep : Pc
  woken : Pc
  leaving : Pc

-- `pthread_cond_broadcast`.
abbrev pub wake : Pc → Pc
wake asleep = woken
wake idle = idle
wake entered = entered
wake woken = woken
wake leaving = leaving

abbrev pub sleeps : Pc → ℕ
sleeps asleep = 1
sleeps idle = 0
sleeps entered = 0
sleeps woken = 0
sleeps leaving = 0

-- `released` counts the threads that the barrier has let go, and `returned` the calls of
-- `thread_barrier_wait` that have returned, for the statements only.
pub record System : Type 0 where
  pub target : ℕ
  pub counter : ℕ
  pub locked : Bool
  pub pcs : List Pc
  pub released : ℕ
  pub returned : ℕ

abbrev pub thread_barrier_init : (count threads : ℕ) → System
thread_barrier_init count threads = record {
  target = count;
  counter = 0;
  locked = false;
  pcs = replicate threads idle;
  released = 0;
  returned = 0;
}

-- The flag says whether sleepers may wake up without a broadcast.
pub data Step (spurious : Bool) (s t : System) : Type 0 where
  lock :
      (i : ℕ)
      → get_elem? s.pcs i ≡ some idle
      → s.locked ≡ false
      → t ≡ record s { locked = true; pcs = set s.pcs i entered }
      → Step spurious s t
  -- `++barrier->counter == barrier->target`
  last :
      (i : ℕ)
      → get_elem? s.pcs i ≡ some entered
      → (s.counter + 1) % 2 ^ 64 ≡ s.target
      → t ≡ record s {
        counter = 0;
        pcs = map wake (set s.pcs i leaving);
        released = s.released + suc (total sleeps s.pcs);
      }
      → Step spurious s t
  cond_wait :
      (i : ℕ)
      → get_elem? s.pcs i ≡ some entered
      → (s.counter + 1) % 2 ^ 64 ≢ s.target
      → t
        ≡ record s { counter = (s.counter + 1) % 2 ^ 64; locked = false; pcs = set s.pcs i asleep }
      → Step spurious s t
  relock :
      (i : ℕ)
      → get_elem? s.pcs i ≡ some woken
      → s.locked ≡ false
      → t ≡ record s { locked = true; pcs = set s.pcs i leaving }
      → Step spurious s t
  unlock :
      (i : ℕ)
      → get_elem? s.pcs i ≡ some leaving
      → t ≡ record s { locked = false; pcs = set s.pcs i idle; returned = suc s.returned }
      → Step spurious s t
  wake_up :
      (i : ℕ)
      → spurious ≡ true
      → get_elem? s.pcs i ≡ some asleep
      → t ≡ record s { pcs = set s.pcs i woken }
      → Step spurious s t

pub data Reach (spurious : Bool) (s : System) : System → Type 0 where
  here : Reach spurious s s
  later : {t u : System} → Reach spurious s t → Step spurious t u → Reach spurious s u

-- ===== src/Threads/Semaphore.antt =====
-- threads/semaphores/semaphore.c: `semaphore_init`, `semaphore_wait` and `semaphore_post`, one
-- constructor of `Step` to a statement. `unsigned long long` has 64 bits.
use interview_questions.Prelude.{
  get_elem?, set, replicate, ℕ, ◌+◌, ◌-◌, ◌%◌, ◌^◌, ◌<◌, ◌≡◌, ◌≢◌, Bool, true, false, some, List,
}
pub mod Invariant

-- Where a thread stands: outside; at the test of the `while`, with the lock; asleep in
-- `pthread_cond_wait`; awake, about to take the lock again; behind `counter--`, with the lock; before
-- and behind `counter++`, with the lock; before `pthread_cond_signal`.
pub data Pc : Type 0 where
  idle : Pc
  testing : Pc
  asleep : Pc
  woken : Pc
  took : Pc
  entered : Pc
  added : Pc
  signaling : Pc

-- The semaphore and its threads. `posted` and `passed` count what was added and taken, for the
-- statements only.
pub record System : Type 0 where
  pub counter : ℕ
  pub locked : Bool
  pub pcs : List Pc
  pub posted : ℕ
  pub passed : ℕ

-- `semaphore_init` with a value, and `n` threads outside.
abbrev pub semaphore_init : (value n : ℕ) → System
semaphore_init value n = record {
  counter = value;
  locked = false;
  pcs = replicate n idle;
  posted = 0;
  passed = 0;
}

pub data Step (s t : System) : Type 0 where
  -- semaphore_wait
  lock_wait :
      (i : ℕ)
      → get_elem? s.pcs i ≡ some idle
      → s.locked ≡ false
      → t ≡ record s { locked = true; pcs = set s.pcs i testing }
      → Step s t
  cond_wait :
      (i : ℕ)
      → get_elem? s.pcs i ≡ some testing
      → s.counter ≡ 0
      → t ≡ record s { locked = false; pcs = set s.pcs i asleep }
      → Step s t
  relock :
      (i : ℕ)
      → get_elem? s.pcs i ≡ some woken
      → s.locked ≡ false
      → t ≡ record s { locked = true; pcs = set s.pcs i testing }
      → Step s t
  decrement :
      (i : ℕ)
      → get_elem? s.pcs i ≡ some testing
      → 0 < s.counter
      → t ≡ record s { counter = s.counter - 1; pcs = set s.pcs i took; passed = s.passed + 1 }
      → Step s t
  unlock_wait :
      (i : ℕ)
      → get_elem? s.pcs i ≡ some took
      → t ≡ record s { locked = false; pcs = set s.pcs i idle }
      → Step s t
  -- semaphore_post
  lock_post :
      (i : ℕ)
      → get_elem? s.pcs i ≡ some idle
      → s.locked ≡ false
      → t ≡ record s { locked = true; pcs = set s.pcs i entered }
      → Step s t
  increment :
      (i : ℕ)
      → get_elem? s.pcs i ≡ some entered
      → t ≡ record s {
        counter = (s.counter + 1) % 2 ^ 64;
        pcs = set s.pcs i added;
        posted = s.posted + 1;
      }
      → Step s t
  unlock_post :
      (i : ℕ)
      → get_elem? s.pcs i ≡ some added
      → t ≡ record s { locked = false; pcs = set s.pcs i signaling }
      → Step s t
  signal_one :
      (i j : ℕ)
      → get_elem? s.pcs i ≡ some signaling
      → get_elem? s.pcs j ≡ some asleep
      → t ≡ record s { pcs = set (set s.pcs i idle) j woken }
      → Step s t
  signal_none :
      (i : ℕ)
      → get_elem? s.pcs i ≡ some signaling
      → ((j : ℕ) → get_elem? s.pcs j ≢ some asleep)
      → t ≡ record s { pcs = set s.pcs i idle }
      → Step s t
  -- A sleeper that wakes up without a signal.
  spurious :
      (i : ℕ)
      → get_elem? s.pcs i ≡ some asleep
      → t ≡ record s { pcs = set s.pcs i woken }
      → Step s t

pub data Reach (s : System) : System → Type 0 where
  here : Reach s s
  later : {t u : System} → Reach s t → Step t u → Reach s u

-- ===== src/Tests/Threads.antt =====
-- threads on small runs.
use interview_questions.Prelude.{
  length, get_elem?, ℕ, ◌*◌, ◌<◌, ◌≡◌, refl, ap, true, false, some, [], ◌∷◌, ◌++◌, arith,
}
use interview_questions.Threads.Semaphore as sem
use interview_questions.Threads.Semaphore.Invariant.{Inv, on_way, Reach-Inv, no_lost_wakeup}
use interview_questions.Threads.WorkQueue as queue
use interview_questions.Threads.WorkQueue.Jobs.{jobs_conserved}
use interview_questions.Threads.WorkQueue.Counted.{place, no_job_forgotten}
use interview_questions.Threads.Barrier as barrier
use interview_questions.Threads.Barrier.Groups.{released_in_groups, released_too_early}
use interview_questions.Threads.{total}
use mathlib.Core.List.{Perm}

-- One thread waits at 0, another posts and is about to signal.
abbrev posted_one : sem.System
posted_one = record {
  counter = 1;
  locked = true;
  pcs = sem.asleep ∷ sem.added ∷ [];
  posted = 1;
  passed = 0;
}

one_waits : sem.Reach (sem.semaphore_init 0 2) posted_one
one_waits =
    sem.later
      (sem.later
        (sem.later (sem.later sem.here (sem.lock_wait 0 refl refl refl))
          (sem.cond_wait 0 refl refl refl))
        (sem.lock_post 1 refl refl refl))
      (sem.increment 1 refl refl)

Reach-Inv_example : Inv 0 posted_one
Reach-Inv_example = Reach-Inv 0 2 posted_one (omega arith) one_waits

no_lost_wakeup_example :
    (j : ℕ) × (p : sem.Pc) × (get_elem? posted_one.pcs j ≡ some p) × (0 < on_way p)
no_lost_wakeup_example = no_lost_wakeup 0 2 posted_one (omega arith) one_waits 0 refl (omega arith)

-- A worker sleeps, and the boss has inserted job 8.
abbrev inserted_one : queue.System
inserted_one = record {
  workq = 8 ∷ [];
  locked = true;
  pcs = queue.asleep ∷ queue.added ∷ [];
  inserted = 8 ∷ [];
  taken = [];
}

one_works : queue.Reach (queue.start 2) inserted_one
one_works =
    queue.later
      (queue.later
        (queue.later
          (queue.later (queue.later queue.here (queue.lock_get 0 refl refl refl))
            (queue.cond_wait 0 refl refl refl))
          (queue.lock_insert 1 refl refl refl))
        (queue.link_job 1 8 refl refl))
      (queue.put_job 1 8 [] refl refl)

jobs_conserved_example : Perm (inserted_one.taken ++ inserted_one.workq) inserted_one.inserted
jobs_conserved_example = jobs_conserved 2 inserted_one one_works

no_job_forgotten_example :
    (j : ℕ) × (p : queue.Pc) × (get_elem? inserted_one.pcs j ≡ some p) × (0 < on_way (place p))
no_job_forgotten_example =
    no_job_forgotten 2 inserted_one (omega arith) one_works 0 refl
      (λ e. absurd (ground (arith, ap length e)))

-- A barrier for two: both came, and both were let go.
abbrev let_go : barrier.System
let_go = record {
  target = 2;
  counter = 0;
  locked = true;
  pcs = barrier.woken ∷ barrier.leaving ∷ [];
  released = 2;
  returned = 0;
}

both_come : barrier.Reach false (barrier.thread_barrier_init 2 2) let_go
both_come =
    barrier.later
      (barrier.later
        (barrier.later (barrier.later barrier.here (barrier.lock 0 refl refl refl))
          (barrier.cond_wait 0 refl (λ h. absurd (omega arith)) refl))
        (barrier.lock 1 refl refl refl))
      (barrier.last 1 refl refl refl)

released_in_groups_example : ((k : ℕ) × (2 ≡ k * 2)) × (total barrier.sleeps let_go.pcs < 2)
released_in_groups_example = released_in_groups 2 2 let_go (omega arith) (omega arith) both_come

released_too_early_example :
    (t : barrier.System) × barrier.Reach true (barrier.thread_barrier_init 3 3) t
    × (t.counter ≡ 1)
    × (t.returned ≡ 1)
    × (t.released ≡ 0)
    × (t.pcs ≡ barrier.idle ∷ barrier.idle ∷ barrier.idle ∷ [])
released_too_early_example = released_too_early 3 3 (omega arith) (omega arith) (omega arith)

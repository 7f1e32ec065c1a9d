-- ===== src/Threads/Barrier/Groups.antt =====
-- threads/barriers/barrier.c: how many threads the barrier lets go.
use interview_questions.Prelude.{
  set, replicate, ℕ, zero, suc, ◌+◌, ◌*◌, ◌%◌, ◌^◌, ◌<◌, ◌≡◌, refl, true, false, List, [], ◌∷◌, map,
  arith,
}
use native.Mathlib.Nat.{suc-mul}
use interview_questions.Threads.{total, total-set, total-replicate}
use interview_questions.Threads.Barrier.{
  Pc, idle, entered, asleep, woken, leaving, wake, sleeps, System, thread_barrier_init, Step, lock,
  last, cond_wait, relock, unlock, wake_up, Reach, here, later,
}

record Inv (count : ℕ) (s : System) : Type 0 where
  target_is : s.target ≡ count
  below : s.counter < count
  waiting : total sleeps s.pcs ≡ s.counter
  groups : (k : ℕ) × (s.released ≡ k * count)

sleeps-wake : (p : Pc) → sleeps (wake p) ≡ 0
sleeps-wake idle = refl
sleeps-wake entered = refl
sleeps-wake asleep = refl
sleeps-wake woken = refl
sleeps-wake leaving = refl

all_awake : (pcs : List Pc) → total sleeps (map wake pcs) ≡ 0
all_awake [] = refl
all_awake (p ∷ pcs) = omega (arith, sleeps-wake p, all_awake pcs)

next_group :
    (released count : ℕ)
    → (k : ℕ) × (released ≡ k * count)
    → (k : ℕ) × (released + count ≡ k * count)
next_group released count (k, e) = (suc k, ground (arith, e, suc-mul k count))

fits : (count counter : ℕ) → counter < count → count < 2 ^ 32 → (counter + 1) % 2 ^ 64 ≡ counter + 1
fits count counter below small = omega arith

Step-Inv : (count : ℕ) (s t : System) → count < 2 ^ 32 → Step false s t → Inv count s → Inv count t
Step-Inv count s t small (lock i e free is) inv = rw is (record {
  target_is = inv.target_is;
  below = inv.below;
  waiting = omega (arith, total-set sleeps s.pcs i idle entered e, inv.waiting);
  groups = inv.groups;
})
Step-Inv count s t small (last i e full is) inv =
    let all : suc (total sleeps s.pcs) ≡ count =
      omega (arith, inv.waiting, full, inv.target_is, fits count s.counter inv.below small) in
    rw is (record {
      target_is = inv.target_is;
      below = omega (arith, inv.below);
      waiting = all_awake (set s.pcs i leaving);
      groups = rw all (next_group s.released count inv.groups);
    })
Step-Inv count s t small (cond_wait i e more is) inv =
    let next = fits count s.counter inv.below small in
    rw is (
      rw next (record {
        target_is = inv.target_is;
        below = omega (arith, inv.below, inv.target_is, more, next);
        waiting = omega (arith, total-set sleeps s.pcs i entered asleep e, inv.waiting);
        groups = inv.groups;
      }))
Step-Inv count s t small (relock i e free is) inv = rw is (record {
  target_is = inv.target_is;
  below = inv.below;
  waiting = omega (arith, total-set sleeps s.pcs i woken leaving e, inv.waiting);
  groups = inv.groups;
})
Step-Inv count s t small (unlock i e is) inv = rw is (record {
  target_is = inv.target_is;
  below = inv.below;
  waiting = omega (arith, total-set sleeps s.pcs i leaving idle e, inv.waiting);
  groups = inv.groups;
})
Step-Inv count s t small (wake_up i flag e is) inv = absurd (ground (arith, flag))

-- Where no sleeper wakes up without a broadcast, a barrier for `count` threads, a number of 32 bits
-- above 0, lets the threads go
-- in groups of `count`: at every time those it has let go are a multiple of `count`, and fewer than
-- `count` threads wait.
pub released_in_groups :
    (count threads : ℕ) (t : System)
    → 0 < count
    → count < 2 ^ 32
    → Reach false (thread_barrier_init count threads) t
    → ((k : ℕ) × (t.released ≡ k * count)) × (total sleeps t.pcs < count)
released_in_groups count threads t positive small r =
    let inv = Reach-Inv t r in (inv.groups, omega (arith, inv.waiting, inv.below))
  where
    Reach-Inv : (u : System) → Reach false (thread_barrier_init count threads) u → Inv count u
    Reach-Inv u here = record {
      target_is = refl;
      below = positive;
      waiting = total-replicate sleeps threads idle refl;
      groups = (0, omega arith);
    }
    Reach-Inv u (later {t = v} q st) = Step-Inv count v u small st (Reach-Inv v q)

-- POSIX lets `pthread_cond_wait` return without a broadcast, and the barrier does not test again: for
-- every barrier for two threads or more, and below 2^32, a state can be reached where one thread has
-- come and its call has returned, while the barrier has let none go and all threads are outside.
pub released_too_early :
    (count threads : ℕ)
    → 1 < count
    → count < 2 ^ 32
    → 0 < threads
    → (t : System) × Reach true (thread_barrier_init count threads) t
      × (t.counter ≡ 1)
      × (t.returned ≡ 1)
      × (t.released ≡ 0)
      × (t.pcs ≡ replicate threads idle)
released_too_early count zero more small some_thread = absurd (omega arith)
released_too_early count (suc threads) more small some_thread = (t, r, refl, refl, refl, refl)
  where
    held : System
    held = record {
      target = count;
      counter = 0;
      locked = true;
      pcs = entered ∷ replicate threads idle;
      released = 0;
      returned = 0;
    }

    waits : System
    waits = record held { counter = 1; locked = false; pcs = asleep ∷ replicate threads idle }

    awake : System
    awake = record waits { pcs = woken ∷ replicate threads idle }

    out : System
    out = record waits { locked = true; pcs = leaving ∷ replicate threads idle }

    t : System
    t = record waits { pcs = idle ∷ replicate threads idle; returned = 1 }

    r : Reach true (thread_barrier_init count (suc threads)) t
    r =
        later {u = t}
          (later {u = out}
            (later {u = awake}
              (later {u = waits} (later {u = held} here (lock 0 refl refl refl))
                (cond_wait 0 refl (λ h. omega (arith, h, more)) refl))
              (wake_up 0 refl refl refl))
            (relock 0 refl refl refl))
          (unlock 0 refl refl)

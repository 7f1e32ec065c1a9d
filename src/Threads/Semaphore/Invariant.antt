-- ===== src/Threads/Semaphore/Invariant.antt =====
-- threads/semaphores/semaphore.c: what holds in every state that the threads can reach.
use native.Mathlib.Decide.{dec_lt}
use interview_questions.Prelude.{
  if◌then◌else◌, get_elem?, set, get_elem?-set_ne, ℕ, ◌+◌, ◌%◌, ◌^◌, ◌≤◌, ◌<◌, ◌≡◌, refl, ap, ◌∙◌,
  ◌≢◌, ◌⊎◌, inl, some, List, arith,
}
use interview_questions.Threads.{total, total-set, total-member, total-some, total-replicate}
use interview_questions.Threads.Semaphore.{
  Pc, idle, testing, asleep, woken, took, entered, added, signaling, System, semaphore_init, Step,
  lock_wait, cond_wait, relock, decrement, unlock_wait, lock_post, increment, unlock_post,
  signal_one, signal_none, spurious, Reach, here, later,
}

-- Threads with the lock, sleepers, and threads that will test the counter or signal.
abbrev pub has_lock : Pc → ℕ
has_lock idle = 0
has_lock testing = 1
has_lock asleep = 0
has_lock woken = 0
has_lock took = 1
has_lock entered = 1
has_lock added = 1
has_lock signaling = 0

abbrev pub sleeps : Pc → ℕ
sleeps idle = 0
sleeps testing = 0
sleeps asleep = 1
sleeps woken = 0
sleeps took = 0
sleeps entered = 0
sleeps added = 0
sleeps signaling = 0

abbrev pub on_way : Pc → ℕ
on_way idle = 0
on_way testing = 1
on_way asleep = 0
on_way woken = 1
on_way took = 0
on_way entered = 0
on_way added = 1
on_way signaling = 1

pub record Inv (value : ℕ) (s : System) : Type 0 where
  pub conserved : s.counter + s.passed ≡ value + s.posted
  pub owners : total has_lock s.pcs ≡ (if s.locked then 1 else 0)
  pub heard : (total sleeps s.pcs ≡ 0) ⊎ (s.counter ≤ total on_way s.pcs)

-- What a step of one thread does to the three sums.
record Sums (pcs pcs' : List Pc) (p q : Pc) : Type 0 where
  locks : total has_lock pcs' + has_lock p ≡ total has_lock pcs + has_lock q
  sleepers : total sleeps pcs' + sleeps p ≡ total sleeps pcs + sleeps q
  ways : total on_way pcs' + on_way p ≡ total on_way pcs + on_way q

Sums-set :
    (pcs : List Pc) (i : ℕ) (p q : Pc) → get_elem? pcs i ≡ some p → Sums pcs (set pcs i q) p q
Sums-set pcs i p q e = record {
  locks = total-set has_lock pcs i p q e;
  sleepers = total-set sleeps pcs i p q e;
  ways = total-set on_way pcs i p q e;
}

no_sleeper : (pcs : List Pc) → ((j : ℕ) → get_elem? pcs j ≢ some asleep) → total sleeps pcs ≡ 0
no_sleeper pcs none_sleeps = elim (dec_lt 0 (total sleeps pcs)) [
  | yes lt ↦
      let (j, p, e, sleeping) = total-some sleeps pcs lt in
      absurd (none_sleeps j (e ∙ ap some (is_asleep p sleeping)))
  | no ge ↦ omega arith
]
  where
    is_asleep : (p : Pc) → 0 < sleeps p → p ≡ asleep
    is_asleep asleep h = refl
    is_asleep idle h = absurd (omega arith)
    is_asleep testing h = absurd (omega arith)
    is_asleep woken h = absurd (omega arith)
    is_asleep took h = absurd (omega arith)
    is_asleep entered h = absurd (omega arith)
    is_asleep added h = absurd (omega arith)
    is_asleep signaling h = absurd (omega arith)

not_same :
    (pcs : List Pc) (i j : ℕ)
    → get_elem? pcs i ≡ some signaling
    → get_elem? pcs j ≡ some asleep
    → i ≢ j
not_same pcs i j e f h = absurd (ground (arith, ap (get_elem? pcs) h, e, f))

Step-Inv :
    (value : ℕ) (s t : System) → value + t.posted < 2 ^ 64 → Step s t → Inv value s → Inv value t
Step-Inv value s t small (lock_wait i e free is) inv =
    let sums = Sums-set s.pcs i idle testing e in
    rw is (record {
      conserved = omega (arith, inv.conserved);
      owners = ground (arith, inv.owners, sums.locks);
      heard = ground (arith, inv.heard, sums.sleepers, sums.ways);
    })
Step-Inv value s t small (cond_wait i e zero_counter is) inv =
    let sums = Sums-set s.pcs i testing asleep e in
    rw is (record {
      conserved = omega (arith, inv.conserved);
      owners = ground (arith, inv.owners, sums.locks);
      heard = ground (arith, inv.heard, sums.sleepers, sums.ways);
    })
Step-Inv value s t small (relock i e free is) inv =
    let sums = Sums-set s.pcs i woken testing e in
    rw is (record {
      conserved = omega (arith, inv.conserved);
      owners = ground (arith, inv.owners, sums.locks);
      heard = ground (arith, inv.heard, sums.sleepers, sums.ways);
    })
Step-Inv value s t small (decrement i e some_left is) inv =
    let sums = Sums-set s.pcs i testing took e in
    rw is (record {
      conserved = omega (arith, inv.conserved);
      owners = ground (arith, inv.owners, sums.locks);
      heard = ground (arith, inv.heard, sums.sleepers, sums.ways);
    })
Step-Inv value s t small (unlock_wait i e is) inv =
    let sums = Sums-set s.pcs i took idle e in
    rw is (record {
      conserved = omega (arith, inv.conserved);
      owners = ground (arith, inv.owners, sums.locks);
      heard = ground (arith, inv.heard, sums.sleepers, sums.ways);
    })
Step-Inv value s t small (lock_post i e free is) inv =
    let sums = Sums-set s.pcs i idle entered e in
    rw is (record {
      conserved = omega (arith, inv.conserved);
      owners = ground (arith, inv.owners, sums.locks);
      heard = ground (arith, inv.heard, sums.sleepers, sums.ways);
    })
Step-Inv value s t small (increment i e is) inv =
    let sums = Sums-set s.pcs i entered added e in
    let bound = rw is at small in
    let fits : (s.counter + 1) % 2 ^ 64 ≡ s.counter + 1 = omega (arith, bound, inv.conserved) in
    rw is (
      rw fits (record {
        conserved = omega (arith, inv.conserved);
        owners = ground (arith, inv.owners, sums.locks);
        heard = ground (arith, inv.heard, sums.sleepers, sums.ways);
      }))
Step-Inv value s t small (unlock_post i e is) inv =
    let sums = Sums-set s.pcs i added signaling e in
    rw is (record {
      conserved = omega (arith, inv.conserved);
      owners = ground (arith, inv.owners, sums.locks);
      heard = ground (arith, inv.heard, sums.sleepers, sums.ways);
    })
Step-Inv value s t small (signal_one i j e f is) inv =
    let sums = Sums-set s.pcs i signaling idle e in
    let sums' =
      Sums-set (set s.pcs i idle) j asleep woken
        (get_elem?-set_ne s.pcs i j idle (not_same s.pcs i j e f) ∙ f) in
    rw is (record {
      conserved = inv.conserved;
      owners = ground (arith, inv.owners, sums.locks, sums'.locks);
      heard = ground (arith, inv.heard, sums.sleepers, sums.ways, sums'.sleepers, sums'.ways);
    })
Step-Inv value s t small (signal_none i e none_sleeps is) inv =
    let sums = Sums-set s.pcs i signaling idle e in
    let quiet = no_sleeper s.pcs none_sleeps in
    rw is (record {
      conserved = inv.conserved;
      owners = ground (arith, inv.owners, sums.locks);
      heard = inl (omega (arith, sums.sleepers));
    })
Step-Inv value s t small (spurious i e is) inv =
    let sums = Sums-set s.pcs i asleep woken e in
    rw is (record {
      conserved = omega (arith, inv.conserved);
      owners = ground (arith, inv.owners, sums.locks);
      heard = ground (arith, inv.heard, sums.sleepers, sums.ways);
    })

-- What was added only grows.
posted_mono : (s t : System) → Step s t → s.posted ≤ t.posted
posted_mono s t (lock_wait i e free is) = rw is (omega arith)
posted_mono s t (cond_wait i e z is) = rw is (omega arith)
posted_mono s t (relock i e free is) = rw is (omega arith)
posted_mono s t (decrement i e z is) = rw is (omega arith)
posted_mono s t (unlock_wait i e is) = rw is (omega arith)
posted_mono s t (lock_post i e free is) = rw is (omega arith)
posted_mono s t (increment i e is) = rw is (omega arith)
posted_mono s t (unlock_post i e is) = rw is (omega arith)
posted_mono s t (signal_one i j e f is) = rw is (omega arith)
posted_mono s t (signal_none i e n is) = rw is (omega arith)
posted_mono s t (spurious i e is) = rw is (omega arith)

init-Inv : (value n : ℕ) → Inv value (semaphore_init value n)
init-Inv value n = record {
  conserved = omega arith;
  owners = total-replicate has_lock n idle refl;
  heard = inl (total-replicate sleeps n idle refl);
}

-- From the start, as long as the value and the posts together fit into the counter, the counter and
-- the waits that passed add up to the value and the posts, so that no wait passes at 0; exactly one
-- thread has the lock while it is taken, and none while it is free.
pub Reach-Inv :
    (value n : ℕ) (t : System)
    → value + t.posted < 2 ^ 64
    → Reach (semaphore_init value n) t
    → Inv value t
Reach-Inv value n t small here = init-Inv value n
Reach-Inv value n u small (later {t} r st) =
    Step-Inv value t u small st (Reach-Inv value n t (omega (arith, posted_mono t u st)) r)

-- No wake-up is lost: where the counter is positive and a thread sleeps, some thread is awake that
-- will test the counter or has yet to signal.
pub no_lost_wakeup :
    (value n : ℕ) (t : System)
    → value + t.posted < 2 ^ 64
    → Reach (semaphore_init value n) t
    → (i : ℕ) → get_elem? t.pcs i ≡ some asleep
    → 0 < t.counter
    → (j : ℕ) × (p : Pc) × (get_elem? t.pcs j ≡ some p) × (0 < on_way p)
no_lost_wakeup value n t small r i e positive =
    let inv = Reach-Inv value n t small r in
    total-some on_way t.pcs (ground (arith, inv.heard, total-member sleeps t.pcs i asleep e))

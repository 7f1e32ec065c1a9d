-- ===== src/Threads/WorkQueue/Counted.antt =====
-- threads/work_queue/wqueue_condvars.c: the queue is a semaphore that counts the jobs.
use mathlib.Core.Path.{subst}
use interview_questions.Prelude.Arrays.{length-perm}
use interview_questions.Prelude.{
  length, get_elem?, set, replicate, length-append, some_inj, ℕ, zero, suc, ◌^◌, ◌≤◌, ◌<◌, ◌≡◌,
  refl, sym, ap, ◌∙◌, ◌≢◌, ◌⊎◌, inl, inr, true, false, some, List, [], ◌∷◌, map, arith,
}
use interview_questions.Threads.Semaphore as sem
use interview_questions.Threads.Semaphore.Invariant as sem_inv
use interview_questions.Threads.WorkQueue.{
  Pc, idle, testing, asleep, woken, holding, advancing, took, entered, linking, added, signaling,
  System, start, Step, lock_get, cond_wait, relock, read_head, read_next, take_job, unlock_get,
  lock_insert, link_job, put_job, unlock_insert, signal_one, signal_none, spurious, Reach, here,
  later,
}
use interview_questions.Threads.WorkQueue.Jobs.{IsExclusive, Reach-IsExclusive, jobs_conserved}

-- The place in the semaphore's calls.
abbrev pub place : Pc → sem.Pc
place idle = sem.idle
place testing = sem.testing
place asleep = sem.asleep
place woken = sem.woken
place (holding ret) = sem.testing
place (advancing ret next) = sem.testing
place took = sem.took
place entered = sem.entered
place (linking new_job next) = sem.entered
place added = sem.added
place signaling = sem.signaling

abbrev pub counted : System → sem.System
counted s = record {
  counter = length s.workq;
  locked = s.locked;
  pcs = map place s.pcs;
  posted = length s.inserted;
  passed = length s.taken;
}

place-asleep : (p : Pc) → place p ≡ sem.asleep → p ≡ asleep
place-asleep asleep h = refl
place-asleep idle h = absurd cc
place-asleep testing h = absurd cc
place-asleep woken h = absurd cc
place-asleep (holding ret) h = absurd cc
place-asleep (advancing ret next) h = absurd cc
place-asleep took h = absurd cc
place-asleep entered h = absurd cc
place-asleep (linking new_job next) h = absurd cc
place-asleep added h = absurd cc
place-asleep signaling h = absurd cc

at_place :
    (pcs : List Pc) (i : ℕ) (p : Pc)
    → get_elem? pcs i ≡ some p
    → get_elem? (map place pcs) i ≡ some (place p)
at_place [] i p e = absurd (ground (arith, e))
at_place (x ∷ pcs) zero p e = ap (λ y. some (place y)) (some_inj e)
at_place (x ∷ pcs) (suc i) p e = at_place pcs i p e

from_place :
    (pcs : List Pc) (i : ℕ) (x : sem.Pc)
    → get_elem? (map place pcs) i ≡ some x
    → (p : Pc) × (get_elem? pcs i ≡ some p) × (place p ≡ x)
from_place [] i x e = absurd (ground (arith, e))
from_place (p ∷ pcs) zero x e = (p, refl, some_inj e)
from_place (p ∷ pcs) (suc i) x e = from_place pcs i x e

map-set :
    (pcs : List Pc) (i : ℕ) (p : Pc) → map place (set pcs i p) ≡ set (map place pcs) i (place p)
map-set [] i p = refl
map-set (x ∷ pcs) zero p = refl
map-set (x ∷ pcs) (suc i) p = ap (λ l. place x ∷ l) (map-set pcs i p)

map-set_same :
    (pcs : List Pc) (i : ℕ) (p q : Pc)
    → get_elem? pcs i ≡ some p
    → place q ≡ place p
    → map place (set pcs i q) ≡ map place pcs
map-set_same [] i p q e same = refl
map-set_same (x ∷ pcs) zero p q e same =
    ap (λ y. y ∷ map place pcs) (same ∙ ap place (sym (some_inj e)))
map-set_same (x ∷ pcs) (suc i) p q e same = ap (λ l. place x ∷ l) (map-set_same pcs i p q e same)

with_pcs :
    (c : sem.System) (x y : List sem.Pc)
    → x ≡ y
    → ◌≡◌ {A = sem.System} (record c { pcs = x }) (record c { pcs = y })
with_pcs c x y h = ap (λ z. record c { pcs = z }) h

-- A step of the queue is a step of the semaphore, or leaves the semaphore as it is.
Step-counted :
    (s t : System)
    → IsExclusive s
    → length t.workq < 2 ^ 64
    → Step s t
    → sem.Step (counted s) (counted t) ⊎ (counted s ≡ counted t)
Step-counted s t inv small (lock_get i e free is) = inl (
    sem.lock_wait i (at_place s.pcs i idle e) free (
      ap counted is
      ∙ with_pcs (record (counted s) { locked = true }) _ _ (map-set s.pcs i testing)))
Step-counted s t inv small (cond_wait i e none_left is) = inl (
    sem.cond_wait i (at_place s.pcs i testing e) (ap length none_left) (
      ap counted is
      ∙ with_pcs (record (counted s) { locked = false }) _ _ (map-set s.pcs i asleep)))
Step-counted s t inv small (relock i e free is) = inl (
    sem.relock i (at_place s.pcs i woken e) free (
      ap counted is
      ∙ with_pcs (record (counted s) { locked = true }) _ _ (map-set s.pcs i testing)))
Step-counted s t inv small (read_head i ret rest e some_left is) = inr (
    sym (
      ap counted is ∙ with_pcs (counted s) _ _ (map-set_same s.pcs i testing (holding ret) e refl)))
Step-counted s t inv small (read_next i ret first next e some_left is) = inr (
    sym (
      ap counted is
      ∙ with_pcs (counted s) _ _ (map-set_same s.pcs i (holding ret) (advancing ret next) e refl)))
Step-counted s t inv small (take_job i ret next e is) =
    let left = ap length (inv.fresh i (advancing ret next) e) in
    inl (
      sem.decrement i (at_place s.pcs i (advancing ret next) e) (omega (arith, left)) (
        ap counted is
        ∙ with_pcs (record (counted s) { counter = length next; passed = length (ret ∷ s.taken) }) _
            _ (map-set s.pcs i took)
        ∙ ground (arith, left)))
Step-counted s t inv small (unlock_get i e is) = inl (
    sem.unlock_wait i (at_place s.pcs i took e)
      (ap counted is ∙ with_pcs (record (counted s) { locked = false }) _ _ (map-set s.pcs i idle)))
Step-counted s t inv small (lock_insert i e free is) = inl (
    sem.lock_post i (at_place s.pcs i idle e) free (
      ap counted is
      ∙ with_pcs (record (counted s) { locked = true }) _ _ (map-set s.pcs i entered)))
Step-counted s t inv small (link_job i new_job e is) = inr (
    sym (
      ap counted is
      ∙ with_pcs (counted s) _ _ (map-set_same s.pcs i entered (linking new_job s.workq) e refl)))
Step-counted s t inv small (put_job i new_job next e is) =
    let bound = rw is at small in
    let left = ap length (inv.fresh i (linking new_job next) e) in
    inl (
      sem.increment i (at_place s.pcs i (linking new_job next) e) (
        ap counted is
        ∙ with_pcs
            (record (counted s) {
              counter = length (new_job ∷ next);
              posted = length (new_job ∷ s.inserted);
            })
            _ _ (map-set s.pcs i added)
        ∙ ground (arith, left, bound)))
Step-counted s t inv small (unlock_insert i e is) = inl (
    sem.unlock_post i (at_place s.pcs i added e) (
      ap counted is
      ∙ with_pcs (record (counted s) { locked = false }) _ _ (map-set s.pcs i signaling)))
Step-counted s t inv small (signal_one i j e f is) = inl (
    sem.signal_one i j (at_place s.pcs i signaling e) (at_place s.pcs j asleep f) (
      ap counted is
      ∙ with_pcs (counted s) _ _ (
          map-set (set s.pcs i idle) j woken ∙ ap (λ l. set l j sem.woken) (map-set s.pcs i idle))))
Step-counted s t inv small (signal_none i e no_one is) = inl (
    sem.signal_none i (at_place s.pcs i signaling e)
      (λ j at.
        let (p, f, h) = from_place s.pcs j sem.asleep at in
        no_one j (f ∙ ap some (place-asleep p h)))
      (ap counted is ∙ with_pcs (counted s) _ _ (map-set s.pcs i idle)))
Step-counted s t inv small (spurious i e is) = inl (
    sem.spurious i (at_place s.pcs i asleep e)
      (ap counted is ∙ with_pcs (counted s) _ _ (map-set s.pcs i woken)))

inserted_mono : (s t : System) → Step s t → length s.inserted ≤ length t.inserted
inserted_mono s t (lock_get i e free is) = rw is (omega arith)
inserted_mono s t (cond_wait i e none_left is) = rw is (omega arith)
inserted_mono s t (relock i e free is) = rw is (omega arith)
inserted_mono s t (read_head i ret rest e some_left is) = rw is (omega arith)
inserted_mono s t (read_next i ret first next e some_left is) = rw is (omega arith)
inserted_mono s t (take_job i ret next e is) = rw is (omega arith)
inserted_mono s t (unlock_get i e is) = rw is (omega arith)
inserted_mono s t (lock_insert i e free is) = rw is (omega arith)
inserted_mono s t (link_job i new_job e is) = rw is (omega arith)
inserted_mono s t (put_job i new_job next e is) = rw is (omega arith)
inserted_mono s t (unlock_insert i e is) = rw is (omega arith)
inserted_mono s t (signal_one i j e f is) = rw is (omega arith)
inserted_mono s t (signal_none i e no_one is) = rw is (omega arith)
inserted_mono s t (spurious i e is) = rw is (omega arith)

-- Every run of the queue is a run of the semaphore that counts its jobs.
Reach-counted :
    (threads : ℕ) (t : System)
    → length t.inserted < 2 ^ 64
    → Reach (start threads) t
    → sem.Reach (sem.semaphore_init 0 threads) (counted t)
Reach-counted threads t small here =
    subst (λ x. sem.Reach (sem.semaphore_init 0 threads) x)
      (with_pcs (sem.semaphore_init 0 threads) _ _ (sym (map-replicate threads))) sem.here
  where
    map-replicate : (n : ℕ) → map place (replicate n idle) ≡ replicate n sem.idle
    map-replicate zero = refl
    map-replicate (suc n) = ap (λ l. sem.idle ∷ l) (map-replicate n)
Reach-counted threads u small (later {t} r st) =
    let whole = length-perm (jobs_conserved threads u (later r st)) in
    let before = Reach-counted threads t (omega (arith, small, inserted_mono t u st)) r in
    elim (Step-counted t u (Reach-IsExclusive threads t r)
      (omega (arith, small, whole, length-append u.taken u.workq)) st) [
        | inl step ↦ sem.later before step
        | inr same ↦ subst (λ x. sem.Reach (sem.semaphore_init 0 threads) x) same before
      ]

-- While fewer than 2^64 jobs were inserted: where the queue has a job and a worker sleeps, some
-- thread is awake that will look at the queue or has yet to signal.
pub no_job_forgotten :
    (threads : ℕ) (t : System)
    → length t.inserted < 2 ^ 64
    → Reach (start threads) t
    → (i : ℕ) → get_elem? t.pcs i ≡ some asleep
    → t.workq ≢ []
    → (j : ℕ) × (p : Pc) × (get_elem? t.pcs j ≡ some p) × (0 < sem_inv.on_way (place p))
no_job_forgotten threads t small r i e waiting =
    let (j, x, f, lt) =
      sem_inv.no_lost_wakeup 0 threads (counted t) (omega (arith, small))
        (Reach-counted threads t small r) i (at_place t.pcs i asleep e)
        (not_empty t.workq waiting) in
    let (p, g, same) = from_place t.pcs j x f in
    (j, p, g, subst (λ y. 0 < sem_inv.on_way y) (sym same) lt)
  where
    not_empty : (q : List ℕ) → q ≢ [] → 0 < length q
    not_empty [] h = absurd (h refl)
    not_empty (job ∷ q) h = omega arith

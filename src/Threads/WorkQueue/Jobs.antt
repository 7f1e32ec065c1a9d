-- ===== src/Threads/WorkQueue/Jobs.antt =====
-- threads/work_queue/wqueue_condvars.c: no job is lost or handed out twice.
use native.Mathlib.Decide.{ℕ_discrete}
use mathlib.Core.List.{Perm, perm_middle}
use mathlib.Core.List.Perm
use mathlib.Core.Path.{subst}
use interview_questions.Prelude.{
  if◌then◌else◌, get_elem?, set, replicate, get_elem?-set_ne, some_inj, ℕ, zero, suc, ◌≤◌, ◌≡◌,
  refl, sym, ap, ◌∙◌, ◌≢◌, Bool, true, false, some, List, [], ◌∷◌, ◌++◌, arith,
}
use interview_questions.Threads.{total, total-set, total-member, total-replicate}
use interview_questions.Threads.WorkQueue.{
  Pc, idle, testing, asleep, woken, holding, advancing, took, entered, linking, added, signaling,
  System, start, Step, lock_get, cond_wait, relock, read_head, read_next, take_job, unlock_get,
  lock_insert, link_job, put_job, unlock_insert, signal_one, signal_none, spurious, Reach, here,
  later,
}

abbrev pub has_lock : Pc → ℕ
has_lock idle = 0
has_lock testing = 1
has_lock asleep = 0
has_lock woken = 0
has_lock (holding ret) = 1
has_lock (advancing ret next) = 1
has_lock took = 1
has_lock entered = 1
has_lock (linking new_job next) = 1
has_lock added = 1
has_lock signaling = 0

-- What a thread has read of the queue is still so.
abbrev pub IsFresh : List ℕ → Pc → Type 0
IsFresh q idle = Unit {0}
IsFresh q testing = Unit {0}
IsFresh q asleep = Unit {0}
IsFresh q woken = Unit {0}
IsFresh q (holding ret) = (rest : List ℕ) × (q ≡ ret ∷ rest)
IsFresh q (advancing ret next) = q ≡ ret ∷ next
IsFresh q took = Unit {0}
IsFresh q entered = Unit {0}
IsFresh q (linking new_job next) = q ≡ next
IsFresh q added = Unit {0}
IsFresh q signaling = Unit {0}

abbrev pub AllFresh : List ℕ → List Pc → Type 0
AllFresh q pcs = (j : ℕ) (p : Pc) → get_elem? pcs j ≡ some p → IsFresh q p

pub record IsExclusive (s : System) : Type 0 where
  pub owners : total has_lock s.pcs ≡ (if s.locked then 1 else 0)
  pub fresh : AllFresh s.workq s.pcs
  pub kept : Perm (s.taken ++ s.workq) s.inserted

IsFresh-without_lock : (q : List ℕ) (p : Pc) → has_lock p ≡ 0 → IsFresh q p
IsFresh-without_lock q idle h = tt
IsFresh-without_lock q testing h = tt
IsFresh-without_lock q asleep h = tt
IsFresh-without_lock q woken h = tt
IsFresh-without_lock q (holding ret) h = absurd (omega (arith, h))
IsFresh-without_lock q (advancing ret next) h = absurd (omega (arith, h))
IsFresh-without_lock q took h = tt
IsFresh-without_lock q entered h = tt
IsFresh-without_lock q (linking new_job next) h = absurd (omega (arith, h))
IsFresh-without_lock q added h = tt
IsFresh-without_lock q signaling h = tt

get_elem?-set_self :
    {A : Type 0} (pcs : List A) (i : ℕ) (p q : A)
    → get_elem? pcs i ≡ some p
    → get_elem? (set pcs i q) i ≡ some q
get_elem?-set_self [] i p q e = absurd (ground (arith, e))
get_elem?-set_self (x ∷ pcs) zero p q e = refl
get_elem?-set_self (x ∷ pcs) (suc i) p q e = get_elem?-set_self pcs i p q e

-- A thread that moves, where the others are as fresh as before.
AllFresh-set :
    (q : List ℕ) (pcs : List Pc) (i : ℕ) (p p' : Pc)
    → get_elem? pcs i ≡ some p
    → IsFresh q p'
    → ((j : ℕ) (x : Pc) → i ≢ j → get_elem? pcs j ≡ some x → IsFresh q x)
    → AllFresh q (set pcs i p')
AllFresh-set q pcs i p p' e fresh others j x at = elim (ℕ_discrete i j) [
  | yes same ↦
      subst (IsFresh q)
        (some_inj (sym (get_elem?-set_self pcs i p p' e) ∙ ap (get_elem? (set pcs i p')) same ∙ at))
        fresh
  | no other ↦ others j x other (sym (get_elem?-set_ne pcs i j p' other) ∙ at)
]

-- Where one thread has the lock, no other has.
alone :
    (pcs : List Pc) (i j : ℕ) (p x : Pc)
    → total has_lock pcs ≤ 1
    → get_elem? pcs i ≡ some p
    → has_lock p ≡ 1
    → i ≢ j
    → get_elem? pcs j ≡ some x
    → has_lock x ≡ 0
alone pcs i j p x le e lock other at = omega (
  arith,
  le,
  lock,
  total-set has_lock pcs i p idle e,
  total-member has_lock (set pcs i idle) j x (get_elem?-set_ne pcs i j idle other ∙ at),
)

one_owner : (b : Bool) → (if b then 1 else 0) ≤ 1
one_owner b = ground arith

module _ (s : System) (inv : IsExclusive s) where
  -- A step that leaves the queue as it is.
  moved :
      (locked : Bool) (i : ℕ) (p p' : Pc)
      → get_elem? s.pcs i ≡ some p
      → IsFresh s.workq p'
      → total has_lock (set s.pcs i p') ≡ (if locked then 1 else 0)
      → IsExclusive (record s { locked = locked; pcs = set s.pcs i p' })
  moved locked i p p' e fresh owners = record {
    owners = owners;
    fresh = AllFresh-set s.workq s.pcs i p p' e fresh (λ j x other at. inv.fresh j x at);
    kept = inv.kept;
  }

  -- A step that changes the queue, with the lock.
  AllFresh-changed :
      (q : List ℕ) (i : ℕ) (p p' : Pc)
      → get_elem? s.pcs i ≡ some p
      → has_lock p ≡ 1
      → IsFresh q p'
      → AllFresh q (set s.pcs i p')
  AllFresh-changed q i p p' e lock fresh = AllFresh-set q s.pcs i p p' e fresh (λ j x other at.
      IsFresh-without_lock q x
        (alone s.pcs i j p x (omega (arith, inv.owners, one_owner s.locked)) e lock other at))

Step-IsExclusive : (s t : System) → Step s t → IsExclusive s → IsExclusive t
Step-IsExclusive s t (lock_get i e free is) inv = rw is (
    moved s inv true i idle testing e tt
      (ground (arith, free, inv.owners, total-set has_lock s.pcs i idle testing e)))
Step-IsExclusive s t (cond_wait i e none_left is) inv = rw is (
    moved s inv false i testing asleep e tt
      (ground (arith, inv.owners, total-set has_lock s.pcs i testing asleep e)))
Step-IsExclusive s t (relock i e free is) inv = rw is (
    moved s inv true i woken testing e tt
      (ground (arith, free, inv.owners, total-set has_lock s.pcs i woken testing e)))
Step-IsExclusive s t (read_head i ret rest e some_left is) inv = rw is (
    moved s inv s.locked i testing (holding ret) e (rest, some_left)
      (omega (arith, inv.owners, total-set has_lock s.pcs i testing (holding ret) e)))
Step-IsExclusive s t (read_next i ret first next e some_left is) inv = rw is (
    moved s inv s.locked i (holding ret) (advancing ret next) e
      (let (rest, h) = inv.fresh i (holding ret) e in cc (h, some_left))
      (omega (arith, inv.owners, total-set has_lock s.pcs i (holding ret) (advancing ret next) e)))
Step-IsExclusive s t (take_job i ret next e is) inv = rw is (record {
  owners = omega (arith, inv.owners, total-set has_lock s.pcs i (advancing ret next) took e);
  fresh = AllFresh-changed s inv next i (advancing ret next) took e refl tt;
  kept =
      Perm.trans (Perm.symm (perm_middle s.taken next))
        (rw (inv.fresh i (advancing ret next) e) at inv.kept);
})
Step-IsExclusive s t (unlock_get i e is) inv = rw is (
    moved s inv false i took idle e tt
      (ground (arith, inv.owners, total-set has_lock s.pcs i took idle e)))
Step-IsExclusive s t (lock_insert i e free is) inv = rw is (
    moved s inv true i idle entered e tt
      (ground (arith, free, inv.owners, total-set has_lock s.pcs i idle entered e)))
Step-IsExclusive s t (link_job i new_job e is) inv = rw is (
    moved s inv s.locked i entered (linking new_job s.workq) e refl
      (omega (arith, inv.owners, total-set has_lock s.pcs i entered (linking new_job s.workq) e)))
Step-IsExclusive s t (put_job i new_job next e is) inv = rw is (record {
  owners = omega (arith, inv.owners, total-set has_lock s.pcs i (linking new_job next) added e);
  fresh = AllFresh-changed s inv (new_job ∷ next) i (linking new_job next) added e refl tt;
  kept =
      Perm.trans (perm_middle s.taken next)
        (Perm.cons new_job (rw (inv.fresh i (linking new_job next) e) at inv.kept));
})
Step-IsExclusive s t (unlock_insert i e is) inv = rw is (
    moved s inv false i added signaling e tt
      (ground (arith, inv.owners, total-set has_lock s.pcs i added signaling e)))
Step-IsExclusive s t (signal_one i j e f is) inv =
    let one =
      moved s inv s.locked i signaling idle e tt
        (omega (arith, inv.owners, total-set has_lock s.pcs i signaling idle e)) in
    let other : i ≢ j = λ h. absurd (ground (arith, ap (get_elem? s.pcs) h, e, f)) in
    let f' = get_elem?-set_ne s.pcs i j idle other ∙ f in
    rw is (
      moved (record s { pcs = set s.pcs i idle }) one s.locked j asleep woken f' tt
        (omega (arith, one.owners, total-set has_lock (set s.pcs i idle) j asleep woken f')))
Step-IsExclusive s t (signal_none i e no_one is) inv = rw is (
    moved s inv s.locked i signaling idle e tt
      (omega (arith, inv.owners, total-set has_lock s.pcs i signaling idle e)))
Step-IsExclusive s t (spurious i e is) inv = rw is (
    moved s inv s.locked i asleep woken e tt
      (omega (arith, inv.owners, total-set has_lock s.pcs i asleep woken e)))

-- What every reachable state has: at most one thread has the lock, and what a thread with the lock has
-- read of the queue is still so.
pub Reach-IsExclusive : (threads : ℕ) (t : System) → Reach (start threads) t → IsExclusive t
Reach-IsExclusive threads t here = record {
  owners = total-replicate has_lock threads idle refl;
  fresh = λ j p at. IsFresh-replicate threads j p at;
  kept = Perm.refl [];
}
  where
    IsFresh-replicate : (n j : ℕ) (p : Pc) → get_elem? (replicate n idle) j ≡ some p → IsFresh [] p
    IsFresh-replicate zero j p at = absurd (ground (arith, at))
    IsFresh-replicate (suc n) zero p at = subst (IsFresh []) (some_inj at) tt
    IsFresh-replicate (suc n) (suc j) p at = IsFresh-replicate n j p at
Reach-IsExclusive threads u (later {t} r st) =
    Step-IsExclusive t u st (Reach-IsExclusive threads t r)

-- The jobs that were taken and those in the queue are the jobs that were inserted, each as often.
pub jobs_conserved :
    (threads : ℕ) (t : System) → Reach (start threads) t → Perm (t.taken ++ t.workq) t.inserted
jobs_conserved threads t r = (Reach-IsExclusive threads t r).kept

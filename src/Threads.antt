-- ===== src/Threads.antt =====
-- threads: programs with threads, as steps that any of the threads takes. What pthread documents is
-- written out in the steps: a mutex has one owner, `pthread_cond_wait` gives the mutex up and sleeps
-- at once, `pthread_cond_signal` wakes a sleeper if there is one, and a sleeper may wake up
-- without a signal.
use native.Mathlib.Decide.{dec_lt}
use interview_questions.Prelude.{
  get_elem?, set, replicate, some_inj, ℕ, zero, suc, ◌+◌, ◌≤◌, ◌<◌, ◌≡◌, refl, ap, some, List, [],
  ◌∷◌, arith,
}
pub mod Semaphore
pub mod WorkQueue
pub mod Barrier

-- The sum of a weight over the threads.
abbrev pub total {ℓ} : {A : Type ℓ} → (A → ℕ) → List A → ℕ
total w [] = 0
total w (p ∷ pcs) = w p + total w pcs

module _ {A : Type 0} (w : A → ℕ) where
  pub total-set :
      (pcs : List A) (i : ℕ) (p q : A)
      → get_elem? pcs i ≡ some p
      → total w (set pcs i q) + w p ≡ total w pcs + w q
  total-set [] i p q e = absurd (ground (arith, e))
  total-set (x ∷ pcs) zero p q e = ground (arith, ap w (some_inj e))
  total-set (x ∷ pcs) (suc i) p q e = omega (arith, total-set pcs i p q e)

  pub total-member : (pcs : List A) (i : ℕ) (p : A) → get_elem? pcs i ≡ some p → w p ≤ total w pcs
  total-member [] i p e = absurd (ground (arith, e))
  total-member (x ∷ pcs) zero p e = omega (arith, ap w (some_inj e))
  total-member (x ∷ pcs) (suc i) p e = omega (arith, total-member pcs i p e)

  pub total-some :
      (pcs : List A) → 0 < total w pcs → (i : ℕ) × (p : A) × (get_elem? pcs i ≡ some p) × (0 < w p)
  total-some [] h = absurd (omega arith)
  total-some (x ∷ pcs) h = elim (dec_lt 0 (w x)) [
    | yes lt ↦ (0, x, refl, lt)
    | no ge ↦ (let (i, p, e, lt) = total-some pcs (omega arith) in (suc i, p, e, lt))
  ]

  pub total-replicate : (n : ℕ) (p : A) → w p ≡ 0 → total w (replicate n p) ≡ 0
  total-replicate zero p h = refl
  total-replicate (suc n) p h = omega (arith, h, total-replicate n p h)

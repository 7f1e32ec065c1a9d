-- ===== src/Sorting/Quicksort/Range.antt =====
-- DS_Algos/sorting: changes of an array that only move the elements of a range.
use mathlib.Core.List.{Perm}
use mathlib.Core.List.Perm
use native.Mathlib.Decide.{dec_lt}
use interview_questions.Prelude.{length, ℕ, ◌≤◌, ◌<◌, ◌≡◌, refl, ◌∙◌, List, arith}
use interview_questions.Prelude.Int.{ℤ, ◌≤ℤ◌}
use interview_questions.Prelude.Arrays.{◌!◌, exchange, get_or-exchange, exchange-perm}

pub record Moved (low high : ℕ) (a b : List ℤ) : Type 0 where
  pub same : Perm b a
  pub before : (j : ℕ) → j < low → b ! j ≡ a ! j
  pub after : (j : ℕ) → high ≤ j → b ! j ≡ a ! j
  pub at_most :
      (v : ℤ)
      → ((j : ℕ) → low ≤ j → j < high → a ! j ≤ℤ v)
      → (j : ℕ) → low ≤ j
      → j < high
      → b ! j ≤ℤ v
  pub at_least :
      (v : ℤ)
      → ((j : ℕ) → low ≤ j → j < high → v ≤ℤ a ! j)
      → (j : ℕ) → low ≤ j
      → j < high
      → v ≤ℤ b ! j

pub Moved-refl : (low high : ℕ) (a : List ℤ) → Moved low high a a
Moved-refl low high a = record {
  same = Perm.refl a;
  before = λ j lt. refl;
  after = λ j le. refl;
  at_most = λ v all. all;
  at_least = λ v all. all;
}

pub Moved-trans :
    (low high : ℕ) (a b c : List ℤ) → Moved low high a b → Moved low high b c → Moved low high a c
Moved-trans low high a b c m m' = record {
  same = Perm.trans m'.same m.same;
  before = λ j lt. m'.before j lt ∙ m.before j lt;
  after = λ j le. m'.after j le ∙ m.after j le;
  at_most = λ v all. m'.at_most v (m.at_most v all);
  at_least = λ v all. m'.at_least v (m.at_least v all);
}

pub Moved-exchange :
    (low high : ℕ) (a : List ℤ) (i j : ℕ)
    → high ≤ length a
    → low ≤ i
    → i < high
    → low ≤ j
    → j < high
    → Moved low high a (exchange a i j)
Moved-exchange low high a i j fits li ih lj jh =
    let value = get_or-exchange a i j (omega arith) (omega arith) in
    record {
      same = exchange-perm a i j (omega arith) (omega arith);
      before = λ k lt. ground (arith, value k);
      after = λ k le. ground (arith, value k);
      at_most = λ v all k le lt. ground (arith, value k, all i, all j, all k);
      at_least = λ v all k le lt. ground (arith, value k, all i, all j, all k);
    }

-- A change in a part of the range.
pub Moved-widen :
    (low high low' high' : ℕ) (a b : List ℤ)
    → low ≤ low'
    → high' ≤ high
    → Moved low' high' a b
    → Moved low high a b
Moved-widen low high low' high' a b le le' m = record {
  same = m.same;
  before = λ j lt. m.before j (omega arith);
  after = λ j h. m.after j (omega arith);
  at_most = λ v all j l r. elim (dec_lt j low') [
    | yes lt ↦ ground (arith, m.before j lt, all j)
    | no ge ↦ elim (dec_lt j high') [
      | yes lt ↦ m.at_most v (λ k l' r'. all k (omega arith) (omega arith)) j (omega arith) lt
      | no ge' ↦ ground (arith, ge', m.after j, all j)
    ]
  ];
  at_least = λ v all j l r. elim (dec_lt j low') [
    | yes lt ↦ ground (arith, m.before j lt, all j)
    | no ge ↦ elim (dec_lt j high') [
      | yes lt ↦ m.at_least v (λ k l' r'. all k (omega arith) (omega arith)) j (omega arith) lt
      | no ge' ↦ ground (arith, ge', m.after j, all j)
    ]
  ];
}

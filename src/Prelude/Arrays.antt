-- ===== src/Prelude/Arrays.antt =====
-- C arrays of `int` in place: reads and writes that fault out of range, the exchange of two
-- elements, which every sort has as `swap`, and permutations.
use mathlib.Core.Logic.{∥∥₁_elim}
use native.Mathlib.Nat.{ℕ_set}
use mathlib.Core.List.{List, Perm, Permᴰ}
use Prim.Native.Nat.{ℕ, zero, suc, ◌≤◌, ◌<◌}
use mathlib.Core.Path.{◌≡◌, refl}
use native.Mathlib.Omega.{arith}
use interview_questions.Prelude.Tests.{◌==◌, ltb, lt→ltb, if◌then◌else◌}
use interview_questions.Prelude.Lists.{
  length, get_elem?, get_or, set, length-set, get_elem?-eq-get_or,
}
use interview_questions.Prelude.Int.{ℤ, pos, ◌≤ℤ◌}
use interview_questions.Prelude.Exchange.{get_or-update, get_or-exchanged, exchanged-perm}
use interview_questions.Prelude.Run.{Run, done, fault, present}

-- The element at an index, for statements: every use stands under a bound on the index.
infixl 90 ◌!◌
abbrev pub ◌!◌ : List ℤ → ℕ → ℤ
a ! i = get_or a i (pos 0)

-- The first `n` elements ascend, with duplicates allowed.
abbrev pub IsSorted : List ℤ → ℕ → Type 0
IsSorted a n = (i j : ℕ) → i ≤ j → j < n → a ! i ≤ℤ a ! j

-- `arr[i]`, and `arr[i] = v`.
unfoldable pub load : List ℤ → ℕ → Run ℤ
load a i = present (get_elem? a i)

unfoldable pub store : List ℤ → ℕ → ℤ → Run (List ℤ)
store a i v = if ltb i (length a) then done (set a i v) else fault

unfoldable pub exchange : List ℤ → ℕ → ℕ → List ℤ
exchange a i j = set (set a i (a ! j)) j (a ! i)

pub load-ok : (a : List ℤ) (i : ℕ) → i < length a → load a i ≡ done (a ! i)
unfolding load
load-ok a i h = rw (get_elem?-eq-get_or a i (pos 0) h)

pub store-ok : (a : List ℤ) (i : ℕ) (v : ℤ) → i < length a → store a i v ≡ done (set a i v)
unfolding store
store-ok a i v h = rw (lt→ltb i (length a) h)

pub get_or-set :
    (a : List ℤ) (i j : ℕ) (v : ℤ) → i < length a → set a i v ! j ≡ (if i == j then v else a ! j)
get_or-set = get_or-update (pos 0)

pub length-exchange : (a : List ℤ) (i j : ℕ) → length (exchange a i j) ≡ length a
unfolding exchange
length-exchange a i j = simp length-set

module _ (arr : List ℤ) (m n : ℕ) (m_in : m < length arr) (n_in : n < length arr) where
  pub get_or-exchange :
      (c : ℕ)
      → exchange arr m n ! c ≡ (if n == c then arr ! m else if m == c then arr ! n else arr ! c)
  unfolding exchange
  get_or-exchange = get_or-exchanged (pos 0) arr m n m_in n_in

  pub exchange-perm : Perm (exchange arr m n) arr
  unfolding exchange
  exchange-perm = exchanged-perm (pos 0) arr m n m_in n_in

same_length : {A : Type 0} {xs ys : List A} → Permᴰ xs ys → length xs ≡ length ys
same_length Permᴰ.nil = refl
same_length (Permᴰ.trans q r) = omega (arith, same_length q, same_length r)
same_length (Permᴰ.swap x y) = refl
same_length (Permᴰ.cons x q) = omega (arith, same_length q)

pub length-perm : {A : Type 0} {xs ys : List A} → Perm xs ys → length xs ≡ length ys
length-perm rearranged = ∥∥₁_elim rearranged (ℕ_set _ _) same_length

-- Ascending neighbours are enough.
pub steps-IsSorted :
    (a : List ℤ) (n : ℕ) → ((i : ℕ) → suc i < n → a ! i ≤ℤ a ! suc i) → IsSorted a n
steps-IsSorted a n step i zero le lt = ground arith
steps-IsSorted a n step i (suc j) le lt = ground (arith, step j, steps-IsSorted a n step i j)

-- ===== src/Sorting/Heapsort/Sorts.antt =====
-- DS_Algos/sorting/heapsort/heapsort.c: `heapsort` sorts.
use mathlib.Core.List.{Perm}
use mathlib.Core.List.Perm
use native.Mathlib.Decide.{dec_lt}
use interview_questions.Prelude.{
  lt→ltb, length, ℕ, zero, suc, ◌-◌, ◌/◌, ◌≤◌, ◌<◌, ◌≡◌, refl, List, arith,
}
use interview_questions.Prelude.Int.{ℤ, ◌≤ℤ◌}
use interview_questions.Prelude.Run.{Returns, Returns-bind, Returns-mono}
use interview_questions.Prelude.Arrays.{
  ◌!◌, IsSorted, exchange, length-exchange, get_or-exchange, exchange-perm, length-perm,
}
use interview_questions.Sorting.{swap-ok}
use interview_questions.Sorting.Heapsort.{
  larger, largest_of, heapify, max_heapify, build_from, build_max_heap, take_largest, heapsort,
}
use interview_questions.Sorting.Heapsort.Sift.{IsHeapFrom, DownInv, Sifted, heapify-Sifted}

Built : ℕ → List ℤ → List ℤ → Type 0
Built n a b = IsHeapFrom 0 n b × Perm b a

build_from-Built :
    (n : ℕ) (a : List ℤ) (i : ℕ)
    → n ≤ length a
    → i < n
    → IsHeapFrom (suc i) n a
    → Returns (build_from a n i) (Built n a)
unfolding build_from Built
build_from-Built n a zero fits i_in heap =
    Returns-mono _ _ (max_heapify a n 0)
      (heapify-Sifted (suc n) 0 n a 0 (omega arith) fits i_in (omega arith) (record {
        edges = λ p c from ne l r lt. heap p c (omega arith) l r lt;
        across = λ p c from l r l' r' lt. absurd (omega arith);
      }))
      (λ b sifted. (sifted.heap, sifted.moved))
build_from-Built n a (suc i) fits i_in heap =
    Returns-bind _ _ (max_heapify a n (suc i)) (λ b. build_from b n i)
      (heapify-Sifted (suc n) (suc i) n a (suc i) (omega arith) fits i_in (omega arith) (record {
        edges = λ p c from ne l r lt. heap p c (omega arith) l r lt;
        across = λ p c from l r l' r' lt. absurd (omega arith);
      }))
      (λ b sifted.
        Returns-mono _ _ (build_from b n i)
          (build_from-Built n b i (omega (arith, length-perm sifted.moved)) (omega arith)
            sifted.heap)
          (λ c built. (built.0, Perm.trans built.1 sifted.moved)))

root-largest :
    (n : ℕ) (a : List ℤ) → IsHeapFrom 0 n a → (fuel i : ℕ) → i < fuel → i < n → a ! i ≤ℤ a ! 0
root-largest n a heap zero i enough lt = absurd (omega arith)
root-largest n a heap (suc fuel) zero enough lt = omega arith
root-largest n a heap (suc fuel) (suc i) enough lt = omega (
  arith,
  root-largest n a heap fuel (i / 2) (omega arith) (omega arith),
  heap (i / 2) (suc i) (omega arith) (omega arith) (omega arith) lt,
)

-- From `m` on, every element is in its final place among the first `n`.
abbrev Settled : ℕ → ℕ → List ℤ → Type 0
Settled m n a = (p q : ℕ) → p < q → m ≤ q → q < n → a ! p ≤ℤ a ! q

Settled-exchange :
    (m n : ℕ) (a : List ℤ)
    → m < n
    → n ≤ length a
    → IsHeapFrom 0 (suc m) a
    → Settled (suc m) n a
    → Settled m n (exchange a 0 m)
Settled-exchange m n a m_in fits heap settled p q lt le q_in =
    let value = get_or-exchange a 0 m (omega arith) (omega arith) in
    ground (
      arith,
      value p,
      value q,
      root-largest (suc m) a heap (suc p) p,
      settled p q,
      settled m q,
      settled 0 q,
      root-largest (suc m) a heap (suc m) m,
    )

-- `max_heapify` at the root, also of no elements.
sift_root :
    (m : ℕ) (a : List ℤ)
    → m ≤ length a
    → DownInv 0 m a 0
    → Returns (max_heapify a m 0) (Sifted 0 m a)
unfolding heapify largest_of larger
sift_root zero a fits inv = record {
  heap = λ p c from l r lt. absurd (omega arith);
  moved = Perm.refl a;
  beyond = λ j le. refl;
  bounded = λ v all. all;
}
sift_root (suc m) a fits inv =
    heapify-Sifted (suc (suc m)) 0 (suc m) a 0 (omega arith) fits (omega arith) (omega arith) inv

Settled-Sifted : (m n : ℕ) (a b : List ℤ) → Settled m n a → Sifted 0 m a b → Settled m n b
Settled-Sifted m n a b settled sifted p q lt le q_in = elim (dec_lt p m) [
  | yes inside ↦ ground (
    arith,
    sifted.beyond q le,
    sifted.bounded (a ! q) (λ j j_in. settled j q (omega arith) le q_in) p inside,
  )
  | no outside ↦ ground (arith, sifted.beyond q le, sifted.beyond p, outside, settled p q)
]

take_largest-sorts :
    (n m : ℕ) (a : List ℤ)
    → m ≤ n
    → n ≤ length a
    → IsHeapFrom 0 m a
    → Settled m n a
    → Returns (take_largest a m) (λ b. Settled 0 n b × Perm b a)
unfolding take_largest
take_largest-sorts n zero a le fits heap settled = (settled, Perm.refl a)
take_largest-sorts n (suc m) a le fits heap settled =
    let b = exchange a 0 m in
    let value = get_or-exchange a 0 m (omega arith) (omega arith) in
    let size = length-exchange a 0 m in
    rw (swap-ok a 0 m (omega arith) (omega arith)) (
      Returns-bind _ _ (max_heapify b m 0) (λ c. take_largest c m)
        (sift_root m b (omega arith) (record {
          edges = λ p c from ne l r lt. ground (arith, value p, value c, heap p c);
          across = λ p c from l r l' r' lt. absurd (omega arith);
        }))
        (λ c sifted.
          Returns-mono _ _ (take_largest c m)
            (take_largest-sorts n m c (omega arith) (omega (arith, length-perm sifted.moved, size))
              sifted.heap
              (Settled-Sifted m n b c (Settled-exchange m n a (omega arith) fits heap settled)
                sifted))
            (λ d sorted. (
              sorted.0,
              Perm.trans sorted.1
                  (Perm.trans sifted.moved (exchange-perm a 0 m (omega arith) (omega arith))),
            ))))

-- On an array of at least `n` elements, one or more, `heapsort` returns; the first `n` elements of
-- the result ascend, and the result is a rearrangement of the array.
pub heapsort-sorts :
    (a : List ℤ) (n : ℕ)
    → 0 < n
    → n ≤ length a
    → Returns (heapsort a n) (λ b. IsSorted b n × Perm b a)
unfolding heapsort build_max_heap Built
heapsort-sorts a n some_left fits =
    rw (lt→ltb 0 n some_left, build_max_heap)
      (Returns-bind _ _ (build_from a n ((n - 1) / 2)) (λ b. take_largest b n)
        (build_from-Built n a ((n - 1) / 2) fits (omega arith)
          (λ p c from l r lt. absurd (omega arith)))
        (λ b (heap, moved).
          Returns-mono _ _ (take_largest b n)
            (take_largest-sorts n n b (omega arith) (omega (arith, length-perm moved)) heap
              (λ p q lt le q_in. absurd (omega arith)))
            (λ c (settled, moved'). (
              (λ i j le lt. elim (dec_lt i j) [
                | yes before ↦ settled i j before (omega arith) lt
                | no same ↦ (let here : i ≡ j = omega arith in ground (arith, here))
              ]),
              Perm.trans moved' moved,
            ))))

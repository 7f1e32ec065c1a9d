-- ===== src/Sorting/Selection.antt =====
-- DS_Algos/sorting/selectionsort/selectionsort.c: `selectionsort`. Both `for`s count their rounds.
use mathlib.Core.List.{Perm}
use mathlib.Core.List.Perm
use native.Mathlib.Decide.{dec_lt}
use interview_questions.Prelude.{
  if◌then◌else◌, Bool-cases, length, ℕ, zero, suc, ◌+◌, ◌-◌, ◌≤◌, ◌<◌, min, ◌≡◌, inl, inr, List,
  arith,
}
use interview_questions.Prelude.Int.{ℤ, ◌≤ℤ◌, ltb_ℤ}
use interview_questions.Prelude.Run.{Run, done, ◌>>=◌, Returns, Returns-bind, Returns-mono}
use interview_questions.Prelude.Arrays.{
  ◌!◌, IsSorted, load, exchange, load-ok, length-exchange, get_or-exchange, exchange-perm,
}
use interview_questions.Sorting.{swap, swap-ok}

-- The inner `for` from `j` on.
unfoldable pub find_min : (rounds j min_i : ℕ) → List ℤ → Run ℕ
find_min zero j min_i arr = done min_i
find_min (suc rounds) j min_i arr = do
  x ← load arr j
  y ← load arr min_i
  find_min rounds (j + 1) (if ltb_ℤ x y then j else min_i) arr

-- The outer `for` from `i` on.
unfoldable pub select_from : (rounds i arr_sz : ℕ) → List ℤ → Run (List ℤ)
select_from zero i arr_sz arr = done arr
select_from (suc rounds) i arr_sz arr = do
  min_i ← find_min (arr_sz - i) i i arr
  b ← swap arr i min_i
  select_from rounds (i + 1) arr_sz b

unfoldable pub selectionsort : List ℤ → (arr_sz : ℕ) → Run (List ℤ)
selectionsort arr arr_sz = select_from arr_sz 0 arr_sz arr

-- The least element from `i` on, below `n`.
record Least (i n : ℕ) (a : List ℤ) (m : ℕ) : Type 0 where
  from : i ≤ m
  inside : m < n
  least : (j : ℕ) → i ≤ j → j < n → a ! m ≤ℤ a ! j

find_min-Least :
    (rounds i j m n : ℕ) (a : List ℤ)
    → j + rounds ≡ n
    → i ≤ j
    → n ≤ length a
    → i ≤ m
    → m < n
    → ((k : ℕ) → i ≤ k → k < j → a ! m ≤ℤ a ! k)
    → Returns (find_min rounds j m a) (Least i n a)
unfolding find_min
find_min-Least zero i j m n a e i_in fits from inside least = record {
  from = from;
  inside = inside;
  least = λ k l r. least k l (omega arith);
}
find_min-Least (suc rounds) i j m n a e i_in fits from inside least =
    rw (load-ok a j (omega arith), find_min)
      (rw (load-ok a m (omega arith), find_min)
        (elim (Bool-cases (ltb_ℤ (a ! j) (a ! m))) [
          | inl less ↦
              rw (less, find_min)
                (find_min-Least rounds i (j + 1) j n a (omega arith) (omega arith) fits i_in
                  (omega arith) (λ k l r. ground (arith, less, least k)))
          | inr not_less ↦
              rw (not_less, find_min)
                (find_min-Least rounds i (j + 1) m n a (omega arith) (omega arith) fits from inside
                  (λ k l r. ground (arith, not_less, least k)))
        ]))

-- Up to `i`, every element is in its final place among the first `n`.
abbrev Placed : ℕ → ℕ → List ℤ → Type 0
Placed i n a = (p q : ℕ) → p < q → p < i → q < n → a ! p ≤ℤ a ! q

Placed-exchange :
    (i n m : ℕ) (a : List ℤ)
    → n ≤ length a
    → Least i n a m
    → Placed i n a
    → Placed (i + 1) n (exchange a i m)
Placed-exchange i n m a fits min placed p q lt p_in q_in =
    let value =
      get_or-exchange a i m (omega (arith, min.from, min.inside)) (omega (arith, min.inside)) in
    ground (
      arith,
      value p,
      value q,
      min.from,
      min.inside,
      min.least q,
      min.least i,
      placed p q,
      placed p i,
      placed p m,
    )

select_from-sorts :
    (rounds i n : ℕ) (a : List ℤ)
    → i + rounds ≡ n
    → n ≤ length a
    → Placed i n a
    → Returns (select_from rounds i n a) (λ b. Placed n n b × Perm b a)
unfolding select_from
select_from-sorts zero i n a e fits placed =
    ((λ p q lt p_in q_in. placed p q lt (omega arith) q_in), Perm.refl a)
select_from-sorts (suc rounds) i n a e fits placed =
    Returns-bind _ _ (find_min (n - i) i i a) _
      (find_min-Least (n - i) i i i n a (omega arith) (omega arith) fits (omega arith) (omega arith)
        (λ k l r. absurd (omega arith)))
      (λ m min.
        rw (swap-ok a i m (omega (arith, min.from, min.inside)) (omega (arith, min.inside))) (
          Returns-mono _ _ (select_from rounds (i + 1) n (exchange a i m))
            (select_from-sorts rounds (i + 1) n (exchange a i m) (omega arith)
              (rw length-exchange fits) (Placed-exchange i n m a fits min placed))
            (λ b (sorted, moved). (
              sorted,
              Perm.trans moved (
                  exchange-perm a i m (omega (arith, min.from, min.inside))
                    (omega (arith, min.inside))),
            ))))

-- On an array of at least `n` elements `selectionsort` returns; the first `n` elements of the result
-- ascend, and the result is a rearrangement of the array.
pub selectionsort-sorts :
    (a : List ℤ) (n : ℕ) → n ≤ length a → Returns (selectionsort a n) (λ b. IsSorted b n × Perm b a)
unfolding selectionsort
selectionsort-sorts a n fits =
    Returns-mono _ _ (select_from n 0 n a)
      (select_from-sorts n 0 n a (omega arith) fits (λ p q lt p_in q_in. absurd (omega arith)))
      (λ b (placed, moved). (
        (λ i j le lt. elim (dec_lt i j) [
          | yes before ↦ placed i j before (omega arith) lt
          | no same ↦ (let here : i ≡ j = omega arith in ground (arith, here))
        ]),
        moved,
      ))

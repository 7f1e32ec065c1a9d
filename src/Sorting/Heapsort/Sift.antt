-- ===== src/Sorting/Heapsort/Sift.antt =====
-- DS_Algos/sorting/heapsort/heapsort.c: `max_heapify` restores the heap among the first elements, moves
-- them only, and leaves the others.
use mathlib.Core.List.{Perm}
use mathlib.Core.List.Perm
use native.Mathlib.Decide.{dec_lt}
use interview_questions.Prelude.{
  ==_iff, ne→==, length, ℕ, zero, suc, ◌+◌, ◌*◌, ◌≤◌, ◌<◌, ◌≡◌, refl, ◌∙◌, ◌≢◌, ◌⊎◌, inl, inr, List,
  arith,
}
use interview_questions.Prelude.Int.{ℤ, pos_part, neg_part, ◌≤ℤ◌, ◌<ℤ◌}
use interview_questions.Prelude.Run.{done, Returns, Returns-bind, Returns-mono}
use interview_questions.Prelude.Arrays.{
  ◌!◌, exchange, load-ok, length-exchange, get_or-exchange, exchange-perm,
}
use interview_questions.Sorting.{swap-ok}
use interview_questions.Sorting.Heapsort.{larger, largest_of, heapify}

-- Among the first `n`, no element from `lo` on is less than those below it.
abbrev pub IsHeapFrom : (lo n : ℕ) → List ℤ → Type 0
IsHeapFrom lo n a = (p c : ℕ) → lo ≤ p → p * 2 + 1 ≤ c → c ≤ p * 2 + 2 → c < n → a ! c ≤ℤ a ! p

-- Only the element at `i` may be less than those below it.
pub record DownInv (lo n : ℕ) (a : List ℤ) (i : ℕ) : Type 0 where
  pub edges : (p c : ℕ) → lo ≤ p → p ≢ i → p * 2 + 1 ≤ c → c ≤ p * 2 + 2 → c < n → a ! c ≤ℤ a ! p
  pub across :
      (p c : ℕ)
      → lo ≤ p
      → p * 2 + 1 ≤ i
      → i ≤ p * 2 + 2
      → i * 2 + 1 ≤ c
      → c ≤ i * 2 + 2
      → c < n
      → a ! c ≤ℤ a ! p

pub record Sifted (lo n : ℕ) (a b : List ℤ) : Type 0 where
  pub heap : IsHeapFrom lo n b
  pub moved : Perm b a
  pub beyond : (j : ℕ) → n ≤ j → b ! j ≡ a ! j
  pub bounded : (v : ℤ) → ((j : ℕ) → j < n → a ! j ≤ℤ v) → (j : ℕ) → j < n → b ! j ≤ℤ v

record Largest (n : ℕ) (a : List ℤ) (i s : ℕ) : Type 0 where
  inside : s < n
  most : (c : ℕ) → i * 2 + 1 ≤ c → c ≤ i * 2 + 2 → c < n → a ! c ≤ℤ a ! s
  stays_or_child : (s ≡ i) ⊎ ((i * 2 + 1 ≤ s) × (s ≤ i * 2 + 2) × (a ! i ≤ℤ a ! s))

module _ (n : ℕ) (a : List ℤ) (fits : n ≤ length a) where
  larger_takes :
      (child largest : ℕ)
      → largest < n
      → child < n
      → a ! largest ≤ℤ a ! child
      → larger a n child largest ≡ done child
  unfolding larger
  larger_takes child largest inside lt le = ground (arith, load-ok a child, load-ok a largest)

  larger_keeps :
      (child largest : ℕ)
      → largest < n
      → (child < n → a ! child <ℤ a ! largest)
      → larger a n child largest ≡ done largest
  unfolding larger
  larger_keeps child largest inside lt = ground (arith, lt, load-ok a child, load-ok a largest)

  larger_lem :
      (child largest : ℕ)
      → largest < n
      → Returns (larger a n child largest) (λ s.
        (s < n)
        × (a ! largest ≤ℤ a ! s)
        × (child < n → a ! child ≤ℤ a ! s)
        × ((s ≡ largest) ⊎ (s ≡ child)))
  larger_lem child largest inside = elim (dec_lt child n) [
    | no out ↦
        rw (larger_keeps child largest inside (λ lt. absurd (out lt)))
          (inside, omega arith, (λ lt. absurd (out lt)), inl refl)
    | yes lt ↦
        elim (dec_lt (pos_part (a ! child) + neg_part (a ! largest))
          (pos_part (a ! largest) + neg_part (a ! child))) [
            | yes less ↦
                rw (larger_keeps child largest inside (λ h. less))
                  (inside, omega arith, (λ h. omega arith), inl refl)
            | no ge ↦
                rw (larger_takes child largest inside lt (omega arith))
                  (lt, omega arith, (λ h. omega arith), inr refl)
          ]
  ]

  largest_of-Largest : (i : ℕ) → i < n → Returns (largest_of a n i) (Largest n a i)
  unfolding largest_of
  largest_of-Largest i inside =
      Returns-bind _ _ (larger a n (i * 2 + 1) i) (larger a n (i * 2 + 2))
        (larger_lem (i * 2 + 1) i inside)
        (λ s (s_in, le, left, place).
          Returns-mono _ _ (larger a n (i * 2 + 2) s) (larger_lem (i * 2 + 2) s s_in)
            (λ t (t_in, le', right, place'). record {
              inside = t_in;
              most = λ c l r lt. ground (arith, le', left, right);
              stays_or_child = ground (arith, place, place', le, le');
            }))

  module _ (lo i s : ℕ) (i_in : i < n) (s_in : s < n) (after : lo ≤ i) (above : i * 2 + 1 ≤ s)
      (below : s ≤ i * 2 + 2) where
    DownInv-exchange :
        a ! i ≤ℤ a ! s
        → ((c : ℕ) → i * 2 + 1 ≤ c → c ≤ i * 2 + 2 → c < n → a ! c ≤ℤ a ! s)
        → DownInv lo n a i
        → DownInv lo n (exchange a i s) s
    DownInv-exchange le most inv =
        let value = get_or-exchange a i s (omega arith) (omega arith) in
        record {
          edges = λ p c from ne l r lt.
              ground (arith, value p, value c, inv.edges p c, inv.across p s, most c);
          across = λ p c from l r l' r' lt. ground (arith, value p, value c, inv.edges s c);
        }

    Sifted-exchange : (b : List ℤ) → Sifted lo n (exchange a i s) b → Sifted lo n a b
    Sifted-exchange b sifted =
        let value = get_or-exchange a i s (omega arith) (omega arith) in
        record {
          heap = sifted.heap;
          moved = Perm.trans sifted.moved (exchange-perm a i s (omega arith) (omega arith));
          beyond = λ j le. sifted.beyond j le ∙ ground (arith, value j);
          bounded =
              λ v all. sifted.bounded v (λ j lt. ground (arith, value j, all i, all s, all j));
        }

pub heapify-Sifted :
    (fuel lo n : ℕ) (a : List ℤ) (i : ℕ)
    → n < fuel + i
    → n ≤ length a
    → i < n
    → lo ≤ i
    → DownInv lo n a i
    → Returns (heapify fuel a n i) (Sifted lo n a)
unfolding heapify
heapify-Sifted zero lo n a i enough fits i_in after inv = absurd (omega arith)
heapify-Sifted (suc fuel) lo n a i enough fits i_in after inv =
    Returns-bind _ _ (largest_of a n i) _ (largest_of-Largest n a fits i i_in) (λ s large.
      elim large.stays_or_child [
        | inl same ↦ rw (((==_iff s i).1) same) (record {
          heap = λ p c from l r lt. ground (arith, same, inv.edges p c, large.most c);
          moved = Perm.refl a;
          beyond = λ j le. refl;
          bounded = λ v all. all;
        })
        | inr child ↦
            rw
              (
                ne→== s i (omega (arith, child.0)),
                swap-ok a i s (omega arith) (omega (arith, large.inside)),
              )
              (Returns-mono _ _ (heapify fuel (exchange a i s) n s)
                (heapify-Sifted fuel lo n (exchange a i s) s (omega (arith, child.0))
                  (rw length-exchange fits) large.inside (omega (arith, child.0))
                  (DownInv-exchange n a fits lo i s i_in large.inside after child.0 child.1 child.2
                    large.most inv))
                (Sifted-exchange n a fits lo i s i_in large.inside after child.0 child.1))
      ])

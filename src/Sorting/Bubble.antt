-- ===== src/Sorting/Bubble.antt =====
-- DS_Algos/sorting/bubblesort/bubblesort.c: `bubblesort`.
-- The `for` counts its rounds; the `while` takes the number of elements plus one as fuel, which is
-- enough, since each pass that swaps leaves one more element in its final place.
use mathlib.Core.List.{Perm}
use mathlib.Core.List.Perm
use native.Mathlib.Nat.{add-sub_cancel}
use native.Mathlib.Decide.{dec_lt}
use mathlib.Core.Bool.{false≢true}
use interview_questions.Prelude.{
  ◌==◌, if◌then◌else◌, length, ℕ, zero, suc, ◌+◌, ◌-◌, ◌≤◌, ◌<◌, ◌≡◌, refl, sym, ◌⊎◌, inl, inr,
  Bool, true, false, List, arith,
}
use interview_questions.Prelude.Int.{ℤ, pos_part, neg_part, ◌≤ℤ◌, ◌<ℤ◌, ltb_ℤ}
use interview_questions.Prelude.Run.{Run, done, no_fuel, ◌>>=◌, Returns, Returns-bind, Returns-mono}
use interview_questions.Prelude.Arrays.{
  ◌!◌, IsSorted, load, exchange, load-ok, length-exchange, get_or-exchange, exchange-perm,
  length-perm, steps-IsSorted,
}
use interview_questions.Sorting.{swap, swap-ok}

-- `for (; i < arr_sz; i++)`, with `rounds` rounds left.
pass : (rounds i : ℕ) → Bool → List ℤ → Run (List ℤ × Bool)
pass zero i swapped arr = done (arr, swapped)
pass (suc rounds) i swapped arr = do
  x ← load arr i
  y ← load arr (i - 1)
  elim (ltb_ℤ x y) [
    | true ↦ swap arr i (i - 1) >>= λ b. pass rounds (i + 1) true b
    | false ↦ pass rounds (i + 1) swapped arr
  ]

while_swapped : (fuel arr_sz : ℕ) → List ℤ → Run (List ℤ)
while_swapped zero arr_sz arr = no_fuel
while_swapped (suc fuel) arr_sz arr = do
  (b, swapped) ← pass (arr_sz - 1) 1 false arr
  elim swapped [ true ↦ while_swapped fuel arr_sz b | false ↦ done b ]

unfoldable pub bubblesort : List ℤ → ℕ → Run (List ℤ)
unfolding pass while_swapped
bubblesort arr arr_sz = while_swapped (suc arr_sz) arr_sz arr

-- From index `s` on, every element is in its final place among the first `n`.
abbrev Settled : ℕ → ℕ → List ℤ → Type 0
Settled s n a = (p q : ℕ) → p < q → s ≤ q → q < n → a ! p ≤ℤ a ! q

-- In a pass, before the comparison at `i`: the element before it is the largest so far.
record Inv (s n i : ℕ) (a : List ℤ) : Type 0 where
  settled : Settled s n a
  largest : (j : ℕ) → j < i → a ! j ≤ℤ a ! (i - 1)
  placed : (p : ℕ) → p < s → s ≤ i → a ! p ≤ℤ a ! (s - 1)

-- What a pass over `a` from `i` on leaves.
abbrev Ends : ℕ → ℕ → ℕ → List ℤ → Bool → List ℤ × Bool → Type 0
Ends s n i a swapped (b, swapped') =
    Perm b a
    × Settled (s - 1) n b
    × (swapped' ≡ false
        → (swapped ≡ false) × (b ≡ a) × ((j : ℕ) → i ≤ j → j < n → a ! (j - 1) ≤ℤ a ! j))
    × (swapped' ≡ true → (swapped ≡ true) ⊎ (0 < s))

module _ (s n i : ℕ) (a : List ℤ) (pos_i : 0 < i) (lt : i < n) (fits : n ≤ length a)
    (inv : Inv s n i a) where
  -- The array after an exchange, at one index.
  after :
      (c : ℕ)
      → exchange a i (i - 1) ! c
        ≡ (if (i - 1) == c then a ! i else if i == c then a ! (i - 1) else a ! c)
  after c = get_or-exchange a i (i - 1) (omega arith) (omega arith) c

  largest-exchange :
      a ! i <ℤ a ! (i - 1)
      → (j : ℕ) → j < i + 1
      → exchange a i (i - 1) ! j ≤ℤ exchange a i (i - 1) ! i
  largest-exchange h j p = ground (arith, after j, after i, inv.largest j)

  Inv-exchange : a ! i <ℤ a ! (i - 1) → Inv s n (i + 1) (exchange a i (i - 1))
  Inv-exchange h = record {
    settled = λ p q pq sq qn. ground (
      arith,
      inv.settled (i - 1) i,
      inv.settled p q,
      inv.settled i q,
      inv.settled (i - 1) q,
      after p,
      after q,
    );
    largest = λ j p. rw (add-sub_cancel i 1) (largest-exchange h j p);
    placed = λ p ps le. ground (arith, inv.settled (i - 1) i, largest-exchange h p);
  }

  Inv-keep : a ! (i - 1) ≤ℤ a ! i → Inv s n (i + 1) a
  Inv-keep h = record {
    settled = inv.settled;
    largest = λ j p. rw (add-sub_cancel i 1) (ground (arith, inv.largest j));
    placed = λ p ps le. ground (arith, inv.placed p, inv.largest p);
  }

Settled-final : (s n : ℕ) (a : List ℤ) → s ≤ n → Inv s n n a → Settled (s - 1) n a
Settled-final s n a le inv p q pq sq qn = ground (arith, inv.settled p q, inv.placed p)

module _ (i : ℕ) (a : List ℤ) (swapped : Bool) (rounds : ℕ) (lt : i < length a) where
  pass_swap :
      a ! i <ℤ a ! (i - 1)
      → pass (suc rounds) i swapped a ≡ pass rounds (i + 1) true (exchange a i (i - 1))
  unfolding pass
  pass_swap h = ground (arith, load-ok a i, load-ok a (i - 1), swap-ok a i (i - 1))

  pass_keep : a ! (i - 1) ≤ℤ a ! i → pass (suc rounds) i swapped a ≡ pass rounds (i + 1) swapped a
  unfolding pass
  pass_keep h = ground (arith, load-ok a i, load-ok a (i - 1))

module _ (s n : ℕ) (le : s ≤ n) where
  pass-Ends :
      (rounds i : ℕ) (a : List ℤ) (swapped : Bool)
      → i + rounds ≡ n
      → 0 < i
      → n ≤ length a
      → Inv s n i a
      → Returns (pass rounds i swapped a) (Ends s n i a swapped)
  pass-Ends zero i a swapped e pos_i fits inv =
      let same : i ≡ n = omega arith in
      unfold pass in
      (
        Perm.refl a,
        Settled-final s n a le (rw same at inv),
        (λ h. (h, refl, λ j p q. absurd (omega arith))),
        λ h. inl h,
      )
  pass-Ends (suc rounds) i a swapped e pos_i fits inv =
      elim (dec_lt (pos_part (a ! i) + neg_part (a ! (i - 1)))
        (pos_part (a ! (i - 1)) + neg_part (a ! i))) [
          | yes h ↦ rw (pass_swap i a swapped rounds (omega arith) h) (
              Returns-mono _ _ (pass rounds (i + 1) true (exchange a i (i - 1)))
                (pass-Ends rounds (i + 1) (exchange a i (i - 1)) true (omega arith) (omega arith)
                  (rw length-exchange fits) (Inv-exchange s n i a pos_i (omega arith) fits inv h))
                (λ r ends. Ends_swap r h ends))
          | no h ↦ rw (pass_keep i a swapped rounds (omega arith) (omega arith)) (
              Returns-mono _ _ (pass rounds (i + 1) swapped a)
                (pass-Ends rounds (i + 1) a swapped (omega arith) (omega arith) fits
                  (Inv-keep s n i a pos_i (omega arith) fits inv (omega arith)))
                (λ r ends. Ends_keep r (omega arith) ends))
        ]
    where
      Ends_swap :
          (r : List ℤ × Bool)
          → a ! i <ℤ a ! (i - 1)
          → Ends s n (i + 1) (exchange a i (i - 1)) true r
          → Ends s n i a swapped r
      Ends_swap (b, swapped') h ends = (
        Perm.trans ends.0 (exchange-perm a i (i - 1) (omega arith) (omega arith)),
        ends.1,
        (λ f. absurd (false≢true (sym (ends.2 f).0))),
        λ t. inr (ground (arith, inv.settled (i - 1) i)),
      )

      Ends_keep :
          (r : List ℤ × Bool)
          → a ! (i - 1) ≤ℤ a ! i
          → Ends s n (i + 1) a swapped r
          → Ends s n i a swapped r
      Ends_keep (b, swapped') h ends = (
        ends.0,
        ends.1,
        (λ f. ((ends.2 f).0, (ends.2 f).1, λ j p q. ground (arith, (ends.2 f).2 j))),
        ends.3,
      )

module _ (n : ℕ) where
  Inv-initial : (s : ℕ) (a : List ℤ) → Settled s n a → Inv s n 1 a
  Inv-initial s a settled = record {
    settled = settled;
    largest = λ j p. ground arith;
    placed = λ p ps le. ground arith;
  }

  pass-Returns :
      (s : ℕ) (a : List ℤ)
      → s ≤ n
      → 0 < n
      → n ≤ length a
      → Settled s n a
      → Returns (pass (n - 1) 1 false a) (Ends s n 1 a false)
  pass-Returns s a le pos_n fits settled =
      pass-Ends s n le (n - 1) 1 a false (omega arith) (omega arith) fits (Inv-initial s a settled)

  -- What the body of the `while` does with the outcome of a pass.
  after_pass :
      (fuel s : ℕ) (a : List ℤ) (r : List ℤ × Bool)
      → Ends s n 1 a false r
      → ((b : List ℤ)
          → 0 < s
          → Perm b a
          → Settled (s - 1) n b
          → Returns (while_swapped fuel n b) (λ c. IsSorted c n × Perm c b))
      → Returns
          (elim r.1 [ true ↦ while_swapped fuel n r.0 | false ↦ done r.0 ])
          (λ b. IsSorted b n × Perm b a)
  after_pass fuel s a (b, true) ends again =
      Returns-mono _ _ (while_swapped fuel n b)
        (again b (ground (arith, ends.3 refl)) ends.0 ends.1)
        (λ c sorted. (sorted.0, Perm.trans sorted.1 ends.0))
  after_pass fuel s a (b, false) ends again =
      let same = (ends.2 refl).1 in
      (steps-IsSorted b n (λ i lt. rw same (ground (arith, (ends.2 refl).2 (suc i)))), ends.0)

  while_swapped-sorts :
      (fuel s : ℕ) (a : List ℤ)
      → s < fuel
      → s ≤ n
      → 0 < n
      → n ≤ length a
      → Settled s n a
      → Returns (while_swapped fuel n a) (λ b. IsSorted b n × Perm b a)
  unfolding while_swapped
  while_swapped-sorts zero s a enough le pos_n fits settled = absurd (omega arith)
  while_swapped-sorts (suc fuel) s a enough le pos_n fits settled =
      Returns-bind (Ends s n 1 a false) _ (pass (n - 1) 1 false a) _
        (pass-Returns s a le pos_n fits settled)
        (λ r ends. after_pass fuel s a r ends (λ b pos_s p settled'.
          while_swapped-sorts fuel (s - 1) b (omega arith) (omega arith) pos_n
            (rw (length-perm p) fits) settled'))

-- On an array of at least `n` elements `bubblesort` returns; the first `n` elements of the result
-- ascend, and the result is a rearrangement of the array.
pub bubblesort-sorts :
    (a : List ℤ) (n : ℕ) → n ≤ length a → Returns (bubblesort a n) (λ b. IsSorted b n × Perm b a)
unfolding bubblesort
bubblesort-sorts a zero fits = ((λ i j le lt. absurd (omega arith)), Perm.refl a)
bubblesort-sorts a (suc n) fits =
    while_swapped-sorts (suc n) (suc (suc n)) (suc n) a (omega arith) (omega arith) (omega arith)
      fits (λ p q pq sq qn. absurd (omega arith))

-- ===== src/Sorting/Quicksort/Partition.antt =====
-- DS_Algos/sorting/quicksort/quicksort.c: `partition`.
use native.Mathlib.Decide.{dec_lt}
use interview_questions.Prelude.{
  ltb, leb, length, ℕ, zero, suc, ◌+◌, ◌-◌, ◌≤◌, ◌<◌, ◌≡◌, true, ◌&&◌, List, arith,
}
use interview_questions.Prelude.Int.{ℤ, pos_part, neg_part, ◌≤ℤ◌, ◌<ℤ◌}
use interview_questions.Prelude.Run.{Returns, Returns-bind, Returns-mono}
use interview_questions.Prelude.Arrays.{
  ◌!◌, exchange, load-ok, length-exchange, get_or-exchange, length-perm,
}
use interview_questions.Sorting.{swap-ok}
use interview_questions.Sorting.Quicksort.{split_loop, partition}
use interview_questions.Sorting.Quicksort.Range.{Moved, Moved-refl, Moved-trans, Moved-exchange}

-- Before round `i`: what is not above the element at `low`, and then what is.
record Split (low i cursor : ℕ) (a : List ℤ) : Type 0 where
  lower : (j : ℕ) → low < j → j < cursor → a ! j ≤ℤ a ! low
  upper : (j : ℕ) → cursor ≤ j → j < i → a ! low ≤ℤ a ! j
  first : low < cursor
  reached : cursor ≤ i

abbrev SplitTo : (low high : ℕ) → List ℤ → List ℤ × ℕ → Type 0
SplitTo low high a r = Moved low high a r.0 × Split low high r.1 r.0

module _ (low high i cursor rounds : ℕ) (a : List ℤ) (fits : high ≤ length a) (i_in : i < high)
    (inv : Split low i cursor a) where
  split_swap :
      a ! i ≤ℤ a ! low
      → split_loop (suc rounds) i low cursor a
        ≡ split_loop rounds (i + 1) low (cursor + 1) (exchange a i cursor)
  unfolding split_loop
  split_swap le =
      ground (arith, inv.first, inv.reached, load-ok a i, load-ok a low, swap-ok a i cursor)

  split_keep :
      a ! low <ℤ a ! i
      → split_loop (suc rounds) i low cursor a ≡ split_loop rounds (i + 1) low cursor a
  unfolding split_loop
  split_keep lt = ground (arith, inv.first, inv.reached, load-ok a i, load-ok a low)

  Split-swap : a ! i ≤ℤ a ! low → Split low (i + 1) (cursor + 1) (exchange a i cursor)
  Split-swap le =
      let value = get_or-exchange a i cursor (omega arith) (omega (arith, inv.reached)) in
      record {
        lower = λ j l r. ground (arith, value j, value low, inv.lower j, inv.first, inv.reached);
        upper = λ j l r.
            ground
              (arith, value j, value low, inv.upper j, inv.upper cursor, inv.first, inv.reached);
        first = omega (arith, inv.first);
        reached = omega (arith, inv.reached);
      }

  Split-keep : a ! low <ℤ a ! i → Split low (i + 1) cursor a
  Split-keep lt = record {
    lower = inv.lower;
    upper = λ j l r. ground (arith, inv.upper j);
    first = inv.first;
    reached = omega (arith, inv.reached);
  }

split_loop-SplitTo :
    (rounds i low high cursor : ℕ) (a : List ℤ)
    → i + rounds ≡ high
    → high ≤ length a
    → Split low i cursor a
    → Returns (split_loop rounds i low cursor a) (SplitTo low high a)
split_loop-SplitTo zero i low high cursor a e fits inv =
    let here : i ≡ high = omega arith in
    unfold split_loop in (Moved-refl low high a, rw here at inv)
split_loop-SplitTo (suc rounds) i low high cursor a e fits inv =
    elim (dec_lt (pos_part (a ! low) + neg_part (a ! i)) (pos_part (a ! i) + neg_part (a ! low))) [
      | yes lt ↦ rw (split_keep low high i cursor rounds a fits (omega arith) inv lt) (
          split_loop-SplitTo rounds (i + 1) low high cursor a (omega arith) fits
            (Split-keep low high i cursor rounds a fits (omega arith) inv lt))
      | no ge ↦ rw (split_swap low high i cursor rounds a fits (omega arith) inv (omega arith)) (
          Returns-mono _ _ (split_loop rounds (i + 1) low (cursor + 1) (exchange a i cursor))
            (split_loop-SplitTo rounds (i + 1) low high (cursor + 1) (exchange a i cursor)
              (omega arith) (rw length-exchange fits)
              (Split-swap low high i cursor rounds a fits (omega arith) inv (omega arith)))
            (λ r (moved, split). (
              Moved-trans low high a (exchange a i cursor) r.0
                  (Moved-exchange low high a i cursor fits (omega (arith, inv.first, inv.reached))
                    (omega arith) (omega (arith, inv.first)) (omega (arith, inv.reached)))
                  moved,
              split,
            )))
    ]

-- The element at the place is where it belongs in the range.
pub record Partitioned (low high : ℕ) (a : List ℤ) (r : List ℤ × ℕ) : Type 0 where
  pub moved : Moved low high a r.0
  pub from : low ≤ r.1
  pub inside : r.1 < high
  pub left : (j : ℕ) → low ≤ j → j < r.1 → r.0 ! j ≤ℤ r.0 ! r.1
  pub right : (j : ℕ) → r.1 < j → j < high → r.0 ! r.1 ≤ℤ r.0 ! j

last_swap :
    (low high : ℕ) (a c : List ℤ) (cursor : ℕ)
    → high ≤ length c
    → Moved low high a c
    → Split low high cursor c
    → Partitioned low high a (exchange c low (cursor - 1), cursor - 1)
last_swap low high a c cursor fits moved split =
    let value =
      get_or-exchange c low (cursor - 1) (omega (arith, split.first, split.reached))
        (omega (arith, split.first, split.reached)) in
    record {
      moved = Moved-trans low high a c (exchange c low (cursor - 1)) moved (
          Moved-exchange low high c low (cursor - 1) fits (omega arith)
            (omega (arith, split.first, split.reached)) (omega (arith, split.first))
            (omega (arith, split.first, split.reached)));
      from = omega (arith, split.first);
      inside = omega (arith, split.first, split.reached);
      left = λ j l r. ground (
        arith,
        value j,
        value (cursor - 1),
        split.lower j,
        split.lower (cursor - 1),
        split.first,
      );
      right = λ j l r. ground (arith, value j, value (cursor - 1), split.upper j, split.first);
    }

pub partition-Partitioned :
    (a : List ℤ) (low high pivot : ℕ)
    → low ≤ pivot
    → pivot < high
    → high ≤ length a
    → Returns (partition a low high pivot) (Partitioned low high a)
unfolding partition
partition-Partitioned a low high pivot le lt fits =
    let guard : (leb low pivot && ltb pivot high) ≡ true = ground arith in
    let b = exchange a low pivot in
    let size = length-exchange a low pivot in
    let start = Moved-exchange low high a low pivot fits (omega arith) (omega arith) le lt in
    rw (guard, partition)
      (rw (swap-ok a low pivot (omega arith) (omega arith), partition)
        (Returns-bind (SplitTo low high b) _
          (split_loop (high - (low + 1)) (low + 1) low (low + 1) b) _
          (split_loop-SplitTo (high - (low + 1)) (low + 1) low high (low + 1) b (omega arith)
            (omega (arith, size))
            (record {
              lower = λ j l r. absurd (omega arith);
              upper = λ j l r. absurd (omega arith);
              first = omega arith;
              reached = omega arith;
            }))
          (λ (c, cursor) (moved, split).
            let fits' : high ≤ length c = omega (arith, length-perm moved.same, size) in
            rw
              (swap-ok c low (cursor - 1) (omega (arith, split.first, split.reached))
                (omega (arith, split.first, split.reached)))
              (last_swap low high a c cursor fits' (Moved-trans low high a b c start moved)
                split))))

-- ===== src/BinSearch/Closest.antt =====
-- `bin_search_closest`: the closest element, where the differences fit `int`.
use native.Mathlib.Decide.{ℕ_discrete}
use interview_questions.Prelude.{
  ltb, ◌==◌, if◌then◌else◌, lt→ltb, ==_refl, ne→==, Bool-cases, length, get_elem?-eq-get_or, ℕ,
  zero, suc, ◌+◌, ◌-◌, ◌^◌, ◌≤◌, ◌<◌, ◌≡◌, refl, sym, ◌⊎◌, inl, inr, List, arith,
}
use interview_questions.Prelude.Int.{ℤ, pos, negsuc, pos_part, neg_part, ◌-ℤ◌}
use interview_questions.Prelude.Arrays.{◌!◌, IsSorted}
use interview_questions.Prelude.Run.{done, Returns, Returns-bind}
use interview_questions.BinSearch.{
  Ended, found, crossed, narrow, pick_closest, bin_search_closest, pred_ℤ, int_sub, abs,
}
use interview_questions.BinSearch.Traditional.{SplitsAt, narrow-Splits}

-- The distance of two integers.
abbrev pub dist : ℤ → ℤ → ℕ
dist a b =
    (pos_part a + neg_part b - (pos_part b + neg_part a))
    + (pos_part b + neg_part a - (pos_part a + neg_part b))

-- No element among the first `n` is closer to `val` than the one at the index; -1 if there is none.
abbrev pub ClosestAt : List ℤ → ℕ → ℤ → ℤ → Type 0
ClosestAt a n val (pos p) = (p < n) × ((i : ℕ) → i < n → dist val (a ! p) ≤ dist val (a ! i))
ClosestAt a n val (negsuc k) = (k ≡ 0) × (n ≡ 0)

-- Less than 2 ^ 30 in absolute value, so that differences fit `int`.
abbrev pub IsSmall : ℤ → Type 0
IsSmall v = pos_part v + neg_part v < 2 ^ 30

int_sub-IsSmall : (u v : ℤ) → IsSmall u → IsSmall v → int_sub u v ≡ done (u -ℤ v)
unfolding int_sub ◌-ℤ◌
int_sub-IsSmall u v p q = ground arith

-- `abs(val-x)`.
abs_diff : (u v : ℤ) → IsSmall u → IsSmall v → abs (u -ℤ v) ≡ done (pos (dist u v))
unfolding int_sub abs ◌-ℤ◌
abs_diff u v p q = ground arith

module _ (a : List ℤ) (n : ℕ) (val : ℤ) (sorted : IsSorted a n) (fits : n ≤ length a)
    (small : (i : ℕ) → i < n → IsSmall (a ! i)) (small_val : IsSmall val) where
  pick_closest_both :
      (l : ℕ)
      → 0 < l
      → l < n
      → pick_closest a n val l l
        ≡ done (if ltb (dist val (a ! l)) (dist val (a ! (l - 1))) then pos l else pos (l - 1))
  unfolding pick_closest
  pick_closest_both zero p q = absurd (omega arith)
  pick_closest_both (suc l) p q =
      let in_l : IsSmall (a ! suc l) = small (suc l) (omega arith) in
      let in_r : IsSmall (a ! l) = small l (omega arith) in
      let before : suc l - 1 ≡ l = omega arith in
      rw
        (
          before,
          lt→ltb (suc l) n q,
          get_elem?-eq-get_or a (suc l) (pos 0) (omega arith),
          get_elem?-eq-get_or a l (pos 0) (omega arith),
          int_sub-IsSmall val (a ! suc l) small_val in_l,
          abs_diff val (a ! suc l) small_val in_l,
          int_sub-IsSmall val (a ! l) small_val in_r,
          abs_diff val (a ! l) small_val in_r,
        )
        (ground arith)

  pick_closest_end :
      (l : ℕ)
      → (l ≡ 0) ⊎ (l ≡ n)
      → l ≤ n
      → pick_closest a n val l l ≡ done (if l == n then pred_ℤ n else pos 0)
  unfolding pick_closest
  pick_closest_end l ends le = ground arith

  -- Where the loop ends between two elements, the closer of the two is closest of all.
  ClosestAt-both :
      (l : ℕ)
      → 0 < l
      → l < n
      → ((i : ℕ) → SplitsAt a n val i (crossed l l))
      → ClosestAt a n val
          (if ltb (dist val (a ! l)) (dist val (a ! (l - 1))) then pos l else pos (l - 1))
  ClosestAt-both l p q s = elim (Bool-cases (ltb (dist val (a ! l)) (dist val (a ! (l - 1))))) [
    | inl h ↦ rw h (q, λ i lt. ground (arith, s i, s l, s (l - 1), sorted l i, sorted i (l - 1)))
    | inr h ↦
        rw h
          (omega arith, λ i lt. ground (arith, s i, s l, s (l - 1), sorted l i, sorted i (l - 1)))
  ]

  -- Where it ends behind the last element, that one is closest, and before the first, that one.
  ClosestAt-right :
      (m : ℕ) → m ≡ n → ((i : ℕ) → SplitsAt a n val i (crossed n n)) → ClosestAt a n val (pred_ℤ m)
  ClosestAt-right zero e s = (refl, sym e)
  ClosestAt-right (suc m) e s = (omega arith, λ i lt. ground (arith, s i, s m, sorted i m))

  ClosestAt-left : 0 < n → ((i : ℕ) → SplitsAt a n val i (crossed 0 0)) → ClosestAt a n val (pos 0)
  ClosestAt-left p s = (p, λ i lt. ground (arith, s i, s 0, sorted 0 i))

  ClosestAt-crossed :
      (l : ℕ)
      → ((i : ℕ) → SplitsAt a n val i (crossed l l))
      → Returns (pick_closest a n val l l) (ClosestAt a n val)
  ClosestAt-crossed l s = elim (ℕ_discrete l n) [
    | yes e ↦
        rw (pick_closest_end l (inr e) (s 0).1, e, ==_refl n)
          (ClosestAt-right n refl (λ i. rw e at (s i)))
    | no e ↦ elim (ℕ_discrete l 0) [
      | yes z ↦
          rw (pick_closest_end l (inl z) (s 0).1, ne→== l n e)
            (ClosestAt-left (ground (arith, s 0)) (λ i. rw z at (s i)))
      | no z ↦
          rw (pick_closest_both l (omega arith) (ground (arith, s 0)))
            (ClosestAt-both l (omega arith) (ground (arith, s 0)) s)
    ]
  ]

  ClosestAt-ended :
      (e : Ended)
      → ((i : ℕ) → SplitsAt a n val i e)
      → Returns
          (elim e [ found mid ↦ done (pos mid) | crossed l h ↦ pick_closest a n val l h ])
          (ClosestAt a n val)
  ClosestAt-ended (found p) s = ((s 0).0, λ i lt. ground (arith, s 0))
  ClosestAt-ended (crossed l h) s =
      let same : l ≡ h = (s 0).0 in rw (← same) (ClosestAt-crossed l (λ i. rw (← same) at (s i)))

  -- On the first `n` elements of an array, in ascending order, and where the value and those
  -- elements are below 2 ^ 30 in absolute value, `bin_search_closest` returns: an index below `n` of an
  -- element that is at least as close to the value as each of the `n`, or -1 if `n` is 0.
  pub bin_search_closest-ClosestAt : Returns (bin_search_closest a n val) (ClosestAt a n val)
  unfolding bin_search_closest
  bin_search_closest-ClosestAt =
      Returns-bind (λ e. (i : ℕ) → SplitsAt a n val i e) (ClosestAt a n val)
        (narrow (suc n) a val 0 n) _ (narrow-Splits a n val sorted fits) ClosestAt-ended

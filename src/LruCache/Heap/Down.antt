-- ===== src/LruCache/Heap/Down.antt =====
-- misc/lru_cache/solution.cpp: `sift_down` restores the heap and only moves entries.
use mathlib.Core.List.Perm
use native.Mathlib.Decide.{dec_lt}
use interview_questions.Prelude.{
  ==_iff, ne→==, length, ℕ, zero, suc, ◌+◌, ◌*◌, ◌≤◌, ◌<◌, ◌≡◌, refl, ◌≢◌, ◌⊎◌, inl, inr, List,
  arith,
}
use interview_questions.Prelude.Run.{done, Returns, Returns-bind, Returns-mono}
use interview_questions.Prelude.Exchange.{exchanged}
use interview_questions.LruCache.Line.{CacheLineEntry, pick, smallest_of, sift_down}
use interview_questions.LruCache.Heap.{
  blank, time_at, Sifted, entry-ok, swap-exchanged, length-exchanged, time-exchanged,
  Sifted-exchanged,
}

-- Only the entry at `i` may be younger than those below it.
pub record DownInv (heap : List CacheLineEntry) (i : ℕ) : Type 0 where
  pub edges :
      (p c : ℕ)
      → p ≢ i
      → p * 2 + 1 ≤ c
      → c ≤ p * 2 + 2
      → c < length heap
      → time_at heap p ≤ time_at heap c
  pub across :
      (p c : ℕ)
      → p * 2 + 1 ≤ i
      → i ≤ p * 2 + 2
      → i * 2 + 1 ≤ c
      → c ≤ i * 2 + 2
      → c < length heap
      → time_at heap p ≤ time_at heap c

-- What the two tests of a round choose.
record Smallest (heap : List CacheLineEntry) (i s : ℕ) : Type 0 where
  inside : s < length heap
  least :
      (c : ℕ) → i * 2 + 1 ≤ c → c ≤ i * 2 + 2 → c < length heap → time_at heap s ≤ time_at heap c
  stays_or_child : (s ≡ i) ⊎ ((i * 2 + 1 ≤ s) × (s ≤ i * 2 + 2) × (time_at heap s < time_at heap i))

module _ (heap : List CacheLineEntry) (child smallest : ℕ) (inside : smallest < length heap) where
  pick_takes :
      child < length heap
      → time_at heap child < time_at heap smallest
      → pick heap child smallest ≡ done child
  unfolding pick
  pick_takes lt older = ground (arith, entry-ok heap child, entry-ok heap smallest)

  pick_keeps :
      (child < length heap → time_at heap smallest ≤ time_at heap child)
      → pick heap child smallest ≡ done smallest
  unfolding pick
  pick_keeps ge = ground (arith, ge, entry-ok heap child, entry-ok heap smallest)

  pick_lem : Returns (pick heap child smallest) (λ s.
      (s < length heap)
      × (time_at heap s ≤ time_at heap smallest)
      × (child < length heap → time_at heap s ≤ time_at heap child)
      × ((s ≡ smallest) ⊎ ((s ≡ child) × (time_at heap s < time_at heap smallest))))
  pick_lem = elim (dec_lt child (length heap)) [
    | no out ↦
        rw (pick_keeps (λ lt. absurd (out lt)))
          (inside, omega arith, (λ lt. absurd (out lt)), inl refl)
    | yes lt ↦ elim (dec_lt (time_at heap child) (time_at heap smallest)) [
      | yes older ↦
          rw (pick_takes lt older) (lt, omega arith, (λ h. omega arith), inr (refl, older))
      | no ge ↦
          rw (pick_keeps (λ h. omega arith)) (inside, omega arith, (λ h. omega arith), inl refl)
    ]
  ]

smallest_of-Smallest :
    (heap : List CacheLineEntry) (i : ℕ)
    → i < length heap
    → Returns (smallest_of heap i) (Smallest heap i)
unfolding smallest_of
smallest_of-Smallest heap i i_in =
    Returns-bind _ _ (pick heap (i * 2 + 1) i) (pick heap (i * 2 + 2))
      (pick_lem heap (i * 2 + 1) i i_in)
      (λ s (s_in, le, left, place).
        Returns-mono _ _ (pick heap (i * 2 + 2) s) (pick_lem heap (i * 2 + 2) s s_in)
          (λ t (t_in, le', right, place'). record {
            inside = t_in;
            least = λ c l r lt. ground (arith, le', left, right);
            stays_or_child = ground (arith, place, place', le, le');
          }))

DownInv-exchanged :
    (heap : List CacheLineEntry) (i s : ℕ)
    → i < length heap
    → s < length heap
    → i * 2 + 1 ≤ s
    → s ≤ i * 2 + 2
    → time_at heap s < time_at heap i
    → Smallest heap i s
    → DownInv heap i
    → DownInv (exchanged blank heap i s) s
DownInv-exchanged heap i s i_in s_in above below older small inv =
    let size = length-exchanged heap i s in
    let time = time-exchanged heap i s i_in s_in in
    record {
      edges = λ p c ne l r lt.
          ground (arith, time p, time c, inv.edges p c, inv.across p s, small.least c);
      across = λ p c l r l' r' lt. ground (arith, time p, time c, inv.edges s c);
    }

pub sift_down-Sifted :
    (fuel : ℕ) (heap : List CacheLineEntry) (i : ℕ)
    → length heap < fuel + i
    → i < length heap
    → DownInv heap i
    → Returns (sift_down fuel heap i) (Sifted heap)
unfolding sift_down
sift_down-Sifted zero heap i enough i_in inv = absurd (omega arith)
sift_down-Sifted (suc fuel) heap i enough i_in inv =
    Returns-bind _ _ (smallest_of heap i) _ (smallest_of-Smallest heap i i_in) (λ s small.
      elim small.stays_or_child [
        | inl same ↦
            rw (((==_iff s i).1) same)
              ((λ p c l r lt. ground (arith, same, inv.edges p c, small.least c)), Perm.refl heap)
        | inr child ↦
            rw (ne→== s i (omega (arith, child.0)), swap-exchanged heap i s i_in small.inside)
              (Sifted-exchanged heap i s i_in small.inside
                (sift_down fuel (exchanged blank heap i s) s)
                (sift_down-Sifted fuel (exchanged blank heap i s) s
                  (rw length-exchanged (omega (arith, child.0))) (rw length-exchanged small.inside)
                  (DownInv-exchanged heap i s i_in small.inside child.0 child.1 child.2 small inv)))
      ])

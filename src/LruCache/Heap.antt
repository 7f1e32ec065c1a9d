-- ===== src/LruCache/Heap.antt =====
-- misc/lru_cache/solution.cpp: `sift_up` restores the heap and only moves entries; Down has
-- `sift_down`.
use interview_questions.Prelude.Run.{Run, done, present, Returns, Returns-mono}
use interview_questions.Prelude.Int.{pos}
pub mod Down
pub mod Moves
use mathlib.Core.List.{Perm}
use mathlib.Core.List.Perm
use native.Mathlib.Decide.{dec_lt}
use interview_questions.Prelude.{
  ◌==◌, if◌then◌else◌, length, get_elem?, get_or, length-set, get_elem?-eq-get_or, ℕ, zero, suc,
  ◌+◌, ◌-◌, ◌*◌, ◌/◌, ◌≤◌, ◌<◌, ◌≡◌, refl, ◌≢◌, List, arith,
}
use interview_questions.Prelude.Exchange.{exchanged, get_or-exchanged, exchanged-perm}
use interview_questions.LruCache.Line.{CacheLineEntry, swap, sift_up}

-- What a read out of range gives, in statements only.
abbrev pub blank : CacheLineEntry
blank = record { timestamp = 0; key = 0; val = pos 0 }

abbrev pub time_at : List CacheLineEntry → ℕ → ℕ
time_at heap i = (get_or heap i blank).timestamp

-- No entry is older than the one above it.
abbrev pub IsHeap : List CacheLineEntry → Type 0
IsHeap heap =
    (p c : ℕ) → p * 2 + 1 ≤ c → c ≤ p * 2 + 2 → c < length heap → time_at heap p ≤ time_at heap c

-- Only the entry at `i` may be older than the one above it.
pub record UpInv (heap : List CacheLineEntry) (i : ℕ) : Type 0 where
  pub edges :
      (p c : ℕ)
      → c ≢ i
      → p * 2 + 1 ≤ c
      → c ≤ p * 2 + 2
      → c < length heap
      → time_at heap p ≤ time_at heap c
  pub across :
      (p c : ℕ)
      → p * 2 + 1 ≤ i
      → i ≤ p * 2 + 2
      → i * 2 + 1 ≤ c
      → c ≤ i * 2 + 2
      → c < length heap
      → time_at heap p ≤ time_at heap c

abbrev pub Sifted : List CacheLineEntry → List CacheLineEntry → Type 0
Sifted heap h = IsHeap h × Perm h heap

pub entry-ok :
    (heap : List CacheLineEntry) (i : ℕ)
    → i < length heap
    → present (get_elem? heap i) ≡ done (get_or heap i blank)
entry-ok heap i h = rw (get_elem?-eq-get_or heap i blank h) refl

pub swap-exchanged :
    (heap : List CacheLineEntry) (i j : ℕ)
    → i < length heap
    → j < length heap
    → swap heap i j ≡ done (exchanged blank heap i j)
unfolding swap
swap-exchanged heap i j p q = rw (entry-ok heap i p, entry-ok heap j q) refl

pub length-exchanged :
    (heap : List CacheLineEntry) (i j : ℕ) → length (exchanged blank heap i j) ≡ length heap
length-exchanged heap i j = simp length-set

module _ (heap : List CacheLineEntry) (i j : ℕ) (i_in : i < length heap)
    (j_in : j < length heap) where
  pub time-exchanged :
      (c : ℕ)
      → time_at (exchanged blank heap i j) c
        ≡ (if j == c then time_at heap i else if i == c then time_at heap j else time_at heap c)
  time-exchanged c = ground (arith, get_or-exchanged blank heap i j i_in j_in c)

  pub Sifted-exchanged :
      (r : Run (List CacheLineEntry))
      → Returns r (Sifted (exchanged blank heap i j))
      → Returns r (Sifted heap)
  Sifted-exchanged r sifted =
      Returns-mono _ _ r sifted
        (λ h s. (s.0, Perm.trans s.1 (exchanged-perm blank heap i j i_in j_in)))

UpInv-exchanged :
    (heap : List CacheLineEntry) (i j : ℕ)
    → i < length heap
    → j * 2 + 1 ≤ i
    → i ≤ j * 2 + 2
    → time_at heap i < time_at heap j
    → UpInv heap i
    → UpInv (exchanged blank heap i j) j
UpInv-exchanged heap i j i_in above below older inv =
    let size = length-exchanged heap i j in
    let time = time-exchanged heap i j i_in (omega arith) in
    record {
      edges = λ p c ne l r lt.
          ground (arith, time p, time c, inv.edges p c, inv.across j c, inv.edges j c);
      across = λ p c l r l' r' lt. ground (arith, time p, time c, inv.edges p j, inv.edges j c);
    }

module _ (fuel : ℕ) (heap : List CacheLineEntry) (i : ℕ) (i_in : suc i < length heap) where
  parent : ℕ
  parent = (suc i + 1) / 2 - 1

  parent-is : (parent * 2 + 1 ≤ suc i) × (suc i ≤ parent * 2 + 2)
  unfolding parent
  parent-is = (omega arith, omega arith)

  sift_up_swap :
      time_at heap (suc i) < time_at heap parent
      → sift_up (suc fuel) heap (suc i) ≡ sift_up fuel (exchanged blank heap (suc i) parent) parent
  unfolding sift_up parent
  sift_up_swap older = ground (
    arith,
    older,
    entry-ok heap (suc i),
    entry-ok heap parent,
    swap-exchanged heap (suc i) parent,
  )

  sift_up_stop :
      time_at heap parent ≤ time_at heap (suc i) → sift_up (suc fuel) heap (suc i) ≡ done heap
  unfolding sift_up parent
  sift_up_stop settled = ground (arith, settled, entry-ok heap (suc i), entry-ok heap parent)

pub sift_up-Sifted :
    (fuel : ℕ) (heap : List CacheLineEntry) (i : ℕ)
    → i < fuel
    → i < length heap
    → UpInv heap i
    → Returns (sift_up fuel heap i) (Sifted heap)
unfolding sift_up
sift_up-Sifted zero heap i enough i_in inv = absurd (omega arith)
sift_up-Sifted (suc fuel) heap zero enough i_in inv =
    ((λ p c l r lt. inv.edges p c (omega arith) l r lt), Perm.refl heap)
sift_up-Sifted (suc fuel) heap (suc i) enough i_in inv =
    let j = parent fuel heap i i_in in
    let (above, below) = parent-is fuel heap i i_in in
    let j_in : j < length heap = omega arith in
    elim (dec_lt (time_at heap (suc i)) (time_at heap j)) [
      | yes lt ↦ rw (sift_up_swap fuel heap i i_in lt) (
          Sifted-exchanged heap (suc i) j i_in j_in
            (sift_up fuel (exchanged blank heap (suc i) j) j)
            (sift_up-Sifted fuel (exchanged blank heap (suc i) j) j (omega arith)
              (rw length-exchanged j_in) (UpInv-exchanged heap (suc i) j i_in above below lt inv)))
      | no ge ↦
          rw (sift_up_stop fuel heap i i_in (omega arith))
            ((λ p c l r lt. edges_settled j p c above below l r lt ge), Perm.refl heap)
    ]
  where
    edges_settled :
        (j p c : ℕ)
        → j * 2 + 1 ≤ suc i
        → suc i ≤ j * 2 + 2
        → p * 2 + 1 ≤ c
        → c ≤ p * 2 + 2
        → c < length heap
        → ¬ (time_at heap (suc i) < time_at heap j)
        → time_at heap p ≤ time_at heap c
    edges_settled j p c above below l r lt ge = ground (arith, ge, inv.edges p c)

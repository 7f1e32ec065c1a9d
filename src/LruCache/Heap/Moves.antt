-- ===== src/LruCache/Heap/Moves.antt =====
-- misc/lru_cache/solution.cpp: `extract_min`, `insert` of an entry and `increase_key` keep the heap;
-- what they do to its entries, in any order.
use mathlib.Core.List.{Perm}
use mathlib.Core.List.Perm
use interview_questions.Prelude.{
  length, get_or, set, take, length-append, length-set, length-take, ℕ, zero, suc, ◌-◌, ◌/◌, ◌≤◌,
  ◌<◌, ◌≡◌, refl, List, [], ◌∷◌, ◌++◌, arith,
}
use interview_questions.Prelude.Run.{Returns, Returns-mono}
use interview_questions.Prelude.Exchange.{
  exchanged, get_or-update, get_or-exchanged, exchanged-perm, overwrite-perm,
}
use interview_questions.LruCache.Line.{
  CacheLineEntry, sift_up, pick, smallest_of, sift_down, extract_min, insert_entry, increase_key,
}
use interview_questions.LruCache.Heap.{
  blank, time_at, IsHeap, Sifted, entry-ok, swap-exchanged, length-exchanged, time-exchanged,
  sift_up-Sifted,
}
use interview_questions.LruCache.Heap.Down.{DownInv, sift_down-Sifted}

-- The last entry and those before it.
get_or-take :
    (heap : List CacheLineEntry) (k c : ℕ)
    → c < k
    → get_or (take k heap) c blank ≡ get_or heap c blank
get_or-take [] zero c lt = refl
get_or-take [] (suc k) c lt = refl
get_or-take (e ∷ heap) zero c lt = absurd (omega arith)
get_or-take (e ∷ heap) (suc k) zero lt = refl
get_or-take (e ∷ heap) (suc k) (suc c) lt = get_or-take heap k c (omega arith)

take_last-perm :
    (heap : List CacheLineEntry) (k : ℕ)
    → length heap ≡ suc k
    → Perm heap (get_or heap k blank ∷ take k heap)
take_last-perm [] k e = absurd (omega (arith, e))
take_last-perm (x ∷ []) zero e = Perm.refl (x ∷ [])
take_last-perm (x ∷ y ∷ heap) zero e = absurd (omega (arith, e))
take_last-perm (x ∷ heap) (suc k) e =
    Perm.trans (Perm.cons x (take_last-perm heap k (omega (arith, e))))
      (Perm.swap (get_or heap k blank) x (take k heap))

get_or-push :
    (heap : List CacheLineEntry) (e : CacheLineEntry) (c : ℕ)
    → c < length heap
    → get_or (heap ++ e ∷ []) c blank ≡ get_or heap c blank
get_or-push [] e c lt = absurd (omega arith)
get_or-push (x ∷ heap) e zero lt = refl
get_or-push (x ∷ heap) e (suc c) lt = get_or-push heap e c (omega arith)

pub push-perm : (heap : List CacheLineEntry) (e : CacheLineEntry) → Perm (heap ++ e ∷ []) (e ∷ heap)
push-perm [] e = Perm.refl (e ∷ [])
push-perm (x ∷ heap) e = Perm.trans (Perm.cons x (push-perm heap e)) (Perm.swap e x heap)

-- The root is the oldest.
pub root-oldest :
    (heap : List CacheLineEntry)
    → IsHeap heap
    → (fuel i : ℕ) → i < fuel
    → i < length heap
    → time_at heap 0 ≤ time_at heap i
root-oldest heap ordered zero i enough lt = absurd (omega arith)
root-oldest heap ordered (suc fuel) zero enough lt = omega arith
root-oldest heap ordered (suc fuel) (suc i) enough lt = omega (
  arith,
  root-oldest heap ordered fuel (i / 2) (omega arith) (omega arith),
  ordered (i / 2) (suc i) (omega arith) (omega arith) lt,
)

pub insert_entry-lem :
    (e : CacheLineEntry) (heap : List CacheLineEntry)
    → IsHeap heap
    → Returns (insert_entry e heap) (λ h. IsHeap h × Perm h (e ∷ heap))
unfolding insert_entry
insert_entry-lem e heap ordered =
    let size = length-append heap (e ∷ []) in
    Returns-mono _ _ (sift_up (suc (suc (length heap))) (heap ++ e ∷ []) (length heap))
      (sift_up-Sifted (suc (suc (length heap))) (heap ++ e ∷ []) (length heap) (omega arith)
        (omega arith)
        (record {
          edges = λ p c ne l r lt.
              ground (arith, size, get_or-push heap e p, get_or-push heap e c, ordered p c);
          across = λ p c l r l' r' lt. absurd (omega arith);
        }))
      (λ h s. (s.0, Perm.trans s.1 (push-perm heap e)))

sift_root :
    (heap : List CacheLineEntry)
    → DownInv heap 0
    → Returns (sift_down (suc (length heap)) heap 0) (Sifted heap)
unfolding sift_down smallest_of pick
sift_root [] inv = ((λ p c l r lt. absurd (omega arith)), Perm.refl [])
sift_root (e ∷ heap) inv =
    sift_down-Sifted (suc (length (e ∷ heap))) (e ∷ heap) 0 (omega arith) (omega arith) inv

pub extract_min-lem :
    (heap : List CacheLineEntry)
    → IsHeap heap
    → 0 < length heap
    → Returns (extract_min heap) (λ h. IsHeap h × Perm heap (get_or heap 0 blank ∷ h))
unfolding extract_min
extract_min-lem heap ordered some_left =
    let last = length heap - 1 in
    let in_range : last < length heap = omega arith in
    let h = exchanged blank heap 0 last in
    let size = length-exchanged heap 0 last in
    let k = length h - 1 in
    let time = time-exchanged heap 0 last some_left in_range in
    let cut = length-take k h in
    let root : get_or h k blank ≡ get_or heap 0 blank =
      ground (arith, get_or-exchanged blank heap 0 last some_left in_range k, size) in
    rw (swap-exchanged heap 0 last some_left in_range) (
      Returns-mono _ _ (sift_down (suc (length (take k h))) (take k h) 0)
        (sift_root (take k h) (record {
          edges = λ p c ne l r lt.
              ground (
                arith,
                get_or-take h k p,
                get_or-take h k c,
                time p,
                time c,
                cut,
                size,
                ordered p c,
              );
          across = λ p c l r l' r' lt. absurd (omega arith);
        }))
        (λ r s. (
          s.0,
          Perm.trans (Perm.symm (exchanged-perm blank heap 0 last some_left in_range)) (
              rw root at (
                Perm.trans (take_last-perm h k (omega (arith, size)))
                  (Perm.cons (get_or h k blank) (Perm.symm s.1)))),
        )))

-- The new time is no earlier than the old one.
pub increase_key-lem :
    (heap : List CacheLineEntry) (idx now : ℕ)
    → IsHeap heap
    → idx < length heap
    → time_at heap idx ≤ now
    → Returns (increase_key heap idx now) (λ h.
      IsHeap h
      × Perm
          (get_or heap idx blank ∷ h)
          (record (get_or heap idx blank) { timestamp = now } ∷ heap))
unfolding increase_key
increase_key-lem heap idx now ordered idx_in later =
    let touched = record (get_or heap idx blank) { timestamp = now } in
    let size = length-set heap idx touched in
    rw (entry-ok heap idx idx_in) (
      Returns-mono _ _ (sift_down (suc (length heap)) (set heap idx touched) idx)
        (sift_down-Sifted (suc (length heap)) (set heap idx touched) idx (omega (arith, size))
          (omega (arith, size))
          (record {
            edges = λ p c ne l r lt. ground (
              arith,
              size,
              get_or-update blank heap idx p touched,
              get_or-update blank heap idx c touched,
              ordered p c,
            );
            across = λ p c l r l' r' lt. ground (
              arith,
              size,
              get_or-update blank heap idx p touched,
              get_or-update blank heap idx c touched,
              ordered p idx,
              ordered idx c,
            );
          }))
        (λ h s. (
          s.0,
          Perm.trans (Perm.cons (get_or heap idx blank) s.1)
              (Perm.symm (overwrite-perm blank touched idx heap idx_in)),
        )))

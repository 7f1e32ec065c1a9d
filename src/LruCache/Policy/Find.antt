-- ===== src/LruCache/Policy/Find.antt =====
-- misc/lru_cache/solution.cpp: the entry with a key, and `set_value` with `increase_key` on it.
use mathlib.Core.List.{Mem, not-mem-nil, Perm}
use mathlib.Core.List.Perm
use interview_questions.Prelude.Exchange.{get_or-update, overwrite-perm}
use interview_questions.Prelude.{
  ◌==◌, Bool-cases, length, get_or, set, length-set, ℕ, suc, ◌≤◌, ◌<◌, ◌≡◌, refl, ap, ◌≢◌, ◌⊎◌, inl,
  inr, none, some, List, [], ◌∷◌, arith,
}
use interview_questions.Prelude.Int.{ℤ}
use interview_questions.Prelude.Run.{Returns, Returns-mono}
use interview_questions.LruCache.Line.{CacheLineEntry, find_by_key, increase_key, next_place}
use interview_questions.LruCache.Heap.{blank, IsHeap, time_at}
use interview_questions.LruCache.Heap.Moves.{increase_key-lem}
use interview_questions.LruCache.Order.{mem_elim}

unfoldable pub IsFound : List CacheLineEntry → ℕ → Type 0
IsFound heap k =
    ((find_by_key heap k ≡ none) × ((f : CacheLineEntry) → Mem f heap → f.key ≢ k))
    ⊎ ((i : ℕ) × (find_by_key heap k ≡ some i)
        × (i < length heap)
        × ((get_or heap i blank).key ≡ k))

pub find_by_key-IsFound : (heap : List CacheLineEntry) (k : ℕ) → IsFound heap k
unfolding find_by_key IsFound
find_by_key-IsFound [] k = inl (refl, λ f m. absurd (not-mem-nil m))
find_by_key-IsFound (x ∷ heap) k = elim (Bool-cases (x.key == k)) [
  | inl same ↦ rw same (inr (0, refl, omega arith, ground (arith, same)))
  | inr other ↦ rw other (elim (find_by_key-IsFound heap k) [
    | inl (missing, absent) ↦ inl (
      ap next_place missing,
      λ f m.
          mem_elim {P = f.key ≢ k} f x heap (hlevel) m
            (λ same. rw same (λ h. ground (arith, h, other))) (absent f),
    )
    | inr (i, found, lt, e) ↦ inr (suc i, ap next_place found, omega arith, e)
  ])
]

module _ (heap : List CacheLineEntry) (i : ℕ) (v : ℤ) (lt : i < length heap) where
  unfoldable pub valued : CacheLineEntry
  valued = record (get_or heap i blank) { val = v }

  time-valued : (c : ℕ) → time_at (set heap i valued) c ≡ time_at heap c
  unfolding valued
  time-valued c = ground (arith, get_or-update blank heap i c valued lt)

  IsHeap-valued : IsHeap heap → IsHeap (set heap i valued)
  IsHeap-valued ordered p c l r h =
      ground (arith, time-valued p, time-valued c, ordered p c, length-set heap i valued)

  -- `set_value` and then `increase_key`.
  pub increase_key-valued :
      (now : ℕ)
      → IsHeap heap
      → time_at heap i ≤ now
      → Returns (increase_key (set heap i valued) i now) (λ h.
        IsHeap h
        × Perm
            (get_or heap i blank ∷ h)
            (record { timestamp = now; key = (get_or heap i blank).key; val = v } ∷ heap))
  unfolding valued
  increase_key-valued now ordered later =
      let e = get_or heap i blank in
      let touched : CacheLineEntry = record { timestamp = now; key = e.key; val = v } in
      let there : get_or (set heap i valued) i blank ≡ valued =
        ground (arith, get_or-update blank heap i i valued lt) in
      Returns-mono _ _ (increase_key (set heap i valued) i now)
        (increase_key-lem (set heap i valued) i now (IsHeap-valued ordered)
          (omega (arith, length-set heap i valued, lt)) (omega (arith, time-valued i, later)))
        (λ h (ordered', moved). (
          ordered',
          (let split = overwrite-perm blank valued i heap lt in
              Perm.cons_inv (
                Perm.trans (Perm.swap e valued h) (
                  Perm.trans (Perm.cons e (rw there at moved)) (
                    Perm.trans (Perm.swap touched e (set heap i valued)) (
                      Perm.trans (Perm.cons touched (Perm.symm split))
                        (Perm.swap valued touched heap)))))),
        ))

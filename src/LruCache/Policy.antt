-- ===== src/LruCache/Policy.antt =====
-- misc/lru_cache/solution.cpp: each operation of a line does what the policy says.
use interview_questions.Prelude.Arrays.{length-perm}
use interview_questions.Prelude.Run.{done, Returns, Returns-bind, Returns-mono}
pub mod Find
pub mod Uses
use mathlib.Core.Logic.{∥∥₁_elim}
use mathlib.Core.List.{Mem, mem-cons_self, mem-cons_of_mem, not-mem-nil, Perm}
use mathlib.Core.List.Perm
use mathlib.Core.Path.{subst}
use native.Mathlib.Bridge.{le_prop}
use interview_questions.Prelude.{
  ◌==◌, if◌then◌else◌, Bool-cases, length, get_or, drop, ℕ, suc, ◌≤◌, ◌<◌, ◌≡◌, refl, ap, ◌∙◌, inl,
  inr, true, false, none, List, [], ◌∷◌, ◌++◌, map, arith,
}
use interview_questions.Prelude.Int.{ℤ}
use interview_questions.LruCache.Line.{
  CacheLineEntry, CacheLine, extract_min, insert_entry, insert_line,
}
use interview_questions.LruCache.Heap.{blank, IsHeap, time_at}
use interview_questions.LruCache.Heap.Moves.{
  push-perm, root-oldest, insert_entry-lem, extract_min-lem, increase_key-lem,
}
use interview_questions.LruCache.Spec.{lookup, remove, use_key, evict}
use interview_questions.LruCache.Order.{
  strip, drop_key, InOrder, mem_elim, entry_mem, mem_index, InOrder-before, InOrder-later,
  InOrder-push, InOrder-drop_key, strip-drop_key, IsTaken, take_key, lookup_absent, absent_lookup,
}

-- At time `now` the line holds the pairs, the least recently used first.
pub record Represents (now assoc : ℕ) (line : CacheLine) (shown : List (ℕ × ℤ)) : Type 0 where
  pub order : List CacheLineEntry
  pub same : Perm line.min_heap order
  pub in_order : InOrder now order
  pub strips : map strip order ≡ shown
  pub ordered : IsHeap line.min_heap
  pub room : length line.min_heap ≤ assoc
  pub ways : line.assoc ≡ assoc

-- Where nothing is older than `e`, the first in the order is `e`.
first_is :
    (now : ℕ) (heap rest order : List CacheLineEntry) (e x : CacheLineEntry)
    → InOrder now (x ∷ order)
    → Perm heap (x ∷ order)
    → Perm heap (e ∷ rest)
    → (e.timestamp ≤ x.timestamp)
    → Perm rest order
first_is now heap rest order e x in_order p q oldest =
    let both = Perm.trans (Perm.symm q) p in
    mem_elim {P = Perm rest order} e x order (hlevel) ((Perm.mem_iff both).0 mem-cons_self)
      (λ same. Perm.cons_inv (subst (λ y. Perm (y ∷ rest) (x ∷ order)) same both))
      (λ m. absurd (omega (arith, (in_order.0 e m).0)))

root_before :
    (heap : List CacheLineEntry) (f : CacheLineEntry)
    → IsHeap heap
    → Mem f heap
    → time_at heap 0 ≤ f.timestamp
root_before heap f ordered m = ∥∥₁_elim m le_prop (λ d.
    let (i, lt, e) = mem_index d in
    omega (arith, root-oldest heap ordered (suc i) i (omega arith) lt, ap (λ g. g.timestamp) e))

-- The line without its oldest entry where it is full, in the order of use.
kept_order : ℕ → List CacheLineEntry → List CacheLineEntry
kept_order assoc order = if length order == assoc then drop 1 order else order

length-strip : (l : List CacheLineEntry) → length (map strip l) ≡ length l
length-strip [] = refl
length-strip (e ∷ l) = ap suc (length-strip l)

strip-kept_order :
    (assoc : ℕ) (order : List CacheLineEntry)
    → map strip (kept_order assoc order) ≡ evict assoc (map strip order)
unfolding kept_order
strip-kept_order assoc [] =
    rw length-strip
      (elim (Bool-cases (0 == assoc)) [ inl full ↦ rw full refl | inr free ↦ rw free refl ])
strip-kept_order assoc (e ∷ l) = elim (Bool-cases (suc (length l) == assoc)) [
  | inl full ↦ rw length-strip (rw full refl)
  | inr free ↦ rw length-strip (rw free refl)
]

InOrder-kept_order :
    (now assoc : ℕ) (order : List CacheLineEntry)
    → InOrder now order
    → InOrder now (kept_order assoc order)
unfolding kept_order
InOrder-kept_order now assoc [] in_order = elim (Bool-cases (0 == assoc)) [
  | inl full ↦ rw full tt
  | inr free ↦ rw free tt
]
InOrder-kept_order now assoc (e ∷ l) in_order = elim (Bool-cases (suc (length l) == assoc)) [
  | inl full ↦ rw full in_order.2
  | inr free ↦ rw free in_order
]

kept_order-mem :
    (assoc : ℕ) (order : List CacheLineEntry) (f : CacheLineEntry)
    → Mem f (kept_order assoc order)
    → Mem f order
unfolding kept_order
kept_order-mem assoc [] f m = elim (Bool-cases (0 == assoc)) [
  | inl full ↦ subst (λ b. Mem f (if b then [] else [])) full m
  | inr free ↦ subst (λ b. Mem f (if b then [] else [])) free m
]
kept_order-mem assoc (e ∷ l) f m = elim (Bool-cases (suc (length l) == assoc)) [
  | inl full ↦ mem-cons_of_mem e (subst (λ b. Mem f (if b then l else e ∷ l)) full m)
  | inr free ↦ subst (λ b. Mem f (if b then l else e ∷ l)) free m
]

-- What `insert` of a line leaves before it adds the entry.
Kept : ℕ → List CacheLineEntry → List CacheLineEntry → Type 0
Kept assoc order h = IsHeap h × Perm h (kept_order assoc order) × (length h < assoc)

extract_oldest :
    (now assoc : ℕ) (heap order : List CacheLineEntry)
    → 0 < assoc
    → length heap ≡ assoc
    → IsHeap heap
    → InOrder now order
    → Perm heap order
    → Returns (extract_min heap) (Kept assoc order)
unfolding Kept kept_order
extract_oldest now assoc heap [] some_ways full ordered in_order same =
    absurd (omega (arith, full, length-perm same))
extract_oldest now assoc heap (x ∷ order) some_ways full ordered in_order same =
    let size = length-perm same in
    let at_limit : (suc (length order) == assoc) ≡ true = ground (arith, size, full) in
    Returns-mono _ _ (extract_min heap) (extract_min-lem heap ordered (omega (arith, full)))
      (λ h (ordered', parts). rw at_limit (
        ordered',
        first_is now heap h order (get_or heap 0 blank) x in_order same parts
            (root_before heap x ordered ((Perm.mem_iff (Perm.symm same)).0 mem-cons_self)),
        omega (arith, length-perm parts, full),
      ))

make_room :
    (now assoc : ℕ) (line : CacheLine) (shown : List (ℕ × ℤ))
    (inv : Represents now assoc line shown)
    → 0 < assoc
    → Returns
        (elim (length line.min_heap == line.assoc) [
          | true ↦ extract_min line.min_heap
          | false ↦ done line.min_heap
        ])
        (Kept assoc inv.order)
unfolding Kept kept_order
make_room now assoc line shown inv some_ways =
    let size = length-perm inv.same in
    elim (Bool-cases (length line.min_heap == line.assoc)) [
      | inl full ↦ rw full (
          extract_oldest now assoc line.min_heap inv.order some_ways
            (ground (arith, full, inv.ways)) inv.ordered inv.in_order inv.same)
      | inr free ↦
          let below : (length inv.order == assoc) ≡ false = ground (arith, size, free, inv.ways) in
          rw (free, below) (inv.ordered, inv.same, ground (arith, free, inv.ways, inv.room))
    ]

pub strip-push :
    (l : List CacheLineEntry) (e : CacheLineEntry)
    → map strip (l ++ e ∷ []) ≡ map strip l ++ strip e ∷ []
strip-push [] e = refl
strip-push (x ∷ l) e = ap (λ r. strip x ∷ r) (strip-push l e)

pub insert_line-Represents :
    (now assoc k : ℕ) (val : ℤ) (line : CacheLine) (shown : List (ℕ × ℤ))
    → 0 < assoc
    → lookup k shown ≡ none
    → Represents now assoc line shown
    → Returns
        (insert_line now k val line)
        (λ line'. Represents (suc now) assoc line' (evict assoc shown ++ (k, val) ∷ []))
unfolding insert_line Kept
insert_line-Represents now assoc k val line shown some_ways new inv =
    let elem : CacheLineEntry = record { timestamp = now; key = k; val = val } in
    let kept = kept_order assoc inv.order in
    Returns-bind (Kept assoc inv.order) _ _ _ (make_room now assoc line shown inv some_ways)
      (λ h (ordered, same, fits).
        Returns-bind _ _ (insert_entry elem h) _ (insert_entry-lem elem h ordered)
          (λ h' (ordered', same'). record {
            order = kept ++ elem ∷ [];
            same =
                Perm.trans same'
                  (Perm.trans (Perm.cons elem same) (Perm.symm (push-perm kept elem)));
            in_order =
                InOrder-push now kept elem (InOrder-kept_order now assoc inv.order inv.in_order)
                  (omega arith)
                  (λ f m.
                    absent_lookup k inv.order (ap (lookup k) inv.strips ∙ new) f
                      (kept_order-mem assoc inv.order f m));
            strips =
                strip-push kept elem
                ∙ ap (λ l. l ++ (k, val) ∷ [])
                    (strip-kept_order assoc inv.order ∙ ap (evict assoc) inv.strips);
            ordered = ordered';
            room = omega (arith, length-perm same', fits);
            ways = inv.ways;
          }))

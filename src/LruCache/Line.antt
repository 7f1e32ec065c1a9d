-- ===== src/LruCache/Line.antt =====
-- misc/lru_cache/solution.cpp: `CacheLineEntry` and `CacheLine`. The loops of `sift_up` and
-- `sift_down` take the number of entries plus one as fuel.
use interview_questions.Prelude.Run.{Run, done, no_fuel, ◌>>=◌, present}
use interview_questions.Prelude.Int.{ℤ}
use interview_questions.Prelude.{
  ltb, ◌==◌, if◌then◌else◌, length, get_elem?, set, take, ℕ, zero, suc, ◌+◌, ◌-◌, ◌*◌, ◌/◌, Bool,
  true, false, Option, none, some, List, [], ◌∷◌, ◌++◌, map,
}

pub record CacheLineEntry : Type 0 where
  pub timestamp : ℕ
  pub key : ℕ
  pub val : ℤ

pub record CacheLine : Type 0 where
  pub min_heap : List CacheLineEntry
  pub assoc : ℕ

abbrev pub new_line : ℕ → CacheLine
new_line associativity = record { min_heap = []; assoc = associativity }

-- `operator<`.
abbrev pub is_older : CacheLineEntry → CacheLineEntry → Bool
is_older e rhs = ltb e.timestamp rhs.timestamp

abbrev pub next_place : Option ℕ → Option ℕ
next_place none = none
next_place (some i) = some (suc i)

-- The place of the first entry with the key; `none` is `end()`.
unfoldable pub find_by_key : List CacheLineEntry → ℕ → Option ℕ
find_by_key [] k = none
find_by_key (it ∷ heap) k = if it.key == k then some 0 else next_place (find_by_key heap k)

unfoldable pub swap : List CacheLineEntry → ℕ → ℕ → Run (List CacheLineEntry)
swap heap i j = do
  x ← present (get_elem? heap i)
  y ← present (get_elem? heap j)
  done (set (set heap i y) j x)

unfoldable pub sift_up : (fuel : ℕ) → List CacheLineEntry → (curr : ℕ) → Run (List CacheLineEntry)
sift_up zero heap curr = no_fuel
sift_up (suc fuel) heap zero = done heap
sift_up (suc fuel) heap (suc prev) = do
  x ← present (get_elem? heap (suc prev))
  y ← present (get_elem? heap ((suc prev + 1) / 2 - 1))
  elim (is_older x y) [
    | true ↦ swap heap (suc prev) ((suc prev + 1) / 2 - 1) >>= λ h.
        sift_up fuel h ((suc prev + 1) / 2 - 1)
    | false ↦ done heap
  ]

-- One of the two tests: the smaller of a child, where there is one, and the smallest so far.
unfoldable pub pick : List CacheLineEntry → (child smallest : ℕ) → Run ℕ
pick heap child smallest = elim (ltb child (length heap)) [
  | true ↦ do
    x ← present (get_elem? heap child)
    y ← present (get_elem? heap smallest)
    done (if is_older x y then child else smallest)
  | false ↦ done smallest
]

unfoldable pub smallest_of : List CacheLineEntry → ℕ → Run ℕ
smallest_of heap curr = pick heap (curr * 2 + 1) curr >>= pick heap (curr * 2 + 2)

unfoldable pub sift_down : (fuel : ℕ) → List CacheLineEntry → (curr : ℕ) → Run (List CacheLineEntry)
sift_down zero heap curr = no_fuel
sift_down (suc fuel) heap curr = smallest_of heap curr >>= λ smallest. elim (smallest == curr) [
  | true ↦ done heap
  | false ↦ swap heap curr smallest >>= λ h. sift_down fuel h smallest
]

unfoldable pub extract_min : List CacheLineEntry → Run (List CacheLineEntry)
extract_min heap = do
  h ← swap heap 0 (length heap - 1)
  let h' = take (length h - 1) h in sift_down (suc (length h')) h' 0

unfoldable pub insert_entry : CacheLineEntry → List CacheLineEntry → Run (List CacheLineEntry)
insert_entry elem heap = sift_up (suc (suc (length heap))) (heap ++ elem ∷ []) (length heap)

unfoldable pub increase_key : List CacheLineEntry → (idx new_key : ℕ) → Run (List CacheLineEntry)
increase_key heap idx new_key = do
  e ← present (get_elem? heap idx)
  sift_down (suc (length heap)) (set heap idx (record e { timestamp = new_key })) idx

unfoldable pub insert_line : (curr_time k : ℕ) → ℤ → CacheLine → Run CacheLine
insert_line curr_time k val line = do
  heap ← elim (length line.min_heap == line.assoc) [
    | true ↦ extract_min line.min_heap
    | false ↦ done line.min_heap
  ]
  heap' ← insert_entry (record { timestamp = curr_time; key = k; val = val }) heap
  done (record line { min_heap = heap' })

-- `none` is the result `false`.
unfoldable pub get_line : (curr_time k : ℕ) → CacheLine → Run (CacheLine × Option ℤ)
get_line curr_time k line = elim (find_by_key line.min_heap k) [
  | none ↦ done (line, none)
  | some idx ↦ do
    e ← present (get_elem? line.min_heap idx)
    heap ← increase_key line.min_heap idx curr_time
    done (record line { min_heap = heap }, some e.val)
]

unfoldable pub update_line : (curr_time k : ℕ) → ℤ → CacheLine → Run CacheLine
update_line curr_time k val line = elim (find_by_key line.min_heap k) [
  | none ↦ done line
  | some idx ↦ do
    e ← present (get_elem? line.min_heap idx)
    heap ← increase_key (set line.min_heap idx (record e { val = val })) idx curr_time
    done (record line { min_heap = heap })
]

-- `operator <<` of a line.
abbrev pub print_line : CacheLine → List (ℕ × ℤ)
print_line line = map (λ e. (e.key, e.val)) line.min_heap

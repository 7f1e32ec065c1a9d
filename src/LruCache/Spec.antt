-- ===== src/LruCache/Spec.antt =====
-- misc/lru_cache/solution.cpp: what a line with the least recently used policy is.
use interview_questions.Prelude.{
  ◌==◌, if◌then◌else◌, length, drop, ℕ, suc, Option, none, some, List, [], ◌∷◌, ◌++◌,
}
use interview_questions.Prelude.Int.{ℤ}

-- A line as keys with values, the least recently used first.
abbrev pub lookup : ℕ → List (ℕ × ℤ) → Option ℤ
lookup k [] = none
lookup k ((k', v) ∷ l) = if k' == k then some v else lookup k l

abbrev pub remove : ℕ → List (ℕ × ℤ) → List (ℕ × ℤ)
remove k [] = []
remove k ((k', v) ∷ l) = if k' == k then remove k l else (k', v) ∷ remove k l

abbrev pub use_key : ℕ → ℤ → List (ℕ × ℤ) → List (ℕ × ℤ)
use_key k v l = remove k l ++ (k, v) ∷ []

-- What `get` and `update` leave of a line, by what `lookup` gives.
abbrev pub after_use : Option ℤ → ℕ → List (ℕ × ℤ) → List (ℕ × ℤ)
after_use none k l = l
after_use (some v) k l = use_key k v l

abbrev pub after_update : Option ℤ → ℕ → ℤ → List (ℕ × ℤ) → List (ℕ × ℤ)
after_update none k val l = l
after_update (some v) k val l = use_key k val l

abbrev pub clock : Option ℤ → ℕ → ℕ
clock none now = now
clock (some v) now = suc now

-- A full line loses its first pair.
abbrev pub evict : (assoc : ℕ) → List (ℕ × ℤ) → List (ℕ × ℤ)
evict assoc l = if length l == assoc then drop 1 l else l

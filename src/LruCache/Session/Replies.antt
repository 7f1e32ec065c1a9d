-- ===== src/LruCache/Session/Replies.antt =====
-- misc/lru_cache/solution.cpp: the replies of `main` on a new cache.
use mathlib.Core.List.Perm
use mathlib.Core.Path.{subst}
use native.Mathlib.Nat.{le-div_iff_mul-le}
use interview_questions.Prelude.{
  ne→==, length, get_elem?, replicate, some_inj, length-replicate, ℕ, zero, suc, ◌+◌, ◌/◌, ◌%◌, ◌^◌,
  ◌≤◌, ◌<◌, ◌≡◌, refl, Option, none, some, List, [], ◌∷◌, ◌++◌, arith,
}
use interview_questions.Prelude.Int.{ℤ}
use interview_questions.Prelude.Run.{◌>>=◌, Returns, Returns-bind}
use interview_questions.LruCache.Line.{CacheLine, new_line}
use interview_questions.LruCache.{
  Command, insert_command, update_command, get_command, print_command, quit_command, unrecognized,
  Reply, not_understood, LruCache, new_cache, insert, get, update, main,
}
use interview_questions.LruCache.Spec.{lookup, clock}
use interview_questions.LruCache.Policy.{Represents}
use interview_questions.LruCache.Session.{
  lru, IsPlain, Holds, insert-Holds, update-Holds, get-Holds,
}

-- The replies are right, and no line is over its size.
unfoldable pub Served : (assoc : ℕ) → List Reply → LruCache × List Reply → Type 0
Served assoc replies r =
    (r.1 ≡ replies)
    × ((i : ℕ) (line : CacheLine)
        → get_elem? r.0.lines i ≡ some line
        → length line.min_heap ≤ assoc)

clock_bound : (o : Option ℤ) (now : ℕ) → clock o now ≤ suc now
clock_bound none now = omega arith
clock_bound (some v) now = omega arith

module _ (assoc count : ℕ) (some_ways : 0 < assoc) (some_lines : 0 < count) where
  stops :
      (now : ℕ) (cache : LruCache) (c : ℕ → List (ℕ × ℤ)) (printed : List Reply)
      → Holds assoc count now cache c
      → Served assoc printed (cache, printed)
  unfolding Served
  stops now cache c printed holds = (refl, λ i line e. (holds.each i line e).room)

  main-Served :
      (commands : List Command) (now : ℕ) (cache : LruCache) (c : ℕ → List (ℕ × ℤ))
      (printed : List Reply)
      → now + length commands < 2 ^ 64
      → Holds assoc count now cache c
      → IsPlain assoc count commands c
      → Returns (main commands cache printed) (Served assoc (lru assoc count commands c printed))
  unfolding main
  main-Served [] now cache c printed fits holds plain = stops now cache c printed holds
  main-Served (insert_command k v ∷ commands) now cache c printed fits holds plain =
      Returns-bind _ _ (insert k v cache) _
        (insert-Holds assoc count now cache c some_lines some_ways (omega arith) holds k v plain.0)
        (λ cache' holds'. main-Served commands (suc now) cache' _ _ (omega arith) holds' plain.1)
  main-Served (update_command k v ∷ commands) now cache c printed fits holds plain =
      Returns-bind _ _ (update k v cache) _
        (update-Holds assoc count now cache c some_lines some_ways (omega arith) holds k v)
        (λ cache' holds'. main-Served commands (suc now) cache' _ _ (omega arith) holds' plain)
  main-Served (get_command k ∷ commands) now cache c printed fits holds plain =
      Returns-bind _ _ (get k cache) _
        (get-Holds assoc count now cache c some_lines some_ways (omega arith) holds k)
        (λ (cache', ret) (e, holds'). rw e (
          main-Served commands (clock (lookup k (c (k % count))) now) cache' _ _
            (omega (arith, clock_bound (lookup k (c (k % count))) now)) holds' plain))
  main-Served (print_command ∷ commands) now cache c printed fits holds plain = absurd plain
  main-Served (quit_command ∷ commands) now cache c printed fits holds plain =
      stops now cache c printed holds
  main-Served (unrecognized ∷ commands) now cache c printed fits holds plain =
      main-Served commands now cache c (printed ++ not_understood ∷ []) (omega arith) holds plain

replicate_elem : {A : Type 0} (n i : ℕ) (a b : A) → get_elem? (replicate n a) i ≡ some b → a ≡ b
replicate_elem zero i a b e = absurd (ground (arith, e))
replicate_elem (suc n) zero a b e = some_inj e
replicate_elem (suc n) (suc i) a b e = replicate_elem n i a b e

new_line-Represents : (assoc : ℕ) → Represents 0 assoc (new_line assoc) []
new_line-Represents assoc = record {
  order = [];
  same = Perm.refl [];
  in_order = tt;
  strips = refl;
  ordered = λ p c l r lt. absurd (omega arith);
  room = omega arith;
  ways = refl;
}

new_cache-Holds :
    (blocks assoc : ℕ)
    → 0 < assoc
    → Returns (new_cache blocks assoc) (λ cache. Holds assoc (blocks / assoc) 0 cache (λ place. []))
unfolding new_cache
new_cache-Holds blocks assoc some_ways =
    rw (ne→== assoc 0 (omega arith), new_cache)
      (record {
        counts = refl;
        time = refl;
        size = length-replicate (blocks / assoc) (new_line assoc);
        each = λ i line e.
            subst (λ x. Represents 0 assoc x [])
              (replicate_elem (blocks / assoc) i (new_line assoc) line e)
              (new_line-Represents assoc);
      })

-- Where the cache has room for a line, and the session has fewer than 2^64 commands, prints no
-- contents and inserts no key that is cached: the session ends, its replies are those of lines that
-- hold `associativity` pairs each and lose the least recently used one when a full line gets one
-- more, and no line of the cache has more than `associativity` entries.
pub main-lru :
    (blocks associativity : ℕ) (commands : List Command)
    → 0 < associativity
    → associativity ≤ blocks
    → length commands < 2 ^ 64
    → IsPlain associativity (blocks / associativity) commands (λ place. [])
    → Returns (new_cache blocks associativity >>= λ cache. main commands cache []) (
        Served associativity (lru associativity (blocks / associativity) commands (λ place. []) []))
main-lru blocks associativity commands some_ways one_line fits plain =
    let lines : 1 ≤ blocks / associativity =
      (le-div_iff_mul-le some_ways).1 (omega (arith, one_line)) in
    Returns-bind _ _ (new_cache blocks associativity) (λ cache. main commands cache [])
      (new_cache-Holds blocks associativity some_ways)
      (λ cache holds.
        main-Served associativity (blocks / associativity) some_ways lines commands 0 cache
          (λ place. []) [] (omega (arith, fits)) holds plain)

-- ===== src/LruCache.antt =====
-- misc/lru_cache/solution.cpp: a set-associative cache that evicts the least recently used entry of
-- a line, with each line a heap by the times of last use. Keys and values are those of `main`, a
-- `uintptr_t` and an `int`; `operator[]` on a vector faults out of range. `Line` has `CacheLine`.
use interview_questions.Prelude.Run.{Run, done, ◌>>=◌, ◌>>◌, assert, present}
use interview_questions.Prelude.Int.{ℤ}
pub mod Line
pub mod Heap
pub mod Spec
pub mod Order
pub mod Policy
pub mod Session
use interview_questions.Prelude.{
  ◌==◌, get_elem?, set, replicate, ℕ, ◌+◌, ◌/◌, ◌%◌, ◌^◌, not, Option, none, some, List, [], ◌∷◌,
  ◌++◌, map,
}
use interview_questions.LruCache.Line.{
  CacheLine, new_line, insert_line, get_line, update_line, print_line,
}

-- A command as `cin` reads it.
pub data Command : Type 0 where
  insert_command : (address : ℕ) (value : ℤ) → Command
  update_command : (address : ℕ) (newval : ℤ) → Command
  get_command : (address : ℕ) → Command
  print_command : Command
  quit_command : Command
  unrecognized : Command

pub data Reply : Type 0 where
  inserted : ℕ → ℤ → Reply
  updated : ℕ → ℤ → Reply
  found : ℕ → ℤ → Reply
  not_cached : ℕ → Reply
  contents : List (List (ℕ × ℤ)) → Reply
  not_understood : Reply

pub record LruCache : Type 0 where
  pub lines : List CacheLine
  pub lines_count : ℕ
  pub assoc : ℕ
  pub timestamp : ℕ

-- The constructor; a division by 0 is undefined.
unfoldable pub new_cache : (blocks associativity : ℕ) → Run LruCache
new_cache blocks associativity =
    assert (not (associativity == 0))
    >> done record {
      lines = replicate (blocks / associativity) (new_line associativity);
      lines_count = blocks / associativity;
      assoc = associativity;
      timestamp = 0;
    }

-- `lines[k%lines_count]`, and the place.
unfoldable pub line_of : LruCache → ℕ → Run (ℕ × CacheLine)
line_of cache k = do
  assert (not (cache.lines_count == 0))
  line ← present (get_elem? cache.lines (k % cache.lines_count))
  done (k % cache.lines_count, line)

-- `timestamp++` on 64 bits.
abbrev pub tick : ℕ → ℕ
tick now = (now + 1) % 2 ^ 64

-- A `get` that finds nothing does not count.
abbrev pub after_get : Option ℤ → ℕ → ℕ
after_get none now = now
after_get (some val) now = tick now

abbrev pub put_line : LruCache → ℕ → CacheLine → ℕ → LruCache
put_line cache place line now = record cache { lines = set cache.lines place line; timestamp = now }

unfoldable pub insert : ℕ → ℤ → LruCache → Run LruCache
insert k val cache = do
  (place, line) ← line_of cache k
  line' ← insert_line cache.timestamp k val line
  done (put_line cache place line' (tick cache.timestamp))

unfoldable pub get : ℕ → LruCache → Run (LruCache × Option ℤ)
get k cache = do
  (place, line) ← line_of cache k
  (line', ret) ← get_line cache.timestamp k line
  done (put_line cache place line' (after_get ret cache.timestamp), ret)

unfoldable pub update : ℕ → ℤ → LruCache → Run LruCache
update k val cache = do
  (place, line) ← line_of cache k
  line' ← update_line cache.timestamp k val line
  done (put_line cache place line' (tick cache.timestamp))

abbrev pub get_reply : ℕ → Option ℤ → Reply
get_reply address none = not_cached address
get_reply address (some val) = found address val

unfoldable pub main : List Command → LruCache → List Reply → Run (LruCache × List Reply)
main [] cache printed = done (cache, printed)
main (insert_command address value ∷ commands) cache printed =
    insert address value cache >>= λ c. main commands c (printed ++ inserted address value ∷ [])
main (update_command address newval ∷ commands) cache printed =
    update address newval cache >>= λ c. main commands c (printed ++ updated address newval ∷ [])
main (get_command address ∷ commands) cache printed =
    get address cache >>= λ (c, res). main commands c (printed ++ get_reply address res ∷ [])
main (print_command ∷ commands) cache printed =
    main commands cache (printed ++ contents (map print_line cache.lines) ∷ [])
main (quit_command ∷ commands) cache printed = done (cache, printed)
main (unrecognized ∷ commands) cache printed = main commands cache (printed ++ not_understood ∷ [])

-- ===== src/LruCache/Session.antt =====
-- misc/lru_cache/solution.cpp: a session with the cache replies what a cache with the least recently
-- used policy replies.
use interview_questions.Prelude.Run.{done, Returns, Returns-bind}
pub mod Replies
use mathlib.Core.Path.{subst}
use native.Mathlib.Nat.{mod-lt}
use interview_questions.Prelude.{
  ◌==◌, if◌then◌else◌, ne→==, Bool-cases, length, get_elem?, set, length-set, get_elem?-set_ne,
  some_inj, ℕ, zero, suc, ◌%◌, ◌^◌, ◌≤◌, ◌<◌, ◌≡◌, refl, sym, ap, ◌∙◌, ◌≢◌, inl, inr, Option, none,
  some, List, [], ◌∷◌, ◌++◌, arith,
}
use interview_questions.Prelude.Int.{ℤ}
use interview_questions.LruCache.Line.{CacheLine, insert_line, get_line, update_line}
use interview_questions.LruCache.{
  Command, insert_command, update_command, get_command, print_command, quit_command, unrecognized,
  Reply, inserted, updated, not_understood, LruCache, line_of, tick, after_get, put_line, insert,
  get, update, get_reply,
}
use interview_questions.LruCache.Spec.{lookup, use_key, after_use, after_update, clock, evict}
use interview_questions.LruCache.Policy.{Represents, insert_line-Represents}
use interview_questions.LruCache.Policy.Uses.{
  get_line-Represents, update_line-Represents, Represents-later,
}

-- The lines by their places.
abbrev pub with_line : (ℕ → List (ℕ × ℤ)) → ℕ → List (ℕ × ℤ) → ℕ → List (ℕ × ℤ)
with_line c place l i = if place == i then l else c i

module _ (assoc count : ℕ) where
  -- What a cache of `count` lines with `assoc` ways replies. A `print_command` is not answered here.
  abbrev pub lru : List Command → (ℕ → List (ℕ × ℤ)) → List Reply → List Reply
  lru [] c printed = printed
  lru (insert_command k v ∷ commands) c printed =
      lru commands (with_line c (k % count) (evict assoc (c (k % count)) ++ (k, v) ∷ []))
        (printed ++ inserted k v ∷ [])
  lru (update_command k v ∷ commands) c printed =
      lru commands
        (with_line c (k % count) (after_update (lookup k (c (k % count))) k v (c (k % count))))
        (printed ++ updated k v ∷ [])
  lru (get_command k ∷ commands) c printed =
      lru commands
        (with_line c (k % count) (after_use (lookup k (c (k % count))) k (c (k % count))))
        (printed ++ get_reply k (lookup k (c (k % count))) ∷ [])
  lru (print_command ∷ commands) c printed = lru commands c printed
  lru (quit_command ∷ commands) c printed = printed
  lru (unrecognized ∷ commands) c printed = lru commands c (printed ++ not_understood ∷ [])

  -- The session prints no contents, and inserts no key that is cached.
  abbrev pub IsPlain : List Command → (ℕ → List (ℕ × ℤ)) → Type 0
  IsPlain [] c = Unit {0}
  IsPlain (insert_command k v ∷ commands) c =
      (lookup k (c (k % count)) ≡ none)
      × IsPlain commands (with_line c (k % count) (evict assoc (c (k % count)) ++ (k, v) ∷ []))
  IsPlain (update_command k v ∷ commands) c =
      IsPlain commands
        (with_line c (k % count) (after_update (lookup k (c (k % count))) k v (c (k % count))))
  IsPlain (get_command k ∷ commands) c =
      IsPlain commands
        (with_line c (k % count) (after_use (lookup k (c (k % count))) k (c (k % count))))
  IsPlain (print_command ∷ commands) c = ⊥
  IsPlain (quit_command ∷ commands) c = Unit {0}
  IsPlain (unrecognized ∷ commands) c = IsPlain commands c

  pub record Holds (now : ℕ) (cache : LruCache) (c : ℕ → List (ℕ × ℤ)) : Type 0 where
    pub counts : cache.lines_count ≡ count
    pub time : cache.timestamp ≡ now
    pub size : length cache.lines ≡ count
    pub each :
        (i : ℕ) (line : CacheLine)
        → get_elem? cache.lines i ≡ some line
        → Represents now assoc line (c i)

get_elem?-set_self :
    {A : Type 0} (xs : List A) (i : ℕ) (v : A) → i < length xs → get_elem? (set xs i v) i ≡ some v
get_elem?-set_self [] i v lt = absurd (omega arith)
get_elem?-set_self (x ∷ xs) zero v lt = refl
get_elem?-set_self (x ∷ xs) (suc i) v lt = get_elem?-set_self xs i v (omega arith)

get_elem?-some :
    {A : Type 0} (xs : List A) (i : ℕ) → i < length xs → (a : A) × (get_elem? xs i ≡ some a)
get_elem?-some [] i lt = absurd (omega arith)
get_elem?-some (x ∷ xs) zero lt = (x, refl)
get_elem?-some (x ∷ xs) (suc i) lt = get_elem?-some xs i (omega arith)

module _ (assoc count now later place : ℕ) (cache : LruCache) (c : ℕ → List (ℕ × ℤ))
    (holds : Holds assoc count now cache c) where
  -- A change of one line.
  Holds-put_line :
      (line : CacheLine) (l : List (ℕ × ℤ))
      → place < count
      → now ≤ later
      → Represents later assoc line l
      → Holds assoc count later (put_line cache place line later) (with_line c place l)
  Holds-put_line line l lt le rep = record {
    counts = holds.counts;
    time = refl;
    size = length-set cache.lines place line ∙ holds.size;
    each = λ i line' e. elim (Bool-cases (place == i)) [
      | inl same ↦
          let there : place ≡ i = ground (arith, same) in
          let fits : place < length cache.lines = omega (arith, holds.size) in
          let eq : line ≡ line' = some_inj (
            sym (get_elem?-set_self cache.lines place line fits)
            ∙ ap (get_elem? (set cache.lines place line)) there
            ∙ e) in
          rw same (subst (λ x. Represents later assoc x l) eq rep)
      | inr other ↦ rw other (
          let elsewhere : place ≢ i = ground (arith, other) in
          Represents-later now later assoc line' (c i) le
            (holds.each i line' (sym (get_elem?-set_ne cache.lines place i line elsewhere) ∙ e)))
    ];
  }

module _ (assoc count now : ℕ) (cache : LruCache) (c : ℕ → List (ℕ × ℤ)) (some_lines : 0 < count)
    (some_ways : 0 < assoc) (fits : suc now < 2 ^ 64) (holds : Holds assoc count now cache c) where
  line_of-at :
      (k : ℕ) (line : CacheLine)
      → get_elem? cache.lines (k % count) ≡ some line
      → line_of cache k ≡ done (k % count, line)
  unfolding line_of
  line_of-at k line e =
      rw (holds.counts, line_of) (rw (ne→== count 0 (omega arith), line_of) (rw (e, line_of) refl))

  ticks : tick now ≡ suc now
  ticks = omega arith

  after_get-clock : (o : Option ℤ) → after_get o now ≡ clock o now
  after_get-clock none = refl
  after_get-clock (some v) = ticks

  clock_le : (o : Option ℤ) → now ≤ clock o now
  clock_le none = omega arith
  clock_le (some v) = omega arith

  line_of-found :
      (k : ℕ)
      → (line : CacheLine) × (line_of cache k ≡ done (k % count, line))
        × Represents now assoc line (c (k % count))
  line_of-found k =
      let place : k % count < length cache.lines = omega (arith, mod-lt k some_lines, holds.size) in
      let (line, e) = get_elem?-some cache.lines (k % count) place in
      (line, line_of-at k line e, holds.each (k % count) line e)

  changed :
      (k : ℕ) (line : CacheLine) (l : List (ℕ × ℤ))
      → Represents (suc now) assoc line l
      → Holds assoc count
          (suc now)
          (put_line cache (k % count) line (suc now))
          (with_line c (k % count) l)
  changed k line l =
      Holds-put_line assoc count now (suc now) (k % count) cache c holds line l
        (mod-lt k some_lines) (omega arith)

  pub insert-Holds :
      (k : ℕ) (v : ℤ)
      → lookup k (c (k % count)) ≡ none
      → Returns (insert k v cache) (λ cache'.
        Holds assoc count
          (suc now)
          cache'
          (with_line c (k % count) (evict assoc (c (k % count)) ++ (k, v) ∷ [])))
  unfolding insert
  insert-Holds k v new =
      let (line, at_place, rep) = line_of-found k in
      rw (at_place, insert)
        (rw (holds.time, insert)
          (Returns-bind _ _ (insert_line now k v line) _
            (insert_line-Represents now assoc k v line (c (k % count)) some_ways new rep)
            (λ line' rep'. rw ticks (changed k line' _ rep'))))

  pub update-Holds :
      (k : ℕ) (v : ℤ)
      → Returns (update k v cache) (λ cache'.
        Holds assoc count
          (suc now)
          cache'
          (with_line c (k % count) (after_update (lookup k (c (k % count))) k v (c (k % count)))))
  unfolding update
  update-Holds k v =
      let (line, at_place, rep) = line_of-found k in
      rw (at_place, update)
        (rw (holds.time, update)
          (Returns-bind _ _ (update_line now k v line) _
            (update_line-Represents now assoc k line (c (k % count)) rep v)
            (λ line' rep'. rw ticks (changed k line' _ rep'))))

  pub get-Holds :
      (k : ℕ)
      → Returns (get k cache) (λ r.
        (r.1 ≡ lookup k (c (k % count)))
        × Holds assoc count
            (clock (lookup k (c (k % count))) now)
            r.0
            (with_line c (k % count) (after_use (lookup k (c (k % count))) k (c (k % count)))))
  unfolding get
  get-Holds k =
      let (line, at_place, rep) = line_of-found k in
      rw (at_place, get)
        (rw (holds.time, get)
          (Returns-bind _ _ (get_line now k line) _
            (get_line-Represents now assoc k line (c (k % count)) rep)
            (λ (line', ret) (e, rep'). (
              e,
              rw (e, after_get-clock)
                  (Holds-put_line assoc count now (clock (lookup k (c (k % count))) now) (k % count)
                    cache c holds line' _ (mod-lt k some_lines)
                    (clock_le (lookup k (c (k % count)))) rep'),
            ))))

-- ===== src/LruCache/Policy/Uses.antt =====
-- misc/lru_cache/solution.cpp: `get` and `update` of a line do what the policy says.
use mathlib.Core.List.{Mem, Perm}
use mathlib.Core.List.Perm
use mathlib.Core.Path.{subst}
use interview_questions.Prelude.{
  length, get_or, set, ℕ, suc, ◌≤◌, ◌<◌, ◌≡◌, refl, sym, ap, ◌∙◌, ◌≢◌, inl, inr, none, some, List,
  [], ◌∷◌, ◌++◌, arith,
}
use interview_questions.Prelude.Int.{ℤ}
use interview_questions.Prelude.Run.{done, ◌>>=◌, Returns, Returns-bind}
use interview_questions.Prelude.Arrays.{length-perm}
use interview_questions.LruCache.Line.{
  CacheLineEntry, CacheLine, find_by_key, increase_key, get_line, update_line,
}
use interview_questions.LruCache.Heap.{blank, IsHeap, time_at, entry-ok}
use interview_questions.LruCache.Heap.Moves.{increase_key-lem, push-perm}
use interview_questions.LruCache.Spec.{lookup, remove, use_key, clock, after_use, after_update}
use interview_questions.LruCache.Order.{
  drop_key, drop_key-mem, entry_mem, InOrder-before, InOrder-later, InOrder-push, InOrder-drop_key,
  strip-drop_key, IsTaken, take_key, lookup_absent,
}
use interview_questions.LruCache.Policy.Find.{
  IsFound, find_by_key-IsFound, valued, increase_key-valued,
}
use interview_questions.LruCache.Policy.{Represents, strip-push}

module _ (now assoc : ℕ) (line : CacheLine) (shown : List (ℕ × ℤ))
    (inv : Represents now assoc line shown) (i : ℕ) (lt : i < length line.min_heap) where
  abbrev entry : CacheLineEntry
  entry = get_or line.min_heap i blank

  entry-IsTaken : IsTaken inv.order entry
  entry-IsTaken =
      take_key now inv.order entry inv.in_order
        ((Perm.mem_iff inv.same).0 (entry_mem line.min_heap i lt))

  entry_before : time_at line.min_heap i < now
  entry_before =
      InOrder-before now inv.order entry inv.in_order
        ((Perm.mem_iff inv.same).0 (entry_mem line.min_heap i lt))

  value_found : lookup entry.key shown ≡ some entry.val
  unfolding IsTaken
  value_found = ap (lookup entry.key) (sym inv.strips) ∙ entry-IsTaken.1

  -- The entry is the last in the order of use, with the new value.
  used :
      (v : ℤ) (h : List CacheLineEntry)
      → IsHeap h
      → Perm (entry ∷ h) (record { timestamp = now; key = entry.key; val = v } ∷ line.min_heap)
      → Represents (suc now) assoc (record line { min_heap = h }) (use_key entry.key v shown)
  unfolding IsTaken
  used v h ordered moved =
      let touched : CacheLineEntry = record { timestamp = now; key = entry.key; val = v } in
      let rest = drop_key entry.key inv.order in
      let whole : Perm (touched ∷ line.min_heap) (entry ∷ touched ∷ rest) =
        Perm.trans (Perm.cons touched (Perm.trans inv.same (entry-IsTaken.0)))
          (Perm.swap entry touched rest) in
      record {
        order = rest ++ touched ∷ [];
        same =
            Perm.trans (Perm.cons_inv (Perm.trans moved whole))
              (Perm.symm (push-perm rest touched));
        in_order =
            InOrder-push now rest touched (InOrder-drop_key now entry.key inv.order inv.in_order)
              (omega arith) (λ f m. (drop_key-mem entry.key inv.order f m).1);
        strips =
            strip-push rest touched
            ∙ ap (λ l. l ++ (entry.key, v) ∷ [])
                (strip-drop_key entry.key inv.order ∙ ap (remove entry.key) inv.strips);
        ordered = ordered;
        room = omega (arith, length-perm moved, inv.room);
        ways = inv.ways;
      }

pub Represents-later :
    (now later assoc : ℕ) (line : CacheLine) (shown : List (ℕ × ℤ))
    → now ≤ later
    → Represents now assoc line shown
    → Represents later assoc line shown
Represents-later now later assoc line shown le inv = record {
  order = inv.order;
  same = inv.same;
  in_order = InOrder-later now later inv.order le inv.in_order;
  strips = inv.strips;
  ordered = inv.ordered;
  room = inv.room;
  ways = inv.ways;
}

module _ (now assoc k : ℕ) (line : CacheLine) (shown : List (ℕ × ℤ))
    (inv : Represents now assoc line shown) where
  module _ (i : ℕ) (found : find_by_key line.min_heap k ≡ some i)
      (lt : i < length line.min_heap) where
    get_line-found : get_line now k line ≡ (
        increase_key line.min_heap i now >>= λ h.
        done (record line { min_heap = h }, some (get_or line.min_heap i blank).val))
    unfolding get_line
    get_line-found = rw (found, get_line) (rw (entry-ok line.min_heap i lt) refl)

    update_line-found :
        (val : ℤ)
        → update_line now k val line ≡ (
            increase_key (set line.min_heap i (valued line.min_heap i val lt)) i now >>= λ h.
            done (record line { min_heap = h }))
    unfolding update_line valued
    update_line-found val = rw (found, update_line) (rw (entry-ok line.min_heap i lt) refl)

  get_line-missing : find_by_key line.min_heap k ≡ none → get_line now k line ≡ done (line, none)
  unfolding get_line
  get_line-missing missing = rw (missing, get_line) refl

  update_line-missing :
      find_by_key line.min_heap k ≡ none → (val : ℤ) → update_line now k val line ≡ done line
  unfolding update_line
  update_line-missing missing val = rw (missing, update_line) refl

  missing-lookup : ((f : CacheLineEntry) → Mem f line.min_heap → f.key ≢ k) → lookup k shown ≡ none
  missing-lookup absent =
      ap (lookup k) (sym inv.strips)
      ∙ lookup_absent k inv.order (λ f m. absent f ((Perm.mem_iff inv.same).1 m))

  pub get_line-Represents : Returns (get_line now k line) (λ r.
      (r.1 ≡ lookup k shown)
      × Represents (clock (lookup k shown) now) assoc r.0 (after_use (lookup k shown) k shown))
  unfolding IsFound
  get_line-Represents = elim (find_by_key-IsFound line.min_heap k) [
    | inl (missing, absent) ↦ rw (get_line-missing missing, missing-lookup absent) (refl, inv)
    | inr (i, found, lt, e) ↦
        let entry = get_or line.min_heap i blank in
        let value : lookup k shown ≡ some entry.val =
          subst (λ key. lookup key shown ≡ some entry.val) e
            (value_found now assoc line shown inv i lt) in
        rw (get_line-found i found lt, value)
          (Returns-bind _ _ (increase_key line.min_heap i now) _
            (increase_key-lem line.min_heap i now inv.ordered lt
              (omega (arith, entry_before now assoc line shown inv i lt)))
            (λ h (ordered, moved). (
              refl,
              subst
                  (λ key.
                    Represents (suc now) assoc (record line { min_heap = h })
                      (use_key key entry.val shown))
                  e (used now assoc line shown inv i lt entry.val h ordered moved),
            )))
  ]

  pub update_line-Represents :
      (val : ℤ)
      → Returns
          (update_line now k val line)
          (λ line'. Represents (suc now) assoc line' (after_update (lookup k shown) k val shown))
  unfolding IsFound
  update_line-Represents val = elim (find_by_key-IsFound line.min_heap k) [
    | inl (missing, absent) ↦
        rw (update_line-missing missing val, missing-lookup absent)
          (Represents-later now (suc now) assoc line shown (omega arith) inv)
    | inr (i, found, lt, e) ↦
        let entry = get_or line.min_heap i blank in
        let value : lookup k shown ≡ some entry.val =
          subst (λ key. lookup key shown ≡ some entry.val) e
            (value_found now assoc line shown inv i lt) in
        rw (update_line-found i found lt val, value)
          (Returns-bind _ _
            (increase_key (set line.min_heap i (valued line.min_heap i val lt)) i now) _
            (increase_key-valued line.min_heap i val lt now inv.ordered
              (omega (arith, entry_before now assoc line shown inv i lt)))
            (λ h (ordered, moved).
              subst
                (λ key.
                  Represents (suc now) assoc (record line { min_heap = h }) (use_key key val shown))
                e (used now assoc line shown inv i lt val h ordered moved)))
  ]

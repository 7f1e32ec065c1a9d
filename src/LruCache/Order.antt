-- ===== src/LruCache/Order.antt =====
-- misc/lru_cache/solution.cpp: the entries of a line in the order of their last use.
use mathlib.Core.Logic.{∥∥₁_elim}
use mathlib.Core.List.{Mem, Memᴰ, mem-cons_self, not-mem-nil, mem-cons_of_mem, Perm}
use mathlib.Core.List.Perm
use mathlib.Core.List.Memᴰ
use mathlib.Core.Path.{subst}
use native.Mathlib.Bridge.{le_prop}
use interview_questions.Prelude.{
  ◌==◌, if◌then◌else◌, ==_refl, ne→==, Bool-cases, length, get_or, ℕ, zero, suc, ◌≤◌, ◌<◌, ◌≡◌,
  refl, sym, ap, ◌∙◌, ◌≢◌, ◌⊎◌, inl, inr, none, some, List, [], ◌∷◌, ◌++◌, map, arith,
}
use interview_questions.Prelude.Int.{ℤ}
use interview_questions.LruCache.Spec.{lookup, remove}
use interview_questions.LruCache.Line.{CacheLineEntry}
use interview_questions.LruCache.Heap.{blank}

-- The entries of a line, the least recently used first.
abbrev pub strip : CacheLineEntry → ℕ × ℤ
strip e = (e.key, e.val)

abbrev pub drop_key : ℕ → List CacheLineEntry → List CacheLineEntry
drop_key k [] = []
drop_key k (e ∷ l) = if e.key == k then drop_key k l else e ∷ drop_key k l

abbrev pub InOrder : ℕ → List CacheLineEntry → Type 0
InOrder now [] = Unit {0}
InOrder now (x ∷ l) =
    ((f : CacheLineEntry) → Mem f l → (x.timestamp < f.timestamp) × (x.key ≢ f.key))
    × (x.timestamp < now)
    × InOrder now l

-- To use a membership.
pub mem_elim :
    {P : Type 0} (e x : CacheLineEntry) (l : List CacheLineEntry)
    → IsProp P
    → Mem e (x ∷ l)
    → (e ≡ x → P)
    → (Mem e l → P)
    → P
mem_elim {P} e x l is_prop m at_head in_tail = ∥∥₁_elim m is_prop (λ d. cases (Memᴰ.cases_cons d))
  where
    cases : (e ≡ x) ⊎ Memᴰ e l → P
    cases (inl same) = at_head same
    cases (inr d) = in_tail ∣ d ∣₁

pub push_elim :
    {P : Type 0} (f e : CacheLineEntry) (l : List CacheLineEntry)
    → IsProp P
    → Mem f (l ++ e ∷ [])
    → (Mem f l → P)
    → (f ≡ e → P)
    → P
push_elim {P} f e l is_prop m before at_end =
    ∥∥₁_elim m is_prop (λ d. cases (Memᴰ.append_cases l d))
  where
    cases : Memᴰ f l ⊎ Memᴰ f (e ∷ []) → P
    cases (inl d) = before ∣ d ∣₁
    cases (inr d) = at_end (Memᴰ.eq_of_singleton d)

pub entry_mem :
    (heap : List CacheLineEntry) (i : ℕ) → i < length heap → Mem (get_or heap i blank) heap
entry_mem [] i lt = absurd (omega arith)
entry_mem (e ∷ heap) zero lt = mem-cons_self
entry_mem (e ∷ heap) (suc i) lt = mem-cons_of_mem e (entry_mem heap i (omega arith))

pub mem_index :
    {f : CacheLineEntry} {heap : List CacheLineEntry}
    → Memᴰ f heap
    → (i : ℕ) × (i < length heap) × (get_or heap i blank ≡ f)
mem_index (Memᴰ.head e) = (0, omega arith, sym e)
mem_index (Memᴰ.tail m) = let (i, lt, e) = mem_index m in (suc i, omega arith, e)

pub InOrder-before :
    (now : ℕ) (l : List CacheLineEntry) (f : CacheLineEntry)
    → InOrder now l
    → Mem f l
    → f.timestamp < now
InOrder-before now [] f order m = absurd (not-mem-nil m)
InOrder-before now (x ∷ l) f order m =
    mem_elim {P = f.timestamp < now} f x l le_prop m (λ e. rw e (order.1))
      (λ m'. InOrder-before now l f order.2 m')

pub InOrder-later :
    (now later : ℕ) (l : List CacheLineEntry) → now ≤ later → InOrder now l → InOrder later l
InOrder-later now later [] le order = tt
InOrder-later now later (x ∷ l) le order =
    (order.0, omega (arith, order.1), InOrder-later now later l le order.2)

pub InOrder-push :
    (now : ℕ) (l : List CacheLineEntry) (e : CacheLineEntry)
    → InOrder now l
    → now ≤ e.timestamp
    → ((f : CacheLineEntry) → Mem f l → f.key ≢ e.key)
    → InOrder (suc e.timestamp) (l ++ e ∷ [])
InOrder-push now [] e order le other = ((λ f m. absurd (not-mem-nil m)), omega arith, tt)
InOrder-push now (x ∷ l) e order le other = (
  (λ f m.
      push_elim {P = (x.timestamp < f.timestamp) × (x.key ≢ f.key)} f e l (hlevel (le_prop)) m
        (order.0 f) (λ same. rw same (omega (arith, order.1), other x mem-cons_self))),
  omega (arith, order.1),
  InOrder-push now l e order.2 le (λ f m. other f (mem-cons_of_mem x m)),
)

pub drop_key-mem :
    (k : ℕ) (l : List CacheLineEntry) (f : CacheLineEntry)
    → Mem f (drop_key k l)
    → Mem f l × (f.key ≢ k)
drop_key-mem k [] f m = absurd (not-mem-nil m)
drop_key-mem k (x ∷ l) f m = elim (Bool-cases (x.key == k)) [
  | inl same ↦
      let kept : drop_key k (x ∷ l) ≡ drop_key k l = rw same refl in
      let (m', ne) = drop_key-mem k l f (subst (Mem f) kept m) in (mem-cons_of_mem x m', ne)
  | inr other ↦
      let kept : drop_key k (x ∷ l) ≡ x ∷ drop_key k l = rw other refl in
      mem_elim {P = Mem f (x ∷ l) × (f.key ≢ k)} f x (drop_key k l) (hlevel) (subst (Mem f) kept m)
        (λ e. rw e (mem-cons_self, λ h. ground (arith, h, other)))
        (λ m'. let (m'', ne) = drop_key-mem k l f m' in (mem-cons_of_mem x m'', ne))
]

pub InOrder-drop_key :
    (now k : ℕ) (l : List CacheLineEntry) → InOrder now l → InOrder now (drop_key k l)
InOrder-drop_key now k [] order = tt
InOrder-drop_key now k (x ∷ l) order = elim (Bool-cases (x.key == k)) [
  | inl same ↦ rw same (InOrder-drop_key now k l order.2)
  | inr other ↦
      rw other
        ((λ f m. order.0 f ((drop_key-mem k l f m).0)), order.1, InOrder-drop_key now k l order.2)
]

pub strip-drop_key :
    (k : ℕ) (l : List CacheLineEntry) → map strip (drop_key k l) ≡ remove k (map strip l)
strip-drop_key k [] = refl
strip-drop_key k (x ∷ l) = elim (Bool-cases (x.key == k)) [
  | inl same ↦ rw same (strip-drop_key k l)
  | inr other ↦ rw other (ap (λ r. (x.key, x.val) ∷ r) (strip-drop_key k l))
]

drop_absent :
    (k : ℕ) (l : List CacheLineEntry)
    → ((f : CacheLineEntry) → Mem f l → f.key ≢ k)
    → drop_key k l ≡ l
drop_absent k [] absent = refl
drop_absent k (x ∷ l) absent =
    rw (ne→== x.key k (absent x mem-cons_self))
      (ap (λ r. x ∷ r) (drop_absent k l (λ f m. absent f (mem-cons_of_mem x m))))

-- The entry is the only one of the line with its key.
unfoldable pub IsTaken : List CacheLineEntry → CacheLineEntry → Type 0
IsTaken l e = Perm l (e ∷ drop_key e.key l) × (lookup e.key (map strip l) ≡ some e.val)

take_head :
    (x : CacheLineEntry) (l : List CacheLineEntry)
    → ((f : CacheLineEntry) → Mem f l → f.key ≢ x.key)
    → IsTaken (x ∷ l) x
unfolding IsTaken
take_head x l absent = rw (==_refl x.key, drop_absent x.key l absent) (Perm.refl (x ∷ l), refl)

take_tail :
    (e x : CacheLineEntry) (l : List CacheLineEntry)
    → x.key ≢ e.key
    → IsTaken l e
    → IsTaken (x ∷ l) e
unfolding IsTaken
take_tail e x l ne (taken, found) =
    rw (ne→== x.key e.key ne)
      (Perm.trans (Perm.cons x taken) (Perm.swap e x (drop_key e.key l)), found)

pub take_key :
    (now : ℕ) (l : List CacheLineEntry) (e : CacheLineEntry) → InOrder now l → Mem e l → IsTaken l e
unfolding IsTaken
take_key now [] e order m = absurd (not-mem-nil m)
take_key now (x ∷ l) e order m =
    mem_elim {P = IsTaken (x ∷ l) e} e x l (hlevel) m
      (λ same.
        subst (IsTaken (x ∷ l)) (sym same) (take_head x l (λ f m'. λ h. (order.0 f m').1 (sym h))))
      (λ m'. take_tail e x l ((order.0 e m').1) (take_key now l e order.2 m'))

pub lookup_absent :
    (k : ℕ) (l : List CacheLineEntry)
    → ((f : CacheLineEntry) → Mem f l → f.key ≢ k)
    → lookup k (map strip l) ≡ none
lookup_absent k [] absent = refl
lookup_absent k (x ∷ l) absent =
    rw (ne→== x.key k (absent x mem-cons_self))
      (lookup_absent k l (λ f m. absent f (mem-cons_of_mem x m)))

pub absent_lookup :
    (k : ℕ) (l : List CacheLineEntry)
    → lookup k (map strip l) ≡ none
    → (f : CacheLineEntry) → Mem f l
    → f.key ≢ k
absent_lookup k [] e f m = absurd (not-mem-nil m)
absent_lookup k (x ∷ l) e f m = elim (Bool-cases (x.key == k)) [
  | inl same ↦ absurd (ground (arith, e, same))
  | inr other ↦
      let later : lookup k (map strip (x ∷ l)) ≡ lookup k (map strip l) = rw other refl in
      mem_elim {P = f.key ≢ k} f x l (hlevel) m (λ same. rw same (λ h. ground (arith, h, other)))
        (λ m'. absent_lookup k l (sym later ∙ e) f m')
]

-- ===== src/Routing/Longest.antt =====
-- knowledge_based/networking/routing/rtable.c: `lookup` after any sequence of changes gives the
-- longest prefix.
use interview_questions.Prelude.Run.{
  Run, done, ◌>>=◌, Returns, Returns→done, Returns-bind, Returns-mono,
}
use native.Mathlib.Decide.{dec_lt}
use interview_questions.Prelude.{
  ◌==◌, if◌then◌else◌, lt→ltb, le→not_ltb, Bool-cases, take, ℕ, zero, suc, ◌-◌, ◌/◌, ◌%◌, ◌^◌, ◌≤◌,
  ◌≡◌, refl, sym, ap, ◌∙◌, inl, inr, Bool, true, false, not, Option, none, some, List, [], ◌∷◌,
  arith,
}
use interview_questions.Routing.{
  Trie, null, trie_node, set_defl_gateway, initial_root, bit_at, child, mask_limit, is_null, walk,
  add_entry, lookup,
}
use interview_questions.Prelude.Masks.{mask_of}
use interview_questions.Routing.Bits.{bits, tested, tested-bits}
use interview_questions.Routing.Exact.{
  dest_at, same_bits, HasDepth, Added, dest_at-null, walk-Added, HasDepth-child,
}
use interview_questions.Routing.Visit.{or_else, longest, longest-cons, longest-ext, visit-longest}

-- A change of the table: `set_defl_gateway`, or `add_entry`.
pub data Change : Type 0 where
  default_route : ℕ → Change
  route : (ip cidr_val dest : ℕ) → Change

-- The program on the changes, the last one first.
unfoldable pub apply_changes : (ℕ → Option ℕ) → List Change → Run Trie
apply_changes malloc [] = done initial_root
apply_changes malloc (default_route ip ∷ changes) =
    apply_changes malloc changes >>= λ t. set_defl_gateway ip t
apply_changes malloc (route ip c d ∷ changes) =
    apply_changes malloc changes >>= λ t. add_entry malloc ip c d t

-- The destination that the changes give to exactly this prefix: the last one counts.
abbrev pub routes : List Change → List Bool → Option ℕ
routes [] p = if same_bits p [] then some (2 ^ 32 - 1) else none
routes (default_route ip ∷ changes) p = if same_bits p [] then some ip else routes changes p
routes (route ip c d ∷ changes) p =
    if same_bits p (take c (bits 32 ip)) then some d else routes changes p

-- What holds of the trie after some changes.
record Holds (changes : List Change) (t : Trie) : Type 0 where
  is_node : is_null t ≡ false
  depth : HasDepth 32 t
  dests : (p : List Bool) → dest_at p t ≡ routes changes p

initial-Holds : Holds [] initial_root
initial-Holds = record { is_node = refl; depth = (tt, tt); dests = initial_dests }
  where
    initial_dests : (p : List Bool) → dest_at p initial_root ≡ routes [] p
    initial_dests [] = refl
    initial_dests (true ∷ p) = dest_at-null p
    initial_dests (false ∷ p) = dest_at-null p

-- The root has a destination throughout.
routes-root : (changes : List Change) → (d : ℕ) × (routes changes [] ≡ some d)
routes-root [] = (2 ^ 32 - 1, refl)
routes-root (default_route ip ∷ changes) = (ip, refl)
routes-root (route ip c d ∷ changes) = elim (Bool-cases (same_bits [] (take c (bits 32 ip)))) [
  | inl e ↦ (d, rw e refl)
  | inr e ↦ rw e (routes-root changes)
]

root-ends :
    (changes : List Change) (e : Bool) (d : ℕ) (a b : Trie)
    → Holds changes (trie_node e d a b)
    → (e ≡ true) × (routes changes [] ≡ some d)
root-ends changes true d a b holds = (refl, sym (holds.dests []))
root-ends changes false d a b holds =
    let (d', e) = routes-root changes in absurd (ground (arith, holds.dests [], e))

gateway-Holds :
    (ip : ℕ) (changes : List Change) (t : Trie)
    → Holds changes t
    → Returns (set_defl_gateway ip t) (Holds (default_route ip ∷ changes))
unfolding set_defl_gateway
gateway-Holds ip changes null holds = absurd (ground (arith, holds.is_node))
gateway-Holds ip changes (trie_node e d a b) holds = record {
  is_node = refl;
  depth = holds.depth;
  dests = dests;
}
  where
    dests : (p : List Bool) → dest_at p (trie_node e ip a b) ≡ routes (default_route ip ∷ changes) p
    dests [] = rw (root-ends changes e d a b holds).0 refl
    dests (true ∷ p) = holds.dests (true ∷ p)
    dests (false ∷ p) = holds.dests (false ∷ p)

take-bits : (n c ip : ℕ) → n ≤ c → take c (bits n ip) ≡ bits n ip
take-bits zero zero ip h = refl
take-bits zero (suc c) ip h = refl
take-bits (suc n) zero ip h = absurd (omega arith)
take-bits (suc n) (suc c) ip h =
    ap (λ r. (ip / 2 ^ n % 2 == 1) ∷ r) (take-bits n c ip (omega arith))

-- The limit of the mask, and the bits before it.
limit_lem :
    (c ip : ℕ)
    → (k : ℕ) × (k ≤ 32)
      × (mask_limit c ≡ mask_of (32 - k))
      × (take k (tested 32 ip) ≡ take c (bits 32 ip))
unfolding mask_limit
limit_lem c ip = elim (dec_lt c 32) [
  | yes lt ↦
      let next : 32 - c ≡ suc (31 - c) = omega arith in
      (c, omega arith, rw (lt→ltb c 32 lt) (rw next refl), ap (take c) (tested-bits 32 ip))
  | no ge ↦ (
    32,
    omega arith,
    rw (le→not_ltb c 32 (omega arith)) refl,
    ap (take 32) (tested-bits 32 ip)
        ∙ take-bits 32 32 ip (omega arith)
        ∙ sym (take-bits 32 c ip (omega arith)),
  )
]

route-Holds :
    (malloc : ℕ → Option ℕ)
    → ((mask : ℕ) → (junk : ℕ) × (malloc mask ≡ some junk))
    → (ip c d : ℕ) (changes : List Change) (t : Trie) → Holds changes t
    → Returns (add_entry malloc ip c d t) (Holds (route ip c d ∷ changes))
unfolding add_entry
route-Holds malloc works ip c d changes t holds =
    let (k, le, limit, same) = limit_lem c ip in
    Returns-mono (Added (take k (tested 32 ip)) d 32 t) _
      (walk malloc (mask_limit c) ip d 33 (2 ^ 31) t)
      (walk-Added malloc works ip d k 32 33 (mask_limit c) t le (omega arith) limit holds.is_node
        holds.depth)
      (λ u added. record {
        is_node = added.is_node;
        depth = added.depth;
        dests = λ p. rw (holds.dests p) at (rw same at (added.dests p));
      })

apply_changes-Holds :
    (malloc : ℕ → Option ℕ)
    → ((mask : ℕ) → (junk : ℕ) × (malloc mask ≡ some junk))
    → (changes : List Change) → Returns (apply_changes malloc changes) (Holds changes)
unfolding apply_changes
apply_changes-Holds malloc works [] = initial-Holds
apply_changes-Holds malloc works (default_route ip ∷ changes) =
    Returns-bind (Holds changes) _ (apply_changes malloc changes) _
      (apply_changes-Holds malloc works changes) (λ t holds. gateway-Holds ip changes t holds)
apply_changes-Holds malloc works (route ip c d ∷ changes) =
    Returns-bind (Holds changes) _ (apply_changes malloc changes) _
      (apply_changes-Holds malloc works changes)
      (λ t holds. route-Holds malloc works ip c d changes t holds)

dest_at-child :
    (bit : ℕ) (e : Bool) (d : ℕ) (a b : Trie) (q : List Bool)
    → dest_at q (child bit a b) ≡ dest_at (not (bit == 0) ∷ q) (trie_node e d a b)
dest_at-child bit e d a b q = elim (Bool-cases (bit == 0)) [ inl z ↦ rw z refl | inr z ↦ rw z refl ]

lookup_lem :
    (ip default : ℕ) (changes : List Change) (t : Trie)
    → Holds changes t
    → lookup ip t ≡ done (longest 32 (routes changes) (tested 32 ip) default)
unfolding lookup
lookup_lem ip default changes null holds = absurd (ground (arith, holds.is_node))
lookup_lem ip default changes (trie_node e d a b) holds =
    let bit = bit_at ip (2 ^ 31) in
    let root = (root-ends changes e d a b holds).1 in
    ap done (
      visit-longest 31 ip d (child bit a b) (HasDepth-child 31 bit e d a b holds.depth)
      ∙ longest-ext 31 _ (λ q. routes changes (not (bit == 0) ∷ q)) (tested 31 ip) d
          (λ q. dest_at-child bit e d a b q ∙ holds.dests (not (bit == 0) ∷ q))
      ∙ ap
          (λ o.
            longest 31 (λ q. routes changes (not (bit == 0) ∷ q)) (tested 31 ip)
              (or_else o default))
          (sym root)
      ∙ sym (longest-cons 31 (routes changes) (not (bit == 0)) (tested 31 ip) default))

-- Where `malloc` does not fail, after any sequence of `set_defl_gateway` and `add_entry`, which all
-- return, `lookup` of an address returns what the changes give to the longest prefix of its 32 bits
-- that has an entry: the entry of the last change for that prefix, and the default route, which is
-- the prefix of no bits, where there is none other.
pub lookup-longest :
    (malloc : ℕ → Option ℕ)
    → ((mask : ℕ) → (junk : ℕ) × (malloc mask ≡ some junk))
    → (changes : List Change) (ip : ℕ)
    → (apply_changes malloc changes >>= λ t. lookup ip t)
      ≡ done (longest 32 (routes changes) (bits 32 ip) (2 ^ 32 - 1))
lookup-longest malloc works changes ip =
    let (t, e, holds) =
      Returns→done (Holds changes) (apply_changes malloc changes)
        (apply_changes-Holds malloc works changes) in
    rw e (
      lookup_lem ip (2 ^ 32 - 1) changes t holds
      ∙ ap (λ b. done (longest 32 (routes changes) b (2 ^ 32 - 1))) (tested-bits 32 ip))

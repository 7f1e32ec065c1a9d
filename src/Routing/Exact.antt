-- ===== src/Routing/Exact.antt =====
-- knowledge_based/networking/routing/rtable.c: which prefixes a trie has, and what `add_entry`
-- changes.
use interview_questions.Prelude.Run.{Returns, Returns-bind}
use interview_questions.Prelude.{
  ◌==◌, if◌then◌else◌, ==_iff, ne→==, Bool-cases, take, ℕ, zero, suc, ◌-◌, ◌≤◌, ◌<◌, ◌≡◌, refl, sym,
  ap, ◌∙◌, inl, inr, Bool, true, false, not, Option, none, some, List, [], ◌∷◌, arith,
}
use interview_questions.Prelude.Masks.{mask_of, mask_of-half, mask_of-lt}
use interview_questions.Routing.Bits.{tested}
use interview_questions.Routing.{
  Trie, null, trie_node, bit_at, child, put_child, is_null, grow, walk,
}

-- The destination of exactly this prefix.
abbrev pub dest_at : List Bool → Trie → Option ℕ
dest_at p null = none
dest_at [] (trie_node e d a b) = if e then some d else none
dest_at (false ∷ p) (trie_node e d a b) = dest_at p a
dest_at (true ∷ p) (trie_node e d a b) = dest_at p b

abbrev pub same_bits : List Bool → List Bool → Bool
same_bits [] [] = true
same_bits [] (c ∷ q) = false
same_bits (b ∷ p) [] = false
same_bits (true ∷ p) (true ∷ q) = same_bits p q
same_bits (false ∷ p) (false ∷ q) = same_bits p q
same_bits (true ∷ p) (false ∷ q) = false
same_bits (false ∷ p) (true ∷ q) = false

-- At most `n` bits below the node.
abbrev pub HasDepth : ℕ → Trie → Type 0
HasDepth n null = Unit {0}
HasDepth zero (trie_node e d a b) = (a ≡ null) × (b ≡ null)
HasDepth (suc n) (trie_node e d a b) = HasDepth n a × HasDepth n b

-- `u` is `t` with the prefix `q` going to `dest`.
pub record Added (q : List Bool) (dest n : ℕ) (t u : Trie) : Type 0 where
  pub is_node : is_null u ≡ false
  pub depth : HasDepth n u
  pub dests : (p : List Bool) → dest_at p u ≡ (if same_bits p q then some dest else dest_at p t)

pub dest_at-null : (p : List Bool) → dest_at p null ≡ none
dest_at-null [] = refl
dest_at-null (b ∷ p) = refl

dest_at-fresh : (p : List Bool) (d : ℕ) → dest_at p (trie_node false d null null) ≡ none
dest_at-fresh [] d = refl
dest_at-fresh (true ∷ p) d = dest_at-null p
dest_at-fresh (false ∷ p) d = dest_at-null p

dest_at-put :
    (bit : ℕ) (e : Bool) (d dest : ℕ) (a b sub : Trie) (q : List Bool)
    → ((p : List Bool)
        → dest_at p sub ≡ (if same_bits p q then some dest else dest_at p (child bit a b)))
    → (p : List Bool)
    → dest_at p (put_child bit e d a b sub)
      ≡ (if same_bits p (not (bit == 0) ∷ q) then some dest else dest_at p (trie_node e d a b))
dest_at-put bit e d dest a b sub q h [] = ground arith
dest_at-put bit e d dest a b sub q h (true ∷ p) = elim (Bool-cases (bit == 0)) [
  | inl z ↦ rw z refl
  | inr z ↦ rw z (rw z at (h p))
]
dest_at-put bit e d dest a b sub q h (false ∷ p) = elim (Bool-cases (bit == 0)) [
  | inl z ↦ rw z (rw z at (h p))
  | inr z ↦ rw z refl
]

HasDepth-put :
    (n bit : ℕ) (e : Bool) (d : ℕ) (a b sub : Trie)
    → HasDepth (suc n) (trie_node e d a b)
    → HasDepth n sub
    → HasDepth (suc n) (put_child bit e d a b sub)
HasDepth-put n bit e d a b sub h k = elim (Bool-cases (bit == 0)) [
  | inl z ↦ rw z (k, h.1)
  | inr z ↦ rw z (h.0, k)
]

dest_at-end :
    (e : Bool) (d dest : ℕ) (a b : Trie) (p : List Bool)
    → dest_at p (trie_node true dest a b)
      ≡ (if same_bits p [] then some dest else dest_at p (trie_node e d a b))
dest_at-end e d dest a b [] = refl
dest_at-end e d dest a b (true ∷ p) = refl
dest_at-end e d dest a b (false ∷ p) = refl

HasDepth-end :
    (n : ℕ) (e : Bool) (d dest : ℕ) (a b : Trie)
    → HasDepth n (trie_node e d a b)
    → HasDepth n (trie_node true dest a b)
HasDepth-end zero e d dest a b h = h
HasDepth-end (suc n) e d dest a b h = h

put_child-node :
    (bit : ℕ) (e : Bool) (d : ℕ) (a b sub : Trie) → is_null (put_child bit e d a b sub) ≡ false
put_child-node bit e d a b sub = ground arith

-- Both loops after a step into the child.
Added-put :
    (n bit : ℕ) (e : Bool) (d dest : ℕ) (a b sub : Trie) (q : List Bool)
    → HasDepth (suc n) (trie_node e d a b)
    → Added q dest n (child bit a b) sub
    → Added (not (bit == 0) ∷ q) dest (suc n) (trie_node e d a b) (put_child bit e d a b sub)
Added-put n bit e d dest a b sub q h added = record {
  is_node = put_child-node bit e d a b sub;
  depth = HasDepth-put n bit e d a b sub h added.depth;
  dests = dest_at-put bit e d dest a b sub q added.dests;
}

Added-end :
    (n : ℕ) (e : Bool) (d dest : ℕ) (a b : Trie)
    → HasDepth n (trie_node e d a b)
    → Added [] dest n (trie_node e d a b) (trie_node true dest a b)
Added-end n e d dest a b h = record {
  is_node = refl;
  depth = HasDepth-end n e d dest a b h;
  dests = dest_at-end e d dest a b;
}

-- A fresh node stands for no node.
Added-fresh :
    (q : List Bool) (dest n junk : ℕ) (u : Trie)
    → Added q dest n (trie_node false junk null null) u
    → Added q dest n null u
Added-fresh q dest n junk u added = record {
  is_node = added.is_node;
  depth = added.depth;
  dests = λ p. rw (← dest_at-null p) at (rw (dest_at-fresh p junk) at (added.dests p));
}

at_limit : (n lim : ℕ) → lim ≡ mask_of (n - 0) → (mask_of n == lim) ≡ true
at_limit n lim e =
    let same : mask_of (n - 0) ≡ mask_of n = ap mask_of (omega arith) in
    (==_iff (mask_of n) lim).1 (sym (e ∙ same))

not_limit : (n k lim : ℕ) → k ≤ n → lim ≡ mask_of (suc n - suc k) → (mask_of (suc n) == lim) ≡ false
not_limit n k lim le e =
    ne→== (mask_of (suc n)) lim
      (λ h. absurd (omega (arith, mask_of-lt (suc n - suc k) (suc n) (omega arith))))

child-null : (bit : ℕ) → child bit null null ≡ null
child-null bit = elim (Bool-cases (bit == 0)) [ inl z ↦ rw z refl | inr z ↦ rw z refl ]

is_null-null : (t : Trie) → is_null t ≡ true → t ≡ null
is_null-null null h = refl
is_null-null (trie_node e d a b) h = absurd (ground (arith, h))

HasDepth-fresh : (n junk : ℕ) → HasDepth n (trie_node false junk null null)
HasDepth-fresh zero junk = (refl, refl)
HasDepth-fresh (suc n) junk = (tt, tt)

pub HasDepth-child :
    (n bit : ℕ) (e : Bool) (d : ℕ) (a b : Trie)
    → HasDepth (suc n) (trie_node e d a b)
    → HasDepth n (child bit a b)
HasDepth-child n bit e d a b h = elim (Bool-cases (bit == 0)) [
  | inl z ↦ rw z h.0
  | inr z ↦ rw z h.1
]

module _ (malloc : ℕ → Option ℕ) (works : (mask : ℕ) → (junk : ℕ) × (malloc mask ≡ some junk))
    (ip dest : ℕ) where
  grow-Added :
      (k n fuel lim : ℕ) (e : Bool) (d : ℕ) (a b : Trie)
      → k ≤ n
      → k < fuel
      → lim ≡ mask_of (n - k)
      → (0 < k → child (bit_at ip (mask_of n)) a b ≡ null)
      → HasDepth n (trie_node e d a b)
      → Returns
          (grow malloc lim ip dest fuel (mask_of n) (trie_node e d a b))
          (Added (take k (tested n ip)) dest n (trie_node e d a b))
  unfolding grow
  grow-Added k n zero lim e d a b le enough is_lim free depth = absurd (omega arith)
  grow-Added zero n (suc fuel) lim e d a b le enough is_lim free depth =
      rw (at_limit n lim is_lim, Returns) (Added-end n e d dest a b depth)
  grow-Added (suc k) zero (suc fuel) lim e d a b le enough is_lim free depth = absurd (omega arith)
  grow-Added (suc k) (suc n) (suc fuel) lim e d a b le enough is_lim free depth =
      let (junk, m) = works (mask_of (suc n)) in
      let bit = bit_at ip (mask_of (suc n)) in
      let q = take k (tested n ip) in
      rw (not_limit n k lim (omega arith) is_lim, Returns)
        (rw (m, Returns)
          (rw (mask_of-half n, Returns)
            (Returns-bind (Added q dest n (trie_node false junk null null)) _
              (grow malloc lim ip dest fuel (mask_of n) (trie_node false junk null null)) _
              (grow-Added k n fuel lim false junk null null (omega arith) (omega arith) is_lim'
                (λ _. child-null (bit_at ip (mask_of n))) (HasDepth-fresh n junk))
              (λ sub added.
                Added-put n bit e d dest a b sub q depth
                  (rw (free (omega arith)) (Added-fresh q dest n junk sub added))))))
    where
      is_lim' : lim ≡ mask_of (n - k)
      is_lim' = is_lim ∙ ap mask_of (omega arith)

  pub walk-Added :
      (k n fuel lim : ℕ) (t : Trie)
      → k ≤ n
      → k < fuel
      → lim ≡ mask_of (n - k)
      → is_null t ≡ false
      → HasDepth n t
      → Returns (walk malloc lim ip dest fuel (mask_of n) t) (Added (take k (tested n ip)) dest n t)
  unfolding walk
  walk-Added k n fuel lim null le enough is_lim node depth = absurd (ground (arith, node))
  walk-Added k n zero lim (trie_node e d a b) le enough is_lim node depth = absurd (omega arith)
  walk-Added zero n (suc fuel) lim (trie_node e d a b) le enough is_lim node depth =
      rw (at_limit n lim is_lim, Returns)
        (grow-Added zero n (suc fuel) lim e d a b le enough is_lim (λ h. absurd (omega arith))
          depth)
  walk-Added (suc k) zero (suc fuel) lim (trie_node e d a b) le enough is_lim node depth =
      absurd (omega arith)
  walk-Added (suc k) (suc n) (suc fuel) lim (trie_node e d a b) le enough is_lim node depth =
      rw (not_limit n k lim (omega arith) is_lim, Returns)
        (elim (Bool-cases (is_null (child bit a b))) [
          | inl free ↦
              rw (free, Returns)
                (grow-Added (suc k) (suc n) (suc fuel) lim e d a b le enough is_lim
                  (λ _. is_null-null (child bit a b) free) depth)
          | inr taken ↦
              rw (taken, Returns)
                (rw (mask_of-half n, Returns)
                  (Returns-bind (Added q dest n (child bit a b)) _
                    (walk malloc lim ip dest fuel (mask_of n) (child bit a b)) _
                    (walk-Added k n fuel lim (child bit a b) (omega arith) (omega arith)
                      (is_lim ∙ ap mask_of (omega arith)) taken
                      (HasDepth-child n bit e d a b depth))
                    (λ sub added. Added-put n bit e d dest a b sub q depth added)))
        ])
    where
      bit : ℕ
      bit = bit_at ip (mask_of (suc n))

      q : List Bool
      q = take k (tested n ip)

-- ===== src/Routing/Visit.antt =====
-- knowledge_based/networking/routing/rtable.c: the loop of `lookup` on a trie.
use interview_questions.Prelude.{
  ◌==◌, if◌then◌else◌, Bool-cases, take, ℕ, zero, suc, ◌≡◌, refl, sym, ap, ◌∙◌, inl, inr, Bool,
  true, false, not, Option, none, some, List, [], ◌∷◌,
}
use interview_questions.Routing.{Trie, null, trie_node, bit_at, visit}
use interview_questions.Prelude.Masks.{mask_of, mask_of-half}
use interview_questions.Routing.Bits.{tested}
use interview_questions.Routing.Exact.{dest_at, HasDepth, dest_at-null}

abbrev pub or_else : Option ℕ → ℕ → ℕ
or_else none default = default
or_else (some d) default = d

-- The value of `f` at the longest prefix, among those of at most `k` bits, where it has one.
abbrev pub longest : (k : ℕ) → (List Bool → Option ℕ) → List Bool → (default : ℕ) → ℕ
longest zero f p default = or_else (f []) default
longest (suc k) f p default = or_else (f (take (suc k) p)) (longest k f p default)

pub longest-cons :
    (k : ℕ) (f : List Bool → Option ℕ) (b : Bool) (p : List Bool) (default : ℕ)
    → longest (suc k) f (b ∷ p) default ≡ longest k (λ q. f (b ∷ q)) p (or_else (f []) default)
longest-cons zero f b p default = refl
longest-cons (suc k) f b p default =
    ap (or_else (f (b ∷ take (suc k) p))) (longest-cons k f b p default)

pub longest-none :
    (k : ℕ) (f : List Bool → Option ℕ) (p : List Bool) (default : ℕ)
    → ((q : List Bool) → f q ≡ none)
    → longest k f p default ≡ default
longest-none zero f p default h = rw (h []) refl
longest-none (suc k) f p default h = rw (h (take (suc k) p)) (longest-none k f p default h)

pub longest-ext :
    (k : ℕ) (f g : List Bool → Option ℕ) (p : List Bool) (default : ℕ)
    → ((q : List Bool) → f q ≡ g q)
    → longest k f p default ≡ longest k g p default
longest-ext zero f g p default h = rw (h []) refl
longest-ext (suc k) f g p default h =
    rw (h (take (suc k) p)) (ap (or_else (g (take (suc k) p))) (longest-ext k f g p default h))

or_else-if :
    (e : Bool) (d last : ℕ) → or_else (if e then some d else none) last ≡ (if e then d else last)
or_else-if true d last = refl
or_else-if false d last = refl

pub visit-longest :
    (n ip last : ℕ) (t : Trie)
    → HasDepth n t
    → visit (mask_of (suc n)) ip last t ≡ longest n (λ q. dest_at q t) (tested n ip) last
unfolding visit
visit-longest n ip last null h = sym (longest-none n _ (tested n ip) last dest_at-null)
visit-longest zero ip last (trie_node e d a b) h =
    rw (or_else-if e d last) (elim (Bool-cases (bit_at ip 0 == 0)) [
      | inl z ↦ rw (z, visit) (rw (h.0, visit) refl)
      | inr z ↦ rw (z, visit) (rw (h.1, visit) refl)
    ])
visit-longest (suc n) ip last (trie_node e d a b) h =
    let f = λ (q : List Bool). dest_at q (trie_node e d a b) in
    let left = visit-longest n ip (if e then d else last) a h.0 in
    let right = visit-longest n ip (if e then d else last) b h.1 in
    below left right
    ∙ sym (longest-cons n f (not (bit_at ip (mask_of (suc n)) == 0)) (tested n ip) last)
  where
    below :
        visit (mask_of (suc n)) ip (if e then d else last) a
          ≡ longest n (λ q. dest_at q a) (tested n ip) (if e then d else last)
        → visit (mask_of (suc n)) ip (if e then d else last) b
          ≡ longest n (λ q. dest_at q b) (tested n ip) (if e then d else last)
        → visit (mask_of (suc (suc n))) ip last (trie_node e d a b)
          ≡ longest n
              (λ q. dest_at (not (bit_at ip (mask_of (suc n)) == 0) ∷ q) (trie_node e d a b))
              (tested n ip)
              (or_else (if e then some d else none) last)
    below left right =
        rw (mask_of-half (suc n), visit)
          (rw (or_else-if e d last) (elim (Bool-cases (bit_at ip (mask_of (suc n)) == 0)) [
            | inl z ↦ rw z (rw (mask_of-half (suc n)) left)
            | inr z ↦ rw z (rw (mask_of-half (suc n)) right)
          ]))

-- ===== src/Prelude/Exchange.antt =====
-- The exchange of two elements of a list of any type, which the sorts and the heaps have as `swap`.
-- `d` is what a read out of range gives, in statements only.
use mathlib.Core.List.{List, [], ◌∷◌, Perm}
use mathlib.Core.List.Perm
use Prim.Native.Nat.{ℕ, zero, suc, ◌<◌}
use mathlib.Core.Path.{◌≡◌, refl, ◌∙◌}
use native.Mathlib.Omega.{arith}
use interview_questions.Prelude.Tests.{◌==◌, if◌then◌else◌}
use interview_questions.Prelude.Lists.{length, get_or, set, length-set}

module _ {A : Type 0} (d : A) where
  abbrev pub exchanged : List A → ℕ → ℕ → List A
  exchanged a i j = set (set a i (get_or a j d)) j (get_or a i d)

  pub get_or-update :
      (a : List A) (i j : ℕ) (v : A)
      → i < length a
      → get_or (set a i v) j d ≡ (if i == j then v else get_or a j d)
  get_or-update [] i j v h = absurd (omega arith)
  get_or-update (x ∷ a) zero zero v h = refl
  get_or-update (x ∷ a) (suc i) (suc j) v h = ground (arith, get_or-update a i j v)
  get_or-update (x ∷ a) i j v h = ground arith

  -- A write of `v` gives up the old element for `v`.
  pub overwrite-perm :
      (v : A) (k : ℕ) (arr : List A)
      → k < length arr
      → Perm (v ∷ arr) (get_or arr k d ∷ set arr k v)
  overwrite-perm v k [] h = absurd (omega arith)
  overwrite-perm v zero (x ∷ arr) h = Perm.symm (Perm.swap v x arr)
  overwrite-perm v (suc k) (x ∷ arr) h =
      let deeper = overwrite-perm v k arr (omega arith) in
      Perm.trans (Perm.symm (Perm.swap v x arr))
        (Perm.trans (Perm.cons x deeper) (Perm.symm (Perm.swap x (get_or arr k d) (set arr k v))))

  module _ (arr : List A) (m n : ℕ) (m_in : m < length arr) (n_in : n < length arr) where
    -- The first of the two writes.
    half : List A
    half = set arr m (get_or arr n d)

    half-length : n < length half
    unfolding half
    half-length = rw length-set n_in

    pub get_or-exchanged :
        (c : ℕ)
        → get_or (exchanged arr m n) c d
          ≡ (if n == c then get_or arr m d else if m == c then get_or arr n d else get_or arr c d)
    unfolding half
    get_or-exchanged c =
        get_or-update half n c (get_or arr m d) half-length
        ∙ ground (arith, get_or-update arr m c (get_or arr n d) m_in)

    pub exchanged-perm : Perm (exchanged arr m n) arr
    unfolding half
    exchanged-perm =
        let same : get_or half n d ≡ get_or arr n d =
          ground (arith, get_or-update arr m n (get_or arr n d) m_in) in
        let onto = rw same at (overwrite-perm (get_or arr m d) n half half-length) in
        Perm.symm (Perm.cons_inv (Perm.trans (overwrite-perm (get_or arr n d) m arr m_in) onto))

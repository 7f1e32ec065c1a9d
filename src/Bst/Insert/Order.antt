-- ===== src/Bst/Insert/Order.antt =====
-- What an insertion does to the order, the keys and the addresses of a tree.
use mathlib.Core.Bool.{false≢true}
use native.Mathlib.Decide.{dec_lt, ℕ_discrete}
use interview_questions.Prelude.{
  ◌==◌, ltb→lt, lt→ltb, not_ltb→le, le→not_ltb, ne→==, Bool-cases, ◌+◌, ◌≡◌, refl, sym, ap, ◌∙◌,
  inl, inr, true, false, ◌||◌, List, [], ◌∷◌, ◌++◌, arith,
}
use interview_questions.Prelude.Int.{ℤ, pos_part, neg_part, ◌≤ℤ◌, ◌<ℤ◌, ltb_ℤ}
use interview_questions.Bst.Heap.{Ptr}
use interview_questions.Bst.Shape.{
  Tree, leaf, node, has, IsDistinct, keys, All, IsOrdered, not-has-node,
}
use interview_questions.Bst.Insert.{insert, insert_key}

-- All keys of a list are at most `k`.
abbrev AtMost : ℤ → List ℤ → Type 0
AtMost k [] = Unit
AtMost k (x ∷ xs) = (x ≤ℤ k) × AtMost k xs

AtMost-append : (k : ℤ) (xs ys : List ℤ) → AtMost k xs → AtMost k ys → AtMost k (xs ++ ys)
AtMost-append k [] ys p q = q
AtMost-append k (x ∷ xs) ys p q = (p.0, AtMost-append k xs ys p.1 q)

AtMost-keys : (k j : ℤ) (t : Tree) → All (λ i. i <ℤ j) t → j ≤ℤ k → AtMost k (keys t)
AtMost-keys k j leaf below le = tt
AtMost-keys k j (node p i l r) below le =
    AtMost-append k (keys l) (i ∷ keys r) (AtMost-keys k j l below.1 le)
      (omega arith, AtMost-keys k j r below.2 le)

insert_key_before :
    (k j : ℤ) (xs ys : List ℤ) → k <ℤ j → insert_key k (xs ++ j ∷ ys) ≡ insert_key k xs ++ j ∷ ys
unfolding insert_key
insert_key_before k j [] ys lt = ground arith
insert_key_before k j (x ∷ xs) ys lt = ground (arith, insert_key_before k j xs ys lt)

insert_key_behind :
    (k : ℤ) (xs ys : List ℤ) → AtMost k xs → insert_key k (xs ++ ys) ≡ xs ++ insert_key k ys
unfolding insert_key
insert_key_behind k [] ys le = refl
insert_key_behind k (x ∷ xs) ys le = ground (arith, insert_key_behind k xs ys le.1)

pub keys-insert :
    (p : Ptr) (k : ℤ) (t : Tree) → IsOrdered t → keys (insert p k t) ≡ insert_key k (keys t)
unfolding insert insert_key
keys-insert p k leaf ord = refl
keys-insert p k (node q j l r) ord =
    elim (dec_lt (pos_part k + neg_part j) (pos_part j + neg_part k)) [
      | yes lt ↦ rw (lt→ltb _ _ lt) (
          ap (λ xs. xs ++ j ∷ keys r) (keys-insert p k l ord.2)
          ∙ sym (insert_key_before k j (keys l) (keys r) lt))
      | no ge ↦ rw (le→not_ltb (pos_part k + neg_part j) (pos_part j + neg_part k) (omega arith)) (
          ap (λ xs. keys l ++ j ∷ xs) (keys-insert p k r ord.3)
          ∙ sym (
              insert_key_behind k (keys l) (j ∷ keys r) (AtMost-keys k j l ord.0 (omega arith))
              ∙ ap (λ xs. keys l ++ xs) (skip (omega arith))))
    ]
  where
    skip : j ≤ℤ k → insert_key k (j ∷ keys r) ≡ j ∷ insert_key k (keys r)
    skip le = rw (le→not_ltb _ _ le)

All-insert : (P : ℤ → Type 0) (p : Ptr) (k : ℤ) (t : Tree) → P k → All P t → All P (insert p k t)
unfolding insert
All-insert P p k leaf new old = (new, tt, tt)
All-insert P p k (node q j l r) new old = elim (Bool-cases (ltb_ℤ k j)) [
  | inl lt ↦ rw lt (old.0, All-insert P p k l new old.1, old.2)
  | inr ge ↦ rw ge (old.0, old.1, All-insert P p k r new old.2)
]

pub insert-IsOrdered : (p : Ptr) (k : ℤ) (t : Tree) → IsOrdered t → IsOrdered (insert p k t)
unfolding insert
insert-IsOrdered p k leaf ord = (tt, tt, tt, tt)
insert-IsOrdered p k (node q j l r) ord = elim (Bool-cases (ltb_ℤ k j)) [
  | inl lt ↦ rw lt (
    All-insert (λ i. i <ℤ j) p k l (ltb→lt _ _ lt) ord.0,
    ord.1,
    insert-IsOrdered p k l ord.2,
    ord.3,
  )
  | inr ge ↦ rw ge (
    ord.0,
    All-insert (λ i. j ≤ℤ i) p k r (not_ltb→le _ _ ge) ord.1,
    ord.2,
    insert-IsOrdered p k r ord.3,
  )
]

pub has-insert : (a p : Ptr) (k : ℤ) (t : Tree) → has a (insert p k t) ≡ ((a == p) || has a t)
unfolding insert
has-insert a p k leaf = ground arith
has-insert a p k (node q j l r) = ground (arith, has-insert a p k l, has-insert a p k r)

-- The new address stands on neither side.
module _ (p : Ptr) (k : ℤ) (l r : Tree) (out_l : has p l ≡ false) (out_r : has p r ≡ false)
    (apart : (a : Ptr) → has a l ≡ true → has a r ≡ false) where
  apart_left : (a : Ptr) → has a (insert p k l) ≡ true → has a r ≡ false
  apart_left a i = elim (ℕ_discrete a p) [
    | yes e ↦ rw e out_r
    | no e ↦ apart a (rw (has-insert a p k l, ne→== a p e) at i)
  ]

  apart_right : (a : Ptr) → has a l ≡ true → has a (insert p k r) ≡ false
  apart_right a i = elim (ℕ_discrete a p) [
    | yes e ↦ absurd (false≢true (sym out_l ∙ (rw e at i)))
    | no e ↦ rw (has-insert a p k r, ne→== a p e) (apart a i)
  ]

pub insert-IsDistinct :
    (p : Ptr) (k : ℤ) (t : Tree) → has p t ≡ false → IsDistinct t → IsDistinct (insert p k t)
unfolding insert
insert-IsDistinct p k leaf out d = (refl, refl, (λ a i. refl), tt, tt)
insert-IsDistinct p k (node q j l r) out d =
    let (ne, out_l, out_r) = not-has-node p q j l r out in
    let other : (q == p) ≡ false = ne→== q p (λ e. ne (sym e)) in
    elim (Bool-cases (ltb_ℤ k j)) [
      | inl lt ↦ rw lt (
        has-insert q p k l ∙ rw (other, d.0),
        d.1,
        apart_left p k l r out_l out_r d.2,
        insert-IsDistinct p k l out_l d.3,
        d.4,
      )
      | inr ge ↦ rw ge (
        d.0,
        has-insert q p k r ∙ rw (other, d.1),
        apart_right p k l r out_l out_r d.2,
        d.3,
        insert-IsDistinct p k r out_r d.4,
      )
    ]

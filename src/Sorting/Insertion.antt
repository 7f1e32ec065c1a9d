-- ===== src/Sorting/Insertion.antt =====
-- DS_Algos/sorting/insertionsort/insertionsort.c: `insertionsort`. The `for` counts its rounds, and the
-- `while` goes down with `j`.
use mathlib.Core.List.{Perm}
use mathlib.Core.List.Perm
use native.Mathlib.Decide.{dec_lt}
use interview_questions.Prelude.Exchange.{overwrite-perm}
use interview_questions.Prelude.{
  length, set, length-set, ℕ, zero, suc, ◌+◌, ◌-◌, ◌≤◌, ◌<◌, ◌≡◌, ◌≢◌, true, false, List, ◌∷◌,
  arith,
}
use interview_questions.Prelude.Int.{ℤ, pos, pos_part, neg_part, ◌≤ℤ◌, ◌<ℤ◌, ltb_ℤ}
use interview_questions.Prelude.Run.{Run, done, ◌>>=◌, Returns, Returns-bind, Returns-mono}
use interview_questions.Prelude.Arrays.{
  ◌!◌, IsSorted, load, store, load-ok, store-ok, get_or-set, length-perm,
}

-- The `while`: the array, and the last `j`.
unfoldable pub shift : List ℤ → (j : ℕ) → (v : ℤ) → Run (List ℤ × ℕ)
shift arr zero v = done (arr, 0)
shift arr (suc j) v = do
  x ← load arr j
  elim (ltb_ℤ v x) [ true ↦ store arr (suc j) x >>= λ b. shift b j v | false ↦ done (arr, suc j) ]

-- The `for` from `i` on.
unfoldable pub insert_from : (rounds i : ℕ) → List ℤ → Run (List ℤ)
insert_from zero i arr = done arr
insert_from (suc rounds) i arr = do
  v ← load arr i
  (b, j) ← shift arr i v
  c ← store b j v
  insert_from rounds (i + 1) c

unfoldable pub insertionsort : List ℤ → (arr_sz : ℕ) → Run (List ℤ)
insertionsort arr arr_sz = insert_from (arr_sz - 1) 1 arr

-- With the hole at `j`, up to `i`: in order but for the hole, and all behind it above `v`.
record Hole (i j : ℕ) (v : ℤ) (a : List ℤ) : Type 0 where
  bound : j ≤ i
  in_order : (p q : ℕ) → p ≤ q → q ≤ i → p ≢ j → q ≢ j → a ! p ≤ℤ a ! q
  above : (q : ℕ) → j < q → q ≤ i → v ≤ℤ a ! q

-- What the loop leaves: the hole is where `v` belongs.
record Ready (i : ℕ) (v : ℤ) (start : List ℤ) (r : List ℤ × ℕ) : Type 0 where
  hole : Hole i r.1 v r.0
  below : (p : ℕ) → p < r.1 → r.0 ! p ≤ℤ v
  moved : Perm (set r.0 r.1 v) start

module _ (j : ℕ) (v : ℤ) (a : List ℤ) (fits : suc j < length a) where
  shift_moves : v <ℤ a ! j → shift a (suc j) v ≡ shift (set a (suc j) (a ! j)) j v
  unfolding shift
  shift_moves lt = ground (arith, lt, load-ok a j, store-ok a (suc j) (a ! j))

  shift_stops : a ! j ≤ℤ v → shift a (suc j) v ≡ done (a, suc j)
  unfolding shift
  shift_stops le = ground (arith, le, load-ok a j)

  -- `v` in the next hole, and in this one.
  next-perm : Perm (set (set a (suc j) (a ! j)) j v) (set a (suc j) v)
  next-perm =
      let x = a ! j in
      let y = a ! suc j in
      let s = set a (suc j) x in
      let there : s ! j ≡ x = ground (arith, get_or-set a (suc j) j x fits) in
      let inner : Perm (v ∷ s) (x ∷ set s j v) =
        rw there at (overwrite-perm (pos 0) v j s (rw length-set (omega arith))) in
      Perm.cons_inv (
        Perm.cons_inv (
          Perm.trans (Perm.swap y x (set s j v)) (
            Perm.trans (Perm.cons y (Perm.symm inner)) (
              Perm.trans (Perm.swap v y s) (
                Perm.trans (Perm.cons v (Perm.symm (overwrite-perm (pos 0) x (suc j) a fits))) (
                  Perm.trans (Perm.swap x v a)
                    (Perm.cons x (overwrite-perm (pos 0) v (suc j) a fits))))))))

Hole-next :
    (i j : ℕ) (v : ℤ) (a : List ℤ)
    → i < length a
    → v <ℤ a ! j
    → Hole i (suc j) v a
    → Hole i j v (set a (suc j) (a ! j))
Hole-next i j v a fits lt hole =
    let value = λ (c : ℕ). get_or-set a (suc j) c (a ! j) (omega (arith, hole.bound)) in
    record {
      bound = omega (arith, hole.bound);
      in_order = λ p q le q_in p_ne q_ne. ground (
        arith,
        value p,
        value q,
        hole.in_order p q,
        hole.in_order p j,
        hole.in_order j q,
        hole.bound,
      );
      above = λ q l r. ground (arith, value q, hole.above q, lt);
    }

shift-Ready :
    (j i : ℕ) (v : ℤ) (a : List ℤ)
    → i < length a
    → Hole i j v a
    → Returns (shift a j v) (Ready i v (set a j v))
unfolding shift
shift-Ready zero i v a fits hole = record {
  hole = hole;
  below = λ p lt. absurd (omega arith);
  moved = Perm.refl (set a 0 v);
}
shift-Ready (suc j) i v a fits hole =
    elim (dec_lt (pos_part v + neg_part (a ! j)) (pos_part (a ! j) + neg_part v)) [
      | yes lt ↦ rw (shift_moves j v a (omega (arith, hole.bound)) lt) (
          Returns-mono _ _ (shift (set a (suc j) (a ! j)) j v)
            (shift-Ready j i v (set a (suc j) (a ! j)) (rw length-set fits)
              (Hole-next i j v a fits lt hole))
            (λ r ready. record {
              hole = ready.hole;
              below = ready.below;
              moved = Perm.trans ready.moved (next-perm j v a (omega (arith, hole.bound)));
            }))
      | no ge ↦ rw (shift_stops j v a (omega (arith, hole.bound)) (omega arith)) (record {
        hole = hole;
        below = λ p lt. ground (arith, hole.in_order p j, hole.bound, ge);
        moved = Perm.refl (set a (suc j) v);
      })
    ]

Ready-IsSorted :
    (i j : ℕ) (v : ℤ) (start b : List ℤ)
    → i < length b
    → Ready i v start (b, j)
    → IsSorted (set b j v) (i + 1)
Ready-IsSorted i j v start b fits ready p q le lt =
    let value = λ (c : ℕ). get_or-set b j c v (omega (arith, ready.hole.bound)) in
    ground (arith, value p, value q, ready.below p, ready.hole.above q, ready.hole.in_order p q)

insert_from-sorts :
    (rounds i n : ℕ) (a : List ℤ)
    → i + rounds ≡ n
    → n ≤ length a
    → IsSorted a i
    → Returns (insert_from rounds i a) (λ b. IsSorted b n × Perm b a)
unfolding insert_from
insert_from-sorts zero i n a e fits sorted =
    ((λ p q le lt. sorted p q le (omega arith)), Perm.refl a)
insert_from-sorts (suc rounds) i n a e fits sorted =
    let v = a ! i in
    let same : Perm (set a i v) a =
      Perm.symm (Perm.cons_inv (overwrite-perm (pos 0) v i a (omega arith))) in
    rw (load-ok a i (omega arith)) (
      Returns-bind _ _ (shift a i v) _
        (shift-Ready i i v a (omega arith) (record {
          bound = omega arith;
          in_order = λ p q le q_in p_ne q_ne. sorted p q le (omega arith);
          above = λ q l r. absurd (omega arith);
        }))
        (λ (b, j) ready.
          let size : length b ≡ length a =
            omega (arith, length-perm ready.moved, length-perm same, length-set b j v) in
          rw (store-ok b j v (omega (arith, size, ready.hole.bound))) (
            Returns-mono _ _ (insert_from rounds (i + 1) (set b j v))
              (insert_from-sorts rounds (i + 1) n (set b j v) (omega arith)
                (rw length-set (omega (arith, size)))
                (Ready-IsSorted i j v (set a i v) b (omega (arith, size)) ready))
              (λ c (sorted', moved). (sorted', Perm.trans moved (Perm.trans ready.moved same))))))

-- On an array of at least `n` elements `insertionsort` returns; the first `n` elements of the result
-- ascend, and the result is a rearrangement of the array.
pub insertionsort-sorts :
    (a : List ℤ) (n : ℕ) → n ≤ length a → Returns (insertionsort a n) (λ b. IsSorted b n × Perm b a)
unfolding insertionsort insert_from
insertionsort-sorts a zero fits = ((λ i j le lt. absurd (omega arith)), Perm.refl a)
insertionsort-sorts a (suc n) fits =
    insert_from-sorts (suc n - 1) 1 (suc n) a (omega arith) fits (λ p q le lt. ground arith)

-- ===== src/Morris/Traversal.antt =====
-- trees_graphs/traversal_without_recursion/solution.c: the traversals end, with the tree as it was.
use mathlib.Core.List.{append_assoc, append-nil}
use mathlib.Core.Path.{fun_ext}
use native.Mathlib.Decide.{ℕ_discrete}
use interview_questions.Prelude.{
  ℕ, suc, ◌+◌, ◌-◌, ◌*◌, ◌≤◌, ◌≡◌, refl, sym, ap, ◌∙◌, ◌≢◌, inl, inr, Option, none, some, List, [],
  ◌∷◌, ◌++◌, arith,
}
use interview_questions.Prelude.Int.{ℤ}
use interview_questions.Prelude.Run.{Run, done, ◌>>=◌}
use interview_questions.Bst.Shape.{Tree, leaf, node, IsDistinct, keys}
use interview_questions.Morris.{
  Heap, write, in_order_step, pre_order_step, while_curr, morris_in_order, morris_pre_order,
}
use interview_questions.Morris.Threads.{
  predecessor-last_of, outside, node_of, IsSegment, last_of, size, write_other, write_same,
  has-last_of, last_cell, thread,
}
use interview_questions.Morris.Visits.{Visits, in_order-Visits, pre_order-Visits}

-- The rounds of the outer loop.
abbrev rounds : Tree → ℕ
rounds leaf = 0
rounds (node a key leaf r) = suc (rounds r)
rounds (node a key (node b j m n) r) = suc (rounds (node b j m n) + suc (rounds r))

rounds-le : (t : Tree) → rounds t ≤ 2 * size t
rounds-le leaf = omega arith
rounds-le (node a key leaf r) = omega (arith, rounds-le r)
rounds-le (node a key (node b j m n) r) = omega (arith, rounds-le r, rounds-le (node b j m n))

module _ (first second : ℤ → List ℤ) where
  abbrev listing : Tree → List ℤ
  listing leaf = []
  listing (node a key leaf r) = key ∷ listing r
  listing (node a key (node b j m n) r) =
      first key ++ listing (node b j m n) ++ second key ++ listing r

abbrev pub pre_keys : Tree → List ℤ
pre_keys leaf = []
pre_keys (node a key l r) = key ∷ pre_keys l ++ pre_keys r

listing-keys : (t : Tree) → listing (λ k. []) (λ k. k ∷ []) t ≡ keys t
listing-keys leaf = refl
listing-keys (node a key leaf r) = ap (λ x. key ∷ x) (listing-keys r)
listing-keys (node a key (node b j m n) r) =
    rw (listing-keys (node b j m n), listing-keys r)
      (append_assoc (keys (node b j m n)) (key ∷ []) (keys r))

listing-pre_keys : (t : Tree) → listing (λ k. k ∷ []) (λ k. []) t ≡ pre_keys t
listing-pre_keys leaf = refl
listing-pre_keys (node a key leaf r) = ap (λ x. key ∷ x) (listing-pre_keys r)
listing-pre_keys (node a key (node b j m n) r) =
    rw (listing-pre_keys (node b j m n), listing-pre_keys r)
      (ap (λ x. key ∷ (x ++ pre_keys r)) (append-nil (pre_keys (node b j m n))))

-- The cell that was changed is as before.
restored :
    (h : Heap) (p : ℕ) (key : ℤ) (q x : Option ℕ)
    → h p ≡ some (node_of key q none)
    → write (write h p (node_of key q x)) p (node_of key q none) ≡ h
restored h p key q x e = fun_ext λ a. elim (ℕ_discrete a p) [
  | yes here ↦
      ap (write (write h p (node_of key q x)) p (node_of key q none)) here
      ∙ write_same (write h p (node_of key q x)) p (node_of key q none)
      ∙ sym e
      ∙ ap h (sym here)
  | no other ↦
      write_other (write h p (node_of key q x)) p a (node_of key q none) other
      ∙ write_other h p a (node_of key q x) other
]

regroup : (u v w x y : List ℤ) → ((((u ++ v) ++ w) ++ x) ++ y) ≡ (u ++ (((v ++ w) ++ x) ++ y))
regroup u v w x y =
    ap (λ z. (z ++ x) ++ y) (append_assoc u v w)
    ∙ ap (λ z. z ++ y) (append_assoc u (v ++ w) x)
    ∙ append_assoc u ((v ++ w) ++ x) y

module _ (fuel : ℕ) (step : Heap → ℕ → Run (Heap × Option ℕ × List ℤ)) (first second : ℤ → List ℤ)
    (visits : Visits fuel step first second) where
  round :
      (n : ℕ) (h g : Heap) (a : ℕ) (curr : Option ℕ) (printed out : List ℤ)
      → step h a ≡ done (g, curr, out)
      → while_curr step (suc n) h (some a) printed ≡ while_curr step n g curr (printed ++ out)
  unfolding while_curr
  round n h g a curr printed out e =
      ap (λ r. r >>= λ (g, curr, out). while_curr step n g curr (printed ++ out)) e

  at_fuel :
      (m n : ℕ) (h : Heap) (curr : Option ℕ) (printed : List ℤ)
      → m ≡ n
      → while_curr step m h curr printed ≡ while_curr step n h curr printed
  at_fuel m n h curr printed e = ap (λ x. while_curr step x h curr printed) e

  -- The rounds over a tree, which end where its last right pointer leads.
  walk_tree :
      (t : Tree) (f : ℕ) (h : Heap) (p k : Option ℕ) (printed : List ℤ)
      → IsSegment h t p k
      → IsDistinct t
      → size t ≤ fuel
      → while_curr step (rounds t + f) h p printed
        ≡ while_curr step f h k (printed ++ listing first second t)
  walk_tree leaf f h p k printed s distinct le =
      at_fuel (0 + f) f h p printed (omega arith)
      ∙ ap (λ x. while_curr step f h x printed) s
      ∙ ap (while_curr step f h k) (sym (append-nil printed))
  walk_tree (node a key leaf r) f h p k printed (at, pl, pr, e, sl, sr) distinct le =
      ap (λ x. while_curr step (suc (rounds r) + f) h x printed) at
      ∙ at_fuel (suc (rounds r) + f) (suc (rounds r + f)) h (some a) printed (omega arith)
      ∙ round (rounds r + f) h h a pr printed (key ∷ [])
          (visits.without_left h a key pr (e ∙ ap (λ x. some (node_of key x pr)) sl))
      ∙ walk_tree r f h pr k (printed ++ key ∷ []) sr distinct.4 (omega (arith, le))
      ∙ ap (while_curr step f h k) (append_assoc printed (key ∷ []) (listing first second r))
  walk_tree (node a key (node b j m n) r) f h p k printed (at, pl, pr, e, sl, sr) distinct le =
      (let (i, q, last) = last_cell h b j m n pl none sl in
        let l : Tree = node b j m n in
        let end : ℕ = last_of b n in
        let g : Heap = write h end (node_of i q (some a)) in
        let here : h a ≡ some (node_of key (some b) pr) =
          e ∙ ap (λ x. some (node_of key x pr)) sl.0 in
        let other : a ≢ end = λ same. outside a end l distinct.0 (has-last_of b j m n) (sym same) in
        let here' : g a ≡ some (node_of key (some b) pr) =
          write_other h end a (node_of i q (some a)) other ∙ here in
        let out : List ℤ = ((printed ++ first key) ++ listing first second l) ++ second key in
        let more : ℕ = suc (rounds r) + f in
        at_fuel (suc (rounds l + suc (rounds r)) + f) (suc (rounds l + more)) h p printed
          (omega arith)
        ∙ ap (λ x. while_curr step (suc (rounds l + more)) h x printed) at
        ∙ round (rounds l + more) h g a (some b) printed (first key) (
            visits.down h a b end key i pr q here
              (predecessor-last_of fuel h a b j m n pl none sl distinct.0 (inl refl)
                (omega (arith, le)))
              last other)
        ∙ ap (λ x. while_curr step (rounds l + more) g x (printed ++ first key)) (sym sl.0)
        ∙ walk_tree (node b j m n) more g pl (some a) (printed ++ first key)
            (thread h b j m n pl none (some a) i q sl distinct.3 last) distinct.3
            (omega (arith, le))
        ∙ at_fuel more (suc (rounds r + f)) g (some a) _ (omega arith)
        ∙ round (rounds r + f) g (write g end (node_of i q none)) a pr _ (second key) (
            visits.back g a b end a key i pr q here'
              (predecessor-last_of fuel g a b j m n pl (some a)
                (thread h b j m n pl none (some a) i q sl distinct.3 last) distinct.0 (inr refl)
                (omega (arith, le)))
              (write_same h end (node_of i q (some a))) other)
        ∙ ap (λ x. while_curr step (rounds r + f) x pr out) (restored h end i q (some a) last)
        ∙ walk_tree r f h pr k _ sr distinct.4 (omega (arith, le))
        ∙ ap (while_curr step f h k) (
            regroup printed (first key) (listing first second l) (second key)
              (listing first second r)))

  whole :
      (t : Tree) (h : Heap) (root : Option ℕ)
      → IsSegment h t root none
      → IsDistinct t
      → size t ≤ fuel
      → while_curr step (2 * fuel + 1) h root [] ≡ done (h, listing first second t)
  unfolding while_curr
  whole t h root s distinct le =
      at_fuel (2 * fuel + 1) (rounds t + suc (2 * fuel - rounds t)) h root []
        (omega (arith, rounds-le t, le))
      ∙ walk_tree t (suc (2 * fuel - rounds t)) h root none [] s distinct le

-- Where the heap holds a tree at `root`, with each node at an address of its own, both traversals end, with
-- as much fuel as the tree has nodes: one prints the keys in order, the other prints each key before
-- those below it, those to the left first. The heap is then as before, so that each pointer that was
-- set on the way is back.
pub morris-keys :
    (fuel : ℕ) (h : Heap) (root : Option ℕ) (t : Tree)
    → IsSegment h t root none
    → IsDistinct t
    → size t ≤ fuel
    → (morris_in_order fuel h root ≡ done (h, keys t))
      × (morris_pre_order fuel h root ≡ done (h, pre_keys t))
unfolding morris_in_order morris_pre_order
morris-keys fuel h root t s distinct le = (
  whole fuel (in_order_step fuel) _ _ (in_order-Visits fuel) t h root s distinct le
      ∙ ap (λ x. done (h, x)) (listing-keys t),
  whole fuel (pre_order_step fuel) _ _ (pre_order-Visits fuel) t h root s distinct le
      ∙ ap (λ x. done (h, x)) (listing-pre_keys t),
)

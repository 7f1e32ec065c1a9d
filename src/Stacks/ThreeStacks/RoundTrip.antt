-- ===== src/Stacks/ThreeStacks/RoundTrip.antt =====
-- stacks_queues/array_as_3stacks/solution.c: a `pop` after a `push`.
use interview_questions.Prelude.{
  lt→ltb, length, get_elem?, set, length-set, get_elem?-set_ne, some_inj, ℕ, zero, suc, ◌<◌, ◌≡◌,
  refl, sym, ap, ◌∙◌, ◌≢◌, Option, some, List, [], ◌∷◌, arith,
}
use interview_questions.Prelude.Int.{ℤ}
use interview_questions.Prelude.Run.{Run, done, ◌>>=◌}
use interview_questions.Stacks.ThreeStacks.{
  StackNode, Stacks, set_top, set_below, set_value, push_internal, pop_internal, push, pop,
}

module _ {A : Type 0} where
  get_elem?-set :
      (xs : List A) (i : ℕ) (v w : A) → get_elem? xs i ≡ some w → get_elem? (set xs i v) i ≡ some v
  get_elem?-set [] i v w h = absurd (ground (arith, h))
  get_elem?-set (x ∷ xs) zero v w h = refl
  get_elem?-set (x ∷ xs) (suc i) v w h = get_elem?-set xs i v w h

  set-set : (xs : List A) (i : ℕ) (v w : A) → set (set xs i v) i w ≡ set xs i w
  set-set [] i v w = refl
  set-set (x ∷ xs) zero v w = refl
  set-set (x ∷ xs) (suc i) v w = ap (λ r. x ∷ r) (set-set xs i v w)

  set-get : (xs : List A) (i : ℕ) (v : A) → get_elem? xs i ≡ some v → set xs i v ≡ xs
  set-get [] i v h = refl
  set-get (x ∷ xs) zero v h = ap (λ r. r ∷ xs) (sym (some_inj h))
  set-get (x ∷ xs) (suc i) v h = ap (λ r. x ∷ r) (set-get xs i v h)

  get_elem?-bound : (xs : List A) (i : ℕ) (v : A) → get_elem? xs i ≡ some v → i < length xs
  get_elem?-bound [] i v h = absurd (ground (arith, h))
  get_elem?-bound (x ∷ xs) zero v h = omega arith
  get_elem?-bound (x ∷ xs) (suc i) v h = omega (arith, get_elem?-bound xs i v h)

-- `push` where a node is free.
module _ (s : Stacks) (k n : ℕ) (top_k : Option ℕ) (cell : StackNode) (v : ℤ) (stack_no : k ≢ 3)
    (top_is : get_elem? s.top k ≡ some top_k) (free_is : get_elem? s.top 3 ≡ some (some n))
    (cell_is : get_elem? s.stacks_array n ≡ some cell) where
  after_push : Stacks
  after_push = record {
    stacks_array = set s.stacks_array n (record { value = v; below = top_k });
    top = set (set s.top 3 cell.below) k (some n);
  }

  push_lem : push s k v ≡ done after_push
  unfolding push pop_internal push_internal set_top set_value set_below after_push
  push_lem = rw free_is (
      rw cell_is (
        rw (lt→ltb 3 (length s.top) (get_elem?-bound s.top 3 (some n) free_is)) (
          rw cell_is (
            rw
              (get_elem?-set s.stacks_array n (record { value = v; below = cell.below }) cell
                cell_is)
              (rw (get_elem?-set_ne s.top 3 k cell.below (λ e. stack_no (sym e))) (
                rw top_is (
                  rw
                    (set-set s.stacks_array n (record { value = v; below = cell.below })
                      (record { value = v; below = top_k }))
                    (rw (length-set s.top 3 cell.below) (
                      rw (lt→ltb k (length s.top) (get_elem?-bound s.top k top_k top_is))
                        refl)))))))))

-- `pop` where the stack has a node.
module _ (t : Stacks) (k n : ℕ) (free : Option ℕ) (cell : StackNode)
    (top_is : get_elem? t.top k ≡ some (some n)) (cell_is : get_elem? t.stacks_array n ≡ some cell)
    (free_is : get_elem? (set t.top k cell.below) 3 ≡ some free) where
  after_pop : Stacks
  after_pop = record {
    stacks_array = set t.stacks_array n (record { value = cell.value; below = free });
    top = set (set t.top k cell.below) 3 (some n);
  }

  pop_lem : pop t k ≡ done (cell.value, after_pop)
  unfolding pop pop_internal push_internal set_top set_below after_pop
  pop_lem = rw top_is (
      rw cell_is (
        rw (lt→ltb k (length t.top) (get_elem?-bound t.top k (some n) top_is)) (
          rw free_is (
            rw cell_is (
              rw
                (lt→ltb 3 (length (set t.top k cell.below))
                  (get_elem?-bound (set t.top k cell.below) 3 free free_is))
                (rw
                  (get_elem?-set t.stacks_array n (record { value = cell.value; below = free }) cell
                    cell_is)
                  refl))))))

-- Where a node is free, `push` of a value onto a stack and `pop` from it give the value, and leave
-- everything as it was, but for the value in the free node.
pub push-pop :
    (s : Stacks) (k n : ℕ) (top_k : Option ℕ) (cell : StackNode) (v : ℤ)
    → k ≢ 3
    → get_elem? s.top k ≡ some top_k
    → get_elem? s.top 3 ≡ some (some n)
    → get_elem? s.stacks_array n ≡ some cell
    → (push s k v >>= λ t. pop t k)
      ≡ done (
        v,
        record s { stacks_array = set s.stacks_array n (record { value = v; below = cell.below }) },
      )
unfolding after_push after_pop
push-pop s k n top_k cell v stack_no top_is free_is cell_is =
    let t = after_push s k n top_k cell v stack_no top_is free_is cell_is in
    let top_popped =
      get_elem?-set (set s.top 3 cell.below) k (some n) top_k
        (get_elem?-set_ne s.top 3 k cell.below (λ e. stack_no (sym e)) ∙ top_is) in
    rw (push_lem s k n top_k cell v stack_no top_is free_is cell_is) (
      pop_lem t k n cell.below (record { value = v; below = top_k }) top_popped
        (get_elem?-set s.stacks_array n (record { value = v; below = top_k }) cell cell_is)
        (ap (λ l. get_elem? l 3) tops_back ∙ get_elem?-set s.top 3 cell.below (some n) free_is)
      ∙ same_state
          (set-set s.stacks_array n (record { value = v; below = top_k })
            (record { value = v; below = cell.below }))
          (ap (λ l. set l 3 (some n)) tops_back
            ∙ set-set s.top 3 cell.below (some n)
            ∙ set-get s.top 3 (some n) free_is))
  where
    tops_back : set (set (set s.top 3 cell.below) k (some n)) k top_k ≡ set s.top 3 cell.below
    tops_back =
        set-set (set s.top 3 cell.below) k (some n) top_k
        ∙ set-get (set s.top 3 cell.below) k top_k
            (get_elem?-set_ne s.top 3 k cell.below (λ e. stack_no (sym e)) ∙ top_is)

    with_parts : List StackNode → List (Option ℕ) → Stacks
    with_parts a p = record { stacks_array = a; top = p }

    result : Stacks → Run (ℤ × Stacks)
    result r = done (v, r)

    same_state :
        {a b : List StackNode} {p q : List (Option ℕ)}
        → a ≡ b
        → p ≡ q
        → result (with_parts a p) ≡ result (with_parts b q)
    same_state e f = rw e (rw f refl)

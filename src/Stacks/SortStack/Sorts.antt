-- ===== src/Stacks/SortStack/Sorts.antt =====
-- stacks_queues/sort_stack/solution.c: what `sort_stack` does to the elements of the two stacks.
use mathlib.Core.List.{Perm}
use mathlib.Core.List.Perm
use interview_questions.Prelude.{
  if◌then◌else◌, Bool-cases, length, ℕ, zero, suc, ◌+◌, ◌≤◌, ◌<◌, ◌≡◌, refl, ap, ◌∙◌, inl, inr,
  List, [], ◌∷◌, ◌++◌, arith,
}
use interview_questions.Prelude.Int.{ℤ, ◌≤ℤ◌, ltb_ℤ}
use interview_questions.Prelude.Run.{Run, ◌>>=◌, Returns, Returns-bind, Returns-mono}
use interview_questions.Stacks.SortStack.{
  Stack, stack_sz, push, move_all, make_room, move_back, insert_all, sort_stack,
}
use interview_questions.Stacks.SortStack.Moves.{
  Represents, push_lem, pop_lem, is_empty-none, is_empty-some, onto, Both, move_all_lem,
  move_back_lem, split_at, Made, make_room_lem,
}

-- An element among elements that descend.
abbrev insert : ℤ → List ℤ → List ℤ
insert v [] = v ∷ []
insert v (x ∷ xs) = if ltb_ℤ v x then x ∷ insert v xs else v ∷ x ∷ xs

abbrev insert_each : List ℤ → List ℤ → List ℤ
insert_each [] xs = xs
insert_each (y ∷ ys) xs = insert_each ys (insert y xs)

split_at-insert :
    (v : ℤ) (moved xs : List ℤ)
    → onto (split_at v moved xs).0 (v ∷ (split_at v moved xs).1) ≡ onto moved (insert v xs)
split_at-insert v moved [] = refl
split_at-insert v moved (x ∷ xs) =
    let deeper = split_at-insert v (x ∷ moved) xs in
    elim (Bool-cases (ltb_ℤ v x)) [ inl b ↦ rw b deeper | inr b ↦ rw b refl ]

split_at-length :
    (v : ℤ) (moved xs : List ℤ)
    → length (split_at v moved xs).0 + length (split_at v moved xs).1 ≡ length moved + length xs
split_at-length v moved [] = refl
split_at-length v moved (x ∷ xs) =
    let deeper = split_at-length v (x ∷ moved) xs in
    elim (Bool-cases (ltb_ℤ v x)) [ inl b ↦ rw b (omega (arith, deeper)) | inr b ↦ rw b refl ]

length-insert : (v : ℤ) (xs : List ℤ) → length (insert v xs) ≡ suc (length xs)
length-insert v [] = refl
length-insert v (x ∷ xs) = ground (arith, length-insert v xs)

-- The body of the loop after `pop` and `make_room`.
module _ (y : ℤ) (xs ys : List ℤ) (room : length xs + length ys < stack_sz)
    (k : Stack × Stack → Run (Stack × Stack)) (Q : Stack × Stack → Type 0) where
  after_room :
      (parts : List ℤ × List ℤ) (r : ℕ × Stack × Stack)
      → length parts.0 + length parts.1 ≡ length xs
      → Made parts ys r
      → ((q : Stack × Stack) → Both (onto parts.0 (y ∷ parts.1)) ys q → Returns (k q) Q)
      → Returns (push r.1 y >>= λ s2. move_back r.0 s2 r.2 >>= λ q. k q) Q
  unfolding Made
  after_room (moved, kept) (popped, s1, t1) size (e, held, held') next = rw e (
      let (s2, e2, held2) = push_lem s1 kept y held (omega arith) in
      rw e2 (
        Returns-bind (Both (onto moved (y ∷ kept)) ys) Q (move_back (length moved) s2 t1) k
          (move_back_lem moved s2 t1 (y ∷ kept) ys held2 held' (omega arith)) next))

  insert_one :
      (s t : Stack)
      → Represents s xs
      → Represents t ys
      → ((q : Stack × Stack) → Both (insert y xs) ys q → Returns (k q) Q)
      → Returns
          (make_room (suc s.top) 0 y s t >>= λ r.
            push r.1 y >>= λ s2. move_back r.0 s2 r.2 >>= λ q. k q)
          Q
  insert_one s t rep rep' next =
      Returns-bind (Made (split_at y [] xs) ys) Q (make_room (suc s.top) 0 y s t)
        (λ r. push r.1 y >>= λ s2. move_back r.0 s2 r.2 >>= λ q. k q)
        (make_room_lem (suc s.top) y s t [] xs ys rep rep' (omega arith)
          (omega (arith, rep.top_is)))
        (λ r made.
          after_room (split_at y [] xs) r (split_at-length y [] xs ∙ omega arith) made
            (λ q both. next q (rw (split_at-insert y [] xs) at both)))

insert_all_lem :
    (fuel : ℕ) (s t : Stack) (xs ys : List ℤ)
    → Represents s xs
    → Represents t ys
    → length xs + length ys ≤ stack_sz
    → length ys < fuel
    → Returns (insert_all fuel s t) (Both (insert_each ys xs) [])
unfolding insert_all
insert_all_lem zero s t xs ys rep rep' room enough = absurd (omega arith)
insert_all_lem (suc fuel) s t xs [] rep rep' room enough = rw (is_empty-none t rep') (rep, rep')
insert_all_lem (suc fuel) s t xs (y ∷ ys) rep rep' room enough =
    let (t1, e, held) = pop_lem t y ys rep' (omega arith) in
    rw (is_empty-some t y ys rep') (
      rw e (
        insert_one y xs ys (omega arith) (λ q. insert_all fuel q.0 q.1) _ s t1 rep held
          (λ q both.
            insert_all_lem fuel q.0 q.1 (insert y xs) ys both.0 both.1
              (omega (arith, length-insert y xs)) (omega arith))))

-- The elements descend from the top.
abbrev pub AllAtMost : ℤ → List ℤ → Type 0
AllAtMost v [] = Unit {0}
AllAtMost v (x ∷ xs) = (x ≤ℤ v) × AllAtMost v xs

abbrev pub IsDescending : List ℤ → Type 0
IsDescending [] = Unit {0}
IsDescending (x ∷ xs) = AllAtMost x xs × IsDescending xs

AllAtMost-mono : (v w : ℤ) (xs : List ℤ) → v ≤ℤ w → AllAtMost v xs → AllAtMost w xs
AllAtMost-mono v w [] le h = tt
AllAtMost-mono v w (x ∷ xs) le h = (omega (arith, h.0), AllAtMost-mono v w xs le h.1)

AllAtMost-insert : (v w : ℤ) (xs : List ℤ) → v ≤ℤ w → AllAtMost w xs → AllAtMost w (insert v xs)
AllAtMost-insert v w [] le h = (le, tt)
AllAtMost-insert v w (x ∷ xs) le h =
    let deeper = AllAtMost-insert v w xs le h.1 in
    elim (Bool-cases (ltb_ℤ v x)) [ inl b ↦ rw b (h.0, deeper) | inr b ↦ rw b (le, h) ]

insert-IsDescending : (v : ℤ) (xs : List ℤ) → IsDescending xs → IsDescending (insert v xs)
insert-IsDescending v [] h = (tt, tt)
insert-IsDescending v (x ∷ xs) h =
    let deeper = insert-IsDescending v xs h.1 in
    elim (Bool-cases (ltb_ℤ v x)) [
      | inl b ↦ rw b (AllAtMost-insert v x xs (ground (arith, b)) h.0, deeper)
      | inr b ↦ rw b ((ground (arith, b), AllAtMost-mono x v xs (ground (arith, b)) h.0), h)
    ]

insert_each-IsDescending : (ys xs : List ℤ) → IsDescending xs → IsDescending (insert_each ys xs)
insert_each-IsDescending [] xs h = h
insert_each-IsDescending (y ∷ ys) xs h =
    insert_each-IsDescending ys (insert y xs) (insert-IsDescending y xs h)

insert-perm : (v : ℤ) (xs : List ℤ) → Perm (insert v xs) (v ∷ xs)
insert-perm v [] = Perm.refl (v ∷ [])
insert-perm v (x ∷ xs) =
    let deeper = insert-perm v xs in
    elim (Bool-cases (ltb_ℤ v x)) [
      | inl b ↦ rw b (Perm.trans (Perm.cons x deeper) (Perm.swap v x xs))
      | inr b ↦ rw b (Perm.refl (v ∷ x ∷ xs))
    ]

onto-perm : (ys a b : List ℤ) → Perm a b → Perm (onto ys a) (onto ys b)
onto-perm [] a b p = p
onto-perm (y ∷ ys) a b p = onto-perm ys (y ∷ a) (y ∷ b) (Perm.cons y p)

insert_each-perm : (ys xs : List ℤ) → Perm (insert_each ys xs) (onto ys xs)
insert_each-perm [] xs = Perm.refl xs
insert_each-perm (y ∷ ys) xs =
    Perm.trans (insert_each-perm ys (insert y xs))
      (onto-perm ys (insert y xs) (y ∷ xs) (insert-perm y xs))

onto-onto : (xs ys zs : List ℤ) → onto (onto xs ys) zs ≡ onto ys (xs ++ zs)
onto-onto [] ys zs = refl
onto-onto (x ∷ xs) ys zs = onto-onto xs (x ∷ ys) zs

append_nil : (xs : List ℤ) → xs ++ [] ≡ xs
append_nil [] = refl
append_nil (x ∷ xs) = ap (λ r. x ∷ r) (append_nil xs)

length-onto : (xs ys : List ℤ) → length (onto xs ys) ≡ length xs + length ys
length-onto [] ys = omega arith
length-onto (x ∷ xs) ys = omega (arith, length-onto xs (x ∷ ys))

-- On a stack of at most 256 elements and an empty second stack, `sort_stack` returns; it leaves the
-- second stack empty, and on the first a rearrangement of its elements that descends from the top.
pub sort_stack-sorts :
    (stack aux : Stack) (xs : List ℤ)
    → Represents stack xs
    → Represents aux []
    → length xs ≤ stack_sz
    → Returns
        (sort_stack stack aux)
        (λ r. (zs : List ℤ) × Represents r.0 zs × Represents r.1 [] × IsDescending zs × Perm zs xs)
unfolding sort_stack
sort_stack-sorts stack aux xs rep rep' room =
    let moved = onto xs [] in
    let same = onto-onto xs [] [] ∙ append_nil xs in
    Returns-bind (Both [] (onto xs [])) _ (move_all (suc stack.top) stack aux) _
      (move_all_lem (suc stack.top) stack aux xs [] rep rep' (omega arith)
        (omega (arith, rep.top_is)))
      (λ r both.
        Returns-mono (Both (insert_each (onto xs []) []) []) _ (insert_all (suc r.1.top) r.0 r.1)
          (insert_all_lem (suc r.1.top) r.0 r.1 [] (onto xs []) both.0 both.1
            (omega (arith, length-onto xs [])) (omega (arith, both.1.top_is)))
          (λ q ends. (
            insert_each (onto xs []) [],
            ends.0,
            ends.1,
            insert_each-IsDescending (onto xs []) [] tt,
            rw same at (insert_each-perm (onto xs []) []),
          )))

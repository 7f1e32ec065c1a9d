-- ===== src/Stacks/SortStack/Moves.antt =====
-- stacks_queues/sort_stack/solution.c: what the loops of `sort_stack` move.
use interview_questions.Prelude.{
  ◌==◌, if◌then◌else◌, lt→ltb, Bool-cases, length, set, length-append, length-set, ℕ, zero, suc,
  ◌+◌, ◌-◌, ◌≤◌, ◌<◌, ◌≡◌, refl, ap, ◌∙◌, inl, inr, true, false, List, [], ◌∷◌, ◌++◌, arith,
}
use interview_questions.Prelude.Int.{ℤ, ltb_ℤ}
use interview_questions.Prelude.Run.{done, Returns}
use interview_questions.Prelude.Arrays.{◌!◌, load-ok, store-ok}
use interview_questions.Stacks.{Stacked, Stacked-push}
use interview_questions.Stacks.SortStack.{
  Stack, stack_sz, push, pop, peek, is_empty, move, move_all, make_room, move_back,
}

-- The stack holds the elements of the list, the top first.
pub record Represents (s : Stack) (xs : List ℤ) : Type 0 where
  pub size : length s.values ≡ stack_sz
  pub top_is : s.top ≡ length xs
  pub held : Stacked s.values xs

pub push_lem :
    (s : Stack) (xs : List ℤ) (v : ℤ)
    → Represents s xs
    → length xs < stack_sz
    → (s' : Stack) × (push s v ≡ done s') × Represents s' (v ∷ xs)
unfolding push
push_lem s xs v rep room = (
  record { values = set s.values s.top v; top = s.top + 1 },
  rw (lt→ltb s.top stack_sz (omega (arith, rep.top_is)))
      (rw (store-ok s.values s.top v (omega (arith, rep.top_is, rep.size))) refl),
  record {
    size = length-set s.values s.top v ∙ rep.size;
    top_is = omega (arith, rep.top_is);
    held =
        Stacked-push s.values xs s.top v rep.top_is (omega (arith, rep.size, rep.top_is)) rep.held;
  },
)

peek_lem :
    (s : Stack) (x : ℤ) (xs : List ℤ)
    → Represents s (x ∷ xs)
    → length xs < stack_sz
    → peek s ≡ done x
unfolding peek
peek_lem s x xs rep room =
    let last : s.top - 1 ≡ length xs = omega (arith, rep.top_is) in
    rw (lt→ltb 0 s.top (omega (arith, rep.top_is))) (
      rw (load-ok s.values (s.top - 1) (omega (arith, rep.size)))
        (ap done (ap (λ i. s.values ! i) last ∙ rep.held.0)))

pub pop_lem :
    (s : Stack) (x : ℤ) (xs : List ℤ)
    → Represents s (x ∷ xs)
    → length xs < stack_sz
    → (s' : Stack) × (pop s ≡ done (x, s')) × Represents s' xs
unfolding pop
pop_lem s x xs rep room =
    let last : s.top - 1 ≡ length xs = omega (arith, rep.top_is) in
    (
      record { values = s.values; top = s.top - 1 },
      rw (lt→ltb 0 s.top (omega (arith, rep.top_is))) (
          rw (load-ok s.values (s.top - 1) (omega (arith, rep.size))) (
            ap (λ v. done (v, record { values = s.values; top = s.top - 1 }))
              (ap (λ i. s.values ! i) last ∙ rep.held.0))),
      record { size = rep.size; top_is = last; held = rep.held.1 },
    )

move_lem :
    (s t : Stack) (x : ℤ) (xs ys : List ℤ)
    → Represents s (x ∷ xs)
    → Represents t ys
    → length xs + length ys < stack_sz
    → (s' t' : Stack) × (move s t ≡ done (s', t')) × Represents s' xs × Represents t' (x ∷ ys)
unfolding move
move_lem s t x xs ys rep rep' room =
    let (s', e, held) = pop_lem s x xs rep (omega arith) in
    let (t', e', held') = push_lem t ys x rep' (omega arith) in
    (s', t', rw e (rw e' refl), held, held')

pub is_empty-none : (s : Stack) → Represents s [] → is_empty s ≡ true
unfolding is_empty
is_empty-none s rep = ap (λ n. n == 0) rep.top_is

pub is_empty-some : (s : Stack) (x : ℤ) (xs : List ℤ) → Represents s (x ∷ xs) → is_empty s ≡ false
unfolding is_empty
is_empty-some s x xs rep = ground (arith, rep.top_is)

-- The elements of a list put on another one by one.
abbrev pub onto : List ℤ → List ℤ → List ℤ
onto [] ys = ys
onto (x ∷ xs) ys = onto xs (x ∷ ys)

-- Both stacks hold lists.
abbrev pub Both : List ℤ → List ℤ → Stack × Stack → Type 0
Both xs ys (s, t) = Represents s xs × Represents t ys

pub move_all_lem :
    (fuel : ℕ) (s t : Stack) (xs ys : List ℤ)
    → Represents s xs
    → Represents t ys
    → length xs + length ys ≤ stack_sz
    → length xs < fuel
    → Returns (move_all fuel s t) (Both [] (onto xs ys))
unfolding move_all
move_all_lem zero s t xs ys rep rep' room enough = absurd (omega arith)
move_all_lem (suc fuel) s t [] ys rep rep' room enough = rw (is_empty-none s rep) (rep, rep')
move_all_lem (suc fuel) s t (x ∷ xs) ys rep rep' room enough =
    let (s', t', e, held, held') = move_lem s t x xs ys rep rep' (omega arith) in
    rw (is_empty-some s x xs rep)
      (rw e (move_all_lem fuel s' t' xs (x ∷ ys) held held' (omega arith) (omega arith)))

pub move_back_lem :
    (zs : List ℤ) (s t : Stack) (xs ys : List ℤ)
    → Represents s xs
    → Represents t (zs ++ ys)
    → length xs + length zs + length ys ≤ stack_sz
    → Returns (move_back (length zs) s t) (Both (onto zs xs) ys)
unfolding move_back
move_back_lem [] s t xs ys rep rep' room = (rep, rep')
move_back_lem (z ∷ zs) s t xs ys rep rep' room =
    let (t', s', e, held', held) =
      move_lem t s z (zs ++ ys) xs rep' rep (omega (arith, length-append zs ys)) in
    rw e (move_back_lem zs s' t' (z ∷ xs) ys held held' (omega arith))

-- What `make_room` moves, the last one first, onto `moved`, and what it leaves.
abbrev pub split_at : ℤ → List ℤ → List ℤ → List ℤ × List ℤ
split_at v moved [] = (moved, [])
split_at v moved (x ∷ xs) = if ltb_ℤ v x then split_at v (x ∷ moved) xs else (moved, x ∷ xs)

unfoldable pub Made : List ℤ × List ℤ → List ℤ → ℕ × Stack × Stack → Type 0
Made (moved, kept) ys (popped, s, t) =
    (popped ≡ length moved) × Represents s kept × Represents t (moved ++ ys)

pub make_room_lem :
    (fuel : ℕ) (v : ℤ) (s t : Stack) (moved xs ys : List ℤ)
    → Represents s xs
    → Represents t (moved ++ ys)
    → length xs + length moved + length ys ≤ stack_sz
    → length xs < fuel
    → Returns (make_room fuel (length moved) v s t) (Made (split_at v moved xs) ys)
unfolding make_room Made
make_room_lem zero v s t moved xs ys rep rep' room enough = absurd (omega arith)
make_room_lem (suc fuel) v s t moved [] ys rep rep' room enough =
    rw (is_empty-none s rep) (refl, rep, rep')
make_room_lem (suc fuel) v s t moved (x ∷ xs) ys rep rep' room enough =
    let (s', t', e, held, held') =
      move_lem s t x xs (moved ++ ys) rep rep' (omega (arith, length-append moved ys)) in
    let rest =
      make_room_lem fuel v s' t' (x ∷ moved) xs ys held held' (omega arith) (omega arith) in
    rw (is_empty-some s x xs rep) (
      rw (peek_lem s x xs rep (omega arith)) (elim (Bool-cases (ltb_ℤ v x)) [
        | inl b ↦ rw b (rw e (rw (add_1 (length moved)) rest))
        | inr b ↦ rw b (refl, rep, rep')
      ]))
  where
    add_1 : (n : ℕ) → n + 1 ≡ suc n
    add_1 n = omega arith

-- ===== src/Stacks/MinStack/Refines.antt =====
-- stacks_queues/stack_with_min/solution.c against a list whose minimum is searched for.
use interview_questions.Prelude.Arrays.{◌!◌, load-ok, store-ok}
use native.Mathlib.Decide.{dec_lt}
use interview_questions.Prelude.{
  ltb, lt→ltb, le→not_ltb, Bool-cases, length, length-set, suc, ◌-◌, ◌≤◌, ◌<◌, ◌≡◌, refl, ◌∙◌, ◌↔◌,
  inl, inr, some, List, [], ◌∷◌, ◌++◌, arith,
}
use interview_questions.Prelude.Int.{ℤ, leb_ℤ}
use interview_questions.Prelude.Run.{Run, done, fault, ◌>>=◌, ◌>>◌, assert, Returns, Returns→done}
use interview_questions.Stacks.{Stacked, Stacked-push}
use interview_questions.Stacks.MinStack.{
  max_stack_sz, StackWithMin, new_stack, is_new_min, push, leaves_min, pop, min, Command,
  push_command, pop_command, min_command, other, Reply, pushed, popped, minimum, command_loop, main,
}
use interview_questions.Stacks.MinStack.Minima.{
  smallest, is_kept, enter, mins_of, length-mins_of, mins_of-smallest, mins_of-empty,
  Stacked-entered,
}

-- What the commands print on a list as the stack: a full stack cannot be pushed to, and an empty
-- one neither popped nor asked for its minimum.
abbrev pub list_loop : List Command → List ℤ → List Reply → Run (List Reply)
list_loop [] xs printed = done printed
list_loop (push_command v ∷ lines) xs printed = do
  assert (ltb (length xs) max_stack_sz)
  list_loop lines (v ∷ xs) (printed ++ pushed v ∷ [])
list_loop (pop_command ∷ lines) [] printed = fault
list_loop (pop_command ∷ lines) (x ∷ xs) printed = list_loop lines xs (printed ++ popped x ∷ [])
list_loop (min_command ∷ lines) [] printed = fault
list_loop (min_command ∷ lines) (x ∷ xs) printed =
    list_loop lines (x ∷ xs) (printed ++ minimum (smallest x xs) ∷ [])
list_loop (other ∷ lines) xs printed = done printed

record Represents (s : StackWithMin) (xs : List ℤ) : Type 0 where
  stack_size : length s.stack ≡ max_stack_sz
  mins_size : length s.mins ≡ max_stack_sz
  top_is : s.top ≡ length xs
  held : Stacked s.stack xs
  mins_top_is : s.mins_top ≡ length (mins_of xs)
  mins_held : Stacked s.mins (mins_of xs)

module _ (s : StackWithMin) (x : ℤ) (size : length s.mins ≡ max_stack_sz) where
  is_new_min_lem :
      (ms : List ℤ)
      → length ms < max_stack_sz
      → s.mins_top ≡ length ms
      → Stacked s.mins ms
      → is_new_min s x ≡ done (is_kept x ms)
  unfolding is_new_min
  is_new_min_lem [] fits e held = rw e refl
  is_new_min_lem (m ∷ ms) fits e held = ground (arith, load-ok s.mins (length ms), held.0)

  leaves_min_lem :
      (ms : List ℤ)
      → length ms < max_stack_sz
      → s.mins_top ≡ length (enter x ms)
      → Stacked s.mins (enter x ms)
      → (s.top ≡ 1) ↔ (length ms ≡ 0)
      → leaves_min s x ≡ done (is_kept x ms)
  unfolding leaves_min
  leaves_min_lem [] fits e held one = rw (one.1 refl) refl
  leaves_min_lem (m ∷ ms) fits e held one = elim (Bool-cases (leb_ℤ x m)) [
    | inl k ↦ ground (arith, load-ok s.mins (suc (length ms)), (rw k at held).0)
    | inr k ↦ ground (arith, load-ok s.mins (length ms), (rw k at held).0)
  ]

module _ (s : StackWithMin) (xs : List ℤ) where
  push_lem :
      (v : ℤ)
      → Represents s xs
      → length xs < max_stack_sz
      → Returns (push s v) (λ s'. Represents s' (v ∷ xs))
  unfolding push
  push_lem v rep room =
      let few = length-mins_of xs in
      rw (lt→ltb s.top max_stack_sz (omega (arith, rep.top_is))) (
        rw (store-ok s.stack s.top v (omega (arith, rep.top_is, rep.stack_size))) (
          rw
            (is_new_min_lem s v rep.mins_size (mins_of xs) (omega arith) rep.mins_top_is
              rep.mins_held)
            (elim (Bool-cases (is_kept v (mins_of xs))) [
              | inl e ↦ rw e (
                  rw (store-ok s.mins s.mins_top v (omega (arith, rep.mins_top_is, rep.mins_size)))
                    (record {
                      stack_size = length-set s.stack s.top v ∙ rep.stack_size;
                      mins_size = length-set s.mins s.mins_top v ∙ rep.mins_size;
                      top_is = omega (arith, rep.top_is);
                      held =
                          Stacked-push s.stack xs s.top v rep.top_is
                            (omega (arith, rep.stack_size, rep.top_is)) rep.held;
                      mins_top_is = rw e (omega (arith, rep.mins_top_is));
                      mins_held = rw e (
                          Stacked-push s.mins (mins_of xs) s.mins_top v rep.mins_top_is
                            (omega (arith, rep.mins_size, rep.mins_top_is)) rep.mins_held);
                    }))
              | inr e ↦ rw e (record {
                stack_size = length-set s.stack s.top v ∙ rep.stack_size;
                mins_size = rep.mins_size;
                top_is = omega (arith, rep.top_is);
                held =
                    Stacked-push s.stack xs s.top v rep.top_is
                      (omega (arith, rep.stack_size, rep.top_is)) rep.held;
                mins_top_is = rw e rep.mins_top_is;
                mins_held = rw e rep.mins_held;
              })
            ])))

  pop_lem :
      (x : ℤ)
      → Represents s (x ∷ xs)
      → length xs < max_stack_sz
      → Returns (pop s) (λ r. (r.0 ≡ x) × Represents r.1 xs)
  unfolding pop
  pop_lem x rep room =
      let few = length-mins_of xs in
      let none_left = mins_of-empty xs in
      let top = rep.top_is in
      rw (lt→ltb 0 s.top (omega arith)) (
        rw (load-ok s.stack (s.top - 1) (omega (arith, rep.stack_size))) (
          rw (popped_is rep) (
            rw (lt→ltb 0 s.mins_top (ground (arith, rep.mins_top_is))) (
              rw
                (leaves_min_lem s x rep.mins_size (mins_of xs) (omega arith) rep.mins_top_is
                  rep.mins_held (ground (arith, none_left)))
                (
                  refl,
                  record {
                    stack_size = rep.stack_size;
                    mins_size = rep.mins_size;
                    top_is = omega arith;
                    held = rep.held.1;
                    mins_top_is = ground (arith, rep.mins_top_is);
                    mins_held = Stacked-entered s.mins x (mins_of xs) rep.mins_held;
                  },
                )))))
    where
      popped_is : Represents s (x ∷ xs) → s.stack ! (s.top - 1) ≡ x
      popped_is r = let last : s.top - 1 ≡ length xs = omega (arith, r.top_is) in rw last r.held.0

  min_lem :
      (x : ℤ) → Represents s (x ∷ xs) → length xs < max_stack_sz → min s ≡ done (smallest x xs)
  unfolding min
  min_lem x rep room =
      let (ms, e) = mins_of-smallest x xs in
      let few = length-mins_of (x ∷ xs) in
      first ms (rw e at rep.mins_held).0 (rw e at rep.mins_top_is) (rw e at few) rep.mins_size
    where
      first :
          (ms : List ℤ)
          → s.mins ! length ms ≡ smallest x xs
          → s.mins_top ≡ suc (length ms)
          → suc (length ms) ≤ suc (length xs)
          → length s.mins ≡ max_stack_sz
          → min s ≡ done (smallest x xs)
      first ms held top few size = ground (arith, load-ok s.mins (length ms))

pop-empty : (s : StackWithMin) → s.top ≡ 0 → pop s ≡ fault
unfolding pop
pop-empty s e = rw (le→not_ltb 0 s.top (omega arith)) refl

min-empty : (s : StackWithMin) → s.mins_top ≡ 0 → min s ≡ fault
unfolding min
min-empty s e = rw (le→not_ltb 0 s.mins_top (omega arith)) refl

-- A full stack.
push-full : (s : StackWithMin) (v : ℤ) → max_stack_sz ≤ s.top → push s v ≡ fault
unfolding push
push-full s v full = rw (le→not_ltb s.top max_stack_sz full) refl

command_loop_lem :
    (lines : List Command) (s : StackWithMin) (xs : List ℤ) (printed : List Reply)
    → Represents s xs
    → length xs ≤ max_stack_sz
    → command_loop lines s printed ≡ list_loop lines xs printed
unfolding command_loop
command_loop_lem [] s xs printed rep bound = refl
command_loop_lem (other ∷ lines) s xs printed rep bound = refl
command_loop_lem (push_command v ∷ lines) s xs printed rep bound =
    elim (dec_lt (length xs) max_stack_sz) [
      | yes room ↦
          let (s', e, rep') = Returns→done _ (push s v) (push_lem s xs v rep room) in
          rw e (
            rw (lt→ltb (length xs) max_stack_sz room)
              (command_loop_lem lines s' (v ∷ xs) _ rep' room))
      | no full ↦
          rw (push-full s v (omega (arith, rep.top_is)))
            (rw (le→not_ltb (length xs) max_stack_sz (omega arith)) refl)
    ]
command_loop_lem (pop_command ∷ lines) s [] printed rep bound = rw (pop-empty s rep.top_is) refl
command_loop_lem (pop_command ∷ lines) s (x ∷ xs) printed rep bound =
    let (r, e, left) = Returns→done _ (pop s) (pop_lem s xs x rep (omega arith)) in
    rw e (rw left.0 (command_loop_lem lines r.1 xs _ left.1 (omega arith)))
command_loop_lem (min_command ∷ lines) s [] printed rep bound =
    rw (min-empty s rep.mins_top_is) refl
command_loop_lem (min_command ∷ lines) s (x ∷ xs) printed rep bound =
    rw (min_lem s xs x rep (omega arith)) (command_loop_lem lines s (x ∷ xs) _ rep bound)

-- With whatever memory `malloc` gives for the record, arrays of 1024 elements included, the program
-- prints for every sequence of commands what a list prints as the stack, the minimum searched for
-- in the list, and fails an assertion exactly where a list is full or empty.
pub main_lem :
    (res : StackWithMin) (lines : List Command)
    → length res.stack ≡ max_stack_sz
    → length res.mins ≡ max_stack_sz
    → main (some res) lines ≡ (list_loop lines [] [] >>= λ printed. done (some printed))
unfolding main new_stack
main_lem res lines stack_size mins_size =
    rw (command_loop_lem lines (record res { top = 0; mins_top = 0 }) [] [] initial (omega arith))
      refl
  where
    initial : Represents (record res { top = 0; mins_top = 0 }) []
    initial = record {
      stack_size = stack_size;
      mins_size = mins_size;
      top_is = refl;
      held = tt;
      mins_top_is = refl;
      mins_held = tt;
    }

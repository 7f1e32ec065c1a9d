-- ===== src/Stacks/Rpn/Evaluates.antt =====
-- stacks_queues/rpn_calculator/solution.c: the calculator on an expression written in postfix order.
use interview_questions.Prelude.{
  ◌==◌, if◌then◌else◌, lt→ltb, length, set, length-set, ℕ, zero, suc, ◌+◌, ◌-◌, ◌/◌, ◌≤◌, ◌<◌, max,
  ◌≡◌, refl, ap, ◌∙◌, ◌≢◌, not, List, [], ◌∷◌, arith,
}
use interview_questions.Prelude.Int.{ℤ, pos, negsuc, sub_ℕ, ◌+ℤ◌, ◌-ℤ◌, ◌*ℤ◌, eqb_ℤ}
use interview_questions.Prelude.Run.{as_int, Run, done, fault, no_fuel, ◌>>=◌, ◌>>◌, assert}
use interview_questions.Prelude.Arrays.{◌!◌, load-ok, store-ok}
use interview_questions.Stacks.{Stacked, Stacked-push}
use mathlib.Core.Path.{subst}
use interview_questions.Stacks.Rpn.{
  quotient, Token, number, operator, Stack, stack_sz, push, pop, apply, eval_tokens, eval_expr,
}

-- An arithmetic expression, an operator by the code of its character.
pub data Expr : Type 0 where
  value : ℤ → Expr
  binary : ℕ → Expr → Expr → Expr

-- The tokens of the expression before further tokens.
abbrev pub postfix : Expr → List Token → List Token
postfix (value n) rest = number n ∷ rest
postfix (binary op l r) rest = postfix l (postfix r (operator op ∷ rest))

-- The quotient rounded towards 0, and nothing for a divisor of 0.
abbrev divided : ℤ → ℤ → Run ℤ
divided a (pos zero) = fault
divided (pos a) (pos (suc b)) = as_int (pos (a / suc b))
divided (pos a) (negsuc b) = as_int (sub_ℕ 0 (a / suc b))
divided (negsuc a) (pos (suc b)) = as_int (sub_ℕ 0 (suc a / suc b))
divided (negsuc a) (negsuc b) = as_int (pos (suc a / suc b))

-- The signs, by the codes of their characters.
pub data Sign : Type 0 where
  plus : Sign
  minus : Sign
  times : Sign
  over : Sign
  no_sign : Sign

abbrev sign : ℕ → Sign
sign c =
    if c == 43
    then plus
    else if c == 45
    then minus
    else if c == 42
    then times
    else if c == 47
    then over
    else no_sign

-- The exact result, where it is an `int`.
abbrev operate : Sign → ℤ → ℤ → Run ℤ
operate plus a b = as_int (a +ℤ b)
operate minus a b = as_int (a -ℤ b)
operate times a b = as_int (a *ℤ b)
operate over a b = divided a b
operate no_sign a b = fault

-- The value by recursion on the expression.
abbrev pub value_of : Expr → Run ℤ
value_of (value n) = done n
value_of (binary op l r) = do a ← value_of l; b ← value_of r; operate (sign op) a b

apply-divided : (a b : ℤ) → (assert (not (eqb_ℤ b (pos 0))) >> as_int (quotient a b)) ≡ divided a b
unfolding quotient
apply-divided a (pos zero) = refl
apply-divided (pos a) (pos (suc b)) = ground arith
apply-divided (pos a) (negsuc b) = ground arith
apply-divided (negsuc a) (pos (suc b)) = ground arith
apply-divided (negsuc a) (negsuc b) = ground arith

apply-operate : (op : ℕ) (a b : ℤ) → apply op a b ≡ operate (sign op) a b
unfolding apply
apply-operate op a b = ground (arith, apply-divided a b)

-- The largest number of operands that wait on the stack.
abbrev pub depth : Expr → ℕ
depth (value n) = 1
depth (binary op l r) = max (depth l) (suc (depth r))

record Represents (s : Stack) (xs : List ℤ) : Type 0 where
  size : length s.stack ≡ stack_sz
  pointer : s.stack_pointer ≡ length xs
  held : Stacked s.stack xs

push_lem :
    (s : Stack) (xs : List ℤ) (n : ℤ)
    → Represents s xs
    → length xs < stack_sz
    → (s' : Stack) × (push s n ≡ done s') × Represents s' (n ∷ xs)
unfolding push
push_lem s xs n rep room = (
  record { stack = set s.stack s.stack_pointer n; stack_pointer = s.stack_pointer + 1 },
  rw (lt→ltb s.stack_pointer stack_sz (omega (arith, rep.pointer)))
      (rw (store-ok s.stack s.stack_pointer n (omega (arith, rep.pointer, rep.size))) refl),
  record {
    size = length-set s.stack s.stack_pointer n ∙ rep.size;
    pointer = omega (arith, rep.pointer);
    held =
        Stacked-push s.stack xs s.stack_pointer n rep.pointer (omega (arith, rep.size, rep.pointer))
          rep.held;
  },
)

pop_lem :
    (s : Stack) (x : ℤ) (xs : List ℤ)
    → Represents s (x ∷ xs)
    → length xs < stack_sz
    → (s' : Stack) × (pop s ≡ done (x, s')) × Represents s' xs
unfolding pop
pop_lem s x xs rep room =
    let last : s.stack_pointer - 1 ≡ length xs = omega (arith, rep.pointer) in
    (
      record { stack = s.stack; stack_pointer = s.stack_pointer - 1 },
      rw (lt→ltb 0 s.stack_pointer (omega (arith, rep.pointer))) (
          rw (load-ok s.stack (s.stack_pointer - 1) (omega (arith, rep.size))) (
            ap (λ v. done (v, record { stack = s.stack; stack_pointer = s.stack_pointer - 1 }))
              (ap (λ i. s.stack ! i) last ∙ rep.held.0))),
      record { size = rep.size; pointer = last; held = rep.held.1 },
    )

-- What evaluating an expression does to a run that goes on with `rest`: with a value, it is on the
-- stack; with a fault, the run is a fault.
abbrev Follows : Run ℤ → List ℤ → List Token → Run Stack → Type 0
Follows (done v) xs rest run = (s : Stack) × (run ≡ eval_tokens rest s) × Represents s (v ∷ xs)
Follows fault xs rest run = run ≡ fault
Follows no_fuel xs rest run = ⊥

Follows-bind :
    (r : Run ℤ) (k : ℤ → Run ℤ) (xs ys : List ℤ) (tokens rest : List Token) (run : Run Stack)
    → Follows r xs tokens run
    → ((a : ℤ) (s : Stack) → Represents s (a ∷ xs) → Follows (k a) ys rest (eval_tokens tokens s))
    → Follows (r >>= k) ys rest run
Follows-bind (done v) k xs ys tokens rest run (s, e, rep) next = rw e (next v s rep)
Follows-bind fault k xs ys tokens rest run e next = e
Follows-bind no_fuel k xs ys tokens rest run h next = absurd h

Follows-push :
    (r : Run ℤ) (s : Stack) (xs : List ℤ) (rest : List Token)
    → r ≢ no_fuel
    → Represents s xs
    → length xs < stack_sz
    → Follows r xs rest (r >>= λ n. push s n >>= λ s'. eval_tokens rest s')
Follows-push (done v) s xs rest ends rep room =
    let (s', e, rep') = push_lem s xs v rep room in (s', rw e refl, rep')
Follows-push fault s xs rest ends rep room = refl
Follows-push no_fuel s xs rest ends rep room = absurd (ends refl)

apply-ends : (op : ℕ) (a b : ℤ) → apply op a b ≢ no_fuel
unfolding apply
apply-ends op a b h = ground arith

operator_lem :
    (op : ℕ) (a b : ℤ) (s : Stack) (xs : List ℤ) (rest : List Token)
    → Represents s (b ∷ a ∷ xs)
    → suc (length xs) < stack_sz
    → Follows (operate (sign op) a b) xs rest (eval_tokens (operator op ∷ rest) s)
unfolding eval_tokens
operator_lem op a b s xs rest rep room =
    let (s1, e1, rep1) = pop_lem s b (a ∷ xs) rep room in
    let (s2, e2, rep2) = pop_lem s1 a xs rep1 (omega arith) in
    rw e1 (
      rw e2 (
        subst
          (λ r. Follows r xs rest (apply op a b >>= λ n. push s2 n >>= λ s'. eval_tokens rest s'))
          (apply-operate op a b)
          (Follows-push (apply op a b) s2 xs rest (apply-ends op a b) rep2 (omega arith))))

depth-positive : (e : Expr) → 0 < depth e
depth-positive (value n) = omega arith
depth-positive (binary op l r) = omega (arith, depth-positive l)

postfix_lem :
    (e : Expr) (s : Stack) (xs : List ℤ) (rest : List Token)
    → Represents s xs
    → length xs + depth e ≤ stack_sz
    → Follows (value_of e) xs rest (eval_tokens (postfix e rest) s)
unfolding eval_tokens
postfix_lem (value n) s xs rest rep room =
    let (s', e, rep') = push_lem s xs n rep (omega arith) in (s', rw e refl, rep')
postfix_lem (binary op l r) s xs rest rep room =
    let some_l = depth-positive l in
    let some_r = depth-positive r in
    Follows-bind (value_of l) _ xs xs (postfix r (operator op ∷ rest)) rest _
      (postfix_lem l s xs (postfix r (operator op ∷ rest)) rep (omega arith))
      (λ a s1 rep1.
        Follows-bind (value_of r) _ (a ∷ xs) xs (operator op ∷ rest) rest _
          (postfix_lem r s1 (a ∷ xs) (operator op ∷ rest) rep1 (omega arith))
          (λ b s2 rep2. operator_lem op a b s2 xs rest rep2 (omega arith)))

Follows-pop :
    (r : Run ℤ) (xs : List ℤ) (run : Run Stack)
    → length xs < stack_sz
    → Follows r xs [] run
    → (run >>= λ s. pop s >>= λ p. done p.0) ≡ r
unfolding eval_tokens
Follows-pop (done v) xs run room (s, e, rep) =
    let (s', e', rep') = pop_lem s v xs rep room in rw e (rw e' refl)
Follows-pop fault xs run room e = rw e refl
Follows-pop no_fuel xs run room h = absurd h

-- On the tokens of an expression in postfix order, started with an empty stack of 1024 places and
-- any contents, `eval_expr` gives the value of the expression, and a fault where an operation of the
-- expression overflows, divides by zero or has no operator, provided that no more operands wait at a
-- time than the stack has places.
pub eval_expr_lem :
    (e : Expr) (stack : List ℤ)
    → length stack ≡ stack_sz
    → depth e ≤ stack_sz
    → (eval_expr (postfix e []) (record { stack = stack; stack_pointer = 0 }) >>= λ r. done r.0)
      ≡ value_of e
unfolding eval_expr
eval_expr_lem e stack size enough =
    assoc (eval_tokens (postfix e []) start)
    ∙ Follows-pop (value_of e) [] (eval_tokens (postfix e []) start) (omega arith) (
        postfix_lem e start [] [] (record { size = size; pointer = refl; held = tt }) (omega arith))
  where
    start : Stack
    start = record { stack = stack; stack_pointer = 0 }

    assoc :
        (run : Run Stack)
        → ((run >>= λ s. pop s) >>= λ r. done r.0) ≡ (run >>= λ s. pop s >>= λ p. done p.0)
    assoc (done s) = refl
    assoc fault = refl
    assoc no_fuel = refl

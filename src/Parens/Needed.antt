-- ===== src/Parens/Needed.antt =====
-- recursion_dp/redundant_parens/solution.c: why parentheses with one operator inside can be left out.
use native.Mathlib.Nat.{zero-div}
use interview_questions.Prelude.{
  ℕ, zero, suc, ◌+◌, ◌*◌, ◌/◌, ◌<◌, ◌≡◌, refl, sym, ap, ◌∙◌, ◌≢◌, true, Option, none, some, List,
  [], ◌∷◌, arith,
}
use interview_questions.Prelude.Int.{
  ℤ, pos, negsuc, pos_part, neg_part, ◌+ℤ◌, ◌-ℤ◌, ◌*ℤ◌, eq_of_parts, +ℤ_parts, -ℤ_parts, *ℤ_parts,
}
use interview_questions.Parens.{can_drop, higher_prio}

-- The integer that is `b - a` for the difference `a - b`.
abbrev negated : ℤ → ℤ
negated (pos zero) = pos 0
negated (pos (suc n)) = negsuc n
negated (negsuc n) = pos (suc n)

-- C's division, which rounds towards zero.
abbrev ratio : ℤ → ℤ → ℤ
ratio (pos a) (pos b) = pos (a / b)
ratio (pos a) (negsuc b) = negated (pos (a / suc b))
ratio (negsuc a) (pos b) = negated (pos (suc a / b))
ratio (negsuc a) (negsuc b) = pos (suc a / suc b)

-- The operators + - * / by their numbers.
abbrev pub operate : ℕ → ℤ → ℤ → ℤ
operate zero a b = a +ℤ b
operate (suc zero) a b = a -ℤ b
operate (suc (suc zero)) a b = a *ℤ b
operate (suc (suc (suc op))) a b = ratio a b

-- The value of operands between operators, without parentheses: the sum of the terms, of which the first
-- ones add up to `sum` and the last one is `term` so far. A term behind a - is negated.
abbrev pub evaluate : (sum term : ℤ) → List (ℕ × ℤ) → ℤ
evaluate sum term [] = sum +ℤ term
evaluate sum term ((zero, x) ∷ rest) = evaluate (sum +ℤ term) x rest
evaluate sum term ((suc zero, x) ∷ rest) = evaluate (sum +ℤ term) (negated x) rest
evaluate sum term ((suc (suc zero), x) ∷ rest) = evaluate sum (term *ℤ x) rest
evaluate sum term ((suc (suc (suc op)), x) ∷ rest) = evaluate sum (ratio term x) rest

-- The same, with the operator before the next operand, or at the start of the expression.
abbrev pub evaluate_behind : Option ℕ → (sum term next : ℤ) → List (ℕ × ℤ) → ℤ
evaluate_behind none sum term next rest = evaluate (pos 0) next rest
evaluate_behind (some op) sum term next rest = evaluate sum term ((op, next) ∷ rest)

abbrev pub first_op : List (ℕ × ℤ) → Option ℕ
first_op [] = none
first_op ((op, x) ∷ rest) = some op

abbrev pub IsKnown : Option ℕ → Type 0
IsKnown none = Unit {0}
IsKnown (some op) = op < 4

add_assoc : (a b c : ℤ) → a +ℤ (b +ℤ c) ≡ (a +ℤ b) +ℤ c
add_assoc a b c =
    eq_of_parts (a +ℤ (b +ℤ c)) ((a +ℤ b) +ℤ c)
      (omega (arith, +ℤ_parts a (b +ℤ c), +ℤ_parts b c, +ℤ_parts (a +ℤ b) c, +ℤ_parts a b))

negated_parts : (a : ℤ) → pos_part (negated a) + pos_part a ≡ neg_part (negated a) + neg_part a
negated_parts (pos zero) = refl
negated_parts (pos (suc n)) = omega arith
negated_parts (negsuc n) = omega arith

add-negated : (b c : ℤ) → b -ℤ c ≡ b +ℤ negated c
add-negated b c =
    eq_of_parts (b -ℤ c) (b +ℤ negated c)
      (omega (arith, -ℤ_parts b c, +ℤ_parts b (negated c), negated_parts c))

mul_assoc : (a b c : ℤ) → a *ℤ (b *ℤ c) ≡ (a *ℤ b) *ℤ c
mul_assoc a b c = eq_of_parts (a *ℤ (b *ℤ c)) ((a *ℤ b) *ℤ c) (
    grind (
      arith,
      *ℤ_parts a (b *ℤ c),
      *ℤ_parts (a *ℤ b) c,
      ap (λ z. pos_part a * z) (*ℤ_parts b c),
      ap (λ z. neg_part a * z) (*ℤ_parts b c),
      ap (λ z. z * pos_part c) (*ℤ_parts a b),
      ap (λ z. z * neg_part c) (*ℤ_parts a b),
    ))

negated-mul : (b c : ℤ) → negated (b *ℤ c) ≡ negated b *ℤ c
negated-mul b c = eq_of_parts (negated (b *ℤ c)) (negated b *ℤ c) (
    grind (
      arith,
      *ℤ_parts b c,
      *ℤ_parts (negated b) c,
      negated_parts (b *ℤ c),
      ap (λ z. z * pos_part c) (negated_parts b),
      ap (λ z. z * neg_part c) (negated_parts b),
    ))

negated_twice : (n : ℕ) → negated (negated (pos n)) ≡ pos n
negated_twice zero = refl
negated_twice (suc n) = refl

negated-ratio : (b c : ℤ) → negated (ratio b c) ≡ ratio (negated b) c
negated-ratio (pos zero) (pos c) =
    ap (λ n. negated (pos n)) (zero-div c) ∙ ap pos (sym (zero-div c))
negated-ratio (pos zero) (negsuc c) =
    negated_twice (0 / suc c)
    ∙ ap pos (zero-div (suc c))
    ∙ ap (λ n. negated (pos n)) (sym (zero-div (suc c)))
negated-ratio (pos (suc b)) (pos c) = refl
negated-ratio (pos (suc b)) (negsuc c) = negated_twice (suc b / suc c)
negated-ratio (negsuc b) (pos c) = negated_twice (suc b / c)
negated-ratio (negsuc b) (negsuc c) = refl

-- The next operator is none that binds closer than a + or a -.
abbrev IsLoose : List (ℕ × ℤ) → Type 0
IsLoose [] = Unit {0}
IsLoose ((op, x) ∷ rest) = op < 2

evaluate-split :
    (sum b c : ℤ) (rest : List (ℕ × ℤ))
    → IsLoose rest
    → evaluate sum (b +ℤ c) rest ≡ evaluate (sum +ℤ b) c rest
evaluate-split sum b c [] loose = add_assoc sum b c
evaluate-split sum b c ((zero, x) ∷ rest) loose = ap (λ z. evaluate z x rest) (add_assoc sum b c)
evaluate-split sum b c ((suc zero, x) ∷ rest) loose =
    ap (λ z. evaluate z (negated x) rest) (add_assoc sum b c)
evaluate-split sum b c ((suc (suc op), x) ∷ rest) loose = absurd (omega (arith, loose))

-- An operand that starts a term.
evaluate-starts :
    (i : ℕ) (sum b c : ℤ) (rest : List (ℕ × ℤ))
    → (i < 2 → IsLoose rest)
    → evaluate sum (operate i b c) rest ≡ evaluate sum b ((i, c) ∷ rest)
evaluate-starts zero sum b c rest loose = evaluate-split sum b c rest (loose (omega arith))
evaluate-starts (suc zero) sum b c rest loose =
    ap (λ z. evaluate sum z rest) (add-negated b c)
    ∙ evaluate-split sum b (negated c) rest (loose (omega arith))
evaluate-starts (suc (suc zero)) sum b c rest loose = refl
evaluate-starts (suc (suc (suc i))) sum b c rest loose = refl

can_drop-IsLoose :
    (op_l : Option ℕ) (i : ℕ) (rest : List (ℕ × ℤ))
    → can_drop op_l (first_op rest) i ≡ true
    → i < 2
    → IsLoose rest
unfolding can_drop higher_prio
can_drop-IsLoose op_l i [] h small = tt
can_drop-IsLoose none i ((op, x) ∷ rest) h small = ground (arith, h, small)
can_drop-IsLoose (some op') i ((op, x) ∷ rest) h small = ground (arith, h, small)

-- Behind a *, no + or - inside; behind a -, neither; behind a /, nothing.
can_drop-inside :
    (op_l i : ℕ) (op_r : Option ℕ)
    → can_drop (some op_l) op_r i ≡ true
    → (op_l ≢ 3) × (0 < op_l → op_l < 3 → 1 < i)
unfolding can_drop higher_prio
can_drop-inside op_l i none h =
    (λ e. ground (arith, h, e), λ lt small. ground (arith, h, lt, small))
can_drop-inside op_l i (some op) h =
    (λ e. ground (arith, h, e), λ lt small. ground (arith, h, lt, small))

-- For one operator inside the parentheses and one operator, if any, on each side, other than a / inside
-- behind a *: where the parentheses are found redundant, the whole expression has the same value
-- without them, whatever stands before and behind, with integers as operands and a division that rounds
-- towards 0.
pub can_drop_lem :
    (op_l : Option ℕ) (i : ℕ) (sum term b c : ℤ) (rest : List (ℕ × ℤ))
    → IsKnown op_l
    → ((op_l ≡ some 2) → i ≢ 3)
    → i < 4
    → can_drop op_l (first_op rest) i ≡ true
    → evaluate_behind op_l sum term (operate i b c) rest
      ≡ evaluate_behind op_l sum term b ((i, c) ∷ rest)
can_drop_lem none i sum term b c rest known exact small h =
    evaluate-starts i (pos 0) b c rest (can_drop-IsLoose none i rest h)
can_drop_lem (some zero) i sum term b c rest known exact small h =
    evaluate-starts i (sum +ℤ term) b c rest (can_drop-IsLoose (some 0) i rest h)
can_drop_lem (some (suc zero)) zero sum term b c rest known exact small h =
    absurd (omega (arith, (can_drop-inside 1 0 (first_op rest) h).1 (omega arith) (omega arith)))
can_drop_lem (some (suc zero)) (suc zero) sum term b c rest known exact small h =
    absurd (omega (arith, (can_drop-inside 1 1 (first_op rest) h).1 (omega arith) (omega arith)))
can_drop_lem (some (suc zero)) (suc (suc zero)) sum term b c rest known exact small h =
    ap (λ z. evaluate (sum +ℤ term) z rest) (negated-mul b c)
can_drop_lem (some (suc zero)) (suc (suc (suc i))) sum term b c rest known exact small h =
    ap (λ z. evaluate (sum +ℤ term) z rest) (negated-ratio b c)
can_drop_lem (some (suc (suc zero))) zero sum term b c rest known exact small h =
    absurd (omega (arith, (can_drop-inside 2 0 (first_op rest) h).1 (omega arith) (omega arith)))
can_drop_lem (some (suc (suc zero))) (suc zero) sum term b c rest known exact small h =
    absurd (omega (arith, (can_drop-inside 2 1 (first_op rest) h).1 (omega arith) (omega arith)))
can_drop_lem (some (suc (suc zero))) (suc (suc zero)) sum term b c rest known exact small h =
    ap (λ z. evaluate sum z rest) (mul_assoc term b c)
can_drop_lem (some (suc (suc zero))) (suc (suc (suc i))) sum term b c rest known exact small h =
    absurd (exact refl (omega (arith, small)))
can_drop_lem (some (suc (suc (suc zero)))) i sum term b c rest known exact small h =
    absurd ((can_drop-inside 3 i (first_op rest) h).0 refl)
can_drop_lem (some (suc (suc (suc (suc op))))) i sum term b c rest known exact small h =
    absurd (omega (arith, known))

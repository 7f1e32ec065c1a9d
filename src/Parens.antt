-- ===== src/Parens.antt =====
-- recursion_dp/redundant_parens/solution.c: the evaluator that marks parentheses which can be left
-- out. A string is the list of its characters by their codes, with the terminating NUL read as 0 at
-- its end; `scan_int` is what `sscanf` with "%d%n" reads at the start of a string, the number and the
-- characters read, and is a parameter, since it is not in the program. A result that is no `int` is
-- undefined behaviour.
use interview_questions.Prelude.{
  ltb, leb, ◌==◌, if◌then◌else◌, length, set, drop, replicate, ℕ, zero, suc, ◌+◌, ◌/◌, Bool, true,
  false, ◌&&◌, ◌||◌, not, Option, none, some, List, [], ◌∷◌,
}
use interview_questions.Prelude.Int.{ℤ, pos, pos_part, neg_part, sub_ℕ, ◌+ℤ◌, ◌-ℤ◌, ◌*ℤ◌, eqb_ℤ}
use interview_questions.Prelude.Run.{
  as_int, Run, done, fault, no_fuel, ◌>>=◌, ◌>>◌, assert, present,
}
pub mod Needed

pub record OpsList : Type 0 where
  pub seen : List Bool
  pub res : ℤ

abbrev pub none_seen : List Bool
none_seen = replicate 4 false

-- + - * / are 0, 1, 2, 3; `none` is -1.
unfoldable pub char_to_op : ℕ → Option ℕ
char_to_op c =
    if c == 43
    then some 0
    else if c == 45
    then some 1
    else if c == 42
    then some 2
    else if c == 47
    then some 3
    else none

unfoldable pub higher_prio : ℕ → ℕ → Bool
higher_prio op1 op2 = leb 2 op1 && leb op2 1

unfoldable pub merge_seen : List Bool → List Bool → List Bool
merge_seen (a ∷ dest) (b ∷ other) = (a || b) ∷ merge_seen dest other
merge_seen dest _ = dest

-- `for (i = 0; i < sizeof(ops->seen) && !ops->seen[i]; i++)`.
unfoldable pub first_seen : ℕ → List Bool → ℕ
first_seen i [] = i
first_seen i (b ∷ seen) = if b then i else first_seen (suc i) seen

abbrev pub holds : Option ℕ → (ℕ → Bool) → Bool
holds none test = false
holds (some op) test = test op

-- The last test, on the operators to the left and to the right and the first operator seen.
unfoldable pub can_drop : (op_l op_r : Option ℕ) → ℕ → Bool
can_drop op_l op_r i = not (
    holds op_l (λ op. higher_prio op i)
    || (holds op_r (λ op. higher_prio op i)
        || (holds op_l (λ op. op == 1 && leb i 1) || holds op_l (λ op. op == 3))))

-- The character at an index; past the NUL nothing can be read.
unfoldable pub char_at : List ℕ → ℕ → Run ℕ
char_at [] zero = done 0
char_at [] (suc i) = fault
char_at (c ∷ s) zero = done c
char_at (c ∷ s) (suc i) = char_at s i

unfoldable pub op_before : List ℕ → ℕ → Run (Option ℕ)
op_before expr_str zero = done none
op_before expr_str (suc l) = char_at expr_str l >>= λ c. done (char_to_op c)

unfoldable pub redundant_parens : List ℕ → ℕ → ℕ → OpsList → Run Bool
redundant_parens expr_str l r ops =
    let i = first_seen 0 ops.seen in
    if i == 4 then done true else (do
      c ← char_at expr_str (r + 1)
      op_l ← op_before expr_str l
      done (can_drop op_l (char_to_op c) i))

-- `*cursor` and `ign`.
pub record Cursor : Type 0 where
  pub at : ℕ
  pub ign : List Bool

unfoldable pub ignore : Cursor → ℕ → Run Cursor
ignore p i = if ltb i (length p.ign) then done (record p { ign = set p.ign i true }) else fault

-- C's division rounds towards zero.
unfoldable pub quotient : ℤ → ℤ → ℤ
quotient a b =
    sub_ℕ (pos_part a / pos_part b + neg_part a / neg_part b)
      (pos_part a / neg_part b + neg_part a / pos_part b)

-- The updates of `first_term` by `second_term`.
unfoldable pub combine : ℕ → OpsList → OpsList → Run OpsList
combine op first second =
    let seen = merge_seen first.seen second.seen in
    if op == 43
    then (as_int (first.res +ℤ second.res) >>= λ n.
        done (record { seen = set seen 0 true; res = n }))
    else if op == 45
    then (as_int (first.res -ℤ second.res) >>= λ n.
        done (record { seen = set seen 1 true; res = n }))
    else if op == 42
    then (as_int (first.res *ℤ second.res) >>= λ n.
        done (record { seen = set seen 2 true; res = n }))
    else if eqb_ℤ second.res (pos 0)
    then fault
    else (as_int (quotient first.res second.res) >>= λ n.
        done (record { seen = set seen 3 true; res = n }))

abbrev pub Parser : Type 0
Parser = Cursor → Run (OpsList × Cursor)

module _ (scan_int : List ℕ → Option (ℤ × ℕ)) (expr_str : List ℕ) where
  -- `factor`, with `expr` as a parser.
  unfoldable pub factor_with : Parser → Parser
  factor_with expr p = do
    c ← char_at expr_str p.at
    if c == 40
        then (do
          (expr_res, q) ← expr (record p { at = p.at + 1 })
          close ← char_at expr_str q.at
          assert (close == 41)
          redundant ← redundant_parens expr_str p.at q.at expr_res
          elim redundant [
            | true ↦ ignore q p.at >>= λ q1.
                ignore q1 q.at >>= λ q2. done (expr_res, record q2 { at = q.at + 1 })
            | false ↦ done (record expr_res { seen = none_seen }, record q { at = q.at + 1 })
          ])
        else (do
          (n, read) ← present (scan_int (drop p.at expr_str))
          done (record { seen = none_seen; res = n }, record p { at = p.at + read }))

  -- `expr_r` and `term_r`: while one of the two operators follows, an operand is read. A round moves
  -- the cursor forward, so that the length of the string plus one is enough fuel.
  unfoldable pub operands : (fuel : ℕ) → (ℕ → Bool) → Parser → OpsList → Parser
  operands zero is_operator operand first p = no_fuel
  operands (suc fuel) is_operator operand first p = do
    c ← char_at expr_str p.at
    if is_operator c
        then (do
          (second, q) ← operand (record p { at = p.at + 1 })
          first1 ← combine c first second
          operands fuel is_operator operand first1 q)
        else done (first, p)

  unfoldable pub term_with : (fuel : ℕ) → Parser → Parser
  term_with fuel factor p = factor p >>= λ r. operands fuel (λ c. c == 42 || c == 47) factor r.0 r.1

  -- The fuel bounds the depth of the parentheses.
  unfoldable pub expr : (depth fuel : ℕ) → Parser
  expr zero fuel p = no_fuel
  expr (suc depth) fuel p =
      let term = λ (q : Cursor). term_with fuel (factor_with (λ q1. expr depth fuel q1)) q in
      term p >>= λ r. operands fuel (λ c. c == 43 || c == 45) term r.0 r.1

  -- The characters that are not to be ignored.
  unfoldable pub kept : List ℕ → List Bool → List ℕ
  kept [] ign = []
  kept (c ∷ s) [] = c ∷ kept s []
  kept (c ∷ s) (b ∷ ign) = if b then kept s ign else c ∷ kept s ign

  -- `malloc` fails or not; `none` is the result `NULL`.
  unfoldable pub eval_expr : Bool → Run (Option (List ℕ) × ℤ)
  eval_expr allocated = do
    let expr_len = length expr_str
    (res, p) ←
        expr (suc expr_len) (suc expr_len) (record { at = 0; ign = replicate expr_len false })
    done (if allocated then some (kept expr_str p.ign) else none, res.res)

-- ===== src/Bits/Division.antt =====
-- bit_manipulation/division/solution.c: `divide`. A shift of an `int` that does not fit is undefined
-- behaviour, and so is `-x` at the smallest `int`. In the loop `divd` and `res` are never negative.
pub mod Quotient
use interview_questions.Prelude.{
  ltb, ◌==◌, if◌then◌else◌, ℕ, zero, suc, ◌+◌, ◌-◌, ◌*◌, ◌/◌, ◌%◌, ◌^◌, true, false,
}
use interview_questions.Prelude.Int.{ℤ, pos, negsuc, pos_part, sub_ℕ}
use interview_questions.Prelude.Run.{as_int, Run, done, fault, no_fuel, ◌>>=◌, ◌>>◌}

-- `x << 1 | bit`.
unfoldable pub shift_in : (x bit : ℕ) → Run ℕ
shift_in x bit = if ltb (x * 2) (2 ^ 31) then done (x * 2 + bit) else fault

-- The `while`; the mask is shifted out after 32 rounds.
unfoldable pub while_mask : (fuel mask dividend divisor divd res : ℕ) → Run ℕ
while_mask zero mask dividend divisor divd res = no_fuel
while_mask (suc fuel) mask dividend divisor divd res = elim (mask == 0) [
  | true ↦ done res
  | false ↦ shift_in divd (dividend / mask % 2) >>= λ d. elim (ltb d divisor) [
    | true ↦ shift_in res 0 >>= λ r. while_mask fuel (mask / 2) dividend divisor d r
    | false ↦ shift_in res 1 >>= λ r. while_mask fuel (mask / 2) dividend divisor (d - divisor) r
  ]
]

-- `if (x < 0) x = -x`, as a number.
unfoldable pub magnitude : ℤ → Run ℕ
magnitude (pos n) = done n
magnitude (negsuc n) = as_int (pos (suc n)) >>= λ x. done (pos_part x)

-- `res * sign`, with `sign` from the two tests.
abbrev pub with_sign : (a b : ℤ) → ℕ → ℤ
with_sign (pos a) (pos b) n = pos n
with_sign (pos a) (negsuc b) n = sub_ℕ 0 n
with_sign (negsuc a) (pos b) n = sub_ℕ 0 n
with_sign (negsuc a) (negsuc b) n = pos n

unfoldable pub divide : (dividend divisor : ℤ) → Run ℤ
divide dividend divisor = do
  n ← magnitude dividend
  d ← magnitude divisor
  res ← while_mask 33 (2 ^ 31) n d 0 0
  as_int (with_sign dividend divisor res)

-- ===== src/Bits/Division/Quotient.antt =====
-- bit_manipulation/division/solution.c: `divide` is the division that rounds towards 0, and no
-- intermediate result leaves the range of `int`.
use interview_questions.Prelude.Int.{
  ℤ, pos, negsuc, pos_part, neg_part, sub_ℕ, ◌+ℤ◌, ◌*ℤ◌, ◌≤ℤ◌, ◌<ℤ◌, eq_of_parts, +ℤ_parts,
  *ℤ_parts,
}
use native.Mathlib.Nat.{
  div-add-mod', mod-lt, div-div-eq-div-mul, div-eq_of_lt-le, div-le_self, div-one,
}
use native.Mathlib.Omega.{pow_step}
use native.Mathlib.Decide.{dec_lt}
use interview_questions.Prelude.{
  ◌==◌, lt→ltb, ne→==, ℕ, zero, suc, ◌+◌, ◌-◌, ◌*◌, ◌/◌, ◌%◌, ◌^◌, ◌≤◌, ◌<◌, ◌≡◌, refl, sym, ap,
  ◌∙◌, ◌≢◌, false, arith,
}
use interview_questions.Prelude.Run.{as_int, int_min, int_max, done, ◌>>=◌, Returns, Returns→done}
use interview_questions.Prelude.Masks.{mask_of, mask_of-half, mask_of-lt}
use interview_questions.Bits.Division.{shift_in, while_mask, magnitude, with_sign, divide}

-- With `n` bits left: the bits before, divided.
record Partial (dividend divisor n divd res : ℕ) : Type 0 where
  whole : dividend / 2 ^ n ≡ res * divisor + divd
  rest : divd < divisor

halves : (dividend n : ℕ) → dividend / 2 ^ n / 2 ≡ dividend / 2 ^ suc n
halves dividend n =
    div-div-eq-div-mul dividend (2 ^ n) 2 ∙ ap (λ m. dividend / m) (omega (arith, pow_step 2 n))

shift_in-ok : (x bit : ℕ) → x * 2 < 2 ^ 31 → shift_in x bit ≡ done (x * 2 + bit)
unfolding shift_in
shift_in-ok x bit lt = rw (lt→ltb (x * 2) (2 ^ 31) lt) refl

le_product : (res divisor : ℕ) → 0 < divisor → res ≤ res * divisor
le_product res divisor some_divisor = grind arith

twice : (res divisor : ℕ) → (res * 2 + 0) * divisor ≡ 2 * (res * divisor)
twice res divisor = grind arith

twice_more : (res divisor : ℕ) → (res * 2 + 1) * divisor ≡ 2 * (res * divisor) + divisor
twice_more res divisor = grind arith

module _ (dividend divisor m divd res : ℕ) (small : dividend < 2 ^ 31)
    (part : Partial dividend divisor (suc m) divd res) where
  next : ℕ
  next = divd * 2 + dividend / 2 ^ m % 2

  some_divisor : 0 < divisor
  some_divisor = omega (arith, part.rest)

  before : dividend / 2 ^ m / 2 ≡ res * divisor + divd
  before = halves dividend m ∙ part.whole

  fits : (divd * 2 < 2 ^ 31) × (res * 2 < 2 ^ 31)
  fits =
      let le : dividend / 2 ^ m ≤ dividend = div-le_self dividend (2 ^ m) in
      (omega (arith, before), omega (arith, before, le_product res divisor some_divisor))

  Partial-smaller : next < divisor → Partial dividend divisor m next (res * 2 + 0)
  unfolding next
  Partial-smaller lt = record { whole = omega (arith, twice res divisor, before); rest = lt }

  Partial-larger : divisor ≤ next → Partial dividend divisor m (next - divisor) (res * 2 + 1)
  unfolding next
  Partial-larger le = record {
    whole = omega (arith, twice_more res divisor, before, le);
    rest = omega (arith, part.rest);
  }

  module _ (fuel : ℕ) where
    mask_left : (mask_of (suc m) == 0) ≡ false
    mask_left = ne→== (mask_of (suc m)) 0 (omega (arith, mask_of-lt 0 (suc m)))

    while_smaller :
        next < divisor
        → while_mask (suc fuel) (mask_of (suc m)) dividend divisor divd res
          ≡ while_mask fuel (mask_of m) dividend divisor next (res * 2 + 0)
    unfolding while_mask next
    while_smaller lt = ground (
      arith,
      lt,
      mask_left,
      shift_in-ok divd (dividend / 2 ^ m % 2) fits.0,
      shift_in-ok res 0 fits.1,
      mask_of-half m,
    )

    while_larger :
        divisor ≤ next
        → while_mask (suc fuel) (mask_of (suc m)) dividend divisor divd res
          ≡ while_mask fuel (mask_of m) dividend divisor (next - divisor) (res * 2 + 1)
    unfolding while_mask next
    while_larger le = ground (
      arith,
      le,
      mask_left,
      shift_in-ok divd (dividend / 2 ^ m % 2) fits.0,
      shift_in-ok res 1 fits.1,
      mask_of-half m,
    )

while_mask-Partial :
    (n fuel dividend divisor divd res : ℕ)
    → n < fuel
    → dividend < 2 ^ 31
    → Partial dividend divisor n divd res
    → Returns
        (while_mask fuel (mask_of n) dividend divisor divd res)
        (λ r. (left : ℕ) × Partial dividend divisor 0 left r)
unfolding while_mask
while_mask-Partial n zero dividend divisor divd res enough small part = absurd (omega arith)
while_mask-Partial zero (suc fuel) dividend divisor divd res enough small part = (divd, part)
while_mask-Partial (suc m) (suc fuel) dividend divisor divd res enough small part =
    elim (dec_lt (next dividend divisor m divd res small part) divisor) [
      | yes lt ↦ rw (while_smaller dividend divisor m divd res small part fuel lt) (
          while_mask-Partial m fuel dividend divisor _ _ (omega arith) small
            (Partial-smaller dividend divisor m divd res small part lt))
      | no ge ↦ rw (while_larger dividend divisor m divd res small part fuel (omega arith)) (
          while_mask-Partial m fuel dividend divisor _ _ (omega arith) small
            (Partial-larger dividend divisor m divd res small part (omega arith)))
    ]

magnitude-ok : (a : ℤ) → int_min <ℤ a → magnitude a ≡ done (pos_part a + neg_part a)
unfolding magnitude
magnitude-ok (pos n) above = ground arith
magnitude-ok (negsuc n) above = ground arith

magnitude_small : (a : ℤ) → int_min <ℤ a → a ≤ℤ int_max → pos_part a + neg_part a < 2 ^ 31
magnitude_small (pos n) above below = omega arith
magnitude_small (negsuc n) above below = omega arith

magnitude_pos : (b : ℤ) → b ≢ pos 0 → 0 < pos_part b + neg_part b
magnitude_pos (pos zero) nonzero = absurd (nonzero refl)
magnitude_pos (pos (suc n)) nonzero = omega arith
magnitude_pos (negsuc n) nonzero = omega arith

next_product : (res divisor : ℕ) → (res + 1) * divisor ≡ res * divisor + divisor
next_product res divisor = grind arith

-- The rest at the end is below the divisor.
end_quotient :
    (dividend divisor left res : ℕ) → Partial dividend divisor 0 left res → res ≡ dividend / divisor
end_quotient dividend divisor left res part =
    let all : dividend ≡ res * divisor + left = sym (div-one dividend) ∙ part.whole in
    sym (
      div-eq_of_lt-le divisor (omega (arith, all))
        (omega (arith, all, part.rest, next_product res divisor)))

while_mask-quotient :
    (dividend divisor : ℕ)
    → dividend < 2 ^ 31
    → 0 < divisor
    → while_mask 33 (2 ^ 31) dividend divisor 0 0 ≡ done (dividend / divisor)
while_mask-quotient dividend divisor small divides =
    let (res, e, found) =
      Returns→done (λ r. (left : ℕ) × Partial dividend divisor 0 left r)
        (while_mask 33 (2 ^ 31) dividend divisor 0 0)
        (while_mask-Partial 32 33 dividend divisor 0 0 (omega arith) small
          (record { whole = omega (arith, small); rest = divides })) in
    e ∙ ap done (end_quotient dividend divisor found.0 res found.1)

quotient-fits : (a b : ℤ) (n : ℕ) → n < 2 ^ 31 → as_int (with_sign a b n) ≡ done (with_sign a b n)
quotient-fits (pos a) (pos b) n small = ground arith
quotient-fits (pos a) (negsuc b) n small = ground arith
quotient-fits (negsuc a) (pos b) n small = ground arith
quotient-fits (negsuc a) (negsuc b) n small = ground arith

abbrev size_of : ℤ → ℕ
size_of (pos n) = n
size_of (negsuc n) = suc n

-- `q` is `a` divided by `b`: what is left is smaller than `b` and has the sign of `a`.
abbrev pub IsQuotient : (a b q : ℤ) → Type 0
IsQuotient a b q =
    (r : ℤ) × (a ≡ (q *ℤ b) +ℤ r)
    × (size_of r < size_of b)
    × (pos 0 ≤ℤ a → pos 0 ≤ℤ r)
    × (a ≤ℤ pos 0 → r ≤ℤ pos 0)

sub_ℕ-parts : (m n : ℕ) → pos_part (sub_ℕ m n) + n ≡ neg_part (sub_ℕ m n) + m
sub_ℕ-parts m n = ground arith

size_of-negated : (n : ℕ) → size_of (sub_ℕ 0 n) ≡ n
size_of-negated zero = refl
size_of-negated (suc n) = ground arith

with_sign-IsQuotient :
    (a b : ℤ) (q r : ℕ)
    → pos_part a + neg_part a ≡ q * (pos_part b + neg_part b) + r
    → r < pos_part b + neg_part b
    → IsQuotient a b (with_sign a b q)
with_sign-IsQuotient (pos a) (pos b) q r e lt = (
  pos r,
  eq_of_parts (pos a) (((pos q) *ℤ (pos b)) +ℤ pos r)
      (grind (arith, e, +ℤ_parts ((pos q) *ℤ (pos b)) (pos r), *ℤ_parts ((pos q)) (pos b))),
  omega (arith, lt),
  (λ h. omega arith),
  (λ h. omega (arith, e, h)),
)
with_sign-IsQuotient (pos a) (negsuc b) q r e lt = (
  pos r,
  eq_of_parts (pos a) (((sub_ℕ 0 q) *ℤ (negsuc b)) +ℤ pos r) (
      grind (
        arith,
        e,
        +ℤ_parts ((sub_ℕ 0 q) *ℤ (negsuc b)) (pos r),
        *ℤ_parts ((sub_ℕ 0 q)) (negsuc b),
        sub_ℕ-parts 0 q,
      )),
  omega (arith, lt),
  (λ h. omega arith),
  (λ h. omega (arith, e, h)),
)
with_sign-IsQuotient (negsuc a) (pos b) q r e lt = (
  (sub_ℕ 0 r),
  eq_of_parts (negsuc a) (((sub_ℕ 0 q) *ℤ (pos b)) +ℤ (sub_ℕ 0 r)) (
      grind (
        arith,
        e,
        +ℤ_parts ((sub_ℕ 0 q) *ℤ (pos b)) ((sub_ℕ 0 r)),
        *ℤ_parts ((sub_ℕ 0 q)) (pos b),
        sub_ℕ-parts 0 q,
        sub_ℕ-parts 0 r,
      )),
  omega (arith, lt, size_of-negated r),
  (λ h. absurd (omega (arith, h))),
  (λ h. ground arith),
)
with_sign-IsQuotient (negsuc a) (negsuc b) q r e lt = (
  (sub_ℕ 0 r),
  eq_of_parts (negsuc a) (((pos q) *ℤ (negsuc b)) +ℤ (sub_ℕ 0 r)) (
      grind (
        arith,
        e,
        +ℤ_parts ((pos q) *ℤ (negsuc b)) ((sub_ℕ 0 r)),
        *ℤ_parts ((pos q)) (negsuc b),
        sub_ℕ-parts 0 r,
      )),
  omega (arith, lt, size_of-negated r),
  (λ h. absurd (omega (arith, h))),
  (λ h. ground arith),
)

-- For `int`s other than the smallest one and a divisor other than 0, `divide` ends, no shift and no
-- product leaves the range of `int`, and the result is the quotient rounded towards 0: the dividend is
-- the result times the divisor and a rest, which is smaller than the divisor, the signs left aside,
-- and has the sign of the dividend.
pub divide-IsQuotient :
    (a b : ℤ)
    → int_min <ℤ a
    → a ≤ℤ int_max
    → int_min <ℤ b
    → b ≤ℤ int_max
    → b ≢ pos 0
    → Returns (divide a b) (IsQuotient a b)
unfolding divide
divide-IsQuotient a b a_above a_below b_above b_below nonzero =
    let n = pos_part a + neg_part a in
    let d = pos_part b + neg_part b in
    let small : n < 2 ^ 31 = magnitude_small a a_above a_below in
    let some_divisor : 0 < d = magnitude_pos b nonzero in
    let run : divide a b ≡ done (with_sign a b (n / d)) =
      rw (magnitude-ok a a_above, magnitude-ok b b_above, divide)
        (ap (λ r. r >>= λ res. as_int (with_sign a b res))
            (while_mask-quotient n d small some_divisor)
          ∙ quotient-fits a b (n / d) (omega (arith, div-le_self n d))) in
    rw (run, Returns)
      (with_sign-IsQuotient a b (n / d) (n % d) (sym (div-add-mod' n d)) (mod-lt n some_divisor))

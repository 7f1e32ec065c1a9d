-- ===== src/Tests/Division.antt =====
-- bit_manipulation/division on small inputs.
use interview_questions.Prelude.{◌≡◌, refl, arith}
use interview_questions.Prelude.Int.{pos, negsuc}
use interview_questions.Prelude.Run.{int_min, done, fault, Returns}
use interview_questions.Bits.Division.{divide, while_mask, shift_in, magnitude}
use interview_questions.Bits.Division.Quotient.{IsQuotient, divide-IsQuotient}

divides_negative : divide (negsuc 218) (pos 22) ≡ done (negsuc 8)
unfolding divide while_mask shift_in magnitude
divides_negative = refl

-- A divisor of 0, and the smallest `int`.
divides_by_zero : divide (pos 5) (pos 0) ≡ fault
unfolding divide while_mask shift_in magnitude
divides_by_zero = refl

divides_int_min : divide int_min (pos 1) ≡ fault
unfolding divide while_mask shift_in magnitude
divides_int_min = refl

divide-IsQuotient_example :
    Returns (divide (negsuc 218) (pos 22)) (IsQuotient (negsuc 218) (pos 22))
divide-IsQuotient_example =
    divide-IsQuotient (negsuc 218) (pos 22) (omega arith) (omega arith) (omega arith) (omega arith)
      (λ e. absurd (ground (arith, e)))

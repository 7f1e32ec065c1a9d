-- ===== src/Prelude/Masks.antt =====
-- Masks with one bit set, from a high bit down to 0 once the bit is shifted out.
use native.Mathlib.Omega.{pow_step, arith}
use native.Mathlib.Decide.{dec_lt}
use Prim.Native.Nat.{ℕ, zero, suc, ◌/◌, ◌^◌, ◌<◌}
use mathlib.Core.Path.{◌≡◌, refl}

-- The mask before bit `n - 1` is read, and after the last bit.
abbrev pub mask_of : ℕ → ℕ
mask_of zero = 0
mask_of (suc n) = 2 ^ n

pub mask_of-half : (n : ℕ) → mask_of (suc n) / 2 ≡ mask_of n
mask_of-half zero = refl
mask_of-half (suc n) = omega (arith, pow_step 2 n)

pub mask_of-lt-suc : (n : ℕ) → mask_of n < mask_of (suc n)
mask_of-lt-suc zero = omega arith
mask_of-lt-suc (suc zero) = omega arith
mask_of-lt-suc (suc (suc n)) =
    omega (arith, pow_step 2 n, pow_step 2 (suc n), mask_of-lt-suc (suc n))

pub mask_of-lt : (n m : ℕ) → n < m → mask_of n < mask_of m
mask_of-lt n zero h = absurd (omega arith)
mask_of-lt n (suc m) h = elim (dec_lt n m) [
  | yes lt ↦ omega (arith, mask_of-lt n m lt, mask_of-lt-suc m)
  | no ge ↦ let same : n ≡ m = omega arith in rw same (mask_of-lt-suc m)
]

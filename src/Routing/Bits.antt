-- ===== src/Routing/Bits.antt =====
-- knowledge_based/networking/routing/rtable.c: the bits of an address.
use interview_questions.Prelude.{
  ◌==◌, ne→==, ℕ, zero, suc, ◌/◌, ◌%◌, ◌^◌, ◌≡◌, refl, ap, ◌∙◌, Bool, not, List, [], ◌∷◌, arith,
}
use interview_questions.Prelude.Masks.{mask_of, mask_of-lt}
use interview_questions.Routing.{bit_at}

-- The lowest `n` binary digits of an address, the highest first.
abbrev pub bits : ℕ → ℕ → List Bool
bits zero ip = []
bits (suc n) ip = (ip / 2 ^ n % 2 == 1) ∷ bits n ip

-- What the masks test.
abbrev pub tested : ℕ → ℕ → List Bool
tested zero ip = []
tested (suc n) ip = not (bit_at ip (mask_of (suc n)) == 0) ∷ tested n ip

pub bit_at-digit : (n ip : ℕ) → not (bit_at ip (2 ^ n) == 0) ≡ (ip / 2 ^ n % 2 == 1)
unfolding bit_at
bit_at-digit n ip =
    rw (ne→== (2 ^ n) 0 (omega (arith, mask_of-lt 0 (suc n) (omega arith)))) (digit (ip / 2 ^ n))
  where
    digit : (m : ℕ) → not (m % 2 == 0) ≡ (m % 2 == 1)
    digit m = ground arith

pub tested-bits : (n ip : ℕ) → tested n ip ≡ bits n ip
tested-bits zero ip = refl
tested-bits (suc n) ip =
    ap (λ b. b ∷ tested n ip) (bit_at-digit n ip)
    ∙ ap (λ l. (ip / 2 ^ n % 2 == 1) ∷ l) (tested-bits n ip)

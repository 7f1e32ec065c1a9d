-- ===== src/Boggle/Board/Better.antt =====
-- recursion_dp/boggle_board/solution.c: the higher of two scores, with its word.
use interview_questions.Prelude.{
  if◌then◌else◌, Bool-cases, ℕ, ◌≡◌, ap, ◌≢◌, inl, inr, Bool, true, false, none, some, List, arith,
}
use interview_questions.Prelude.Int.{ℤ, ◌≤ℤ◌, ltb_ℤ}
use interview_questions.Boggle.Words.{no_score}
use interview_questions.Boggle.Board.{Best, better}

pub better-fst : (a b : Best) → (a.0 ≤ℤ (better a b).0) × (b.0 ≤ℤ (better a b).0)
better-fst (x, v) (y, w) = elim (Bool-cases (ltb_ℤ x y)) [
  | inl e ↦ rw (e, if◌then◌else◌) (ground (arith, e), omega arith)
  | inr e ↦ rw (e, if◌then◌else◌) (omega arith, ground (arith, e))
]

pub elim_true : {A : Type 0} (b : Bool) (x y : A) → b ≡ true → (elim b [ true ↦ x | false ↦ y ]) ≡ x
elim_true b x y e = ap (λ b. elim b [ true ↦ x | false ↦ y ]) e

pub elim_false :
    {A : Type 0} (b : Bool) (x y : A) → b ≡ false → (elim b [ true ↦ x | false ↦ y ]) ≡ y
elim_false b x y e = ap (λ b. elim b [ true ↦ x | false ↦ y ]) e

module _ (value : List ℕ → ℤ) where
  -- A score with its word.
  abbrev pub IsAchieved : (List ℕ → Type 0) → Best → Type 0
  IsAchieved P (x, none) = x ≡ no_score
  IsAchieved P (x, some w) = (x ≡ value w) × (value w ≢ no_score) × P w

  pub IsAchieved-mono :
      (P Q : List ℕ → Type 0) (b : Best)
      → ((w : List ℕ) → P w → Q w)
      → IsAchieved P b
      → IsAchieved Q b
  IsAchieved-mono P Q (x, none) weaken h = h
  IsAchieved-mono P Q (x, some w) weaken h = (h.0, h.1, weaken w h.2)

  pub better-IsAchieved :
      (P : List ℕ → Type 0) (a b : Best)
      → IsAchieved P a
      → IsAchieved P b
      → IsAchieved P (better a b)
  better-IsAchieved P (x, v) (y, w) p q = elim (Bool-cases (ltb_ℤ x y)) [
    | inl e ↦ rw (e, if◌then◌else◌) q
    | inr e ↦ rw (e, if◌then◌else◌) p
  ]

-- ===== src/Kleene/Dfa.antt =====
-- recursion_dp/kleene_star/solution.c, question (a): the language of the automaton.
use interview_questions.Prelude.{
  replicate, ℕ, zero, suc, ◌≡◌, refl, ◌≢◌, ◌↔◌, ◌⊎◌, List, [], ◌∷◌, ◌++◌, arith,
}
use native.Mathlib.Decide.{ℕ_discrete}
use interview_questions.Prelude.Run.{done}
use interview_questions.Kleene.{step, dfa, simple_dfa, dfa_start_state}

-- Characters that are '0' or '1' only.
abbrev pub IsBinary : List ℕ → Type 0
IsBinary [] = Unit {0}
IsBinary (c ∷ s) = ((c ≡ 48) ⊎ (c ≡ 49)) × IsBinary s

-- One or more '1's, two '0's, and any '0's and '1's.
abbrev pub IsOnesZeros : List ℕ → Type 0
IsOnesZeros s =
    (k : ℕ) × (rest : List ℕ) × (s ≡ replicate (suc k) 49 ++ 48 ∷ 48 ∷ rest) × IsBinary rest

from_D : (s : List ℕ) → (dfa simple_dfa s 3 ≡ done 1) ↔ IsBinary s
unfolding dfa step
from_D [] = ((λ h. tt), λ h. refl)
from_D (c ∷ s) = ground (arith, from_D s)

from_E : (s : List ℕ) → dfa simple_dfa s 4 ≢ done 1
unfolding dfa step
from_E [] h = ground arith
from_E (c ∷ s) h = ground (arith, from_E s)

from_C :
    (s : List ℕ) → (dfa simple_dfa s 2 ≡ done 1) → (rest : List ℕ) × (s ≡ 48 ∷ rest) × IsBinary rest
unfolding dfa step
from_C [] h = ground arith
from_C (c ∷ s) h = (s, ground (arith, from_E s, from_D s), ground (arith, from_E s, from_D s))

-- Any number of '1's, two '0's, and any '0's and '1's.
abbrev Remaining : List ℕ → Type 0
Remaining s = (k : ℕ) × (rest : List ℕ) × (s ≡ replicate k 49 ++ 48 ∷ 48 ∷ rest) × IsBinary rest

one_more : (c : ℕ) (s : List ℕ) → c ≡ 49 → Remaining s → IsOnesZeros (c ∷ s)
one_more c s e (k, rest, eq, bin) = (k, rest, rw e (rw eq refl), bin)

zeros :
    (c : ℕ) (s : List ℕ)
    → c ≡ 48
    → (rest : List ℕ) × (s ≡ 48 ∷ rest) × IsBinary rest
    → Remaining (c ∷ s)
zeros c s e (rest, eq, bin) = (0, rest, rw e (rw eq refl), bin)

longer : (s : List ℕ) → IsOnesZeros s → Remaining s
longer s (k, rest, eq, bin) = (suc k, rest, eq, bin)

from_B : (s : List ℕ) → (dfa simple_dfa s 1 ≡ done 1) → Remaining s
unfolding dfa step
from_B [] h = absurd (ground arith)
from_B (c ∷ s) h = elim (ℕ_discrete c 49) [
  | yes e ↦ longer (c ∷ s) (one_more c s e (from_B s (ground arith)))
  | no ne ↦ zeros c s (ground arith) (from_C s (ground arith))
]

from_A : (s : List ℕ) → (dfa simple_dfa s 0 ≡ done 1) → IsOnesZeros s
unfolding dfa step
from_A [] h = absurd (ground arith)
from_A (c ∷ s) h = one_more c s (ground (arith, from_E s)) (from_B s (ground (arith, from_E s)))

to_B :
    (k : ℕ) (rest : List ℕ)
    → IsBinary rest
    → dfa simple_dfa (replicate k 49 ++ 48 ∷ 48 ∷ rest) 1 ≡ done 1
unfolding dfa step
to_B zero rest bin = (from_D rest).1 bin
to_B (suc k) rest bin = to_B k rest bin

-- From its start state the automaton ends in an accepting state exactly on the strings that are
-- one or more '1's, then two '0's, then any '0's and '1's.
pub dfa-language : (s : List ℕ) → (dfa simple_dfa s dfa_start_state ≡ done 1) ↔ IsOnesZeros s
unfolding dfa step
dfa-language s = (from_A s, λ (k, rest, eq, bin). rw eq (to_B k rest bin))

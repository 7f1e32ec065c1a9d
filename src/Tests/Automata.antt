-- ===== src/Tests/Automata.antt =====
-- recursion_dp/kleene_star and bit_manipulation/bits_set on small inputs.
use interview_questions.Prelude.{
  length, get_or, ℕ, zero, suc, ◌<◌, ◌≡◌, refl, ◌↔◌, List, [], ◌∷◌, arith,
}
use interview_questions.Prelude.Run.{done}
use interview_questions.Kleene.{
  dfa, simple_dfa, dfa_start_state, simple_nfa, nfa_prepare_visit, kleene_closure_aux,
  follow_epsilon, kleene_closure,
}
use interview_questions.Kleene.Dfa.{IsOnesZeros, dfa-language}
use interview_questions.Bits.{bits_set}
use interview_questions.Bits.Popcount.{popcount, total_bits, bits_set-popcount}

-- "11001"
abbrev word : List ℕ
word = 49 ∷ 49 ∷ 48 ∷ 48 ∷ 49 ∷ []

dfa-language_example : (dfa simple_dfa word dfa_start_state ≡ done 1) ↔ IsOnesZeros word
dfa-language_example = dfa-language word

-- The closure of F is F, A, B, C, H, each with a space.
kleene_closure_runs :
    kleene_closure simple_nfa 5 ≡ done (70 ∷ 32 ∷ 65 ∷ 32 ∷ 66 ∷ 32 ∷ 67 ∷ 32 ∷ 72 ∷ 32 ∷ [])
unfolding kleene_closure kleene_closure_aux follow_epsilon nfa_prepare_visit
kleene_closure_runs = refl

abbrev bytes : List ℕ
bytes = 255 ∷ 0 ∷ 129 ∷ []

bytes-bound : (j : ℕ) → j < length bytes → get_or bytes j 0 < 256
bytes-bound zero h = omega arith
bytes-bound (suc zero) h = omega arith
bytes-bound (suc (suc zero)) h = omega arith
bytes-bound (suc (suc (suc j))) h = absurd (omega arith)

bits_set-popcount_example : bits_set 3 bytes ≡ done (total_bits 3 0 bytes)
bits_set-popcount_example = bits_set-popcount 3 bytes (omega arith) bytes-bound (omega arith)

bytes_run : total_bits 3 0 bytes ≡ 10
unfolding popcount
bytes_run = refl

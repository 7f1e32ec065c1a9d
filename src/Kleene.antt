-- ===== src/Kleene.antt =====
-- recursion_dp/kleene_star/solution.c: the automata. A state is named by its index in its table; a
-- character is its code, and a string ends where the list ends.
use interview_questions.Prelude.{
  ltb, leb, ◌==◌, if◌then◌else◌, length, get_elem?, set, ℕ, zero, suc, ◌+◌, ◌-◌, ◌^◌, Bool, true,
  false, ◌&&◌, List, [], ◌∷◌, ◌++◌, map,
}
use interview_questions.Prelude.Run.{Run, done, no_fuel, ◌>>=◌, ◌>>◌, assert, present}
pub mod Dfa

-- `struct node`: the successors on 0 and on 1.
pub record DfaNode : Type 0 where
  pub next : List ℕ
  pub accept : ℕ

abbrev dfa_node : ℕ → ℕ → ℕ → DfaNode
dfa_node on_0 on_1 accept = record { next = on_0 ∷ on_1 ∷ []; accept = accept }

unfoldable pub step : List DfaNode → ℕ → ℕ → Run ℕ
step states input curr = do
  n ← present (get_elem? states curr)
  assert (ltb input 2)
  present (get_elem? n.next input)

-- `input[input_i]-'0'` as an `unsigned`.
abbrev pub digit_of : ℕ → ℕ
digit_of c = if ltb c 48 then 2 ^ 32 + c - 48 else c - 48

unfoldable pub dfa : List DfaNode → List ℕ → ℕ → Run ℕ
dfa states [] curr = present (get_elem? states curr) >>= λ n. done n.accept
dfa states (c ∷ input) curr = step states (digit_of c) curr >>= λ q. dfa states input q

abbrev pub simple_dfa : List DfaNode
simple_dfa = dfa_node 4 1 0 ∷ dfa_node 2 1 0 ∷ dfa_node 3 4 0 ∷ dfa_node 3 3 1 ∷ dfa_node 4 4 0 ∷ []

abbrev pub dfa_start_state : ℕ
dfa_start_state = 0

-- `struct nfa_node`: the null-terminated arrays are lists.
pub record NfaNode : Type 0 where
  pub next_0 : List ℕ
  pub next_1 : List ℕ
  pub epsilon : List ℕ
  pub accept : ℕ
  pub visited : Bool
  pub id : ℕ

abbrev pub simple_nfa : List NfaNode
simple_nfa =
    record { next_0 = []; next_1 = []; epsilon = 1 ∷ 2 ∷ []; accept = 0; visited = false; id = 65 }
    ∷ record { next_0 = []; next_1 = 3 ∷ []; epsilon = []; accept = 0; visited = false; id = 66 }
    ∷ record { next_0 = 4 ∷ []; next_1 = []; epsilon = []; accept = 0; visited = false; id = 67 }
    ∷ record { next_0 = []; next_1 = 5 ∷ []; epsilon = []; accept = 0; visited = false; id = 68 }
    ∷ record { next_0 = 6 ∷ []; next_1 = []; epsilon = []; accept = 0; visited = false; id = 69 }
    ∷ record {
      next_0 = [];
      next_1 = [];
      epsilon = 0 ∷ 7 ∷ [];
      accept = 0;
      visited = false;
      id = 70;
    }
    ∷ record {
      next_0 = [];
      next_1 = [];
      epsilon = 0 ∷ 7 ∷ [];
      accept = 0;
      visited = false;
      id = 71;
    }
    ∷ record { next_0 = []; next_1 = []; epsilon = []; accept = 1; visited = false; id = 72 }
    ∷ []

abbrev mark : NfaNode → Bool → NfaNode
mark n b = record n { visited = b }

unfoldable pub nfa_prepare_visit : List NfaNode → List NfaNode
nfa_prepare_visit states = map (λ (n : NfaNode). mark n false) states

-- The table and what is written to the buffer: `sprintf(..., "%c ", id)` adds two characters.
abbrev pub Visit : Type 0
Visit = List NfaNode × List ℕ

-- `for (i = 0; curr_node->epsilon[i] != NULL; i++)`, with the recursive call as `visit`.
unfoldable pub follow_epsilon : (Visit → ℕ → Run Visit) → List ℕ → Visit → Run Visit
follow_epsilon visit [] s = done s
follow_epsilon visit (e ∷ es) s = do
  n ← present (get_elem? s.0 e)
  t ← (elim n.visited [ false ↦ visit s e | true ↦ done s ])
  follow_epsilon visit es t

-- The fuel bounds the depth of the calls; each call visits a state that was not visited, so that
-- one more than the number of states is enough.
unfoldable pub kleene_closure_aux : (fuel : ℕ) → Visit → ℕ → Run Visit
kleene_closure_aux zero s curr_node = no_fuel
kleene_closure_aux (suc fuel) s curr_node = do
  n ← present (get_elem? s.0 curr_node)
  follow_epsilon (λ t e. kleene_closure_aux fuel t e) n.epsilon
      (set s.0 curr_node (mark n true), s.1 ++ n.id ∷ 32 ∷ [])

unfoldable pub kleene_closure : List NfaNode → ℕ → Run (List ℕ)
kleene_closure states node = do
  s ← kleene_closure_aux (suc (length states)) (nfa_prepare_visit states, []) node
  done s.1

-- What `main` prints, and its commands as `scanf` reads them.
pub data Command : Type 0 where
  run_dfa : List ℕ → Command
  closure_of : ℕ → Command
  quit : Command
  unknown : ℕ → Command

pub data Reply : Type 0 where
  accepted : Reply
  not_accepted : Reply
  closure : ℕ → List ℕ → Reply
  unknown_command : ℕ → Reply

unfoldable pub main : List Command → List Reply → Run (List Reply)
main [] printed = done printed
main (quit ∷ commands) printed = done printed
main (run_dfa input ∷ commands) printed = do
  r ← dfa simple_dfa input dfa_start_state
  main commands (printed ++ (if r == 0 then not_accepted else accepted) ∷ [])
main (closure_of node ∷ commands) printed = do
  assert (leb 97 node && leb node 104)
  buff ← kleene_closure simple_nfa (node - 97)
  main commands (printed ++ closure node buff ∷ [])
main (unknown op ∷ commands) printed = main commands (printed ++ unknown_command op ∷ [])

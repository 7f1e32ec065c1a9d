-- ===== src/Tests/Routing.antt =====
-- knowledge_based/networking/routing on small inputs.
use interview_questions.Prelude.Run.{done, fault, ◌>>=◌}
use interview_questions.Prelude.{ℕ, ◌+◌, ◌-◌, ◌*◌, ◌^◌, ◌≡◌, refl, Option, some, List, [], ◌∷◌}
use interview_questions.Routing.{initial_root, lookup, decimal, ip_to_str, print_table, print, main}
use interview_questions.Routing.Visit.{longest}
use interview_questions.Routing.Longest.{
  routes, Change, default_route, route, apply_changes, lookup-longest,
}
use interview_questions.Routing.Bits.{bits}

-- 10.0.0.0/8 to 1, 10.1.0.0/16 to 2, and 7 as the default.
abbrev changes : List Change
changes = route (10 * 2 ^ 24 + 2 ^ 16) 16 2 ∷ route (10 * 2 ^ 24) 8 1 ∷ default_route 7 ∷ []

abbrev malloc : ℕ → Option ℕ
malloc mask = some 0

lookup-longest_example :
    (apply_changes malloc changes >>= λ t. lookup (10 * 2 ^ 24 + 5) t)
    ≡ done (longest 32 (routes changes) (bits 32 (10 * 2 ^ 24 + 5)) (2 ^ 32 - 1))
lookup-longest_example = lookup-longest malloc (λ mask. (0, refl)) changes (10 * 2 ^ 24 + 5)

prints_the_start : main malloc (print ∷ []) initial_root [] ≡ fault
unfolding main print_table ip_to_str decimal
prints_the_start = refl

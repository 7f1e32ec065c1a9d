-- ===== src/Morris/Visits.antt =====
-- trees_graphs/traversal_without_recursion/solution.c: the three kinds of rounds of a traversal.
use interview_questions.Prelude.{ℕ, ◌≡◌, refl, ◌∙◌, ◌≢◌, Option, none, some, List, [], ◌∷◌}
use interview_questions.Prelude.Int.{ℤ}
use interview_questions.Prelude.Run.{Run, done}
use interview_questions.Morris.{Heap, write, predecessor, in_order_step, pre_order_step}
use interview_questions.Morris.Threads.{node_of, write_other}

abbrev Step : Type 0
Step = Heap → ℕ → Run (Heap × Option ℕ × List ℤ)

-- What a round does at a node: `first` is printed on the way down, `second` on the way up.
pub record Visits (fuel : ℕ) (step : Step) (first second : ℤ → List ℤ) : Type 0 where
  pub without_left :
      (h : Heap) (a : ℕ) (key : ℤ) (pr : Option ℕ)
      → h a ≡ some (node_of key none pr)
      → step h a ≡ done (h, pr, key ∷ [])
  pub down :
      (h : Heap) (a b p : ℕ) (key j : ℤ) (pr q : Option ℕ)
      → h a ≡ some (node_of key (some b) pr)
      → predecessor fuel h a b ≡ done p
      → h p ≡ some (node_of j q none)
      → a ≢ p
      → step h a ≡ done (write h p (node_of j q (some a)), some b, first key)
  pub back :
      (h : Heap) (a b p c : ℕ) (key j : ℤ) (pr q : Option ℕ)
      → h a ≡ some (node_of key (some b) pr)
      → predecessor fuel h a b ≡ done p
      → h p ≡ some (node_of j q (some c))
      → a ≢ p
      → step h a ≡ done (write h p (node_of j q none), pr, second key)

pub in_order-Visits : (fuel : ℕ) → Visits fuel (in_order_step fuel) (λ k. []) (λ k. k ∷ [])
unfolding in_order_step
in_order-Visits fuel = record {
  without_left = λ h a key pr e. rw (e, in_order_step) refl;
  down = λ h a b p key j pr q e pred cell_e ne.
      rw (e, in_order_step)
        (rw (pred, in_order_step)
          (rw (cell_e, in_order_step)
            (rw (write_other h p a (node_of j q (some a)) ne ∙ e, in_order_step) refl)));
  back = λ h a b p c key j pr q e pred cell_e ne.
      rw (e, in_order_step)
        (rw (pred, in_order_step)
          (rw (cell_e, in_order_step)
            (rw (write_other h p a (node_of j q none) ne ∙ e, in_order_step) refl)));
}

pub pre_order-Visits : (fuel : ℕ) → Visits fuel (pre_order_step fuel) (λ k. k ∷ []) (λ k. [])
unfolding pre_order_step
pre_order-Visits fuel = record {
  without_left = λ h a key pr e. rw (e, pre_order_step) refl;
  down = λ h a b p key j pr q e pred cell_e ne.
      rw (e, pre_order_step)
        (rw (pred, pre_order_step)
          (rw (cell_e, pre_order_step)
            (rw (write_other h p a (node_of j q (some a)) ne ∙ e, pre_order_step) refl)));
  back = λ h a b p c key j pr q e pred cell_e ne.
      rw (e, pre_order_step)
        (rw (pred, pre_order_step)
          (rw (cell_e, pre_order_step)
            (rw (write_other h p a (node_of j q none) ne ∙ e, pre_order_step) refl)));
}

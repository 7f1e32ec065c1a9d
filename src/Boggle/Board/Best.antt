-- ===== src/Boggle/Board/Best.antt =====
-- recursion_dp/boggle_board/solution.c: `find_best_word_aux` against all the words from a place.
use mathlib.Core.List.{append_assoc}
use mathlib.Core.Path.{subst}
use interview_questions.Prelude.{
  if◌then◌else◌, Bool-cases, length, ℕ, zero, suc, ◌≤◌, ◌≡◌, refl, sym, ap, ◌∙◌, ◌≢◌, inl, inr,
  true, none, some, List, [], ◌∷◌, ◌++◌, arith,
}
use interview_questions.Prelude.Int.{ℤ, negsuc, ◌+ℤ◌, ◌≤ℤ◌, eqb_ℤ, eqb_ℤ_iff}
use interview_questions.Prelude.Run.{Run, done, Returns, Returns-bind, Returns-mono}
use interview_questions.Boggle.Words.Scores.{IsLower, IsLower-append}
use interview_questions.Boggle.Words.{no_score}
use interview_questions.Boggle.Board.{
  is_outside, letter_at, steps, Best, better, try_steps, find_best_word_aux,
}
use interview_questions.Boggle.Board.Trace.{
  letter_unique, IsInside, IsNear, IsFull, IsMove, Trace, single, onward, AllMoves, IsIn,
  steps-AllMoves, IsIn-steps, is_outside-IsInside, IsInside-is_outside, IsNear-IsMove,
  letter-IsFull, Trace-letter, Trace-IsInside,
}
use interview_questions.Boggle.Board.Better.{
  better-fst, IsAchieved, IsAchieved-mono, better-IsAchieved,
}
use interview_questions.Boggle.Board.Calls.{single-call, outside-call, full-call}

not_empty : (word : List ℕ) (l : ℕ) → word ++ l ∷ [] ≢ []
not_empty [] l e = cc
not_empty (c ∷ word) l e = cc

module _ (value : List ℕ → ℤ) (score : List ℕ → Run ℤ)
    (scores : (w : List ℕ) → IsLower w → score w ≡ done (value w))
    (valid : (w : List ℕ) → negsuc 0 ≤ℤ value w)
    (prefixes : (v w : List ℕ) → v ≢ [] → value v ≡ negsuc 0 → value (v ++ w) ≡ negsuc 0)
    (board : List (List ℕ)) (n : ℕ) (full : IsFull board n) where
  -- No word of up to `left` letters from a place has a higher score, behind those before.
  abbrev pub IsBound : (left : ℕ) → (r c : ℤ) → List ℕ → ℤ → Type 0
  IsBound left r c word x =
      (v : List ℕ) → Trace board n r c v → length v ≤ left → value (word ++ v) ≤ℤ x

  abbrev pub IsFrom : (left : ℕ) → (r c : ℤ) → (word w : List ℕ) → Type 0
  IsFrom zero r c word w = w ≡ word
  IsFrom (suc left) r c word w =
      (v : List ℕ) × (w ≡ word ++ v) × Trace board n r c v × (length v ≤ suc left)

  abbrev pub IsFound : (left : ℕ) → (r c : ℤ) → List ℕ → Best → Type 0
  IsFound left r c word b = IsAchieved value (IsFrom left r c word) b × IsBound left r c word b.0

  IsFrom-onward :
      (left : ℕ) (r c i j : ℤ) (l : ℕ) (word w : List ℕ)
      → IsInside n r
      → IsInside n c
      → letter_at board r c ≡ done l
      → IsMove (i, j)
      → IsFrom left (r +ℤ i) (c +ℤ j) (word ++ l ∷ []) w
      → IsFrom (suc left) r c word w
  IsFrom-onward zero r c i j l word w row col letter move e =
      (l ∷ [], e, single r c l row col letter, omega arith)
  IsFrom-onward (suc left) r c i j l word w row col letter move (v, e, trace, le) = (
    l ∷ v,
    e ∙ append_assoc word (l ∷ []) v,
    onward r c i j l v row col letter move trace,
    omega (arith, le),
  )

  -- The rounds over the places that touch one.
  try_steps-best :
      (left : ℕ) (search : ℤ → ℤ → Run Best) (P : List ℕ → Type 0) (word : List ℕ) (r c : ℤ)
      (ds : List (ℤ × ℤ)) (best : Best)
      → AllMoves ds
      → ((i j : ℤ)
          → IsMove (i, j)
          → Returns
              (search (r +ℤ i) (c +ℤ j))
              (λ b. IsAchieved value P b × IsBound left (r +ℤ i) (c +ℤ j) word b.0))
      → IsAchieved value P best
      → Returns (try_steps search ds r c best) (λ b.
        IsAchieved value P b
        × (best.0 ≤ℤ b.0)
        × ((i j : ℤ) → IsIn (i, j) ds → IsBound left (r +ℤ i) (c +ℤ j) word b.0))
  unfolding try_steps
  try_steps-best left search P word r c [] best moves found best' =
      (best', omega arith, λ i j h. absurd h)
  try_steps-best left search P word r c ((i, j) ∷ ds) best moves found best' =
      Returns-bind _ _ (search (r +ℤ i) (c +ℤ j)) _ (found i j moves.0) (λ b (achieved, bound).
        Returns-mono _ _ (try_steps search ds r c (better best b))
          (try_steps-best left search P word r c ds (better best b) moves.1 found
            (better-IsAchieved value P best b best' achieved))
          (λ b' (achieved', le, bounds). (
            achieved',
            omega (arith, le, better-fst best b),
            λ i' j' at. elim at [
              | inl e ↦
                  subst (λ d. IsBound left (r +ℤ d.0) (c +ℤ d.1) word b'.0) (sym e)
                    (λ v trace le'. omega (arith, bound v trace le', le, better-fst best b))
              | inr at' ↦ bounds i' j' at'
            ],
          )))

  IsBound-zero : (r c : ℤ) (word : List ℕ) (x : ℤ) → IsBound 0 r c word x
  IsBound-zero r c word x v trace le = absurd (empty r c v trace le)
    where
      empty : (r c : ℤ) (v : List ℕ) → Trace board n r c v → length v ≤ 0 → ⊥
      empty r c v (single r' c' l' row col letter') le = omega (arith, le)
      empty r c v (onward r' c' i j l' w row col letter' move trace) le = omega (arith, le)

  IsBound-outside :
      (left : ℕ) (r c : ℤ) (word : List ℕ) (x : ℤ)
      → is_outside n r c ≡ true
      → IsBound left r c word x
  IsBound-outside left r c word x e v trace le =
      (let (row, col) = Trace-IsInside board n r c v trace in
        absurd (ground (arith, sym e ∙ is_outside-IsInside n r c row col)))

  -- No word behind a prefix without a score has one.
  IsBound-no_score :
      (left : ℕ) (r c : ℤ) (word : List ℕ) (l : ℕ)
      → letter_at board r c ≡ done l
      → value (word ++ l ∷ []) ≡ no_score
      → IsBound left r c word no_score
  IsBound-no_score left r c word l letter invalid v trace le =
      (let (w, e) = Trace-letter board n r c l v letter trace in
        let same : value (word ++ v) ≡ no_score =
          ap (λ x. value (word ++ x)) e
          ∙ ap value (sym (append_assoc word (l ∷ []) w))
          ∙ prefixes (word ++ l ∷ []) w (not_empty word l) invalid in
        rw same (omega arith))

  IsBound-onward :
      (left : ℕ) (r c : ℤ) (word : List ℕ) (l : ℕ) (x : ℤ)
      → letter_at board r c ≡ done l
      → value (word ++ l ∷ []) ≤ℤ x
      → ((i j : ℤ) → IsIn (i, j) steps → IsBound left (r +ℤ i) (c +ℤ j) (word ++ l ∷ []) x)
      → IsBound (suc left) r c word x
  IsBound-onward left r c word l x letter here bounds v (single r' c' l' row col letter') le =
      subst (λ y. value (word ++ y ∷ []) ≤ℤ x) (letter_unique board n l l' r c letter letter') here
  IsBound-onward left r c word l x letter here bounds v
        (onward r' c' i j l' w row col letter' move trace) le =
      subst (λ y. value (word ++ y ∷ w) ≤ℤ x) (letter_unique board n l l' r c letter letter')
        (subst (λ y. value y ≤ℤ x) (append_assoc word (l ∷ []) w)
          (bounds i j (IsIn-steps (i, j) move) w trace (omega (arith, le))))

  find_best_word_aux-inside :
      (left : ℕ) (r c : ℤ) (word : List ℕ) (l : ℕ)
      → IsInside n r
      → IsInside n c
      → letter_at board r c ≡ done l
      → IsLower (word ++ l ∷ [])
      → ((r c : ℤ)
          → IsNear n r
          → IsNear n c
          → Returns
              (find_best_word_aux score board n left r c (word ++ l ∷ []))
              (IsFound left r c (word ++ l ∷ [])))
      → Returns (find_best_word_aux score board n (suc left) r c word) (IsFound (suc left) r c word)
  find_best_word_aux-inside left r c word l row col letter lower found =
      rw (single-call value score scores board n left r c word l row col letter lower, Returns)
        (elim (Bool-cases (eqb_ℤ (value (word ++ l ∷ [])) no_score)) [
          | inl e ↦
              rw (e, Returns)
                (
                  refl,
                  IsBound-no_score (suc left) r c word l letter
                      ((eqb_ℤ_iff (value (word ++ l ∷ [])) no_score).0 e),
                )
          | inr e ↦
              rw (e, Returns)
                (Returns-mono _ _
                  (try_steps (λ r' c'. find_best_word_aux score board n left r' c' (word ++ l ∷ []))
                    steps r c (value (word ++ l ∷ []), some (word ++ l ∷ [])))
                  (try_steps-best left _ (IsFrom (suc left) r c word) (word ++ l ∷ []) r c steps _
                    steps-AllMoves
                    (λ i j move.
                      let (row', col') = IsNear-IsMove n r c i j row col move in
                      Returns-mono _ _
                        (find_best_word_aux score board n left (r +ℤ i) (c +ℤ j) (word ++ l ∷ []))
                        (found (r +ℤ i) (c +ℤ j) row' col')
                        (λ b (achieved, bound). (
                          IsAchieved-mono value _ (IsFrom (suc left) r c word) b
                              (λ w. IsFrom-onward left r c i j l word w row col letter move)
                              achieved,
                          bound,
                        )))
                    (
                      refl,
                      λ h.
                          ground (arith, sym e ∙ (eqb_ℤ_iff (value (word ++ l ∷ [])) no_score).1 h),
                      (l ∷ [], refl, single r c l row col letter, omega arith),
                    ))
                  (λ b (achieved, le, bounds).
                    (achieved, IsBound-onward left r c word l b.0 letter le bounds)))
        ])

  IsAchieved-full :
      (word : List ℕ)
      → IsAchieved value
          (λ w. w ≡ word)
          (value word, if eqb_ℤ (value word) no_score then none else some word)
  IsAchieved-full word = elim (Bool-cases (eqb_ℤ (value word) no_score)) [
    | inl e ↦ rw (e, if◌then◌else◌) ((eqb_ℤ_iff (value word) no_score).0 e)
    | inr e ↦
        rw (e, if◌then◌else◌)
          (refl, λ h. ground (arith, sym e ∙ (eqb_ℤ_iff (value word) no_score).1 h), refl)
  ]

  pub find_best_word_aux-best :
      (left : ℕ) (r c : ℤ) (word : List ℕ)
      → IsNear n r
      → IsNear n c
      → IsLower word
      → Returns (find_best_word_aux score board n left r c word) (IsFound left r c word)
  find_best_word_aux-best zero r c word row col lower = elim (Bool-cases (is_outside n r c)) [
    | inl e ↦
        rw (outside-call value score scores board n 0 r c word e, Returns)
          (refl, IsBound-zero r c word no_score)
    | inr e ↦
        rw (full-call value score scores board n r c word e lower, Returns)
          (IsAchieved-full word, IsBound-zero r c word (value word))
  ]
  find_best_word_aux-best (suc left) r c word row col lower = elim (Bool-cases (is_outside n r c)) [
    | inl e ↦
        rw (outside-call value score scores board n (suc left) r c word e, Returns)
          (refl, IsBound-outside (suc left) r c word no_score e)
    | inr e ↦
        let (row', col') = IsInside-is_outside n r c row col e in
        let (l, from, to, letter) = letter-IsFull board n r c full row' col' in
        let lower' = IsLower-append word l lower from to in
        find_best_word_aux-inside left r c word l row' col' letter lower' (λ r' c' near near'.
          find_best_word_aux-best left r' c' (word ++ l ∷ []) near near' lower')
  ]
